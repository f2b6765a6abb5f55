-- ===== src/Capture/Ring/Segments.antt =====
-- The stretch of a ring from one index to another, which wraps round at the end of the slots
-- (capture/src/ring_buffer.h).
use eye_d.Base.{
  ℕ, suc, ◌+◌, ◌<◌, ◌≡◌, refl, ◌∙◌, ◌⊎◌, inl, inr, List, [], ◌∷◌, ◌++◌, some, arith, ◌==◌,
  if◌then◌else◌, get_elem?, set, length, Bool-cases, get_elem?-set_ne,
}
use native.Mathlib.Nat.{mod_self, mod-eq_of_lt}
use eye_d.Capture.Ring.{next}

pub next_lem : (size h : ℕ) → h < size → next size h ≡ (if suc h == size then 0 else suc h)
unfolding next
next_lem size h lt = elim (Bool-cases (suc h == size)) [
  | inl e ↦ let e' : h + 1 ≡ size = ground arith in rw (e, e') (mod_self size)
  | inr e ↦
      let e' : h + 1 ≡ suc h = omega arith in
      rw (e, e') (mod-eq_of_lt {n = suc h} {m = size} (ground arith))
]

pub next_lt : (size h : ℕ) → h < size → next size h < size
next_lt size h lt = ground (arith, next_lem size h lt)

module _ {A : Type 0} (size : ℕ) where
  -- The ring from `t` on holds the values up to `h`, in their order.
  unfoldable pub Holds : List A → ℕ → List A → ℕ → Type 0
  Holds slots t [] h = t ≡ h
  Holds slots t (x ∷ xs) h = (get_elem? slots t ≡ some x) × Holds slots (next size t) xs h

  pub distance :
      (slots : List A) (t : ℕ) (xs : List A) (h : ℕ)
      → t < size
      → Holds slots t xs h
      → length xs < size
      → (t + length xs ≡ h) ⊎ (t + length xs ≡ h + size)
  unfolding Holds
  distance slots t [] h lt hold short = inl (omega (arith, hold))
  distance slots t (x ∷ xs) h lt hold short =
      let ih = distance slots (next size t) xs h (next_lt size t lt) hold.1 (omega arith) in
      ground (arith, next_lem size t lt, ih)

  pub Holds-set :
      (slots : List A) (t : ℕ) (xs : List A) (h : ℕ) (v : A)
      → t < size
      → Holds slots t xs h
      → length xs < size
      → Holds (set slots h v) t xs h
  unfolding Holds
  Holds-set slots t [] h v lt hold short = hold
  Holds-set slots t (x ∷ xs) h v lt hold short =
      let far = distance slots t (x ∷ xs) h lt hold short in
      (
        get_elem?-set_ne slots h t v (λ e. ground arith) ∙ hold.0,
        Holds-set slots (next size t) xs h v (next_lt size t lt) hold.1 (omega arith),
      )

  pub Holds-snoc :
      (slots : List A) (t : ℕ) (xs : List A) (h : ℕ) (v : A)
      → Holds slots t xs h
      → get_elem? slots h ≡ some v
      → Holds slots t (xs ++ (v ∷ [])) (next size h)
  unfolding Holds
  Holds-snoc slots t [] h v hold e = rw hold (e, refl)
  Holds-snoc slots t (x ∷ xs) h v hold e = (hold.0, Holds-snoc slots (next size t) xs h v hold.1 e)

-- ===== src/Engine/Reader.antt =====
-- The byte reader of iris-engine2/src/smpc2_nats_codec.cpp. A reader is the bytes from `pos_` on; a read
-- returns its value with the bytes behind it, or the message of its error.
use eye_d.Base.{
  ℕ, ◌<◌, ◌≡◌, refl, ◌⊎◌, inl, inr, List, [], ◌∷◌, ◌++◌, append_assoc, String, arith, length,
  length-append, ap,
}

-- Result<T>, with the message alone for an error.
pub data Result {ℓ} (A : Type ℓ) : Type ℓ where
  value : A → Result A
  failed : String → Result A

abbrev pub Reader : Type 0 → Type 0
Reader A = List ℕ → Result (A × List ℕ)

abbrev pub continue : {A B : Type 0} → Result (A × List ℕ) → (A → Reader B) → Result (B × List ℕ)
continue (failed e) k = failed e
continue (value (x, rest)) k = k x rest

-- One read after another; an error ends it.
abbrev pub and_then : {A B : Type 0} → Reader A → (A → Reader B) → Reader B
and_then r k bs = continue (r bs) k

abbrev pub pure : {A : Type 0} → A → Reader A
pure x bs = value (x, bs)

-- What the caller of the last read keeps: the bytes behind it are not looked at.
abbrev pub finish : {A : Type 0} → Result (A × List ℕ) → Result A
finish (failed e) = failed e
finish (value (x, rest)) = value x

abbrev pub Fails {ℓ} : {A : Type ℓ} → Result A → Type ℓ
Fails r = (e : String) × (r ≡ failed e)

-- The reader makes `x` of these bytes whatever comes behind them, and fails on any part that is cut
-- off before their end.
pub record Codes {A : Type 0} (r : Reader A) (x : A) (bs : List ℕ) : Type 0 where
  pub reads : (rest : List ℕ) → r (bs ++ rest) ≡ value (x, rest)
  pub rejects : (cut : List ℕ) (b : ℕ) (more : List ℕ) → bs ≡ cut ++ (b ∷ more) → Fails (r cut)

-- A cut through two parts goes through the first or through the second.
through :
    (xs ys cut : List ℕ) (b : ℕ) (more : List ℕ)
    → xs ++ ys ≡ cut ++ (b ∷ more)
    → ((c : ℕ) × (rest : List ℕ) × (xs ≡ cut ++ (c ∷ rest)))
      ⊎ ((part : List ℕ) × (cut ≡ xs ++ part) × (ys ≡ part ++ (b ∷ more)))
through [] ys cut b more e = inr (cut, refl, e)
through (x ∷ xs) ys [] b more e = inl (x, xs, refl)
through (x ∷ xs) ys (c ∷ cut) b more e = elim (through xs ys cut b more (cc e)) [
  | inl (d, rest, q) ↦ inl (d, rest, cc (e, q))
  | inr (part, q, p) ↦ inr (part, cc (e, q), p)
]

pub and_then-Codes :
    {A B : Type 0} {r : Reader A} (k : A → Reader B) {x : A} {y : B} {xs ys : List ℕ}
    → Codes r x xs
    → Codes (k x) y ys
    → Codes (and_then r k) y (xs ++ ys)
and_then-Codes {A} {B} {r} k {x} {y} {xs} {ys} c d = record {
  reads = λ rest. rw (append_assoc xs ys rest, c.reads (ys ++ rest)) (d.reads rest);
  rejects = λ cut b more e. elim (through xs ys cut b more e) [
    | inl (b', rest, q) ↦ let (m, f) = c.rejects cut b' rest q in (m, rw f)
    | inr (part, q, p) ↦ let (m, f) = d.rejects part b more p in (m, rw (q, c.reads part) f)
  ];
}

pub pure-Codes : {A : Type 0} (x : A) → Codes (pure x) x []
pure-Codes x = record {
  reads = λ rest. refl;
  rejects = λ cut b more e. absurd (omega (arith, ap length e, length-append cut (b ∷ more)));
}

-- A read of `n` bytes that checks first that they are there.
pub fixed-Codes :
    {A : Type 0} (r : Reader A) (x : A) (bs : List ℕ)
    → ((rest : List ℕ) → r (bs ++ rest) ≡ value (x, rest))
    → ((cut : List ℕ) → length cut < length bs → Fails (r cut))
    → Codes r x bs
fixed-Codes r x bs reads short = record {
  reads = reads;
  rejects = λ cut b more e. short cut (omega (arith, ap length e, length-append cut (b ∷ more)));
}

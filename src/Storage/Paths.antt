-- ===== src/Storage/Paths.antt =====
-- storage/src/archive_handler.cpp, `sanitize_path`. A std::string is the list of its bytes.
use eye_d.Base.{
  ℕ, ◌<◌, ◌≡◌, refl, ◌≢◌, Bool, true, false, ◌&&◌, ◌||◌, List, [], ◌∷◌, ◌++◌, append_assoc,
  append-nil, arith, ltb, ◌==◌, if◌then◌else◌, is_empty, Bool-cases, All, All-append, inl, inr, ◌⊎◌,
  sym, ◌∙◌,
}

pub is_unsafe : ℕ → Bool
is_unsafe c = c == b'/' || (c == b'\\' || (c == b':' || (ltb c 32 || c == 127)))

-- The loop over the bytes, with `out` and `prev_unsafe`.
collapse : List ℕ → Bool → List ℕ → List ℕ
collapse [] prev_unsafe out = out
collapse (c ∷ cs) prev_unsafe out =
    collapse cs (is_unsafe c)
      (if is_unsafe c then (if prev_unsafe then out else out ++ (b'_' ∷ [])) else out ++ (c ∷ []))

-- `out == "."`, `out == ".."`, and the check on its first two bytes.
is_dot : List ℕ → Bool
is_dot (c ∷ []) = c == b'.'
is_dot _ = false

is_dot_dot : List ℕ → Bool
is_dot_dot (c ∷ d ∷ []) = c == b'.' && d == b'.'
is_dot_dot _ = false

starts_dot_dot : List ℕ → Bool
starts_dot_dot (c ∷ d ∷ _) = c == b'.' && d == b'.'
starts_dot_dot _ = false

reject_dots : List ℕ → List ℕ
unfolding is_dot is_dot_dot starts_dot_dot
reject_dots out =
    if is_empty out
    then b'_' ∷ []
    else if is_dot out
    then b'_' ∷ []
    else if is_dot_dot out
    then b'_' ∷ []
    else if starts_dot_dot out
    then b'_' ∷ []
    else out

pub sanitize_path : List ℕ → List ℕ
unfolding collapse reject_dots
sanitize_path s = if is_empty s then b'_' ∷ [] else reject_dots (collapse s false [])

-- No separator, no drive colon, no control character.
abbrev pub IsSafe : ℕ → Type 0
IsSafe c = (c ≢ b'/') × (c ≢ b'\\') × (c ≢ b':') × (31 < c) × (c ≢ 127)

is_unsafe-IsSafe : (c : ℕ) → is_unsafe c ≡ false → IsSafe c
unfolding is_unsafe
is_unsafe-IsSafe c h =
    (λ e. ground arith, λ e. ground arith, λ e. ground arith, ground arith, λ e. ground arith)

IsSafe-is_unsafe : (c : ℕ) → IsSafe c → is_unsafe c ≡ false
unfolding is_unsafe
IsSafe-is_unsafe c h = ground arith

collapse-IsSafe :
    (cs : List ℕ) (p : Bool) (out : List ℕ) → All IsSafe out → All IsSafe (collapse cs p out)
unfolding collapse
collapse-IsSafe [] p out h = h
collapse-IsSafe (c ∷ cs) p out h = collapse-IsSafe cs _ _ (grown p (Bool-cases (is_unsafe c)))
  where
    grown :
        (p : Bool)
        → (is_unsafe c ≡ true) ⊎ (is_unsafe c ≡ false)
        → All IsSafe
            (if is_unsafe c then (if p then out else out ++ (b'_' ∷ [])) else out ++ (c ∷ []))
    grown true (inl e) = rw e h
    grown false (inl e) = rw e (All-append IsSafe out _ h (omega arith))
    grown p (inr e) = rw e (All-append IsSafe out _ h (is_unsafe-IsSafe c e, tt))

-- A name that may stand as one path component: safe bytes, at least one, and no `.` or `..` and
-- nothing that begins with `..`.
abbrev pub IsComponent : List ℕ → Type 0
IsComponent s =
    All IsSafe s × (s ≢ []) × (s ≢ b'.' ∷ []) × ((rest : List ℕ) → s ≢ b'.' ∷ b'.' ∷ rest)

underscore-IsComponent : IsComponent (b'_' ∷ [])
underscore-IsComponent = (omega arith, λ e. cc, λ e. absurd (ground arith), λ rest e. cc)

reject_dots-IsComponent : (out : List ℕ) → All IsSafe out → IsComponent (reject_dots out)
unfolding reject_dots
reject_dots-IsComponent [] h = underscore-IsComponent
reject_dots-IsComponent (c ∷ []) h = elim (Bool-cases (c == b'.')) [
  | inl e ↦ rw e underscore-IsComponent
  | inr e ↦ rw e (h, λ q. cc, λ q. absurd (ground arith), λ rest q. cc)
]
reject_dots-IsComponent (c ∷ d ∷ cs) h = elim (Bool-cases (c == b'.' && d == b'.')) [
  | inl e ↦ by_dots cs e
  | inr e ↦ kept cs e h
]
  where
    by_dots :
        (cs : List ℕ) → (c == b'.' && d == b'.') ≡ true → IsComponent (reject_dots (c ∷ d ∷ cs))
    by_dots [] e = rw e underscore-IsComponent
    by_dots (x ∷ cs) e = rw e underscore-IsComponent

    kept :
        (cs : List ℕ)
        → (c == b'.' && d == b'.') ≡ false
        → All IsSafe (c ∷ d ∷ cs)
        → IsComponent (reject_dots (c ∷ d ∷ cs))
    kept [] e h = rw e (h, λ q. cc, λ q. cc, λ rest q. absurd (ground arith))
    kept (x ∷ cs) e h = rw e (h, λ q. cc, λ q. cc, λ rest q. absurd (ground arith))

-- Whatever the input, the answer can stand as one path component.
pub sanitize_path-IsComponent : (s : List ℕ) → IsComponent (sanitize_path s)
unfolding sanitize_path
sanitize_path-IsComponent [] = underscore-IsComponent
sanitize_path-IsComponent (c ∷ cs) =
    reject_dots-IsComponent _ (collapse-IsSafe (c ∷ cs) false [] tt)

collapse_safe :
    (cs : List ℕ) (p : Bool) (out : List ℕ) → All IsSafe cs → collapse cs p out ≡ out ++ cs
unfolding collapse
collapse_safe [] p out h = sym (append-nil out)
collapse_safe (c ∷ cs) p out h =
    rw (IsSafe-is_unsafe c h.0)
      (collapse_safe cs false (out ++ (c ∷ [])) h.1 ∙ append_assoc out (c ∷ []) cs)

reject_dots_keeps : (s : List ℕ) → IsComponent s → reject_dots s ≡ s
unfolding reject_dots
reject_dots_keeps [] h = absurd (h.1 refl)
reject_dots_keeps (c ∷ []) h = elim (Bool-cases (c == b'.')) [
  | inl e ↦ absurd (h.2 (ground arith))
  | inr e ↦ rw e
]
reject_dots_keeps (c ∷ d ∷ []) h = ground (arith, h.3 [])
reject_dots_keeps (c ∷ d ∷ x ∷ cs) h = ground (arith, h.3 (x ∷ cs))

-- A name that can stand as a path component already is kept as it is.
pub sanitize_path_keeps : (s : List ℕ) → IsComponent s → sanitize_path s ≡ s
unfolding sanitize_path
sanitize_path_keeps [] h = absurd (h.1 refl)
sanitize_path_keeps (c ∷ cs) h =
    rw (collapse_safe (c ∷ cs) false [] h.0) (reject_dots_keeps (c ∷ cs) h)

-- ===== src/KeyService/Base64.antt =====
-- key-service/src/handlers.cpp, `Base64Decode`. The int `val` is taken as a 32-bit word that wraps round,
-- and `bits` is counted from 0 where the source counts from -8.
pub mod Encoder
use eye_d.Base.{
  ℕ, suc, ◌<◌, ◌≡◌, refl, ◌∙◌, sym, Bool, true, false, ◌&&◌, ◌||◌, not, List, [], ◌∷◌, ◌++◌, Option,
  none, some, arith, ◌==◌, if◌then◌else◌, Bool-cases, Option-cases, All, inl, inr,
}
use eye_d.Base.Bits.{passes, passes-lt}
use eye_d.Base64.{alphabet, letter, encoding, IsByte}
use eye_d.Base64.Decoding.{shift_in, bits_left, emitted, loop-encoding}

-- `kBase64Chars.find(c)`
unfoldable pub find_from : List ℕ → ℕ → ℕ → Option ℕ
find_from [] c i = none
find_from (x ∷ xs) c i = let rest = find_from xs c (suc i) in if x == c then some i else rest

unfoldable pub find_char : ℕ → Option ℕ
unfolding find_from
find_char c = find_from alphabet c 0

unfoldable pub is_skipped : ℕ → Bool
is_skipped c = c == b'=' || (c == 10 || c == 13)

decode_loop : List ℕ → ℕ → ℕ → List ℕ → List ℕ
decode_loop [] val bits result = result
decode_loop (c ∷ cs) val bits result = elim (is_skipped c) [
  | true ↦ decode_loop cs val bits result
  | false ↦ elim (find_char c) [
    | none ↦ decode_loop cs val bits result
    | some v ↦
        decode_loop cs (shift_in val v) (bits_left bits) (emitted (shift_in val v) bits result)
  ]
]

pub decode : List ℕ → List ℕ
unfolding decode_loop
decode encoded = decode_loop encoded 0 0 []

module _ (c : ℕ) (cs : List ℕ) (val bits : ℕ) (result : List ℕ) where
  on_skipped :
      is_skipped c ≡ true → decode_loop (c ∷ cs) val bits result ≡ decode_loop cs val bits result
  unfolding decode_loop
  on_skipped s = rw (s, decode_loop)

  module _ (s : is_skipped c ≡ false) where
    on_unknown :
        find_char c ≡ none → decode_loop (c ∷ cs) val bits result ≡ decode_loop cs val bits result
    unfolding decode_loop
    on_unknown t = rw (s, t, decode_loop)

    on_value :
        (v : ℕ)
        → find_char c ≡ some v
        → decode_loop (c ∷ cs) val bits result
          ≡ decode_loop cs (shift_in val v) (bits_left bits) (emitted (shift_in val v) bits result)
    unfolding decode_loop
    on_value v t = rw (s, t, decode_loop)

letter_is_found : ℕ → Bool
unfolding is_skipped find_char letter
letter_is_found v =
    not (is_skipped (letter v)) && elim (find_char (letter v)) [ none ↦ false | some w ↦ w == v ]

letters_are_found : passes letter_is_found 64 ≡ true
unfolding passes letter_is_found
letters_are_found = refl

find_char-letter :
    (v : ℕ) → v < 64 → (is_skipped (letter v) ≡ false) × (find_char (letter v) ≡ some v)
find_char-letter v h =
    split (is_skipped (letter v)) (find_char (letter v))
      (unfold letter_is_found in passes-lt letter_is_found 64 letters_are_found v h)
  where
    split :
        (s : Bool) (o : Option ℕ)
        → (not s && elim o [ none ↦ false | some w ↦ w == v ]) ≡ true
        → (s ≡ false) × (o ≡ some v)
    split s o e = ground arith

decode_loop-letter :
    (v : ℕ) (cs : List ℕ) (val bits : ℕ) (result : List ℕ)
    → v < 64
    → decode_loop (letter v ∷ cs) val bits result
      ≡ decode_loop cs (shift_in val v) (bits_left bits) (emitted (shift_in val v) bits result)
decode_loop-letter v cs val bits result h =
    let (s, t) = find_char-letter v h in on_value (letter v) cs val bits result s v t

decode_loop-encoding :
    (xs result : List ℕ) → All IsByte xs → decode_loop (encoding xs) 0 0 result ≡ result ++ xs
unfolding decode_loop is_skipped
decode_loop-encoding xs result h =
    loop-encoding decode_loop decode_loop-letter (λ val bits out. refl) (λ val bits out. refl)
      (λ val bits out. refl) xs 0 result h

-- The characters that are in the alphabet.
unfoldable pub letters_of : List ℕ → List ℕ
letters_of [] = []
letters_of (c ∷ cs) =
    if is_skipped c
    then letters_of cs
    else elim (find_char c) [ none ↦ letters_of cs | some v ↦ c ∷ letters_of cs ]

decode_loop-letters_of :
    (s : List ℕ) (val bits : ℕ) (result : List ℕ)
    → decode_loop (letters_of s) val bits result ≡ decode_loop s val bits result
unfolding letters_of
decode_loop-letters_of [] val bits result = refl
decode_loop-letters_of (c ∷ cs) val bits result = elim (Bool-cases (is_skipped c)) [
  | inl e ↦ rw (e, on_skipped c cs val bits result e) (decode_loop-letters_of cs val bits result)
  | inr e ↦ elim (Option-cases (find_char c)) [
    | inl t ↦
        rw (e, t, on_unknown c cs val bits result e t) (decode_loop-letters_of cs val bits result)
    | inr (v, t) ↦
        rw (e, t)
          (on_value c _ val bits result e v t
            ∙ decode_loop-letters_of cs _ _ _
            ∙ sym (on_value c cs val bits result e v t))
  ]
]

-- The key service decodes the RFC 4648 encoding of any bytes to those bytes, and whatever else stands in a
-- text, padding included, does not count: the answer is that for the letters alone.
pub decode-encoding :
    (xs s : List ℕ) → All IsByte xs → letters_of s ≡ letters_of (encoding xs) → decode s ≡ xs
unfolding decode
decode-encoding xs s h e =
    sym (decode_loop-letters_of s 0 0 [])
    ∙ rw e (decode_loop-letters_of (encoding xs) 0 0 [])
    ∙ decode_loop-encoding xs [] h

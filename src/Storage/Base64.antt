-- ===== src/Storage/Base64.antt =====
-- storage/src/archive_handler.cpp, `base64_decode`. A std::string is the list of its bytes.
use eye_d.Base.{
  ℕ, ◌+◌, ◌-◌, ◌<◌, ◌≡◌, refl, ◌∙◌, Bool, true, false, ◌&&◌, ◌||◌, not, List, [], ◌∷◌, ◌++◌, Option,
  none, some, arith, leb, ◌==◌, if◌then◌else◌, Bool-cases, Option-cases, All, ◌≢◌, ◌⊎◌, inl, inr,
  sym,
}
use eye_d.Base.Bits.{passes, passes-lt}
use eye_d.Base64.{letter, encoding, IsByte}
use eye_d.Base64.Decoding.{shift_in, bits_left, emitted, loop-encoding}
use eye_d.Gateway.Base64.{base64_encode, base64_encode-encoding}

-- kBase64Table: `none` is the -1 that the table is filled with.
unfoldable pub base64_table : ℕ → Option ℕ
base64_table c =
    if leb b'A' c && leb c b'Z'
    then some (c - b'A')
    else if leb b'a' c && leb c b'z'
    then some (26 + (c - b'a'))
    else if leb b'0' c && leb c b'9'
    then some (52 + (c - b'0'))
    else if c == b'+'
    then some 62
    else if c == b'/'
    then some 63
    else none

unfoldable pub is_mime_space : ℕ → Bool
is_mime_space c = c == 13 || (c == 10 || c == b' ')

-- The loop over the characters: `buf` is a uint32_t, `bits` counts those not yet written.
decode_loop : List ℕ → ℕ → ℕ → List ℕ → List ℕ
decode_loop [] buf bits out = out
decode_loop (c ∷ cs) buf bits out = elim (is_mime_space c) [
  | true ↦ decode_loop cs buf bits out
  | false ↦ elim (c == b'=') [
    | true ↦ out
    | false ↦ elim (base64_table c) [
      | none ↦ []
      | some val ↦
          decode_loop cs (shift_in buf val) (bits_left bits) (emitted (shift_in buf val) bits out)
    ]
  ]
]

pub base64_decode : List ℕ → List ℕ
unfolding decode_loop
base64_decode [] = []
base64_decode (c ∷ cs) = decode_loop (c ∷ cs) 0 0 []

-- One round of the loop, by what the character is.
module _ (c : ℕ) (cs : List ℕ) (buf bits : ℕ) (out : List ℕ) where
  on_space :
      is_mime_space c ≡ true → decode_loop (c ∷ cs) buf bits out ≡ decode_loop cs buf bits out
  unfolding decode_loop
  on_space s = rw (s, decode_loop)

  module _ (s : is_mime_space c ≡ false) where
    on_padding : (c == b'=') ≡ true → decode_loop (c ∷ cs) buf bits out ≡ out
    unfolding decode_loop
    on_padding p = rw (s, p, decode_loop)

    module _ (p : (c == b'=') ≡ false) where
      on_invalid : base64_table c ≡ none → decode_loop (c ∷ cs) buf bits out ≡ []
      unfolding decode_loop
      on_invalid t = rw (s, p, t, decode_loop)

      on_value :
          (v : ℕ)
          → base64_table c ≡ some v
          → decode_loop (c ∷ cs) buf bits out
            ≡ decode_loop cs (shift_in buf v) (bits_left bits) (emitted (shift_in buf v) bits out)
      unfolding decode_loop
      on_value v t = rw (s, p, t, decode_loop)

letter_reads : ℕ → Bool
unfolding is_mime_space base64_table letter
letter_reads v =
    not (is_mime_space (letter v))
    && (not (letter v == b'=') && elim (base64_table (letter v)) [ none ↦ false | some w ↦ w == v ])

letters_read : passes letter_reads 64 ≡ true
unfolding passes letter_reads
letters_read = refl

base64_table-letter :
    (v : ℕ)
    → v < 64
    → (is_mime_space (letter v) ≡ false)
      × ((letter v == b'=') ≡ false)
      × (base64_table (letter v) ≡ some v)
base64_table-letter v h =
    split (is_mime_space (letter v)) (letter v == b'=') (base64_table (letter v))
      (unfold letter_reads in passes-lt letter_reads 64 letters_read v h)
  where
    split :
        (s p : Bool) (o : Option ℕ)
        → (not s && (not p && elim o [ none ↦ false | some w ↦ w == v ])) ≡ true
        → (s ≡ false) × (p ≡ false) × (o ≡ some v)
    split s p o e = ground arith

decode_loop-letter :
    (v : ℕ) (cs : List ℕ) (buf bits : ℕ) (out : List ℕ)
    → v < 64
    → decode_loop (letter v ∷ cs) buf bits out
      ≡ decode_loop cs (shift_in buf v) (bits_left bits) (emitted (shift_in buf v) bits out)
decode_loop-letter v cs buf bits out h =
    let (s, p, t) = base64_table-letter v h in on_value (letter v) cs buf bits out s p v t

decode_loop-encoding :
    (xs out : List ℕ) → All IsByte xs → decode_loop (encoding xs) 0 0 out ≡ out ++ xs
unfolding decode_loop is_mime_space
decode_loop-encoding xs out h =
    loop-encoding decode_loop decode_loop-letter (λ buf bits out. refl) (λ buf bits out. refl)
      (λ buf bits out. refl) xs 0 out h

base64_decode-loop : (s : List ℕ) → base64_decode s ≡ decode_loop s 0 0 []
unfolding base64_decode decode_loop
base64_decode-loop [] = refl
base64_decode-loop (c ∷ cs) = refl

pub base64_decode-nil : base64_decode [] ≡ []
unfolding base64_decode
base64_decode-nil = refl

-- Any bytes that the gateway encodes, the storage service decodes to the same bytes.
pub base64_decode-base64_encode :
    (xs : List ℕ) → All IsByte xs → base64_decode (base64_encode xs) ≡ xs
base64_decode-base64_encode xs h =
    base64_decode-loop (base64_encode xs)
    ∙ rw (base64_encode-encoding xs h) (decode_loop-encoding xs [] h)

pub strip : List ℕ → List ℕ
strip [] = []
strip (c ∷ cs) = if is_mime_space c then strip cs else c ∷ strip cs

decode_loop-strip :
    (s : List ℕ) (buf bits : ℕ) (out : List ℕ)
    → decode_loop (strip s) buf bits out ≡ decode_loop s buf bits out
unfolding strip
decode_loop-strip [] buf bits out = refl
decode_loop-strip (c ∷ cs) buf bits out = elim (Bool-cases (is_mime_space c)) [
  | inl e ↦ rw (e, on_space c cs buf bits out e) (decode_loop-strip cs buf bits out)
  | inr e ↦ rw e (elim (Bool-cases (c == b'=')) [
    | inl p ↦ on_padding c _ buf bits out e p ∙ sym (on_padding c cs buf bits out e p)
    | inr p ↦ elim (Option-cases (base64_table c)) [
      | inl t ↦ on_invalid c _ buf bits out e p t ∙ sym (on_invalid c cs buf bits out e p t)
      | inr (v, t) ↦
          on_value c _ buf bits out e p v t
          ∙ decode_loop-strip cs _ _ _
          ∙ sym (on_value c cs buf bits out e p v t)
    ]
  ])
]

-- Line ends and blanks in the text change nothing, wherever they stand: the answer is that for the
-- text without them.
pub base64_decode-strip : (s : List ℕ) → base64_decode (strip s) ≡ base64_decode s
base64_decode-strip s =
    base64_decode-loop (strip s) ∙ decode_loop-strip s 0 0 [] ∙ sym (base64_decode-loop s)

-- A character that the table has, or that is skipped.
abbrev pub Readable : ℕ → Type 0
Readable c =
    (is_mime_space c ≡ true)
    ⊎ ((is_mime_space c ≡ false) × ((c == b'=') ≡ false) × ((v : ℕ) × (base64_table c ≡ some v)))

-- Neither skipped, nor padding, nor in the table.
abbrev pub Invalid : ℕ → Type 0
Invalid c = (is_mime_space c ≡ false) × (c ≢ b'=') × (base64_table c ≡ none)

decode_loop_rejects :
    (pre : List ℕ) (c : ℕ) (rest : List ℕ) (buf bits : ℕ) (out : List ℕ)
    → All Readable pre
    → Invalid c
    → decode_loop (pre ++ (c ∷ rest)) buf bits out ≡ []
decode_loop_rejects [] c rest buf bits out h bad =
    on_invalid c rest buf bits out bad.0 (ground arith) bad.2
decode_loop_rejects (x ∷ pre) c rest buf bits out (inl e, h) bad =
    on_space x _ buf bits out e ∙ decode_loop_rejects pre c rest buf bits out h bad
decode_loop_rejects (x ∷ pre) c rest buf bits out (inr (e, p, (v, t)), h) bad =
    on_value x _ buf bits out e p v t ∙ decode_loop_rejects pre c rest _ _ _ h bad

-- An invalid character ahead of any padding empties the answer, whatever was decoded before it.
pub base64_decode_rejects :
    (pre : List ℕ) (c : ℕ) (rest : List ℕ)
    → All Readable pre
    → Invalid c
    → base64_decode (pre ++ (c ∷ rest)) ≡ []
base64_decode_rejects pre c rest h bad =
    base64_decode-loop (pre ++ (c ∷ rest)) ∙ decode_loop_rejects pre c rest 0 0 [] h bad

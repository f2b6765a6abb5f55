-- ===== src/Base64/Decoding.antt =====
-- What a decoder that shifts six bits a letter into a 32-bit buffer makes of an encoding.
use eye_d.Base.{
  ℕ, ◌+◌, ◌-◌, ◌*◌, ◌/◌, ◌%◌, ◌^◌, ◌<◌, ◌≡◌, ◌∙◌, sym, List, [], ◌∷◌, ◌++◌, append-nil,
  append_assoc, leb, if◌then◌else◌, arith, All, ap,
}
use eye_d.Base64.{letter, encoding, IsByte}

-- `buf = (buf << 6) | v` on 32 bits: the low six bits are free, so the `|` adds.
abbrev pub shift_in : ℕ → ℕ → ℕ
shift_in buf v = buf * 64 % 2 ^ 32 + v

-- With eight bits or more in hand the top eight go out as a byte.
abbrev pub bits_left : ℕ → ℕ
bits_left bits = if leb 8 (bits + 6) then bits + 6 - 8 else bits + 6

abbrev pub emitted : ℕ → ℕ → List ℕ → List ℕ
emitted buf bits out =
    if leb 8 (bits + 6) then out ++ (buf / 2 ^ (bits + 6 - 8) % 256 ∷ []) else out

-- A decoding loop: letters by the rule above, and the padding ends it or passes without effect.
module _ (loop : List ℕ → ℕ → ℕ → List ℕ → List ℕ)
    (on_letter : (v : ℕ) (cs : List ℕ) (buf bits : ℕ) (out : List ℕ)
      → v < 64
      → loop (letter v ∷ cs) buf bits out
        ≡ loop cs (shift_in buf v) (bits_left bits) (emitted (shift_in buf v) bits out))
    (on_end : (buf bits : ℕ) (out : List ℕ) → loop [] buf bits out ≡ out)
    (on_pad : (buf bits : ℕ) (out : List ℕ) → loop (b'=' ∷ []) buf bits out ≡ out)
    (on_pads : (buf bits : ℕ) (out : List ℕ) → loop (b'=' ∷ b'=' ∷ []) buf bits out ≡ out) where
  -- Two letters at the start of a group carry the first byte.
  two_letters :
      (v w a : ℕ) (cs : List ℕ) (buf : ℕ) (out : List ℕ)
      → v < 64
      → w < 64
      → v * 4 + w / 16 ≡ a
      → loop (letter v ∷ letter w ∷ cs) buf 0 out
        ≡ loop cs (shift_in (shift_in buf v) w) 4 (out ++ (a ∷ []))
  two_letters v w a cs buf out hv hw e =
      on_letter v _ buf 0 out hv
      ∙ on_letter w cs _ 6 out hw
      ∙ ap (λ (x : ℕ). loop cs (shift_in (shift_in buf v) w) 4 (out ++ (x ∷ []))) (omega arith)

  third_letter :
      (v w b : ℕ) (cs : List ℕ) (buf : ℕ) (out : List ℕ)
      → v < 64
      → w < 64
      → w % 16 * 16 + v / 4 ≡ b
      → loop (letter v ∷ cs) (shift_in buf w) 4 out
        ≡ loop cs (shift_in (shift_in buf w) v) 2 (out ++ (b ∷ []))
  third_letter v w b cs buf out hv hw e =
      on_letter v cs _ 4 out hv
      ∙ ap (λ (x : ℕ). loop cs (shift_in (shift_in buf w) v) 2 (out ++ (x ∷ []))) (omega arith)

  fourth_letter :
      (v w c : ℕ) (cs : List ℕ) (buf : ℕ) (out : List ℕ)
      → v < 64
      → w < 64
      → w % 4 * 64 + v ≡ c
      → loop (letter v ∷ cs) (shift_in buf w) 2 out
        ≡ loop cs (shift_in (shift_in buf w) v) 0 (out ++ (c ∷ []))
  fourth_letter v w c cs buf out hv hw e =
      on_letter v cs _ 2 out hv
      ∙ ap (λ (x : ℕ). loop cs (shift_in (shift_in buf w) v) 0 (out ++ (x ∷ []))) (omega arith)

  pub loop-encoding :
      (xs : List ℕ) (buf : ℕ) (out : List ℕ)
      → All IsByte xs
      → loop (encoding xs) buf 0 out ≡ out ++ xs
  unfolding encoding
  loop-encoding [] buf out h = on_end buf 0 out ∙ sym (append-nil out)
  loop-encoding (a ∷ []) buf out h =
      two_letters (a / 4) (a % 4 * 16) a _ buf out (omega arith) (omega arith) (omega arith)
      ∙ on_pads _ 4 _
  loop-encoding (a ∷ b ∷ []) buf out h =
      two_letters (a / 4) (a % 4 * 16 + b / 16) a _ buf out (omega arith) (omega arith)
        (omega arith)
      ∙ third_letter (b % 16 * 4) (a % 4 * 16 + b / 16) b _ _ _ (omega arith) (omega arith)
          (omega arith)
      ∙ on_pad _ 2 _
      ∙ append_assoc out (a ∷ []) (b ∷ [])
  loop-encoding (a ∷ b ∷ c ∷ rest) buf out h =
      two_letters (a / 4) (a % 4 * 16 + b / 16) a _ buf out (omega arith) (omega arith)
        (omega arith)
      ∙ third_letter (b % 16 * 4 + c / 64) (a % 4 * 16 + b / 16) b _ _ _ (omega arith) (omega arith)
          (omega arith)
      ∙ fourth_letter (c % 64) (b % 16 * 4 + c / 64) c _ _ _ (omega arith) (omega arith)
          (omega arith)
      ∙ loop-encoding rest _ _ h.1.1.1
      ∙ simp append_assoc

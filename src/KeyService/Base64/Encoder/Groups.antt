-- ===== src/KeyService/Base64/Encoder/Groups.antt =====
-- key-service/src/handlers.cpp, `Base64Encode`: three bytes at a time, beside the encoding of RFC 4648.
use eye_d.Base.{
  ℕ, ◌+◌, ◌*◌, ◌/◌, ◌%◌, ◌^◌, ◌<◌, ◌≡◌, refl, ◌∙◌, sym, ap, List, [], ◌∷◌, ◌++◌, append_assoc,
  append-nil, arith, length, length-append, All,
}
use eye_d.Base64.{letter, encoding, IsByte}
use eye_d.KeyService.Base64.Encoder.{drain, close, shift_byte, encode_bytes, encode}
use eye_d.KeyService.Base64.Encoder.Padding.{pad_full, length-snoc, close_two, close_four}

-- One byte at each of the three places in a group.
module _ (c : ℕ) (cs : List ℕ) (val : ℕ) (result : List ℕ) where
  first_byte :
      encode_bytes (c ∷ cs) val 0 result
      ≡ encode_bytes cs (shift_byte val c) 2 (result ++ (letter (shift_byte val c / 4 % 64) ∷ []))
  unfolding encode_bytes drain
  first_byte = refl

  second_byte :
      encode_bytes (c ∷ cs) val 2 result
      ≡ encode_bytes cs (shift_byte val c) 4 (result ++ (letter (shift_byte val c / 16 % 64) ∷ []))
  unfolding encode_bytes drain
  second_byte = refl

  third_byte :
      encode_bytes (c ∷ cs) val 4 result
      ≡ encode_bytes cs (shift_byte val c) 0 (
          (result ++ (letter (shift_byte val c / 64 % 64) ∷ []))
          ++ (letter (shift_byte val c / 1 % 64) ∷ []))
  unfolding encode_bytes drain
  third_byte = refl

-- What the low bits of the word are, whatever stood in it before.
module _ (val a b c : ℕ) (ha : a < 256) (hb : b < 256) (hc : c < 256) where
  low_one : shift_byte val a / 4 % 64 ≡ a / 4
  unfolding shift_byte
  low_one = omega (arith, ha)

  low_one_rest : shift_byte val a * 2 ^ 4 % 64 ≡ a % 4 * 16
  unfolding shift_byte
  low_one_rest = omega (arith, ha)

  low_two : shift_byte (shift_byte val a) b / 16 % 64 ≡ a % 4 * 16 + b / 16
  unfolding shift_byte
  low_two = omega (arith, ha, hb)

  low_two_rest : shift_byte val b * 2 ^ 2 % 64 ≡ b % 16 * 4
  unfolding shift_byte
  low_two_rest = omega (arith, hb)

  low_three : shift_byte (shift_byte val b) c / 64 % 64 ≡ b % 16 * 4 + c / 64
  unfolding shift_byte
  low_three = omega (arith, hb, hc)

  low_last : shift_byte val c / 1 % 64 ≡ c % 64
  unfolding shift_byte
  low_last = omega (arith, hc)

four_letters :
    (r : List ℕ) (w x y z : ℕ)
    → (((r ++ (w ∷ [])) ++ (x ∷ [])) ++ (y ∷ [])) ++ (z ∷ []) ≡ r ++ (w ∷ x ∷ y ∷ z ∷ [])
four_letters [] w x y z = refl
four_letters (v ∷ r) w x y z = ap (◌∷◌ v) (four_letters r w x y z)

two_letters :
    (r rest : List ℕ) (w x : ℕ) → ((r ++ (w ∷ [])) ++ (x ∷ [])) ++ rest ≡ r ++ (w ∷ x ∷ rest)
two_letters [] rest w x = refl
two_letters (v ∷ r) rest w x = ap (◌∷◌ v) (two_letters r rest w x)

encode_bytes-nil : (val bits : ℕ) (r : List ℕ) → encode_bytes [] val bits r ≡ close val bits r
unfolding encode_bytes
encode_bytes-nil val bits r = refl

module _ (val a b c : ℕ) (rest out : List ℕ) (ha : a < 256) (hb : b < 256) (hc : c < 256) where
  one_byte : length out % 4 ≡ 0 → encode_bytes (a ∷ []) val 0 out ≡ out ++ encoding (a ∷ [])
  unfolding encoding
  one_byte k =
      first_byte a [] val out
      ∙ encode_bytes-nil _ 2 _
      ∙ close_two _ _ (rw (length-snoc out (letter (shift_byte val a / 4 % 64))) (omega (arith, k)))
      ∙ append_assoc out _ _
      ∙ rw (low_one val a b c ha hb hc, low_one_rest val a b c ha hb hc) refl

  two_bytes :
      length out % 4 ≡ 0 → encode_bytes (a ∷ b ∷ []) val 0 out ≡ out ++ encoding (a ∷ b ∷ [])
  unfolding encoding
  two_bytes k =
      first_byte a _ val out
      ∙ second_byte b [] _ _
      ∙ encode_bytes-nil _ 4 _
      ∙ close_four _ _ (
          rw
            (
              length-snoc _ (letter (shift_byte (shift_byte val a) b / 16 % 64)),
              length-snoc out (letter (shift_byte val a / 4 % 64)),
            )
            (omega (arith, k)))
      ∙ rw
          (
            low_one val a b c ha hb hc,
            low_two val a b c ha hb hc,
            low_two_rest (shift_byte val a) a b c ha hb hc,
          )
          (two_letters out _ _ _)

  three_bytes :
      encode_bytes (a ∷ b ∷ c ∷ rest) val 0 out
      ≡ encode_bytes rest (shift_byte (shift_byte (shift_byte val a) b) c) 0 (
          out
          ++ (letter (a / 4)
              ∷ letter (a % 4 * 16 + b / 16)
              ∷ letter (b % 16 * 4 + c / 64)
              ∷ letter (c % 64)
              ∷ []))
  three_bytes =
      first_byte a _ val out
      ∙ second_byte b _ _ _
      ∙ third_byte c _ _ _
      ∙ rw
          (
            low_one val a b c ha hb hc,
            low_two val a b c ha hb hc,
            low_three (shift_byte val a) a b c ha hb hc,
            low_last (shift_byte (shift_byte val a) b) a b c ha hb hc,
          )
          (ap (encode_bytes rest _ 0) (four_letters out _ _ _ _))

encode_bytes-encoding :
    (xs : List ℕ) (val : ℕ) (out : List ℕ)
    → All IsByte xs
    → length out % 4 ≡ 0
    → encode_bytes xs val 0 out ≡ out ++ encoding xs
unfolding encoding
encode_bytes-encoding [] val out h k =
    encode_bytes-nil val 0 out ∙ unfold close in pad_full 3 out k ∙ sym (append-nil out)
encode_bytes-encoding (a ∷ []) val out (ha, _) k = one_byte val a a a [] out ha ha ha k
encode_bytes-encoding (a ∷ b ∷ []) val out (ha, (hb, _)) k = two_bytes val a b b [] out ha hb hb k
encode_bytes-encoding (a ∷ b ∷ c ∷ rest) val out (ha, (hb, (hc, hr))) k =
    three_bytes val a b c rest out ha hb hc
    ∙ encode_bytes-encoding rest _ _ hr (rw (length-append out _) (omega (arith, k)))
    ∙ append_assoc out _ _

-- For any bytes the encoder gives their RFC 4648 encoding, the padding included, although the word it
-- shifts them into wraps round.
pub encode-encoding : (xs : List ℕ) → All IsByte xs → encode xs ≡ encoding xs
unfolding encode
encode-encoding xs h = encode_bytes-encoding xs 0 [] h refl

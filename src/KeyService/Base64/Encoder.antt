-- ===== src/KeyService/Base64/Encoder.antt =====
-- key-service/src/handlers.cpp, `Base64Encode`. The int `val` is taken as a 32-bit word that wraps round,
-- and `bits` is counted from 0 where the source counts from -6.
pub mod Padding
pub mod Groups
use eye_d.Base.{
  ℕ, zero, suc, ◌+◌, ◌-◌, ◌*◌, ◌/◌, ◌%◌, ◌^◌, ◌<◌, ◌≡◌, refl, ◌∙◌, sym, ap, false, List, [], ◌∷◌,
  ◌++◌, append_assoc, append-nil, arith, ◌==◌, if◌then◌else◌, leb, length, length-append, All,
}
use eye_d.Base64.{letter, encoding, IsByte}

-- The inner loop, which takes six bits a round; two rounds are the most that 13 bits need.
unfoldable pub drain : ℕ → ℕ → ℕ → List ℕ → ℕ × List ℕ
drain zero val bits result = (bits, result)
drain (suc fuel) val bits result =
    let rest = drain fuel val (bits - 6) (result ++ (letter (val / 2 ^ (bits - 6) % 64) ∷ [])) in
    if leb 6 bits then rest else (bits, result)

-- What stands behind the loop: the bits that are left, and padding to a multiple of four.
unfoldable pub pad : ℕ → List ℕ → List ℕ
pad zero result = result
pad (suc fuel) result =
    let rest = pad fuel (result ++ (b'=' ∷ [])) in if length result % 4 == 0 then result else rest

unfoldable pub close : ℕ → ℕ → List ℕ → List ℕ
unfolding pad
close val bits result =
    if bits == 0 then pad 3 result else pad 3 (result ++ (letter (val * 2 ^ (6 - bits) % 64) ∷ []))

-- `val = (val << 8) + c`
unfoldable pub shift_byte : ℕ → ℕ → ℕ
shift_byte val c = (val * 256 + c) % 2 ^ 32

unfoldable pub encode_bytes : List ℕ → ℕ → ℕ → List ℕ → List ℕ
unfolding drain close
encode_bytes [] val bits result = close val bits result
encode_bytes (c ∷ cs) val bits result =
    let (bits₁, result₁) = drain 2 (shift_byte val c) (bits + 8) result in
    encode_bytes cs (shift_byte val c) bits₁ result₁

unfoldable pub encode : List ℕ → List ℕ
unfolding encode_bytes
encode bytes = encode_bytes bytes 0 0 []

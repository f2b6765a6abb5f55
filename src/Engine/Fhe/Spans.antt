-- ===== src/Engine/Fhe/Spans.antt =====
-- Where FHEManager::deserialize_encrypted (iris-engine2/src/fhe.cpp) looks for the encrypted templates
-- of a blob.
use eye_d.Base.{
  ℕ, ◌+◌, ◌/◌, ◌^◌, ◌≤◌, ◌<◌, ◌≡◌, refl, zero, suc, List, [], ◌∷◌, ◌++◌, none, some, arith, length,
  drop, All,
}
use eye_d.Engine.Fhe.{Library, to_bytes, from_bytes, next_span}

unfoldable pub IsByte : ℕ → Type 0
IsByte b = b < 256

from_bytes_lt : (n : ℕ) (bs : List ℕ) → All IsByte bs → from_bytes n bs < 256 ^ n
unfolding from_bytes IsByte
from_bytes_lt zero bs h = omega arith
from_bytes_lt (suc n) [] h = let rest = from_bytes_lt n [] h in ground (arith, rest)
from_bytes_lt (suc n) (b ∷ bs) h = let rest = from_bytes_lt n bs h.1 in ground (arith, rest)

pub from_bytes-to_bytes :
    (n v : ℕ) (rest : List ℕ) → v < 256 ^ n → from_bytes n (to_bytes n v ++ rest) ≡ v
unfolding from_bytes to_bytes
from_bytes-to_bytes zero v rest h = omega (arith, h)
from_bytes-to_bytes (suc n) v rest h =
    let less : v / 256 < 256 ^ n = omega (arith, h) in
    rw (from_bytes-to_bytes n (v / 256) rest less) (omega arith)

pub length-to_bytes : (n v : ℕ) → length (to_bytes n v) ≡ n
unfolding to_bytes
length-to_bytes zero v = refl
length-to_bytes (suc n) v = omega (arith, length-to_bytes n (v / 256))

All-drop : (n : ℕ) (bs : List ℕ) → All IsByte bs → All IsByte (drop n bs)
All-drop zero bs h = h
All-drop (suc n) [] h = h
All-drop (suc n) (b ∷ bs) h = All-drop n bs h.1

-- Where the next template of the blob starts and ends, when neither end is reduced.
abbrev pub size_at : List ℕ → ℕ → ℕ
size_at bytes offset = from_bytes 8 (drop offset bytes)

module _ {X K E B D F : Type 0} (lib : Library X K E B D F) where
  -- At any offset of a blob of bytes with room for a size: a template that ends in the blob is taken; one
  -- that ends behind it is refused as long as its end is below 2 ^ 64; and one whose end is 2 ^ 64 or more
  -- is taken although it ends behind the blob, since the sum in the check wraps around.
  pub next_span_cases :
      (bytes : List ℕ) (offset : ℕ)
      → All IsByte bytes
      → length bytes < 2 ^ 64
      → offset + 8 ≤ length bytes
      → (offset + 8 + size_at bytes offset ≤ length bytes
          → next_span lib bytes offset ≡ some (offset + 8, size_at bytes offset))
        × (length bytes < offset + 8 + size_at bytes offset
            → offset + 8 + size_at bytes offset < 2 ^ 64
            → next_span lib bytes offset ≡ none)
        × (2 ^ 64 ≤ offset + 8 + size_at bytes offset
            → next_span lib bytes offset ≡ some (offset + 8, size_at bytes offset))
  unfolding next_span
  next_span_cases bytes offset all small room =
      let below = from_bytes_lt 8 (drop offset bytes) (All-drop offset bytes all) in
      (λ h. ground arith, λ h k. ground arith, λ h. ground (arith, below))

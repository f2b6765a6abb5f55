-- ===== src/Base64.antt =====
-- Base64 as RFC 4648 has it, the common ground of the three codecs in this repository: the gateway's
-- encoder, the storage service's decoder, and the key service's encoder and decoder.
pub mod Decoding
use eye_d.Base.{
  ℕ, suc, ◌+◌, ◌*◌, ◌/◌, ◌%◌, ◌<◌, ◌≡◌, refl, List, [], ◌∷◌, ◌++◌, codes, get_or, length, arith,
  All,
}

-- The alphabet, in the order of its values.
abbrev pub alphabet : List ℕ
alphabet = codes "ABCDEFGHIJKLMNOPQRSTUVWXYZabcdefghijklmnopqrstuvwxyz0123456789+/"

-- The character of a value below 64.
unfoldable pub letter : ℕ → ℕ
letter v = get_or alphabet v 0

abbrev pub IsByte : ℕ → Type 0
IsByte b = b < 256

-- Three bytes as four letters; a rest of one or two bytes is padded with `=`.
unfoldable pub encoding : List ℕ → List ℕ
encoding [] = []
encoding (a ∷ []) = letter (a / 4) ∷ letter (a % 4 * 16) ∷ b'=' ∷ b'=' ∷ []
encoding (a ∷ b ∷ []) =
    letter (a / 4) ∷ letter (a % 4 * 16 + b / 16) ∷ letter (b % 16 * 4) ∷ b'=' ∷ []
encoding (a ∷ b ∷ c ∷ rest) =
    letter (a / 4)
    ∷ letter (a % 4 * 16 + b / 16)
    ∷ letter (b % 16 * 4 + c / 64)
    ∷ letter (c % 64)
    ∷ encoding rest

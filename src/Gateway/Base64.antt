-- ===== src/Gateway/Base64.antt =====
-- gateway/src/grpc_server.cpp, `base64_encode`. A std::string is the list of its bytes.
use Prim.Native.Nat.{bit_and}
use eye_d.Base.{
  ℕ, ◌+◌, ◌*◌, ◌/◌, ◌%◌, ◌<◌, ◌≡◌, refl, sym, ◌∙◌, List, [], ◌∷◌, ◌++◌, append_assoc, append-nil,
  codes, get_or, arith, All, ==_iff, ◌==◌, true,
}
use eye_d.Base.Bits.{passes, passes-lt}
use eye_d.Base64.{letter, encoding, IsByte}

abbrev base64_chars : List ℕ
base64_chars = codes "ABCDEFGHIJKLMNOPQRSTUVWXYZabcdefghijklmnopqrstuvwxyz0123456789+/"

-- The four indices of char_array_4, from the bytes of char_array_3.
abbrev first_index : ℕ → ℕ
first_index a = bit_and a 0xfc / 4

abbrev second_index : ℕ → ℕ → ℕ
second_index a b = bit_and a 0x03 * 16 + bit_and b 0xf0 / 16

abbrev third_index : ℕ → ℕ → ℕ
third_index b c = bit_and b 0x0f * 4 + bit_and c 0xc0 / 64

abbrev fourth_index : ℕ → ℕ
fourth_index c = bit_and c 0x3f

char_at_index : ℕ → ℕ
char_at_index i = get_or base64_chars i 0

-- After the loop `i` bytes are left over: the array is filled up with zeros, `i + 1` characters go
-- out, and `=` for each byte that is missing.
finish : List ℕ → List ℕ → List ℕ
unfolding char_at_index
finish (a ∷ []) ret =
    ret ++ (char_at_index (first_index a) ∷ char_at_index (second_index a 0) ∷ b'=' ∷ b'=' ∷ [])
finish (a ∷ b ∷ []) ret =
    ret
    ++ (char_at_index (first_index a)
        ∷ char_at_index (second_index a b)
        ∷ char_at_index (third_index b 0)
        ∷ b'='
        ∷ [])
finish _ ret = ret

-- The `while` loop: the list before the input holds the `i` bytes of char_array_3.
encode_loop : List ℕ → List ℕ → List ℕ → List ℕ
unfolding finish char_at_index
encode_loop pending [] ret = finish pending ret
encode_loop (a ∷ b ∷ pending) (c ∷ input) ret = encode_loop [] input (
    ret
    ++ (char_at_index (first_index a)
        ∷ char_at_index (second_index a b)
        ∷ char_at_index (third_index b c)
        ∷ char_at_index (fourth_index c)
        ∷ []))
encode_loop (a ∷ []) (b ∷ input) ret = encode_loop (a ∷ b ∷ []) input ret
encode_loop [] (a ∷ input) ret = encode_loop (a ∷ []) input ret

pub base64_encode : List ℕ → List ℕ
unfolding encode_loop
base64_encode input = encode_loop [] input []

abbrev Agree : (ℕ → ℕ) → (ℕ → ℕ) → ℕ → Type 0
Agree f g n = (x : ℕ) → x < n → f x ≡ g x

by_table : (f g : ℕ → ℕ) (n : ℕ) → passes (λ x. f x == g x) n ≡ true → Agree f g n
by_table f g n h x lt = (==_iff (f x) (g x)).0 (passes-lt (λ x. f x == g x) n h x lt)

high_six : Agree first_index (λ a. a / 4) 256
unfolding passes
high_six = by_table _ _ 256 refl

low_two : Agree (λ a. bit_and a 0x03) (λ a. a % 4) 256
unfolding passes
low_two = by_table _ _ 256 refl

high_four : Agree (λ b. bit_and b 0xf0 / 16) (λ b. b / 16) 256
unfolding passes
high_four = by_table _ _ 256 refl

low_four : Agree (λ b. bit_and b 0x0f) (λ b. b % 16) 256
unfolding passes
low_four = by_table _ _ 256 refl

high_two : Agree (λ c. bit_and c 0xc0 / 64) (λ c. c / 64) 256
unfolding passes
high_two = by_table _ _ 256 refl

low_six : Agree fourth_index (λ c. c % 64) 256
unfolding passes
low_six = by_table _ _ 256 refl

second_index_lem : (a b : ℕ) → IsByte a → IsByte b → second_index a b ≡ a % 4 * 16 + b / 16
second_index_lem a b ha hb = omega (arith, low_two a ha, high_four b hb)

second_index-zero : (a : ℕ) → IsByte a → second_index a 0 ≡ a % 4 * 16
second_index-zero a ha = omega (arith, second_index_lem a 0 ha (omega arith))

third_index_lem : (b c : ℕ) → IsByte b → IsByte c → third_index b c ≡ b % 16 * 4 + c / 64
third_index_lem b c hb hc = omega (arith, low_four b hb, high_two c hc)

third_index-zero : (b : ℕ) → IsByte b → third_index b 0 ≡ b % 16 * 4
third_index-zero b hb = omega (arith, third_index_lem b 0 hb (omega arith))

encode_loop-encoding :
    (xs ret : List ℕ) → All IsByte xs → encode_loop [] xs ret ≡ ret ++ encoding xs
unfolding encode_loop encoding letter
encode_loop-encoding [] ret h = sym (append-nil ret)
encode_loop-encoding (a ∷ []) ret h = rw (high_six a h.0, second_index-zero a h.0)
encode_loop-encoding (a ∷ b ∷ []) ret h =
    rw (high_six a h.0, second_index_lem a b h.0 h.1.0, third_index-zero b h.1.0)
encode_loop-encoding (a ∷ b ∷ c ∷ rest) ret h =
    encode_loop-encoding rest _ h.1.1.1
    ∙ rw
        (
          high_six a h.0,
          second_index_lem a b h.0 h.1.0,
          third_index_lem b c h.1.0 h.1.1.0,
          low_six c h.1.1.0,
        )
        (append_assoc ret _ (encoding rest))

-- On every byte string the gateway's encoder writes the RFC 4648 encoding.
pub base64_encode-encoding : (xs : List ℕ) → All IsByte xs → base64_encode xs ≡ encoding xs
unfolding base64_encode
base64_encode-encoding xs h = encode_loop-encoding xs [] h

-- ===== src/KeyService/Base64/Encoder/Padding.antt =====
-- key-service/src/handlers.cpp, `Base64Encode`: what the encoder writes behind its loop.
use eye_d.Base.{
  ℕ, zero, suc, ◌*◌, ◌%◌, ◌^◌, ◌≡◌, refl, ◌∙◌, false, List, [], ◌∷◌, ◌++◌, append_assoc, arith,
  ◌==◌, length, length-append,
}
use eye_d.Base64.{letter}
use eye_d.KeyService.Base64.Encoder.{pad, close}

pub pad_full : (fuel : ℕ) (r : List ℕ) → length r % 4 ≡ 0 → pad fuel r ≡ r
unfolding pad
pad_full zero r h = refl
pad_full (suc fuel) r h = rw (h, pad) refl

pad_short :
    (fuel : ℕ) (r : List ℕ)
    → (length r % 4 == 0) ≡ false
    → pad (suc fuel) r ≡ pad fuel (r ++ (b'=' ∷ []))
unfolding pad
pad_short fuel r h = rw (h, pad) refl

pad_one : (r : List ℕ) → length r % 4 ≡ 3 → pad 3 r ≡ r ++ (b'=' ∷ [])
pad_one r h =
    pad_short 2 r (rw h refl) ∙ pad_full 2 _ (rw (length-append r (b'=' ∷ [])) (omega (arith, h)))

pad_two : (r : List ℕ) → length r % 4 ≡ 2 → pad 3 r ≡ r ++ (b'=' ∷ b'=' ∷ [])
pad_two r h =
    pad_short 2 r (rw h refl)
    ∙ pad_one' (r ++ (b'=' ∷ [])) (rw (length-append r (b'=' ∷ [])) (omega (arith, h)))
    ∙ append_assoc r (b'=' ∷ []) (b'=' ∷ [])
  where
    pad_one' : (r : List ℕ) → length r % 4 ≡ 3 → pad 2 r ≡ r ++ (b'=' ∷ [])
    pad_one' r h =
        pad_short 1 r (rw h refl)
        ∙ pad_full 1 _ (rw (length-append r (b'=' ∷ [])) (omega (arith, h)))

pub length-snoc : (r : List ℕ) (x : ℕ) → length (r ++ (x ∷ [])) ≡ suc (length r)
length-snoc r x = rw (length-append r (x ∷ [])) (omega arith)

pub close_two :
    (val : ℕ) (r : List ℕ)
    → length r % 4 ≡ 1
    → close val 2 r ≡ r ++ (letter (val * 2 ^ 4 % 64) ∷ b'=' ∷ b'=' ∷ [])
unfolding close
close_two val r h =
    pad_two (r ++ _) (rw (length-snoc r (letter (val * 2 ^ 4 % 64))) (omega (arith, h)))
    ∙ append_assoc r _ _

pub close_four :
    (val : ℕ) (r : List ℕ)
    → length r % 4 ≡ 2
    → close val 4 r ≡ r ++ (letter (val * 2 ^ 2 % 64) ∷ b'=' ∷ [])
unfolding close
close_four val r h =
    pad_one (r ++ _) (rw (length-snoc r (letter (val * 2 ^ 2 % 64))) (omega (arith, h)))
    ∙ append_assoc r _ _

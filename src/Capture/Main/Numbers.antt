-- ===== src/Capture/Main/Numbers.antt =====
-- How capture_thread (capture/src/main.cpp) numbers its frames.
use eye_d.Base.{
  ℕ, ◌+◌, ◌-◌, ◌≤◌, get_elem?, suc, ◌%◌, ◌^◌, ◌<◌, ◌≡◌, inl, inr, Bool, List, [], ◌∷◌, some, arith,
  length, All, All-imp, subst, Bool-cases,
}
use eye_d.Capture.Main.{Frame, Shot, lost_camera, blank, shot, capture_loop, capture_thread}

module _ {I : Type 0} where
  -- The images that the camera brings before it fails, if it does.
  abbrev pub images : List (Shot I × Bool) → List (I × ℕ)
  images [] = []
  images ((lost_camera, room) ∷ later) = []
  images ((blank, room) ∷ later) = images later
  images ((shot image ts, room) ∷ later) = (image, ts) ∷ images later

  abbrev IsImage : ℕ → List (I × ℕ) → Frame I → Type 0
  IsImage base xs f =
      (base ≤ f.frame_id) × (get_elem? xs (f.frame_id - base) ≡ some (f.image, f.timestamp_us))

  -- The numbers of the frames rise from the bound on.
  abbrev pub Rising : ℕ → List (Frame I) → Type 0
  Rising n [] = Unit {0}
  Rising n (f ∷ fs) = (n ≤ f.frame_id) × Rising (f.frame_id + 1) fs

  Rising-weaken : (m n : ℕ) (fs : List (Frame I)) → m ≤ n → Rising n fs → Rising m fs
  Rising-weaken m n [] h r = tt
  Rising-weaken m n (f ∷ fs) h r = (omega arith, r.1)

  IsImage-next :
      (base : ℕ) (x : I × ℕ) (xs : List (I × ℕ)) (fs : List (Frame I))
      → All (IsImage (base + 1) xs) fs
      → All (IsImage base (x ∷ xs)) fs
  IsImage-next base x xs [] h = tt
  IsImage-next base x xs (f ∷ fs) h =
      let e : f.frame_id - base ≡ suc (f.frame_id - (base + 1)) = omega (arith, h.0.0) in
      ((omega (arith, h.0.0), rw e h.0.1), IsImage-next base x xs fs h.1)

  capture_loop_lem :
      (base : ℕ) (shots : List (Shot I × Bool))
      → base + length (images shots) < 2 ^ 32
      → let (pushed, dropped) = capture_loop base shots in
        All (IsImage base (images shots)) pushed
        × All (IsImage base (images shots)) dropped
        × Rising base pushed
        × Rising base dropped
        × (length pushed + length dropped ≡ length (images shots))
  unfolding capture_loop
  capture_loop_lem base [] small = (tt, tt, tt, tt, omega arith)
  capture_loop_lem base ((lost_camera, room) ∷ later) small = (tt, tt, tt, tt, omega arith)
  capture_loop_lem base ((blank, room) ∷ later) small = capture_loop_lem base later small
  capture_loop_lem base ((shot image ts, room) ∷ later) small =
      let wrap : (base + 1) % 2 ^ 32 ≡ base + 1 = omega (arith, small) in
      let ih = capture_loop_lem (base + 1) later (omega (arith, small)) in
      let first : IsImage base ((image, ts) ∷ images later)
          (record { image = image; frame_id = base; timestamp_us = ts }) =
        (omega arith, ground arith) in
      let kept = IsImage-next base (image, ts) (images later) _ ih.0 in
      let missed = IsImage-next base (image, ts) (images later) _ ih.1 in
      elim (Bool-cases room) [
        | inl e ↦
            rw (wrap, e)
              (
                (first, kept),
                missed,
                (omega arith, ih.2),
                Rising-weaken base (base + 1) _ (omega arith) ih.3,
                omega (arith, ih.4),
              )
        | inr e ↦
            rw (wrap, e)
              (
                kept,
                (first, missed),
                Rising-weaken base (base + 1) _ (omega arith) ih.2,
                (omega arith, ih.3),
                omega (arith, ih.4),
              )
      ]

  -- Of fewer than 2 ^ 32 images, each one goes into the buffer or is dropped; a frame of either kind is
  -- the image whose number it carries, counted from 0 without the blank ones, and the numbers rise.
  pub capture_thread_lem :
      (shots : List (Shot I × Bool))
      → length (images shots) < 2 ^ 32
      → let (pushed, dropped) = capture_thread shots in
        All (λ f. get_elem? (images shots) f.frame_id ≡ some (f.image, f.timestamp_us)) pushed
        × All (λ f. get_elem? (images shots) f.frame_id ≡ some (f.image, f.timestamp_us)) dropped
        × Rising 0 pushed
        × Rising 0 dropped
        × (length pushed + length dropped ≡ length (images shots))
  unfolding capture_thread
  capture_thread_lem shots small =
      let lem = capture_loop_lem 0 shots (omega (arith, small)) in
      let counted : (f : Frame I)
          → IsImage 0 (images shots) f
          → get_elem? (images shots) f.frame_id ≡ some (f.image, f.timestamp_us) =
        λ f h.
          subst (λ n. get_elem? (images shots) n ≡ some (f.image, f.timestamp_us)) (omega arith)
            h.1 in
      (All-imp _ counted _ lem.0, All-imp _ counted _ lem.1, lem.2, lem.3, lem.4)

-- ===== src/Capture/Camera/Cycle.antt =====
-- capture/src/camera.cpp under the calls of capture_thread in capture/src/main.cpp: the cycle through a
-- directory of images, and the rate of the frames.
use eye_d.Base.{
  ℕ, zero, suc, ◌+◌, ◌-◌, ◌*◌, ◌%◌, ◌≤◌, ◌<◌, ◌≡◌, refl, sym, ◌∙◌, ◌≢◌, ap, Bool, true, false, not,
  List, [], ◌∷◌, Option, none, some, codes, if◌then◌else◌, arith, is_empty, length, get_or,
  get_elem?,
}
use native.Mathlib.Nat.{mod-add-mod, add-mod-mod, add-mod_right, mod-lt, mod-eq_of_lt}
use eye_d.Base.Eq.{same_bytes}
use eye_d.Capture.Main.{Shot, shot, blank, lost_camera}
use eye_d.Capture.Camera.{
  Text, Camera, DirectoryEntry, Moment, make_camera, load_directory_images, is_available, NextFrame,
  wait_until_due, on_read, capture_from_directory, next_frame,
}

-- How capture_thread takes what next_frame brings.
unfoldable pub shot_of : {I : Type 0} → NextFrame I → Shot I
shot_of f =
    if not f.ok then lost_camera else elim f.out [ none ↦ blank | some image ↦ shot image f.ts ]

module _ {I : Type 0} (to_gray : I → I) where
  -- One call of next_frame for each moment, with the time at which it leaves the wait.
  unfoldable pub shots : List (Moment I) → Camera → List (Shot I × ℕ) × Camera
  unfolding shot_of next_frame
  shots [] c = ([], c)
  shots (m ∷ ms) c =
      let (f, c₁) = next_frame to_gray m none 0 c in
      let (fs, c₂) = shots ms c₁ in ((shot_of f, c₁.last_frame_time) ∷ fs, c₂)

-- What a file of the directory gives.
unfoldable pub shot_of_file : {I : Type 0} → Moment I → Text → Shot I
shot_of_file m path = elim (m.imread path) [ none ↦ blank | some image ↦ shot image m.wall ]

-- The camera is one of a directory with images and stands at one of them.
pub record IsCycling (c : Camera) : Type 0 where
  pub source : same_bytes c.source (codes "directory") ≡ true
  pub images : is_empty c.image_paths ≡ false
  pub index : c.dir_index < length c.image_paths

module _ {I : Type 0} (to_gray : I → I) where
  unfoldable stepped : Moment I → Camera → Camera
  unfolding wait_until_due
  stepped m c = record c {
    last_frame_time = wait_until_due to_gray m c;
    dir_index = (c.dir_index + 1) % length c.image_paths;
  }

  stepped-IsCycling : (m : Moment I) (c : Camera) → IsCycling c → IsCycling (stepped m c)
  unfolding stepped
  stepped-IsCycling m c h = record {
    source = h.source;
    images = h.images;
    index = mod-lt (c.dir_index + 1) (omega (arith, h.index));
  }

  next_frame-cycling :
      (m : Moment I) (c : Camera)
      → IsCycling c
      → next_frame to_gray m none 0 c
        ≡ (on_read to_gray m.wall 0 (m.imread (get_or c.image_paths c.dir_index [])), stepped m c)
  unfolding next_frame capture_from_directory stepped
  next_frame-cycling m c h = rw (h.source, h.images) refl

  shot_of-on_read :
      (m : Moment I) (path : Text)
      → shot_of (on_read to_gray m.wall 0 (m.imread path)) ≡ shot_of_file m path
  unfolding shot_of shot_of_file on_read
  shot_of-on_read m path = by_image (m.imread path)
    where
      by_image :
          (o : Option I)
          → shot_of (on_read to_gray m.wall 0 o)
            ≡ elim o [ none ↦ blank | some image ↦ shot image m.wall ]
      by_image none = refl
      by_image (some image) = refl

  shots-cons :
      (m : Moment I) (ms : List (Moment I)) (c : Camera)
      → IsCycling c
      → (shots to_gray (m ∷ ms) c).0
        ≡ (shot_of_file m (get_or c.image_paths c.dir_index []), wait_until_due to_gray m c)
          ∷ (shots to_gray ms (stepped m c)).0
  unfolding shots stepped
  shots-cons m ms c h =
      ap (λ r. (shot_of r.0, r.1.last_frame_time) ∷ (shots to_gray ms r.1).0)
        (next_frame-cycling m c h)
      ∙ ap (λ s. (s, wait_until_due to_gray m c) ∷ (shots to_gray ms (stepped m c)).0)
          (shot_of-on_read m (get_or c.image_paths c.dir_index []))

  -- The file that the call number `k` reads.
  abbrev pub path_at : Camera → ℕ → Text
  path_at c k = get_or c.image_paths ((c.dir_index + k) % length c.image_paths) []

  path_at-stepped :
      (m : Moment I) (c : Camera) (k : ℕ) → path_at (stepped m c) k ≡ path_at c (suc k)
  unfolding stepped
  path_at-stepped m c k =
      ap (λ i. get_or c.image_paths i [])
        (mod-add-mod (c.dir_index + 1) (length c.image_paths) k
          ∙ ap (λ i. i % length c.image_paths) (omega arith))

  path_at_first : (c : Camera) → IsCycling c → get_or c.image_paths c.dir_index [] ≡ path_at c 0
  path_at_first c h =
      ap (λ i. get_or c.image_paths i [])
        (sym (mod-eq_of_lt h.index) ∙ ap (λ i. i % length c.image_paths) (omega arith))

  first_elem : (m₀ m : Moment I) → some m₀ ≡ some m → m₀ ≡ m
  first_elem m₀ m e = cc

  shots-file :
      (ms : List (Moment I)) (c : Camera) (k : ℕ) (m : Moment I)
      → IsCycling c
      → get_elem? ms k ≡ some m
      → (time : ℕ) × (get_elem? (shots to_gray ms c).0 k
          ≡ some (shot_of_file m (path_at c k), time))
  shots-file [] c k m h e = cc
  shots-file (m₀ ∷ ms) c zero m h e = (
    wait_until_due to_gray m₀ c,
    rw (shots-cons m₀ ms c h, path_at_first c h)
        (ap (λ n. some (shot_of_file n (path_at c 0), wait_until_due to_gray m₀ c))
          (first_elem m₀ m e)),
  )
  shots-file (m₀ ∷ ms) c (suc k) m h e =
      let (time, q) = shots-file ms (stepped m₀ c) k m (stepped-IsCycling m₀ c h) e in
      (
        time,
        rw (shots-cons m₀ ms c h)
            (q ∙ ap (λ p. some (shot_of_file m p, time)) (path_at-stepped m₀ c k)),
      )

  covers :
      (c : Camera) (j : ℕ)
      → IsCycling c
      → j < length c.image_paths
      → (k : ℕ) × (k < length c.image_paths) × (path_at c k ≡ get_or c.image_paths j [])
  covers c j h l =
      let n = length c.image_paths in
      let k = (j + (n - c.dir_index)) % n in
      (
        k,
        mod-lt (j + (n - c.dir_index)) (omega (arith, l)),
        ap (λ i. get_or c.image_paths i [])
            (add-mod-mod c.dir_index (j + (n - c.dir_index)) n
              ∙ ap (λ i. i % n) (omega (arith, h.index))
              ∙ add-mod_right j n
              ∙ mod-eq_of_lt l),
      )

  -- The times of frames one behind the other, the first of them behind `last`.
  abbrev pub Spaced : ℕ → ℕ → List (Shot I × ℕ) → Type 0
  Spaced gap last [] = Unit
  Spaced gap last ((s, time) ∷ rest) = (last ≢ 0 → last + gap ≤ time) × Spaced gap time rest

  wait_until_due-ge :
      (m : Moment I) (c : Camera)
      → c.last_frame_time ≢ 0
      → c.last_frame_time + c.frame_interval_us * 1000 ≤ wait_until_due to_gray m c
  unfolding wait_until_due
  wait_until_due-ge m c ne = ground arith

  shots-nil : (c : Camera) → (shots to_gray [] c).0 ≡ []
  unfolding shots
  shots-nil c = refl

  shots-Spaced :
      (ms : List (Moment I)) (c : Camera)
      → IsCycling c
      → Spaced (c.frame_interval_us * 1000) c.last_frame_time (shots to_gray ms c).0
  unfolding stepped wait_until_due
  shots-Spaced [] c h = rw (shots-nil c) tt
  shots-Spaced (m ∷ ms) c h =
      rw (shots-cons m ms c h)
        (wait_until_due-ge m c, shots-Spaced ms (stepped m c) (stepped-IsCycling m c h))

  -- A camera that cycles through a directory of images never fails. The call number `k` reads the file that
  -- stands `k` places behind the first, counted round, and brings its image with the time of that moment,
  -- or a blank where the file does not read; as many calls as there are files read every file; and two
  -- frames one behind the other are at least the frame interval apart, however late the calls come.
  pub shots_lem :
      (ms : List (Moment I)) (c : Camera)
      → IsCycling c
      → ((k : ℕ) (m : Moment I)
          → get_elem? ms k ≡ some m
          → (time : ℕ) × (get_elem? (shots to_gray ms c).0 k
              ≡ some (shot_of_file m (path_at c k), time)))
        × ((j : ℕ)
            → j < length c.image_paths
            → (k : ℕ) × (k < length c.image_paths) × (path_at c k ≡ get_or c.image_paths j []))
        × Spaced (c.frame_interval_us * 1000) c.last_frame_time (shots to_gray ms c).0
  shots_lem ms c h = (λ k m e. shots-file ms c k m h e, λ j l. covers c j h l, shots-Spaced ms c h)

not_empty : (xs : List Text) → not (is_empty xs) ≡ true → (is_empty xs ≡ false) × (0 < length xs)
not_empty [] h = ground arith
not_empty (x ∷ xs) h = (refl, omega arith)

-- The camera that the constructor makes for a directory cycles as soon as it is available.
pub make_camera-IsCycling :
    (frame_rate_fps : ℕ) (es : List DirectoryEntry) (opens : Bool)
    → is_available (make_camera (codes "directory") frame_rate_fps es opens) ≡ true
    → IsCycling (make_camera (codes "directory") frame_rate_fps es opens)
unfolding is_available make_camera load_directory_images
make_camera-IsCycling frame_rate_fps es opens h =
    let (some_image, index) = not_empty _ h in
    record { source = refl; images = some_image; index = index }

-- ===== src/Tests/Camera.antt =====
-- The capture device's camera (capture/src/camera.cpp): theorems at concrete inputs.
use eye_d.Base.{
  ℕ, ◌*◌, ◌<◌, ◌≡◌, refl, true, false, List, [], ◌∷◌, none, some, codes, get_elem?, get_or, length,
  if◌then◌else◌,
}
use eye_d.Base.Eq.{same_bytes}
use eye_d.Capture.Camera.{Camera, DirectoryEntry, Moment, make_camera, is_available}
use eye_d.Capture.Camera.Cycle.{
  IsCycling, Spaced, path_at, shots, shot_of_file, shots_lem, make_camera-IsCycling,
}

abbrev folder : List DirectoryEntry
folder =
    record { is_regular_file = true; extension = codes ".PNG"; path = codes "b.PNG" }
    ∷ record { is_regular_file = true; extension = codes ".txt"; path = codes "c.txt" }
    ∷ record { is_regular_file = true; extension = codes ".jpg"; path = codes "a.jpg" }
    ∷ []

abbrev camera : Camera
camera = make_camera (codes "directory") 30 folder false

camera-IsCycling : IsCycling camera
unfolding is_available make_camera
camera-IsCycling = make_camera-IsCycling 30 folder false refl

-- The file b.PNG does not read.
abbrev moment : ℕ → Moment ℕ
moment now = record {
  now = now;
  delay = 5;
  wall = 1000;
  imread = λ path. if same_bytes path (codes "a.jpg") then some 7 else none;
  read = none;
}

abbrev moments : List (Moment ℕ)
moments = moment 10 ∷ moment 20 ∷ moment 100000000 ∷ []

abbrev gray : ℕ → ℕ
gray image = image

shots_lem_example :
    ((k : ℕ) (m : Moment ℕ)
      → get_elem? moments k ≡ some m
      → (time : ℕ) × (get_elem? (shots gray moments camera).0 k
          ≡ some (shot_of_file m (path_at gray camera k), time)))
    × ((j : ℕ)
        → j < length camera.image_paths
        → (k : ℕ) × (k < length camera.image_paths)
          × (path_at gray camera k ≡ get_or camera.image_paths j []))
    × Spaced gray
        (camera.frame_interval_us * 1000)
        camera.last_frame_time
        (shots gray moments camera).0
shots_lem_example = shots_lem gray moments camera camera-IsCycling

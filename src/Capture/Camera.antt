-- ===== src/Capture/Camera.antt =====
-- capture/src/camera.h and camera.cpp, the class Camera. OpenCV is a parameter: what reading a file and
-- what reading the webcam gives. The steady clock counts nanoseconds, with 0 for the default time point.
pub mod Cycle
use eye_d.Base.{
  ℕ, ◌+◌, ◌*◌, ◌/◌, ◌%◌, Bool, true, false, ◌&&◌, ◌||◌, not, List, [], ◌∷◌, ◌++◌, Option, none,
  some, codes, ltb, leb, ◌==◌, if◌then◌else◌, is_empty, length, get_or, map,
}
use eye_d.Base.Eq.{same_bytes}
use eye_d.Base.Texts.{sort_texts}

abbrev pub Text : Type 0
Text = List ℕ

-- The webcam's handle is what opening it gave.
pub record Camera : Type 0 where
  pub source : Text
  pub image_paths : List Text
  pub dir_index : ℕ
  pub last_frame_time : ℕ
  pub frame_interval_us : ℕ
  pub is_opened : Bool

-- An entry of the recursive iteration; the extension is that of its path.
pub record DirectoryEntry : Type 0 where
  pub is_regular_file : Bool
  pub extension : Text
  pub path : Text

unfoldable pub to_lower : ℕ → ℕ
to_lower c = if leb b'A' c && leb c b'Z' then c + 32 else c

unfoldable pub is_image : Text → Bool
unfolding to_lower
is_image extension =
    let ext = map to_lower extension in
    same_bytes ext (codes ".jpg")
    || same_bytes ext (codes ".jpeg")
    || same_bytes ext (codes ".bmp")
    || same_bytes ext (codes ".png")

unfoldable pub image_files : List DirectoryEntry → List Text
unfolding is_image
image_files [] = []
image_files (e ∷ es) =
    if e.is_regular_file && is_image e.extension then e.path ∷ image_files es else image_files es

unfoldable pub load_directory_images : List DirectoryEntry → Camera → Camera
unfolding image_files sort_texts
load_directory_images es c = record c { image_paths = sort_texts (c.image_paths ++ image_files es) }

-- The constructor; dividing by a rate of 0 is undefined in the source.
unfoldable pub make_camera : Text → ℕ → List DirectoryEntry → Bool → Camera
unfolding load_directory_images
make_camera source frame_rate_fps es opens =
    let c : Camera = record {
      source = source;
      image_paths = [];
      dir_index = 0;
      last_frame_time = 0;
      frame_interval_us = 1000000 / frame_rate_fps;
      is_opened = false;
    } in
    if same_bytes source (codes "directory")
    then load_directory_images es c
    else if same_bytes source (codes "webcam")
    then record c { is_opened = opens }
    else c

-- A webcam's frame.
pub record Picture (I : Type 0) : Type 0 where
  pub image : I
  pub channels : ℕ

-- What a call meets: the steady clock when it starts, how late the thread runs on behind the wait, the
-- system clock, the file system and the webcam. An image is none where OpenCV's is empty.
pub record Moment (I : Type 0) : Type 0 where
  pub now : ℕ
  pub delay : ℕ
  pub wall : ℕ
  pub imread : Text → Option I
  pub read : Option (Option (Picture I))

-- What a call returns, and leaves in its two arguments.
pub record NextFrame (I : Type 0) : Type 0 where
  pub ok : Bool
  pub out : Option I
  pub ts : ℕ

module _ {I : Type 0} (to_gray : I → I) where
  -- `sleep_until`, where a frame came before and the next is not yet due.
  unfoldable pub wait_until_due : Moment I → Camera → ℕ
  wait_until_due m c =
      let due = c.last_frame_time + c.frame_interval_us * 1000 in
      (if not (c.last_frame_time == 0) && ltb m.now due then due else m.now) + m.delay

  -- Behind `cv::imread`; the time stays as it was where the image is empty.
  unfoldable pub on_read : ℕ → ℕ → Option I → NextFrame I
  on_read wall ts none = record { ok = true; out = none; ts = ts }
  on_read wall ts (some image) = record { ok = true; out = some image; ts = wall }

  unfoldable pub capture_from_directory : Moment I → Option I → ℕ → Camera → NextFrame I × Camera
  unfolding wait_until_due on_read
  capture_from_directory m out ts c =
      if is_empty c.image_paths then (record { ok = false; out = out; ts = ts }, c) else (
        on_read m.wall ts (m.imread (get_or c.image_paths c.dir_index [])),
        record c {
          last_frame_time = wait_until_due m c;
          dir_index = (c.dir_index + 1) % length c.image_paths;
        },
      )

  unfoldable pub capture_from_webcam : Moment I → Option I → ℕ → Camera → NextFrame I
  capture_from_webcam m out ts c =
      if not c.is_opened then record { ok = false; out = out; ts = ts } else elim m.read [
        | none ↦ record { ok = false; out = out; ts = ts }
        | some none ↦ record { ok = true; out = out; ts = ts }
        | some (some frame) ↦ record {
          ok = true;
          out = some (if ltb 1 frame.channels then to_gray frame.image else frame.image);
          ts = m.wall;
        }
      ]

  unfoldable pub next_frame : Moment I → Option I → ℕ → Camera → NextFrame I × Camera
  unfolding capture_from_directory capture_from_webcam
  next_frame m out ts c =
      if same_bytes c.source (codes "directory")
      then capture_from_directory m out ts c
      else if same_bytes c.source (codes "webcam")
      then (capture_from_webcam m out ts c, c)
      else (record { ok = false; out = out; ts = ts }, c)

unfoldable pub is_available : Camera → Bool
is_available c =
    if same_bytes c.source (codes "directory")
    then not (is_empty c.image_paths)
    else if same_bytes c.source (codes "webcam")
    then c.is_opened
    else false

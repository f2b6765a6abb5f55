-- ===== src/Storage/Archive/Places.antt =====
-- The paths to which the archive handler (storage/src/archive_handler.cpp) writes, component by component.
use eye_d.Base.{
  ℕ, ◌≡◌, refl, ◌≢◌, true, false, ◌&&◌, Bool, [], ◌∷◌, ◌++◌, append_assoc, arith, ap, ◌∙◌, sym,
  subst, codes, if◌then◌else◌, ◌==◌,
}
use eye_d.Base.Assoc.{lookup}
use eye_d.Base.Eq.{bytes_Eq}
use eye_d.Storage.Paths.{IsComponent, IsSafe, sanitize_path, sanitize_path-IsComponent}
use eye_d.Storage.Dates.{is_digit, shape_of, has_date_shape, extract_date}
use eye_d.Storage.Store.{Bytes, FileSystem, Faults, put, put_frame}
use eye_d.Storage.Archive.{ParsedMessage, base_path, jpg_path, meta_path, write}

-- A file of the archive, under its root.
abbrev pub place : Bytes → Bytes → Bytes → Bytes
place date device name = codes "raw/" ++ (date ++ (codes "/" ++ (device ++ (codes "/" ++ name))))

place-append :
    (date device name ext : Bytes) → place date device name ++ ext ≡ place date device (name ++ ext)
place-append date device name ext =
    ap (λ r. codes "raw/" ++ r)
      (append_assoc date (codes "/" ++ (device ++ (codes "/" ++ name))) ext
        ∙ ap (λ r. date ++ (codes "/" ++ r)) (append_assoc device (codes "/" ++ name) ext))

pub base_path-place :
    (today ext : Bytes) (msg : ParsedMessage)
    → base_path today msg ++ ext
      ≡ place
          (extract_date msg.timestamp today)
          (sanitize_path msg.device_id)
          (sanitize_path msg.frame_id ++ ext)
unfolding base_path
base_path-place today ext msg = place-append _ _ _ ext

digit-IsSafe : (c : ℕ) → is_digit c ≡ true → IsSafe c × (c ≢ b'.')
unfolding is_digit
digit-IsSafe c h = (
  (λ e. ground arith, λ e. ground arith, λ e. ground arith, ground arith, λ e. ground arith),
  λ e. ground arith,
)

dash-IsSafe : (c : ℕ) → (c == b'-') ≡ true → IsSafe c
dash-IsSafe c h =
    (λ e. ground arith, λ e. ground arith, λ e. ground arith, ground arith, λ e. ground arith)

shape-IsComponent :
    (c0 c1 c2 c3 c4 c5 c6 c7 c8 c9 : ℕ)
    → shape_of c0 c1 c2 c3 c4 c5 c6 c7 c8 c9 ≡ true
    → IsComponent (c0 ∷ c1 ∷ c2 ∷ c3 ∷ c4 ∷ c5 ∷ c6 ∷ c7 ∷ c8 ∷ c9 ∷ [])
unfolding shape_of
shape-IsComponent c0 c1 c2 c3 c4 c5 c6 c7 c8 c9 h =
    let d : (is_digit c0 ≡ true)
        × (is_digit c1 ≡ true)
        × (is_digit c2 ≡ true)
        × (is_digit c3 ≡ true)
        × ((c4 == b'-') ≡ true)
        × (is_digit c5 ≡ true)
        × (is_digit c6 ≡ true)
        × ((c7 == b'-') ≡ true)
        × (is_digit c8 ≡ true)
        × (is_digit c9 ≡ true) =
      ground arith in
    (
      (
        (digit-IsSafe c0 d.0).0,
        (
          (digit-IsSafe c1 d.1).0,
          (
            (digit-IsSafe c2 d.2).0,
            (
              (digit-IsSafe c3 d.3).0,
              (
                dash-IsSafe c4 d.4,
                (
                  (digit-IsSafe c5 d.5).0,
                  (
                    (digit-IsSafe c6 d.6).0,
                    (dash-IsSafe c7 d.7, ((digit-IsSafe c8 d.8).0, ((digit-IsSafe c9 d.9).0, tt))),
                  ),
                ),
              ),
            ),
          ),
        ),
      ),
      λ e. cc,
      λ e. cc,
      λ rest e. (digit-IsSafe c0 d.0).1 (cc e),
    )

if-IsComponent :
    (long shaped ranged : Bool) (s today : Bytes)
    → (shaped ≡ true → IsComponent s)
    → IsComponent today
    → IsComponent (if long && (shaped && ranged) then s else today)
if-IsComponent false shaped ranged s today k h = h
if-IsComponent true false ranged s today k h = h
if-IsComponent true true false s today k h = h
if-IsComponent true true true s today k h = k refl

extract_date-IsComponent :
    (s today : Bytes) → IsComponent today → IsComponent (extract_date s today)
unfolding extract_date has_date_shape
extract_date-IsComponent (c0 ∷ c1 ∷ c2 ∷ c3 ∷ c4 ∷ c5 ∷ c6 ∷ c7 ∷ c8 ∷ c9 ∷ s) today h =
    if-IsComponent _ (shape_of c0 c1 c2 c3 c4 c5 c6 c7 c8 c9) _ _ today
      (shape-IsComponent c0 c1 c2 c3 c4 c5 c6 c7 c8 c9) h
extract_date-IsComponent s today h =
    let e : extract_date s today ≡ today = ground arith in subst IsComponent (sym e) h

-- Whatever a message holds, and whatever fails, where today's date is a name: `write` changes no file
-- but the two of one frame and their temporary files, at `raw/` with three path components below it that
-- are names, none of them `.` or `..` or with a separator in it.
pub write_inside :
    (f g : Faults) (today : Bytes) (msg : ParsedMessage) (fs : FileSystem)
    → IsComponent today
    → (date : Bytes) × (device : Bytes) × (frame : Bytes) × IsComponent date
      × IsComponent device
      × IsComponent frame
      × ((path : Bytes)
          → path ≢ place date device (frame ++ codes ".jpg")
          → path ≢ place date device (frame ++ codes ".jpg") ++ codes ".tmp"
          → path ≢ place date device (frame ++ codes ".meta.json")
          → path ≢ place date device (frame ++ codes ".meta.json") ++ codes ".tmp"
          → lookup path (write f g today msg fs).1 ≡ lookup path fs)
unfolding write
write_inside f g today msg fs h = (
  extract_date msg.timestamp today,
  sanitize_path msg.device_id,
  sanitize_path msg.frame_id,
  extract_date-IsComponent msg.timestamp today h,
  sanitize_path-IsComponent msg.device_id,
  sanitize_path-IsComponent msg.frame_id,
  λ path a b c d.
      let jpg = base_path-place today (codes ".jpg") msg in
      let meta = base_path-place today (codes ".meta.json") msg in
      let a' : path ≢ jpg_path today msg = λ e. a (e ∙ jpg) in
      let b' : path ≢ jpg_path today msg ++ codes ".tmp" =
        λ e. b (e ∙ ap (λ p. p ++ codes ".tmp") jpg) in
      let c' : path ≢ meta_path today msg = λ e. c (e ∙ meta) in
      let d' : path ≢ meta_path today msg ++ codes ".tmp" =
        λ e. d (e ∙ ap (λ p. p ++ codes ".tmp") meta) in
      let fs' = (put f (jpg_path today msg) msg.jpeg fs).1 in
      let first = put_frame f (jpg_path today msg) msg.jpeg path fs a' b' in
      let second = put_frame g (meta_path today msg) msg.metadata_json path fs' c' d' in
      let alone = put_frame g (meta_path today msg) msg.metadata_json path fs c' d' in ground arith,
)

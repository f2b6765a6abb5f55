-- ===== src/Tests/Storage.antt =====
-- The storage service (storage/src): theorems at concrete inputs.
use eye_d.Base.{
  ◌≡◌, refl, ◌≢◌, ◌↔◌, true, false, List, [], ◌∷◌, ◌++◌, arith, codes, length, String, Option, none,
  some, inr,
}
use eye_d.Base.Assoc.{lookup}
use eye_d.Base.Eq.{bytes_Eq}
use eye_d.Base.Int.{pos}
use eye_d.Base.Json.{Json, Fields, object, end, field}
use eye_d.Gateway.Base64.{base64_encode}
use eye_d.Storage.Base64.{
  base64_decode, is_mime_space, base64_table, Readable, Invalid, base64_decode-base64_encode,
}
use eye_d.Storage.Paths.{IsComponent, sanitize_path}
use eye_d.Base.Texts.{lex_lt}
use eye_d.Storage.Dates.{extract_date, Tm, is_digit, shape_of, has_date_shape, in_range, parse_date}
use eye_d.Storage.Dates.Order.{Before, lex_lt-Before}
use eye_d.Storage.Store.{Bytes, Works, Faults, FileSystem, put, put_atomic}
use eye_d.Storage.Archive.{ParsedMessage, ArchiveHandler, done, write, handle_message, bump}
use eye_d.Storage.Archive.Places.{place, write_inside}
use eye_d.Storage.Archive.Filing.{handle_message_files, filed_message}
use eye_d.Storage.Purger.{Entry, Purges, purge_once, total_size, purge_once-Purges}

base64_decode-base64_encode_example :
    base64_decode (base64_encode (255 ∷ 0 ∷ 16 ∷ 7 ∷ [])) ≡ 255 ∷ 0 ∷ 16 ∷ 7 ∷ []
base64_decode-base64_encode_example =
    base64_decode-base64_encode (255 ∷ 0 ∷ 16 ∷ 7 ∷ []) (omega arith)

a_is_Readable : Readable b'A'
unfolding is_mime_space base64_table
a_is_Readable = inr (refl, refl, (0, refl))

bang_is_Invalid : Invalid b'!'
unfolding is_mime_space base64_table
bang_is_Invalid = (refl, omega arith, refl)

abbrev day : Tm
day = record { tm_year = 124; tm_mon = 1; tm_mday = 29 }

abbrev next_day : Tm
next_day = record { tm_year = 124; tm_mon = 2; tm_mday = 1 }

day_parses : parse_date (codes "2024-02-29") ≡ some day
unfolding parse_date has_date_shape shape_of is_digit in_range
day_parses = refl

next_day_parses : parse_date (codes "2024-03-01") ≡ some next_day
unfolding parse_date has_date_shape shape_of is_digit in_range
next_day_parses = refl

lex_lt-Before_example :
    (lex_lt (codes "2024-02-29") (codes "2024-03-01") ≡ true) ↔ Before day next_day
lex_lt-Before_example =
    lex_lt-Before (codes "2024-02-29") (codes "2024-03-01") day next_day day_parses next_day_parses

abbrev no_faults : Faults
no_faults = record {
  mkdir_fails = false;
  open_fails = false;
  write_fails = false;
  flush_fails = false;
  rename_fails = false;
  kept = 2;
}

abbrev full_disk : Faults
full_disk = record no_faults { flush_fails = true }

abbrev no_files : FileSystem
no_files = []

put_atomic_example :
    (((put no_faults (codes "a.jpg") (1 ∷ 2 ∷ 3 ∷ []) no_files).0 ≡ true)
      → (lookup (codes "a.jpg") (put no_faults (codes "a.jpg") (1 ∷ 2 ∷ 3 ∷ []) no_files).1
          ≡ some (1 ∷ 2 ∷ 3 ∷ []))
        × (lookup (codes "a.jpg.tmp") (put no_faults (codes "a.jpg") (1 ∷ 2 ∷ 3 ∷ []) no_files).1
            ≡ none))
    × (((put no_faults (codes "a.jpg") (1 ∷ 2 ∷ 3 ∷ []) no_files).0 ≡ false)
        → lookup (codes "a.jpg") (put no_faults (codes "a.jpg") (1 ∷ 2 ∷ 3 ∷ []) no_files).1
          ≡ lookup (codes "a.jpg") no_files)
put_atomic_example = put_atomic no_faults (codes "a.jpg") (1 ∷ 2 ∷ 3 ∷ []) no_files refl

b_ne_a : codes "b.jpg" ≢ codes "a.jpg"
b_ne_a e = absurd (ground arith)

b_ne_tmp : codes "b.jpg" ≢ codes "a.jpg" ++ codes ".tmp"
b_ne_tmp e = absurd (ground arith)

abbrev raw_entry : String → Entry
raw_entry name = record {
  name = codes name;
  is_directory = true;
  tree = record { is_directory = false; file_size = some 100 } ∷ [];
  removable = true;
}

abbrev raw_dir : List Entry
raw_dir = raw_entry "2024-02-29" ∷ raw_entry "tmp" ∷ raw_entry "2024-03-01" ∷ []

purge_once-Purges_example :
    (gone : List Entry) × Purges next_day raw_dir
      (purge_once (pos 30) (codes "2024-03-01") true raw_dir).1
      gone
    × ((purge_once (pos 30) (codes "2024-03-01") true raw_dir).0
        ≡ record { dirs_removed = length gone; bytes_freed = total_size gone })
purge_once-Purges_example =
    purge_once-Purges 29 (codes "2024-03-01") next_day raw_dir next_day_parses

abbrev image : Bytes
image = 255 ∷ 216 ∷ 7 ∷ []

abbrev texts : Json → Fields
texts frame = field "frame_id" frame (
    field "device_id" (Json.text (codes "../cam")) (
      field "timestamp" (Json.text (codes "2024-02-29T08:00:00Z"))
        (field "raw_jpeg_b64" (Json.text (base64_encode image)) end)))

abbrev read_good : Bytes → Option Json
read_good content = some (object (texts (Json.text (codes "7"))))

abbrev read_bad : Bytes → Option Json
read_bad content = some (object (texts (Json.number (codes "7"))))

abbrev print : Json → Bytes
print j = codes "{}"

abbrev handler : ArchiveHandler
handler = record { store = no_files; archived = 4; errors = 2 }

no_faults-Works : Works no_faults
no_faults-Works = record {
  mkdir = refl;
  opens = refl;
  writes = refl;
  flushes = refl;
  renames = refl;
}

image_is_some : image ≢ []
image_is_some e = cc

abbrev filed : ParsedMessage
filed =
    filed_message read_good print (codes "x") (codes "7") (codes "../cam")
      (codes "2024-02-29T08:00:00Z") image (texts (Json.text (codes "7"))) refl refl refl refl refl
      (omega arith) image_is_some

handle_message_files_example :
    let at =
      place
        (extract_date (codes "2024-02-29T08:00:00Z") (codes "2026-01-01"))
        (sanitize_path (codes "../cam")) in
    (h' : ArchiveHandler) × (handle_message read_good print no_faults no_faults
        (codes "2026-01-01")
        (codes "x")
        handler
      ≡ done h')
    × (h'.archived ≡ bump 4)
    × (h'.errors ≡ 2)
    × (lookup (at (sanitize_path (codes "7") ++ codes ".jpg")) h'.store ≡ some image)
    × (lookup (at (sanitize_path (codes "7") ++ codes ".meta.json")) h'.store ≡ some (codes "{}"))
handle_message_files_example =
    handle_message_files read_good print (codes "x") (codes "7") (codes "../cam")
      (codes "2024-02-29T08:00:00Z") image (texts (Json.text (codes "7"))) refl refl refl refl refl
      (omega arith) image_is_some no_faults no_faults (codes "2026-01-01") handler no_faults-Works
      no_faults-Works

today-IsComponent : IsComponent (codes "2026-01-01")
today-IsComponent = (ground arith, λ e. cc, λ e. cc, λ rest e. absurd (ground arith))

write_inside_example :
    (date : Bytes) × (device : Bytes) × (frame : Bytes) × IsComponent date
    × IsComponent device
    × IsComponent frame
    × ((path : Bytes)
        → path ≢ place date device (frame ++ codes ".jpg")
        → path ≢ place date device (frame ++ codes ".jpg") ++ codes ".tmp"
        → path ≢ place date device (frame ++ codes ".meta.json")
        → path ≢ place date device (frame ++ codes ".meta.json") ++ codes ".tmp"
        → lookup path (write no_faults no_faults (codes "2026-01-01") filed no_files).1
          ≡ lookup path no_files)
write_inside_example =
    write_inside no_faults no_faults (codes "2026-01-01") filed no_files today-IsComponent

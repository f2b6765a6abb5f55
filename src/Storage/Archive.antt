-- ===== src/Storage/Archive.antt =====
-- storage/src/archive_handler.h and archive_handler.cpp, the class ArchiveHandler. The JSON library
-- is a parameter: `parse_json` is `none` where it throws, and `dump` prints a value.
pub mod Filing
pub mod Counts
pub mod Places
use eye_d.Base.{
  ℕ, ◌+◌, ◌%◌, ◌^◌, ◌≡◌, refl, Bool, true, false, List, [], ◌∷◌, ◌++◌, Option, none, some, arith,
  if◌then◌else◌, codes, is_empty,
}
use eye_d.Base.Json.{Json, Fields, null, object, find_field, erase_field, value_text}
use eye_d.Base.Json
use eye_d.Storage.Base64.{base64_decode}
use eye_d.Storage.Paths.{sanitize_path}
use eye_d.Storage.Dates.{extract_date}
use eye_d.Storage.Store.{Bytes, FileSystem, Faults, put}

pub record ParsedMessage : Type 0 where
  pub frame_id : Bytes
  pub device_id : Bytes
  pub timestamp : Bytes
  pub jpeg : Bytes
  pub has_jpeg : Bool
  pub metadata_json : Bytes

-- The counters are uint64_t; the store is the file system under its root.
pub record ArchiveHandler : Type 0 where
  pub store : FileSystem
  pub archived : ℕ
  pub errors : ℕ

-- `parse` returns false, returns true with the message, or lets an exception through.
pub data Parsed : Type 0 where
  good : ParsedMessage → Parsed
  malformed threw : Parsed

-- The part on `raw_jpeg_b64`: the bytes, if any, or `none` for corrupt base64.
jpeg_of : Option Json → Option Bytes
jpeg_of (some (Json.text b64)) =
    if is_empty b64
    then some []
    else if is_empty (base64_decode b64)
    then none
    else some (base64_decode b64)
jpeg_of _ = some []

message : Option Bytes → Option Bytes → Option Bytes → Option Bytes → Bytes → Parsed
message (some frame) (some device) (some time) (some jpeg) meta = good (record {
  frame_id = frame;
  device_id = device;
  timestamp = time;
  jpeg = jpeg;
  has_jpeg = if is_empty jpeg then false else true;
  metadata_json = meta;
})
message (some frame) (some device) (some time) none meta = malformed
message _ _ _ _ meta = threw

abbrev pub bump : ℕ → ℕ
bump n = (n + 1) % 2 ^ 64

-- `"raw/" + date + "/" + device + "/" + frame`
pub base_path : Bytes → ParsedMessage → Bytes
base_path today msg =
    codes "raw/"
    ++ (extract_date msg.timestamp today
        ++ (codes "/"
            ++ (sanitize_path msg.device_id ++ (codes "/" ++ sanitize_path msg.frame_id))))

abbrev pub jpg_path : Bytes → ParsedMessage → Bytes
jpg_path today msg = base_path today msg ++ codes ".jpg"

abbrev pub meta_path : Bytes → ParsedMessage → Bytes
meta_path today msg = base_path today msg ++ codes ".meta.json"

-- The two writes have faults of their own; the second is not tried if the first fails.
pub write : Faults → Faults → Bytes → ParsedMessage → FileSystem → Bool × FileSystem
write f g today msg fs =
    let (ok, fs') = if msg.has_jpeg then put f (jpg_path today msg) msg.jpeg fs else (true, fs) in
    if ok then put g (meta_path today msg) msg.metadata_json fs' else (false, fs')

pub data Outcome : Type 0 where
  done : ArchiveHandler → Outcome
  escaped : Outcome

module _ (parse_json : Bytes → Option Json) (dump : Json → Bytes) where
  fields_message : Fields → Parsed
  unfolding message jpeg_of
  fields_message fs =
      message (value_text fs "frame_id" (codes "unknown"))
        (value_text fs "device_id" (codes "unknown")) (value_text fs "timestamp" [])
        (jpeg_of (find_field "raw_jpeg_b64" fs)) (dump (object (erase_field "raw_jpeg_b64" fs)))

  parse_value : Option Json → Parsed
  unfolding fields_message
  parse_value (some (object fs)) = fields_message fs
  parse_value _ = malformed

  pub parse : Bytes → Parsed
  unfolding parse_value
  parse content = parse_value (parse_json content)

  written : ArchiveHandler → Bool × FileSystem → Outcome
  written h (ok, fs) =
      if ok
      then done (record h { store = fs; archived = bump h.archived })
      else done (record h { store = fs; errors = bump h.errors })

  handle_parsed : Faults → Faults → Bytes → ArchiveHandler → Parsed → Outcome
  unfolding written
  handle_parsed f g today h (good msg) = written h (write f g today msg h.store)
  handle_parsed f g today h malformed = done (record h { errors = bump h.errors })
  handle_parsed f g today h threw = escaped

  pub handle_message : Faults → Faults → Bytes → Bytes → ArchiveHandler → Outcome
  unfolding handle_parsed
  handle_message f g today content h = handle_parsed f g today h (parse content)

-- ===== src/Storage/Archive/Filing.antt =====
-- What the archive handler (storage/src/archive_handler.cpp) files where.
use eye_d.Base.{
  ◌≡◌, refl, ◌≢◌, Bool, true, false, [], ◌∷◌, ◌++◌, Option, some, arith, inl, inr, ap, sym, subst,
  length, length-append, All, is_empty, is_empty→eq, codes, Bool-cases, ◌∙◌,
}
use eye_d.Base.Assoc.{lookup}
use eye_d.Base.Eq.{bytes_Eq}
use eye_d.Base.Json.{Json, Fields, object, find_field, erase_field, value_text_found}
use eye_d.Base64.{IsByte}
use eye_d.Gateway.Base64.{base64_encode}
use eye_d.Storage.Base64.{base64_decode-base64_encode, base64_decode-nil}
use eye_d.Storage.Store.{Bytes, FileSystem, Faults, put, put_frame, put_atomic, Works, put_succeeds}
use eye_d.Storage.Paths.{sanitize_path}
use eye_d.Storage.Dates.{extract_date}
use eye_d.Storage.Archive.Places.{place, base_path-place}
use eye_d.Storage.Archive.{
  ParsedMessage, ArchiveHandler, good, done, bump, base_path, jpg_path, meta_path, write, parse,
  written, handle_parsed, handle_message, jpeg_of, message, fields_message,
}

jpg_ne_meta : (today : Bytes) (msg : ParsedMessage) → jpg_path today msg ≢ meta_path today msg
jpg_ne_meta today msg e = absurd (
    omega (
      arith,
      ap length e,
      length-append (base_path today msg) (codes ".jpg"),
      length-append (base_path today msg) (codes ".meta.json"),
    ))

jpg_ne_tmp :
    (today : Bytes) (msg : ParsedMessage) → jpg_path today msg ≢ meta_path today msg ++ codes ".tmp"
jpg_ne_tmp today msg e = absurd (
    omega (
      arith,
      ap length e,
      length-append (base_path today msg) (codes ".jpg"),
      length-append (base_path today msg) (codes ".meta.json"),
      length-append (meta_path today msg) (codes ".tmp"),
    ))

-- Provided that no flush fails: after a write that reports success the metadata stands at its path,
-- and if the message has an image, the image stands at its own.
pub write_files :
    (f g : Faults) (today : Bytes) (msg : ParsedMessage) (fs : FileSystem)
    → f.flush_fails ≡ false
    → g.flush_fails ≡ false
    → (write f g today msg fs).0 ≡ true
    → (lookup (meta_path today msg) (write f g today msg fs).1 ≡ some msg.metadata_json)
      × (msg.has_jpeg ≡ true
          → lookup (jpg_path today msg) (write f g today msg fs).1 ≡ some msg.jpeg)
unfolding write
write_files f g today msg fs hf hg e =
    let fs' = (put f (jpg_path today msg) msg.jpeg fs).1 in
    let image = put_atomic f (jpg_path today msg) msg.jpeg fs hf in
    let meta = put_atomic g (meta_path today msg) msg.metadata_json fs' hg in
    let alone = put_atomic g (meta_path today msg) msg.metadata_json fs hg in
    let kept =
      put_frame g (meta_path today msg) msg.metadata_json (jpg_path today msg) fs'
        (jpg_ne_meta today msg) (jpg_ne_tmp today msg) in
    (ground arith, λ j. ground arith)

write_succeeds :
    (f g : Faults) (today : Bytes) (msg : ParsedMessage) (fs : FileSystem)
    → Works f
    → Works g
    → (write f g today msg fs).0 ≡ true
unfolding write
write_succeeds f g today msg fs works works' =
    let fs' = (put f (jpg_path today msg) msg.jpeg fs).1 in
    let image = put_succeeds f (jpg_path today msg) msg.jpeg fs works in
    let meta = put_succeeds g (meta_path today msg) msg.metadata_json fs' works' in
    let alone = put_succeeds g (meta_path today msg) msg.metadata_json fs works' in ground arith

jpeg_of_image :
    (image : Bytes)
    → All IsByte image
    → image ≢ []
    → jpeg_of (some (Json.text (base64_encode image))) ≡ some image
unfolding jpeg_of
jpeg_of_image image bytes h =
    let back = base64_decode-base64_encode image bytes in
    elim (Bool-cases (is_empty (base64_encode image))) [
      | inl e ↦ absurd (h (sym back ∙ rw (is_empty→eq (base64_encode image) e) base64_decode-nil))
      | inr e ↦ rw (e, back) (ground (arith, is_empty→eq image))
    ]

module _ (parse_json : Bytes → Option Json) (dump : Json → Bytes) where
  message_image :
      {frame device time : Bytes} (meta image : Bytes)
      → image ≢ []
      → message (some frame) (some device) (some time) (some image) meta
        ≡ good (record {
          frame_id = frame;
          device_id = device;
          timestamp = time;
          jpeg = image;
          has_jpeg = true;
          metadata_json = meta;
        })
  unfolding message
  message_image meta [] h = absurd (h refl)
  message_image meta (x ∷ image) h = refl

  written_ok :
      (h : ArchiveHandler) (w : Bool × FileSystem)
      → w.0 ≡ true
      → written parse_json dump h w ≡ done (record h { store = w.1; archived = bump h.archived })
  unfolding written
  written_ok h (true, fs) e = refl
  written_ok h (false, fs) e = cc

  module _ (content frame device time image : Bytes) (fs : Fields)
      (e : parse_json content ≡ some (object fs))
      (frame_field : find_field "frame_id" fs ≡ some (Json.text frame))
      (device_field : find_field "device_id" fs ≡ some (Json.text device))
      (time_field : find_field "timestamp" fs ≡ some (Json.text time))
      (image_field : find_field "raw_jpeg_b64" fs ≡ some (Json.text (base64_encode image)))
      (bytes : All IsByte image) (some_image : image ≢ []) where
    abbrev pub filed_message : ParsedMessage
    filed_message = record {
      frame_id = frame;
      device_id = device;
      timestamp = time;
      jpeg = image;
      has_jpeg = true;
      metadata_json = dump (object (erase_field "raw_jpeg_b64" fs));
    }

    parse_image : parse parse_json dump content ≡ good filed_message
    unfolding parse fields_message
    parse_image =
        rw
          (
            e,
            value_text_found fs "frame_id" (codes "unknown") frame frame_field,
            value_text_found fs "device_id" (codes "unknown") device device_field,
            value_text_found fs "timestamp" [] time time_field,
            image_field,
            jpeg_of_image image bytes some_image,
          )
          (message_image _ image some_image)

    handle_message_parsed :
        (f g : Faults) (today : Bytes) (h : ArchiveHandler)
        → handle_message parse_json dump f g today content h
          ≡ written parse_json dump h (write f g today filed_message h.store)
    unfolding handle_message
    handle_message_parsed f g today h = rw (parse_image, handle_parsed)

    -- A message with its text fields and an image in the gateway's base64, where no file operation
    -- fails: the handler counts it as archived and not as an error; the image's own bytes stand at
    -- raw/date/device/frame.jpg, where the date is that of the timestamp or today's, and device and frame
    -- are the message's, sanitised; and the message without the image stands next to it at
    -- frame.meta.json.
    pub handle_message_files :
        (f g : Faults) (today : Bytes) (h : ArchiveHandler)
        → Works f
        → Works g
        → let at = place (extract_date time today) (sanitize_path device) in
          (h' : ArchiveHandler) × (handle_message parse_json dump f g today content h ≡ done h')
          × (h'.archived ≡ bump h.archived)
          × (h'.errors ≡ h.errors)
          × (lookup (at (sanitize_path frame ++ codes ".jpg")) h'.store ≡ some image)
          × (lookup (at (sanitize_path frame ++ codes ".meta.json")) h'.store
              ≡ some (dump (object (erase_field "raw_jpeg_b64" fs))))
    handle_message_files f g today h works works' =
        let ok = write_succeeds f g today filed_message h.store works works' in
        let after = (write f g today filed_message h.store).1 in
        let (meta, jpg) =
          write_files f g today filed_message h.store works.flushes works'.flushes ok in
        (
          record h { store = after; archived = bump h.archived },
          handle_message_parsed f g today h
              ∙ written_ok h (write f g today filed_message h.store) ok,
          refl,
          refl,
          subst (λ p. lookup p after ≡ some image)
              (base_path-place today (codes ".jpg") filed_message) (jpg refl),
          subst (λ p. lookup p after ≡ some filed_message.metadata_json)
              (base_path-place today (codes ".meta.json") filed_message) meta,
        )

-- ===== src/Storage/Archive/Counts.antt =====
-- What the archive handler (storage/src/archive_handler.cpp) counts, and the messages that make it throw.
use eye_d.Base.{◌≡◌, refl, Bool, true, false, [], Option, none, some, arith, ◌⊎◌, inl, inr, codes}
use eye_d.Base.Eq.{bytes_Eq}
use eye_d.Base.Json.{Json, Fields, object, NotText, value_text_throws}
use eye_d.Storage.Store.{Bytes, Faults}
use eye_d.Storage.Archive.{
  ParsedMessage, ArchiveHandler, Parsed, good, malformed, threw, done, escaped, bump, write, parse,
  written, handle_parsed, handle_message, message, fields_message,
}

module _ (parse_json : Bytes → Option Json) (dump : Json → Bytes) where
  abbrev Counted : Faults → Faults → Bytes → ArchiveHandler → Parsed → ArchiveHandler → Type 0
  Counted f g today h p h' =
      ((msg : ParsedMessage) × (p ≡ good msg)
        × ((write f g today msg h.store).0 ≡ true)
        × (h'.archived ≡ bump h.archived)
        × (h'.errors ≡ h.errors))
      ⊎ ((h'.archived ≡ h.archived)
          × (h'.errors ≡ bump h.errors)
          × ((msg : ParsedMessage) → p ≡ good msg → (write f g today msg h.store).0 ≡ false))

  written_counts :
      (f g : Faults) (today : Bytes) (h h' : ArchiveHandler) (msg : ParsedMessage) (ok : Bool)
      → (write f g today msg h.store).0 ≡ ok
      → written parse_json dump h (write f g today msg h.store) ≡ done h'
      → Counted f g today h (good msg) h'
  unfolding written
  written_counts f g today h h' msg true w e = inl (msg, refl, w, ground arith, ground arith)
  written_counts f g today h h' msg false w e =
      inr (ground arith, ground arith, λ other q. ground arith)

  handle_parsed_counts :
      (f g : Faults) (today : Bytes) (h h' : ArchiveHandler) (p : Parsed)
      → handle_parsed parse_json dump f g today h p ≡ done h'
      → Counted f g today h p h'
  unfolding handle_parsed
  handle_parsed_counts f g today h h' (good msg) e = written_counts f g today h h' msg _ refl e
  handle_parsed_counts f g today h h' malformed e = inr (ground arith, ground arith, λ other q. cc)
  handle_parsed_counts f g today h h' threw e = cc

  -- A message that is handled to the end is counted exactly once: as archived, if it parses and all
  -- its files are written, and else as an error.
  pub handle_message_counts :
      (f g : Faults) (today content : Bytes) (h h' : ArchiveHandler)
      → handle_message parse_json dump f g today content h ≡ done h'
      → ((msg : ParsedMessage) × (parse parse_json dump content ≡ good msg)
          × ((write f g today msg h.store).0 ≡ true)
          × (h'.archived ≡ bump h.archived)
          × (h'.errors ≡ h.errors))
        ⊎ ((h'.archived ≡ h.archived)
            × (h'.errors ≡ bump h.errors)
            × ((msg : ParsedMessage)
                → parse parse_json dump content ≡ good msg
                → (write f g today msg h.store).0 ≡ false))
  unfolding handle_message
  handle_message_counts f g today content h h' e = handle_parsed_counts f g today h h' _ e

  message_throws :
      (a b c d : Option Bytes) (meta : Bytes)
      → (a ≡ none) ⊎ ((b ≡ none) ⊎ (c ≡ none))
      → message a b c d meta ≡ threw
  unfolding message
  message_throws (some a) (some b) (some c) (some d) meta n = ground arith
  message_throws (some a) (some b) (some c) none meta n = ground arith
  message_throws _ _ _ _ meta n = refl

  fields_message_throws :
      (fs : Fields)
      → NotText fs "frame_id" ⊎ (NotText fs "device_id" ⊎ NotText fs "timestamp")
      → fields_message parse_json dump fs ≡ threw
  unfolding fields_message
  fields_message_throws fs (inl n) =
      message_throws _ _ _ _ _ (inl (value_text_throws fs "frame_id" (codes "unknown") n))
  fields_message_throws fs (inr (inl n)) =
      message_throws _ _ _ _ _ (inr (inl (value_text_throws fs "device_id" (codes "unknown") n)))
  fields_message_throws fs (inr (inr n)) =
      message_throws _ _ _ _ _ (inr (inr (value_text_throws fs "timestamp" [] n)))

  -- A message is an object in which one of the three text fields holds something else: the exception
  -- leaves the handler, and the message is counted neither as archived nor as an error.
  pub handle_message_escapes :
      (f g : Faults) (today content : Bytes) (h : ArchiveHandler) (fs : Fields)
      → parse_json content ≡ some (object fs)
      → NotText fs "frame_id" ⊎ (NotText fs "device_id" ⊎ NotText fs "timestamp")
      → handle_message parse_json dump f g today content h ≡ escaped
  unfolding handle_message parse
  handle_message_escapes f g today content h fs e n =
      rw (e, fields_message_throws fs n, handle_parsed)

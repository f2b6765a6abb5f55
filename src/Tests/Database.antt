-- ===== src/Tests/Database.antt =====
-- The engine's database and encryption (iris-engine2/src/db.cpp, fhe.cpp): theorems at concrete inputs.
use eye_d.Base.{
  ℕ, ◌/◌, ◌*◌, ◌+◌, ◌^◌, ◌<◌, ◌≤◌, ◌≡◌, ◌⊎◌, refl, inl, true, false, List, [], ◌∷◌, none, some,
  arith, codes, length, All, map, ◌==◌,
}
use eye_d.Base.Int.{pos}
use eye_d.Base.Eq.{bytes_Eq}
use eye_d.Base.Assoc.{lookup}
use eye_d.Engine.Db.Sql.{Text, TemplateRecord, Tables, count_templates}
use eye_d.Engine.Db.{
  Serializer, IrisTemplate, Libpq, Database, is_connected, RawTemplate, load_all_raw_templates,
  persist_encrypted_template, delete_identity, is_sendable,
}
use eye_d.Engine.Db.Removal.{IsRemoved, delete_identity_lem}
use eye_d.Engine.Db.Listing.{Has, decrypt_template-persist_encrypted_template}
use eye_d.Engine.Fhe.{
  done, Library, PackedIrisCode, encrypt_template, decrypt_template, next_span, encrypt_scales,
  seal, combine, frame, to_bytes, active_ctx,
}
use eye_d.Engine.Fhe.RoundTrip.{IsReversible, ready}
use eye_d.Engine.Fhe.Spans.{IsByte, next_span_cases, size_at}

-- A code is a number, kept as two bytes.
abbrev serializer : Serializer ℕ ℕ
serializer = record {
  k_size = 2;
  to_binary = λ c. c ∷ 7 ∷ [];
  from_binary = λ bs. elim bs [ [] ↦ none | b ∷ rest ↦ some b ];
  zero_quality = 0;
  real = λ d. d / 10 * 10;
  order = λ rows. rows;
  order_there = λ rows k row e. (k, e);
  order_back = λ rows k row e. (k, e);
}

-- A connection is its number, and 1 is up.
abbrev libpq : Libpq ℕ
libpq = record { connectdb = λ info. 1; is_ok = λ n. n == 1 }

abbrev database : Database ℕ
database = record { conn = some 1; conninfo = codes "postgres" }

abbrev ann : Text
ann = codes "ann"

abbrev bob : Text
bob = codes "bob"

abbrev row_of : Text → TemplateRecord ℕ
row_of identity = record {
  identity_id = identity;
  eye_side = codes "left";
  iris_codes = 5 ∷ 7 ∷ [];
  mask_codes = [];
  width = 512;
  height = 16;
  n_scales = 1;
  quality_score = 0;
  device_id = [];
}

abbrev tables : Tables ℕ
tables = record {
  identities = (ann, codes "Ann") ∷ (bob, codes "Bob") ∷ [];
  templates = (codes "t-1", row_of ann) ∷ (codes "t-2", row_of bob) ∷ [];
  match_log = [];
}

abbrev two_scales : IrisTemplate ℕ
two_scales = record {
  iris_codes = 3 ∷ 4 ∷ [];
  mask_codes = 1 ∷ 2 ∷ [];
  iris_code_version = codes "v2.0";
}

abbrev t_3 : Text
t_3 = codes "t-3"

free : lookup t_3 tables.templates ≡ none
unfolding lookup
free = refl

known : lookup ann tables.identities ≡ some (codes "Ann")
unfolding lookup
known = refl

connected : is_connected libpq database ≡ true
unfolding is_connected
connected = refl

delete_identity_lem_example :
    IsRemoved ann tables (delete_identity serializer libpq database false false ann tables).1
    × ((delete_identity serializer libpq database false false ann tables).0 ≡ 1)
unfolding count_templates
delete_identity_lem_example =
    delete_identity_lem serializer libpq database false ann tables connected

-- Encryption that leaves the two numbers of a code as they are.
abbrev library : Library ℕ ℕ (PackedIrisCode ℕ) ℕ ℕ ℕ
library = record {
  create = done 0;
  exists = λ dir files. done true;
  load = λ dir ctx files. done 1;
  load_keys = λ bundle ctx. (done tt, ctx);
  generate_keys = λ ctx. (done tt, ctx);
  generate = λ ctx. done 1;
  save = λ dir ctx bundle files. (done tt, files);
  encrypt = λ ctx code. some code;
  serialize = λ et. some (et.code_bits ∷ et.mask_bits ∷ []);
  deserialize = λ ctx bs. elim bs [
    | [] ↦ none
    | a ∷ rest ↦ elim rest [ [] ↦ none | b ∷ more ↦ some (record { code_bits = a; mask_bits = b }) ]
  ];
  decrypt = λ ctx et. some et;
  no_bits = 0;
  match_encrypted = λ ctx a b. some a;
  decrypt_result = λ ctx et. some 0;
  match_with_rotation = λ ctx a b r. some (0, pos 0);
  one = 1;
}

library-IsReversible : IsReversible library 0
library-IsReversible = record {
  enc = λ code. code;
  ser = λ et. et.code_bits ∷ et.mask_bits ∷ [];
  encrypts = λ code. refl;
  serializes = λ et. refl;
  deserializes = λ et. refl;
  decrypts = λ code. refl;
}

abbrev code : ℕ → PackedIrisCode ℕ
code n = record { code_bits = n; mask_bits = 0 }

abbrev packed : IrisTemplate (PackedIrisCode ℕ)
packed = record {
  iris_codes = code 3 ∷ code 4 ∷ [];
  mask_codes = code 1 ∷ code 2 ∷ [];
  iris_code_version = codes "v2.0";
}

blobs_sendable :
    let blobs = encrypt_template library (ready library 0 library-IsReversible) packed in
    (is_sendable blobs.0 ≡ true) × (is_sendable blobs.1 ≡ true)
unfolding encrypt_template encrypt_scales seal combine frame to_bytes active_ctx is_sendable
blobs_sendable = (refl, refl)

decrypt_template-persist_encrypted_template_example :
    let blobs = encrypt_template library (ready library 0 library-IsReversible) packed in
    let before = load_all_raw_templates serializer libpq database false tables in
    let after =
      load_all_raw_templates serializer libpq database false
        (persist_encrypted_template serializer libpq database false t_3 ann
          (codes "left")
          blobs.0
          blobs.1
          2
          []
          tables).1 in
    (raw : RawTemplate) × (back : IrisTemplate (PackedIrisCode ℕ)) × (Has after raw
      × ((r : RawTemplate) → Has before r → Has after r)
      × ((r : RawTemplate) → Has after r → Has before r ⊎ (raw ≡ r)))
    × (raw.template_id ≡ t_3)
    × (raw.identity_id ≡ ann)
    × (decrypt_template library (ready library 0 library-IsReversible) raw.iris_blob ≡ some back)
    × (map (λ c. c.code_bits) back.iris_codes ≡ (3 ∷ 4 ∷ []))
    × (length packed.mask_codes ≡ length packed.iris_codes
        → map (λ c. c.code_bits) back.mask_codes ≡ (1 ∷ 2 ∷ []))
decrypt_template-persist_encrypted_template_example =
    decrypt_template-persist_encrypted_template serializer libpq database connected library 0
      library-IsReversible t_3 ann (codes "Ann") (codes "left") [] packed tables free known
      (inl refl) (omega arith) (omega arith) blobs_sendable

-- A size of 2 ^ 64 - 12 behind four bytes of count: the sum wraps around to 0.
abbrev hostile : List ℕ
hostile = 1 ∷ 0 ∷ 0 ∷ 0 ∷ 244 ∷ 255 ∷ 255 ∷ 255 ∷ 255 ∷ 255 ∷ 255 ∷ 255 ∷ []

hostile_bytes : All IsByte hostile
unfolding IsByte
hostile_bytes = ground arith

next_span_cases_example :
    (4 + 8 + size_at hostile 4 ≤ 12 → next_span library hostile 4 ≡ some (12, size_at hostile 4))
    × (12 < 4 + 8 + size_at hostile 4
        → 4 + 8 + size_at hostile 4 < 2 ^ 64
        → next_span library hostile 4 ≡ none)
    × (2 ^ 64 ≤ 4 + 8 + size_at hostile 4
        → next_span library hostile 4 ≡ some (12, size_at hostile 4))
next_span_cases_example =
    next_span_cases library hostile 4 hostile_bytes (omega arith) (omega arith)

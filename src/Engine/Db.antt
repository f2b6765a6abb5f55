-- ===== src/Engine/Db.antt =====
-- iris-engine2/src/db.cpp and db.h, the Database class over the tables of config/init.sql. libpq and the
-- serializer of the iris library are parameters; the SQL of each call is a function on the tables.
pub mod Sql
pub mod RoundTrip
pub mod Statements
pub mod Integrity
pub mod Removal
pub mod Listing
use eye_d.Base.{
  ℕ, ◌+◌, ◌%◌, ◌^◌, get_elem?, ◌≤◌, ◌≡◌, zero, suc, Bool, true, false, ◌&&◌, not, List, [], ◌∷◌,
  ◌++◌, Option, none, some, if◌then◌else◌, leb, ltb, codes, is_empty, length, take, drop, map,
}
use eye_d.Base.Eq.{bytes_Eq}
use eye_d.Base.Assoc.{lookup}
use eye_d.Engine.Db.Sql.{
  Text, TemplateRecord, MatchLog, Tables, upsert_identity, insert_template, delete_templates,
  count_templates, delete_row, insert_match, join, Joined,
}

-- iris::TemplateSerializer, with its kBinarySize; `zero_quality` is the value 0.0, and `real` what a
-- number is after std::to_string and a column of type REAL. `order` is the order in which the server
-- gives the rows of a SELECT, which SQL leaves open: the rows are those of the query.
pub record Serializer (C Q : Type 0) : Type 0 where
  pub k_size : ℕ
  pub to_binary : C → List ℕ
  pub from_binary : List ℕ → Option C
  pub zero_quality : Q
  pub real : Q → Q
  pub order : List (Joined Q) → List (Joined Q)
  pub order_there :
      (rows : List (Joined Q)) (k : ℕ) (row : Joined Q)
      → get_elem? rows k ≡ some row
      → (j : ℕ) × (get_elem? (order rows) j ≡ some row)
  pub order_back :
      (rows : List (Joined Q)) (k : ℕ) (row : Joined Q)
      → get_elem? (order rows) k ≡ some row
      → (j : ℕ) × (get_elem? rows j ≡ some row)

-- iris::IrisTemplate.
pub record IrisTemplate (C : Type 0) : Type 0 where
  pub iris_codes : List C
  pub mask_codes : List C
  pub iris_code_version : Text

-- libpq at the time of a call: what PQconnectdb returns, and the connections whose status is OK.
pub record Libpq (N : Type 0) : Type 0 where
  pub connectdb : Text → N
  pub is_ok : N → Bool

pub record Database (N : Type 0) : Type 0 where
  pub conn : Option N
  pub conninfo : Text

pub record DbTemplate (C : Type 0) : Type 0 where
  pub template_id : Text
  pub identity_id : Text
  pub identity_name : Text
  pub eye_side : Text
  pub tmpl : IrisTemplate C

pub record TemplateRow (C Q : Type 0) : Type 0 where
  pub template_id : Text
  pub identity_id : Text
  pub identity_name : Text
  pub eye_side : Text
  pub width : ℕ
  pub height : ℕ
  pub n_scales : ℕ
  pub quality_score : Q
  pub device_id : Text
  pub tmpl : IrisTemplate C
  pub is_encrypted : Bool

pub record RawTemplate : Type 0 where
  pub template_id : Text
  pub identity_id : Text
  pub identity_name : Text
  pub eye_side : Text
  pub iris_blob : List ℕ
  pub mask_blob : List ℕ
  pub n_scales : ℕ

module _ {N : Type 0} (pq : Libpq N) where
  unfoldable pub open_conn : Text → Database N → Bool × Database N
  open_conn info db =
      let raw = pq.connectdb info in
      if pq.is_ok raw
      then (true, record { conn = some raw; conninfo = db.conninfo })
      else (false, db)

  unfoldable pub connect : Text → Database N → Bool × Database N
  unfolding open_conn
  connect info db = open_conn info (record { conn = db.conn; conninfo = info })

  unfoldable pub disconnect : Database N → Database N
  disconnect db = record { conn = none; conninfo = db.conninfo }

  unfoldable pub reconnect : Database N → Bool × Database N
  unfolding open_conn disconnect
  reconnect db = if is_empty db.conninfo then (false, db) else open_conn db.conninfo (disconnect db)

  unfoldable pub is_connected : Database N → Bool
  is_connected db = elim db.conn [ none ↦ false | some raw ↦ pq.is_ok raw ]

module _ {C Q : Type 0} (s : Serializer C Q) where
  unfoldable pub serialize_codes : List C → List ℕ
  serialize_codes [] = []
  serialize_codes (c ∷ cs) = s.to_binary c ++ serialize_codes cs

  unfoldable pub keep_code : Option C → List C → List C
  keep_code none cs = cs
  keep_code (some c) cs = c ∷ cs

  -- One unit of fuel for a chunk; a byte of each suffices, since kBinarySize is not 0.
  unfoldable pub deserialize_loop : ℕ → List ℕ → List C
  unfolding keep_code
  deserialize_loop zero bs = []
  deserialize_loop (suc fuel) bs =
      let rest = deserialize_loop fuel (drop s.k_size bs) in
      if leb s.k_size (length bs) then keep_code (s.from_binary (take s.k_size bs)) rest else []

  unfoldable pub deserialize_codes : List ℕ → List C
  unfolding deserialize_loop
  deserialize_codes bs = deserialize_loop (length bs) bs

  abbrev version_2 : Text
  version_2 = codes "v2.0"

  unfoldable pub row_template : List ℕ → List ℕ → IrisTemplate C
  unfolding deserialize_codes
  row_template iris_data mask_data = record {
    iris_codes = deserialize_codes iris_data;
    mask_codes = deserialize_codes mask_data;
    iris_code_version = version_2;
  }

  unfoldable pub db_template : Joined Q → DbTemplate C
  unfolding row_template
  db_template j = record {
    template_id = j.template_id;
    identity_id = j.row.identity_id;
    identity_name = j.name;
    eye_side = j.row.eye_side;
    tmpl = row_template j.row.iris_codes j.row.mask_codes;
  }

  unfoldable pub template_row : Joined Q → TemplateRow C Q
  unfolding row_template
  template_row j =
      let tmpl = row_template j.row.iris_codes j.row.mask_codes in
      record {
        template_id = j.template_id;
        identity_id = j.row.identity_id;
        identity_name = j.name;
        eye_side = j.row.eye_side;
        width = j.row.width;
        height = j.row.height;
        n_scales = j.row.n_scales;
        quality_score = j.row.quality_score;
        device_id = j.row.device_id;
        tmpl = tmpl;
        is_encrypted = is_empty tmpl.iris_codes && ltb 4 (length j.row.iris_codes);
      }

unfoldable pub raw_template : {Q : Type 0} → Joined Q → RawTemplate
raw_template j = record {
  template_id = j.template_id;
  identity_id = j.row.identity_id;
  identity_name = j.name;
  eye_side = j.row.eye_side;
  iris_blob = j.row.iris_codes;
  mask_blob = j.row.mask_codes;
  n_scales = j.row.n_scales;
}

-- The row of a template that is found joins the name of its identity.
unfoldable pub joined_row : {Q : Type 0} → Text → Tables Q → Option (Joined Q)
joined_row template_id t = elim (lookup template_id t.templates) [
  | none ↦ none
  | some row ↦ elim (lookup row.identity_id t.identities) [
    | none ↦ none
    | some name ↦ some (record { template_id = template_id; row = row; name = name })
  ]
]

unfoldable pub non_empty : Text → Option Text
non_empty [] = none
non_empty (c ∷ cs) = some (c ∷ cs)

-- The parameters of the two INSERT statements: PackedIrisCode is 512 by 16.
unfoldable pub record_for :
    {C Q : Type 0} → Serializer C Q → Text → Text → List ℕ → List ℕ → ℕ → Text → TemplateRecord Q
record_for s identity_id eye_side iris_blob mask_blob n_scales device_id = record {
  identity_id = identity_id;
  eye_side = eye_side;
  iris_codes = iris_blob;
  mask_codes = mask_blob;
  width = 512;
  height = 16;
  n_scales = n_scales;
  quality_score = s.zero_quality;
  device_id = device_id;
}

-- What may be bound to a BYTEA parameter that is NOT NULL: an empty vector has no data, so that libpq
-- sends NULL, and with its header of four bytes a value stays below 1 GB. Where the server would refuse a
-- longer one, the cast of the size to int does not show.
unfoldable pub is_sendable : List ℕ → Bool
is_sendable blob = ltb 0 (length blob) && ltb (length blob + 4) (2 ^ 30)

unfoldable pub insert_sent : {Q : Type 0} → Text → TemplateRecord Q → Tables Q → Option (Tables Q)
unfolding is_sendable insert_template
insert_sent template_id row t =
    if is_sendable row.iris_codes && is_sendable row.mask_codes
    then insert_template template_id row t
    else none

unfoldable pub log_row : {Q : Type 0} → Text → Text → Text → Q → Bool → Text → ℕ → MatchLog Q
unfolding non_empty
log_row frame_id template_id identity_id hamming_distance is_match device_id latency_ms = record {
  probe_frame_id = frame_id;
  matched_template_id = non_empty template_id;
  matched_identity_id = non_empty identity_id;
  hamming_distance = hamming_distance;
  is_match = is_match;
  device_id = device_id;
  latency_ms = latency_ms;
}

-- `refused` tells that the server answers a statement with an error of its own, as it does to an
-- identifier that is no UUID or when the connection breaks; a constraint is part of the statement.
module _ {C Q N : Type 0} (s : Serializer C Q) (pq : Libpq N) (db : Database N) where
  unfoldable pub load_all_templates : Bool → Tables Q → List (DbTemplate C)
  unfolding is_connected db_template
  load_all_templates refused t =
      if not (is_connected pq db)
      then []
      else if refused
      then []
      else map (db_template s) (s.order (join t))

  unfoldable pub load_all_raw_templates : Bool → Tables Q → List RawTemplate
  unfolding is_connected raw_template
  load_all_raw_templates refused t =
      if not (is_connected pq db)
      then []
      else if refused
      then []
      else map raw_template (s.order (join t))

  unfoldable pub load_template : Bool → Text → Tables Q → Option (TemplateRow C Q)
  unfolding is_connected template_row joined_row
  load_template refused template_id t =
      if not (is_connected pq db)
      then none
      else if refused
      then none
      else elim (joined_row template_id t) [ none ↦ none | some j ↦ some (template_row s j) ]

  -- The tables behind a statement that returns no rows, and whether it succeeded.
  unfoldable pub exec : Bool → Option (Tables Q) → Tables Q → Bool × Tables Q
  exec true result t = (false, t)
  exec false none t = (false, t)
  exec false (some t') t = (true, t')

  unfoldable pub ensure_identity : Bool → Text → Text → Tables Q → Bool × Tables Q
  unfolding is_connected exec
  ensure_identity refused identity_id name t =
      if not (is_connected pq db)
      then (false, t)
      else exec refused (some (upsert_identity identity_id name t)) t

  -- `n_scales` is an int that is not negative.
  unfoldable pub persist_encrypted_template :
      Bool → Text → Text → Text → List ℕ → List ℕ → ℕ → Text → Tables Q → Bool × Tables Q
  unfolding is_connected exec record_for insert_sent
  persist_encrypted_template refused template_id identity_id eye_side iris_blob mask_blob n_scales
        device_id t =
      let row = record_for s identity_id eye_side iris_blob mask_blob n_scales device_id in
      if not (is_connected pq db)
      then (false, t)
      else exec refused (insert_sent template_id row t) t

  unfoldable pub persist_template :
      Bool → Text → Text → Text → IrisTemplate C → Text → Tables Q → Bool × Tables Q
  unfolding is_connected exec serialize_codes record_for insert_sent
  persist_template refused template_id identity_id eye_side tmpl device_id t =
      let iris_bin = serialize_codes s tmpl.iris_codes in
      let mask_bin = serialize_codes s tmpl.mask_codes in
      let n_scales = length tmpl.iris_codes % 2 ^ 32 in
      let row = record_for s identity_id eye_side iris_bin mask_bin n_scales device_id in
      if not (is_connected pq db)
      then (false, t)
      else exec refused (insert_sent template_id row t) t

  -- Two statements, each of which the server may refuse.
  unfoldable pub delete_identity : Bool → Bool → Text → Tables Q → ℕ × Tables Q
  unfolding is_connected
  delete_identity refused refused_row identity_id t =
      if not (is_connected pq db)
      then (0, t)
      else let count = if refused then 0 else count_templates identity_id t.templates in
        let t₁ = if refused then t else delete_templates identity_id t in
        (count, if refused_row then t₁ else delete_row identity_id t₁)

  unfoldable pub log_match : Bool → Text → Text → Text → Q → Bool → Text → ℕ → Tables Q → Tables Q
  unfolding is_connected exec log_row
  log_match refused frame_id template_id identity_id hamming_distance is_match device_id latency_ms
        t =
      let row =
        log_row frame_id template_id identity_id (s.real hamming_distance) is_match device_id
          latency_ms in
      if not (is_connected pq db) then t else (exec refused (insert_match row t) t).1

-- ===== src/Tests/Routes.antt =====
-- The engine's routes (iris-engine2/src/routes_analyze.cpp, routes_gallery.cpp): theorems at concrete
-- inputs.
use eye_d.Base.{
  ℕ, ◌/◌, ◌*◌, ◌≡◌, ◌≢◌, true, false, [], ◌∷◌, none, some, arith, codes, length, ltb, ◌==◌, map,
}
use eye_d.Base.Int.{pos}
use eye_d.Base.Json.{Json, text, object, end, field}
use eye_d.Engine.Reader.{value}
use eye_d.Engine.Gallery.{Text, Matching, GalleryEntry, Gallery, remove}
use eye_d.Engine.Gallery.Removal.{own}
use eye_d.Engine.Gallery.Groups.{Sorted, templates_of, info_of, list}
use eye_d.Engine.Gallery.Listing.{list-remove}
use eye_d.Engine.Smpc2.{Coordination}
use eye_d.Engine.Db.Sql.{TemplateRecord, Tables}
use eye_d.Engine.Db.{Serializer, IrisTemplate, Libpq}
use eye_d.Engine.Routes.{Context}
use eye_d.Engine.Analyze.{Vision}
use eye_d.Engine.Analyze

ltb_irreflexive : (d : ℕ) → ltb d d ≡ false
ltb_irreflexive d = ground arith

ltb_transitive : (a b c : ℕ) → ltb a b ≡ true → ltb b c ≡ true → ltb a c ≡ true
ltb_transitive a b c h k = ground arith

-- Every template of the gallery is as far away as it is long.
abbrev matching : Matching ℕ (IrisTemplate ℕ) ℕ ℕ
matching = record {
  lt = ltb;
  one = 1000;
  lt_irrefl = ltb_irreflexive;
  lt_trans = ltb_transitive;
  match_one_vs_n = λ probe ts. some (
      map (λ (t : IrisTemplate ℕ). record { distance = length t.iris_codes; best_rotation = pos 1 })
        ts);
  add_template = λ s id t. s;
  remove_template = λ s id. s;
  match_probe = λ s probe. none;
  enroll_distributed = λ m id t. m;
  verify_distributed = λ m probe. none;
}

abbrev bytes_of : Serializer ℕ ℕ
bytes_of = record {
  k_size = 1;
  to_binary = λ c. c ∷ [];
  from_binary = λ bs. elim bs [ [] ↦ none | b ∷ rest ↦ some b ];
  zero_quality = 0;
  real = λ d. d / 10 * 10;
  order = λ rows. rows;
  order_there = λ rows k row e. (k, e);
  order_back = λ rows k row e. (k, e);
}

abbrev pq_client : Libpq ℕ
pq_client = record { connectdb = λ info. 1; is_ok = λ n. n == 1 }

abbrev template : IrisTemplate ℕ
template = record { iris_codes = 3 ∷ []; mask_codes = []; iris_code_version = codes "v2.0" }

abbrev entry : GalleryEntry (IrisTemplate ℕ)
entry = record {
  template_id = codes "t-1";
  identity_id = codes "ann";
  identity_name = codes "Ann";
  eye_side = codes "left";
  tmpl = template;
}

abbrev one_gallery : Gallery ℕ (IrisTemplate ℕ) ℕ ℕ
one_gallery = record {
  entries = entry ∷ [];
  match_threshold = 10;
  dedup_threshold = 0;
  smpc_gallery = none;
  smpc_manager = none;
}

abbrev ann_row : TemplateRecord ℕ
ann_row = record {
  identity_id = codes "ann";
  eye_side = codes "left";
  iris_codes = 3 ∷ [];
  mask_codes = [];
  width = 512;
  height = 16;
  n_scales = 1;
  quality_score = 0;
  device_id = [];
}

abbrev ann_tables : Tables ℕ
ann_tables = record {
  identities = (codes "ann", codes "Ann") ∷ [];
  templates = (codes "t-1", ann_row) ∷ [];
  match_log = [];
}

-- The database is not connected.
abbrev context : Context ℕ ℕ ℕ ℕ ℕ ℕ
context = record {
  gallery = one_gallery;
  db = record { conn = some 0; conninfo = codes "postgres" };
  tables = ann_tables;
  smpc_active = false;
}

abbrev pictures : ℕ → Text × Text
pictures c = ([], [])

abbrev bob_entry : GalleryEntry (IrisTemplate ℕ)
bob_entry = record entry { template_id = codes "t-2"; identity_id = codes "bob" }

abbrev ann_right : GalleryEntry (IrisTemplate ℕ)
ann_right = record entry { template_id = codes "t-3"; eye_side = codes "right" }

abbrev three_entries : Gallery ℕ (IrisTemplate ℕ) ℕ ℕ
three_entries = record one_gallery { entries = bob_entry ∷ entry ∷ ann_right ∷ [] }

ann_ne_bob : codes "ann" ≢ codes "bob"
ann_ne_bob e = absurd (ground arith)

list-remove_example :
    let g' = (remove matching (codes "bob") three_entries).1 in
    Sorted (list three_entries)
    × (templates_of (codes "ann") (list three_entries)
        ≡ map info_of (own matching (codes "ann") three_entries.entries))
    × Sorted (list g')
    × (templates_of (codes "ann") (list g') ≡ templates_of (codes "ann") (list three_entries))
    × (templates_of (codes "bob") (list g') ≡ [])
list-remove_example = list-remove matching (codes "bob") (codes "ann") three_entries ann_ne_bob

abbrev vision : Vision (IrisTemplate ℕ) ℕ
vision = record {
  decode = λ s. some s;
  imdecode = λ bytes. some 0;
  run_pipeline = λ img frame side. value (record { iris_template = some template; error = none });
}

abbrev no_parties : Coordination ℕ ℕ (IrisTemplate ℕ)
no_parties = record {
  registers = λ party. true;
  connects = λ url dir. true;
  coordinator = λ config. 0;
  enroll_in = λ c id t. (value tt, c);
  verify_in = λ c t. value [];
}

abbrev probe_context : Analyze.Context ℕ (IrisTemplate ℕ) ℕ ℕ ℕ ℕ
probe_context = record {
  gallery = one_gallery;
  smpc2 = record {
    mode = "";
    active = false;
    coordinator = none;
    config = record { total_parties = 3; threshold = 2; store_count = 3 };
    nats_client = false;
  };
  db = record { conn = some 1; conninfo = codes "postgres" };
  tables = ann_tables;
  refused = false;
  latency_ms = 12;
}

abbrev body : Json
body = object (field "jpeg_b64" (text (codes "abcd")) (field "frame_id" (text (codes "f-1")) end))

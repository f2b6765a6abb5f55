-- ===== src/Tests/Engine.antt =====
-- The recognition engine (iris-engine2/src): theorems at concrete inputs.
use eye_d.Base.{
  true, false, suc, ◌⊎◌, ℕ, ◌+◌, ◌-◌, ◌*◌, ◌≤◌, ◌≡◌, refl, ◌≢◌, List, [], ◌∷◌, arith, codes, length,
  String, none, some, ltb, map,
}
use eye_d.Base.Int.{pos}
use eye_d.Engine.Reader.{value}
use eye_d.Engine.Gallery.{
  Matching, MatchResult, VerifyResult, GalleryEntry, Gallery, nearest, remove, others, count_of,
  remove_templates,
}
use eye_d.Engine.Gallery
use eye_d.Engine.Smpc2.{Coordination, Smpc2Manager, init, total_parties_of, threshold_of, init_lem}
use eye_d.Engine.Enroll.{World, Context, post_enroll}
use eye_d.Engine.Enroll.Outcomes.{Refused, Enrolled, post_enroll_cases}
use eye_d.Base.Json.{Json, object, end, field}

abbrev result_of : ℕ → ℕ → MatchResult ℕ
result_of probe t = record { distance = (t - probe) + (probe - t); best_rotation = pos 1 }

ltb_irrefl : (d : ℕ) → ltb d d ≡ false
ltb_irrefl d = ground arith

ltb_trans : (a b c : ℕ) → ltb a b ≡ true → ltb b c ≡ true → ltb a c ≡ true
ltb_trans a b c h k = ground arith

-- Templates and distances are numbers; the manager always finds "t-1" first.
abbrev numbers : Matching ℕ ℕ (List ℕ) ℕ
numbers = record {
  lt = ltb;
  one = 1000;
  lt_irrefl = ltb_irrefl;
  lt_trans = ltb_trans;
  match_one_vs_n = λ probe ts. some (map (λ (t : ℕ). result_of probe t) ts);
  add_template = λ s id t. s;
  remove_template = λ s id. s;
  match_probe = λ s probe. none;
  enroll_distributed = λ m id t. m;
  verify_distributed = λ m probe. some (
      record { subject_id = codes "t-1"; distance = 3 }
      ∷ record { subject_id = codes "t-2"; distance = 5 }
      ∷ []);
}

abbrev entry : String → String → ℕ → GalleryEntry ℕ
entry template identity t = record {
  template_id = codes template;
  identity_id = codes identity;
  identity_name = codes "";
  eye_side = codes "left";
  tmpl = t;
}

abbrev two_entries : List (GalleryEntry ℕ)
two_entries = entry "t-1" "ann" 40 ∷ entry "t-2" "bob" 70 ∷ []

abbrev gallery : Gallery ℕ ℕ (List ℕ) ℕ
gallery = record {
  entries = two_entries;
  match_threshold = 20;
  dedup_threshold = 10;
  smpc_gallery = none;
  smpc_manager = none;
}

abbrev two_results : List (MatchResult ℕ)
two_results = result_of 60 40 ∷ result_of 60 70 ∷ []

bob_ne_ann : codes "bob" ≢ codes "ann"
bob_ne_ann e = absurd (ground arith)

abbrev distributed : Gallery ℕ ℕ (List ℕ) ℕ
distributed = record gallery { smpc_manager = some 0 }

t_2_ne_t_1 : codes "t-2" ≢ codes "t-1"
t_2_ne_t_1 e = absurd (ground arith)

abbrev coordination : Coordination ℕ ℕ ℕ
coordination = record {
  registers = λ i. true;
  connects = λ url tls. true;
  coordinator = λ cfg. cfg.threshold;
  enroll_in = λ c subject t. (value tt, c);
  verify_in = λ c probe. value [];
}

abbrev idle : Smpc2Manager ℕ
idle = record {
  mode = "";
  active = false;
  coordinator = none;
  config = record { total_parties = 0; threshold = 0; store_count = 0 };
  nats_client = false;
}

init_lem_example :
    let (ok, m) = init coordination "simulated" "" 20 "" idle in
    ((ok ≡ false) × (m.active ≡ false))
    ⊎ ((ok ≡ true)
        × (m.active ≡ true)
        × (3 ≤ total_parties_of coordination m)
        × (total_parties_of coordination m ≤ 15)
        × (2 ≤ threshold_of coordination m)
        × (total_parties_of coordination m ≤ 2 * threshold_of coordination m)
        × (2 * threshold_of coordination m ≤ total_parties_of coordination m + 1))
init_lem_example = init_lem coordination "simulated" "" 20 "" idle refl

-- Images are the lengths of their bytes; the database counts what it holds.
abbrev world : World ℕ ℕ ℕ
world = record {
  decode = λ s. some s;
  imdecode = λ s. some (length s);
  run_pipeline = λ img identity side. value (record { iris_template = some img; error = none });
  is_connected = λ db. true;
  reconnect = λ db. db;
  ensure_identity = λ db id name. (true, db);
  persist_template = λ db template id side t device. (true, suc db);
}

abbrev context : Context ℕ ℕ (List ℕ) ℕ ℕ ℕ
context = record { gallery = gallery; db = 0; smpc2 = idle; smpc_active = false }

abbrev enroll_body : Json
enroll_body = object (
    field "identity_id" (Json.text (codes "eve")) (field "jpeg_b64" (Json.text (codes "/9j/")) end))

post_enroll_cases_example :
    let r = post_enroll numbers world coordination (some enroll_body) (codes "t-3") context in
    Refused numbers world coordination context r
    ⊎ Enrolled numbers world coordination (codes "t-3") context r
post_enroll_cases_example =
    post_enroll_cases numbers world coordination (some enroll_body) (codes "t-3") context

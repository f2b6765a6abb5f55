-- ===== src/Engine/Enroll.antt =====
-- iris-engine2/src/routes_enroll.cpp, the handler of POST /enroll. The database, the pipeline, the image
-- decoders and generate_uuid are parameters; what the mutexes guard is one step.
pub mod Outcomes
use eye_d.Base.{
  ℕ, ◌≡◌, refl, ◌⊎◌, inl, inr, Bool, true, false, ◌&&◌, ◌||◌, not, List, [], ◌∷◌, ◌++◌, Option,
  none, some, String, arith, if◌then◌else◌, codes, is_empty, Bool-cases,
}
use eye_d.Base.Eq.{same_bytes}
use eye_d.Base.Json.{Json, Fields, object, value_text}
use eye_d.Engine.Reader.{Result, value, failed}
use eye_d.Engine.Gallery.{Matching, GalleryEntry, Gallery, DuplicateCheck, add, check_duplicate}
use eye_d.Engine.Smpc2.{Coordination, Smpc2Manager, enroll}

abbrev pub Text : Type 0
Text = List ℕ

-- What the pipeline returns: its template and its error, if any.
pub record PipelineOutput (T : Type 0) : Type 0 where
  pub iris_template : Option T
  pub error : Option String

pub data EyeSide : Type 0 where
  left right : EyeSide

-- `I` is a decoded image and `B` the database with its connection.
pub record World (T I B : Type 0) : Type 0 where
  pub decode : Text → Option Text
  pub imdecode : Text → Option I
  pub run_pipeline : I → Text → EyeSide → Result (PipelineOutput T)
  pub is_connected : B → Bool
  pub reconnect : B → B
  pub ensure_identity : B → Text → Text → Bool × B
  pub persist_template : B → Text → Text → Text → T → Text → Bool × B

pub record Context (D T S M B C : Type 0) : Type 0 where
  pub gallery : Gallery D T S M
  pub db : B
  pub smpc2 : Smpc2Manager C
  pub smpc_active : Bool

-- The fields of the answer. The two flags are there only on success.
pub record Reply : Type 0 where
  pub status : ℕ
  pub identity_id : Text
  pub template_id : Text
  pub duplicate : DuplicateCheck
  pub protection : Option (Bool × Bool)
  pub error : Option String

-- An answer, the answer 400 for a text that is no JSON, or the exception that a body of another shape
-- throws.
pub data Outcome : Type 0 where
  replied : Reply → Outcome
  invalid_json threw : Outcome

pub record EnrollRequest : Type 0 where
  pub identity_id : Text
  pub identity_name : Text
  pub jpeg_b64 : Text
  pub eye_side : Text
  pub device_id : Text

abbrev pub no_duplicate : DuplicateCheck
no_duplicate = record {
  is_duplicate = false;
  duplicate_identity_id = [];
  duplicate_identity_name = [];
}

pub make_error : ℕ → Text → String → Outcome
make_error status identity_id msg = replied (record {
  status = status;
  identity_id = identity_id;
  template_id = [];
  duplicate = no_duplicate;
  protection = none;
  error = some msg;
})

request_of :
    Option Text → Option Text → Option Text → Option Text → Option Text → Option EnrollRequest
request_of (some i) (some n) (some j) (some e) (some d) =
    some (record { identity_id = i; identity_name = n; jpeg_b64 = j; eye_side = e; device_id = d })
request_of _ _ _ _ _ = none

pub read_request : Fields → Option EnrollRequest
unfolding request_of
read_request fs =
    request_of (value_text fs "identity_id" []) (value_text fs "identity_name" [])
      (value_text fs "jpeg_b64" []) (value_text fs "eye_side" (codes "left"))
      (value_text fs "device_id" (codes "local"))

pub eye_side_of : Text → EyeSide
eye_side_of s = if same_bytes s (codes "right") then right else left

module _ {D T S M I B C : Type 0} (w : Matching D T S M) (x : World T I B)
    (lib : Coordination C D T) where
  -- The error of the database part, if any, and the database.
  persist : EnrollRequest → Text → T → B → Option (ℕ × String) × B
  persist req template_id t db =
      let db₁ = if x.is_connected db then db else x.reconnect db in
      if not (x.is_connected db₁)
      then (some (503, "Database not connected"), db₁)
      else let (known, db₂) = x.ensure_identity db₁ req.identity_id req.identity_name in
        let (kept, db₃) =
          x.persist_template db₂ template_id req.identity_id req.eye_side t req.device_id in
        if not known
        then (some (500, "Failed to create identity in database"), db₂)
        else if kept
        then (none, db₃)
        else (some (500, "Failed to persist template to database"), db₃)

  succeeded : Result (Unit {0}) → Bool
  succeeded (value u) = true
  succeeded (failed e) = false

  distribute : Text → T → Smpc2Manager C → Bool × Smpc2Manager C
  unfolding succeeded
  distribute template_id t m =
      let (r, m') = enroll lib template_id t m in if m.active then (succeeded r, m') else (true, m)

  abbrev pub entry_for : EnrollRequest → Text → T → GalleryEntry T
  entry_for req template_id t = record {
    template_id = template_id;
    identity_id = req.identity_id;
    identity_name = req.identity_name;
    eye_side = req.eye_side;
    tmpl = t;
  }

  store :
      EnrollRequest
      → Text
      → T
      → Context D T S M B C
      → Option (ℕ × String) × B
      → Outcome × Context D T S M B C
  unfolding make_error distribute
  store req template_id t ctx (some (status, msg), db) =
      (make_error status req.identity_id msg, record ctx { db = db })
  store req template_id t ctx (none, db) =
      let (smpc2_ok, smpc2) = distribute template_id t ctx.smpc2 in
      (
        replied (record {
          status = 200;
          identity_id = req.identity_id;
          template_id = template_id;
          duplicate = no_duplicate;
          protection = some (ctx.smpc_active, smpc2.active && smpc2_ok);
          error = none;
        }),
        record ctx {
          db = db;
          smpc2 = smpc2;
          gallery = add w (entry_for req template_id t) ctx.gallery;
        },
      )

  with_template : EnrollRequest → Text → T → Context D T S M B C → Outcome × Context D T S M B C
  unfolding persist store
  with_template req template_id t ctx =
      let dup = check_duplicate w ctx.gallery t in
      if dup.is_duplicate
      then (
        replied (record {
          status = 200;
          identity_id = req.identity_id;
          template_id = [];
          duplicate = dup;
          protection = none;
          error = none;
        }),
        ctx,
      )
      else store req template_id t ctx (persist req template_id t ctx.db)

  pipeline_message : Option String → String
  pipeline_message none = "Pipeline failed"
  pipeline_message (some e) = e

  template_of : Result (PipelineOutput T) → Result T
  unfolding pipeline_message
  template_of (failed e) = failed e
  template_of (value out) = elim out.iris_template [
    | none ↦ failed (pipeline_message out.error)
    | some t ↦ value t
  ]

  on_template :
      EnrollRequest → Text → Context D T S M B C → Result T → Outcome × Context D T S M B C
  unfolding with_template make_error
  on_template req template_id ctx (failed e) = (make_error 200 req.identity_id e, ctx)
  on_template req template_id ctx (value t) = with_template req template_id t ctx

  on_image : EnrollRequest → Text → Context D T S M B C → Option I → Outcome × Context D T S M B C
  unfolding on_template template_of make_error eye_side_of
  on_image req template_id ctx none =
      (make_error 200 req.identity_id "Failed to decode JPEG image", ctx)
  on_image req template_id ctx (some img) =
      on_template req template_id ctx
        (template_of (x.run_pipeline img req.identity_id (eye_side_of req.eye_side)))

  on_bytes :
      EnrollRequest → Text → Context D T S M B C → Option Text → Outcome × Context D T S M B C
  unfolding on_image make_error
  on_bytes req template_id ctx none =
      (make_error 200 req.identity_id "Failed to decode base64", ctx)
  on_bytes req template_id ctx (some bytes) = on_image req template_id ctx (x.imdecode bytes)

  on_request : Text → Context D T S M B C → Option EnrollRequest → Outcome × Context D T S M B C
  unfolding on_bytes make_error
  on_request template_id ctx none = (threw, ctx)
  on_request template_id ctx (some req) =
      if is_empty req.identity_id || is_empty req.jpeg_b64
      then (make_error 200 req.identity_id "Missing identity_id or jpeg_b64", ctx)
      else on_bytes req template_id ctx (x.decode req.jpeg_b64)

  -- `body` is `none` where the JSON was discarded; `template_id` is what generate_uuid returns.
  pub post_enroll : Option Json → Text → Context D T S M B C → Outcome × Context D T S M B C
  unfolding on_request read_request
  post_enroll none template_id ctx = (invalid_json, ctx)
  post_enroll (some (object fs)) template_id ctx = on_request template_id ctx (read_request fs)
  post_enroll (some body) template_id ctx = (threw, ctx)

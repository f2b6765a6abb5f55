-- ===== src/Engine/Analyze.antt =====
-- iris-engine2/src/routes_analyze.cpp, the handler of POST /analyze/json, over the database of Engine.Db.
-- The pipeline, the image decoders and the clock are parameters; what a mutex guards is one step.
pub mod Record
use eye_d.Base.{
  ℕ, Bool, true, false, List, [], ◌∷◌, Option, none, some, String, if◌then◌else◌, codes, is_empty,
}
use eye_d.Base.Json.{Json, Fields, object, value_text}
use eye_d.Base.Int.{ℤ}
use eye_d.Engine.Reader.{Result, value, failed}
use eye_d.Engine.Gallery.{Matching, GalleryMatch, Gallery, match}
use eye_d.Engine.Smpc2.{Coordination, Smpc2Manager, Smpc2VerifyResult, verify}
use eye_d.Engine.Enroll.{Text, PipelineOutput, EyeSide, eye_side_of}
use eye_d.Engine.Db.Sql.{Tables}
use eye_d.Engine.Db.{Serializer, Libpq, Database, is_connected, log_match}

-- `I` is a decoded image.
pub record Vision (T I : Type 0) : Type 0 where
  pub decode : Text → Option Text
  pub imdecode : Text → Option I
  pub run_pipeline : I → Text → EyeSide → Result (PipelineOutput T)

-- The state that the handler reads, and the tables that it logs to. `refused` is whether the server
-- refuses the log's INSERT, and `latency_ms` the time that the pipeline took.
pub record Context (D T S M C N : Type 0) : Type 0 where
  pub gallery : Gallery D T S M
  pub smpc2 : Smpc2Manager C
  pub db : Database N
  pub tables : Tables D
  pub refused : Bool
  pub latency_ms : ℕ

pub record MatchJson (D : Type 0) : Type 0 where
  pub hamming_distance : D
  pub is_match : Bool
  pub matched_identity_id : Option Text
  pub matched_identity_name : Option Text
  pub best_rotation : ℤ

pub record Smpc2MatchJson (D : Type 0) : Type 0 where
  pub hamming_distance : D
  pub is_match : Bool
  pub matched_template_id : Option Text

pub record Reply (D : Type 0) : Type 0 where
  pub frame_id : Text
  pub device_id : Text
  pub found : Option (MatchJson D)
  pub smpc2_match : Option (Smpc2MatchJson D)
  pub error : Option String

-- The answer 400, the exception that a body of another shape throws, or an answer 200.
pub data Outcome (D : Type 0) : Type 0 where
  invalid_json threw : Outcome D
  replied : Reply D → Outcome D

pub record AnalyzeRequest : Type 0 where
  pub jpeg_b64 : Text
  pub eye_side : Text
  pub frame_id : Text
  pub device_id : Text

unfoldable pub request_fields :
    Option Text → Option Text → Option Text → Option Text → Option AnalyzeRequest
request_fields (some j) (some e) (some f) (some d) =
    some (record { jpeg_b64 = j; eye_side = e; frame_id = f; device_id = d })
request_fields _ _ _ _ = none

unfoldable pub read_analyze : Fields → Option AnalyzeRequest
unfolding request_fields value_text
read_analyze fs =
    request_fields (value_text fs "jpeg_b64" []) (value_text fs "eye_side" (codes "left"))
      (value_text fs "frame_id" []) (value_text fs "device_id" (codes "local"))

unfoldable pub when : {A : Type 0} → Bool → A → Option A
when b x = if b then some x else none

unfoldable pub or_empty : Bool → Text → Text
or_empty b s = if b then s else []

unfoldable pub match_json : {D : Type 0} → GalleryMatch D → MatchJson D
unfolding when
match_json m = record {
  hamming_distance = m.hamming_distance;
  is_match = m.is_match;
  matched_identity_id = when m.is_match m.matched_identity_id;
  matched_identity_name = when m.is_match m.matched_identity_name;
  best_rotation = m.best_rotation;
}

unfoldable pub smpc2_json :
    {D : Type 0} → Result (List (Smpc2VerifyResult D)) → Option (Smpc2MatchJson D)
unfolding when
smpc2_json (failed e) = none
smpc2_json (value []) = none
smpc2_json (value (best ∷ others)) = some (record {
  hamming_distance = best.distance;
  is_match = best.is_match;
  matched_template_id = when best.is_match best.subject_id;
})

unfoldable pub error_reply : {D : Type 0} → AnalyzeRequest → String → Outcome D
error_reply req msg = replied (record {
  frame_id = req.frame_id;
  device_id = req.device_id;
  found = none;
  smpc2_match = none;
  error = some msg;
})

module _ {D T S M I C N L : Type 0} (w : Matching D T S M) (v : Vision T I)
    (lib : Coordination C D T) (s : Serializer L D) (pq : Libpq N) where
  -- The row that a match leaves in the log.
  unfoldable pub log_found : AnalyzeRequest → Context D T S M C N → GalleryMatch D → Tables D
  unfolding or_empty is_connected log_match
  log_found req ctx m =
      if is_connected pq ctx.db
      then log_match s pq ctx.db ctx.refused req.frame_id
          (or_empty m.is_match m.matched_template_id) (or_empty m.is_match m.matched_identity_id)
          m.hamming_distance m.is_match req.device_id ctx.latency_ms ctx.tables
      else ctx.tables

  unfoldable pub secure_match : Smpc2Manager C → T → Option (Smpc2MatchJson D)
  unfolding smpc2_json
  secure_match smpc2 t = if smpc2.active then smpc2_json (verify lib t smpc2) else none

  unfoldable pub reply_with :
      AnalyzeRequest
      → Context D T S M C N
      → Option (Smpc2MatchJson D)
      → Option (GalleryMatch D)
      → Outcome D × Tables D
  unfolding match_json log_found
  reply_with req ctx smpc2_match none = (
    replied (record {
      frame_id = req.frame_id;
      device_id = req.device_id;
      found = none;
      smpc2_match = smpc2_match;
      error = none;
    }),
    ctx.tables,
  )
  reply_with req ctx smpc2_match (some m) = (
    replied (record {
      frame_id = req.frame_id;
      device_id = req.device_id;
      found = some (match_json m);
      smpc2_match = smpc2_match;
      error = none;
    }),
    log_found req ctx m,
  )

  unfoldable pub pipeline_error : Option String → String
  pipeline_error none = "Pipeline failed"
  pipeline_error (some e) = e

  unfoldable pub on_output :
      AnalyzeRequest → Context D T S M C N → Result (PipelineOutput T) → Outcome D × Tables D
  unfolding reply_with secure_match error_reply pipeline_error
  on_output req ctx (failed e) = (error_reply req e, ctx.tables)
  on_output req ctx (value out) = elim out.iris_template [
    | none ↦ (error_reply req (pipeline_error out.error), ctx.tables)
    | some t ↦ reply_with req ctx (secure_match ctx.smpc2 t) (match w ctx.gallery t)
  ]

  unfoldable pub on_decoded : AnalyzeRequest → Context D T S M C N → Outcome D × Tables D
  unfolding on_output error_reply
  on_decoded req ctx =
      if is_empty req.jpeg_b64
      then (error_reply req "Missing jpeg_b64", ctx.tables)
      else elim (v.decode req.jpeg_b64) [
        | none ↦ (error_reply req "Failed to decode base64", ctx.tables)
        | some bytes ↦ elim (v.imdecode bytes) [
          | none ↦ (error_reply req "Failed to decode JPEG image", ctx.tables)
          | some img ↦
              on_output req ctx (v.run_pipeline img req.frame_id (eye_side_of req.eye_side))
        ]
      ]

  -- `body` is `none` where the JSON was discarded.
  unfoldable pub post_analyze : Option Json → Context D T S M C N → Outcome D × Tables D
  unfolding on_decoded read_analyze
  post_analyze none ctx = (invalid_json, ctx.tables)
  post_analyze (some (object fs)) ctx = elim (read_analyze fs) [
    | none ↦ (threw, ctx.tables)
    | some req ↦ on_decoded req ctx
  ]
  post_analyze (some body) ctx = (threw, ctx.tables)

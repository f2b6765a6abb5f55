-- ===== src/Engine/Analyze/Record.antt =====
-- What POST /analyze/json (iris-engine2/src/routes_analyze.cpp) writes to the log of matches.
use eye_d.Base.{◌≡◌, ◌⊎◌, Bool, true, false, ◌∷◌, Option, none, some, if◌then◌else◌, is_empty}
use eye_d.Base.Json.{Json}
use eye_d.Engine.Gallery.{Matching, GalleryMatch}
use eye_d.Engine.Smpc2.{Coordination}
use eye_d.Engine.Db.Sql.{Text, Tables, MatchLog, insert_match}
use eye_d.Engine.Db.{Serializer, Libpq, log_row}
use eye_d.Engine.Analyze.{
  Vision, Context, MatchJson, Reply, Outcome, invalid_json, threw, replied, AnalyzeRequest,
  or_empty,
}

-- A row of the log that tells what an answer says; `real` is what the database makes of a distance.
pub record Tells {D : Type 0} (real : D → D) (row : MatchLog D) (out : Outcome D) : Type 0 where
  pub reply : Reply D
  pub found : MatchJson D
  pub answer : out ≡ replied reply
  pub shown : reply.found ≡ some found
  pub frame : row.probe_frame_id ≡ reply.frame_id
  pub device : row.device_id ≡ reply.device_id
  pub distance : row.hamming_distance ≡ real found.hamming_distance
  pub verdict : row.is_match ≡ found.is_match
  pub named :
      (id : Text)
      → found.matched_identity_id ≡ some id
      → row.matched_identity_id ≡ (if is_empty id then none else some id)
  pub anonymous :
      found.is_match ≡ false
      → (row.matched_template_id ≡ none)
        × (row.matched_identity_id ≡ none)
        × (found.matched_identity_id ≡ none)
        × (found.matched_identity_name ≡ none)

-- The match that an answer shows.
abbrev pub shown_in : {D : Type 0} → Outcome D → Option (MatchJson D)
shown_in invalid_json = none
shown_in threw = none
shown_in (replied reply) = reply.found

-- Why nothing is logged: the answer shows no match, there is no connection, the server refuses, or the
-- row that tells what the answer says refers to what is not in the tables.
abbrev pub Unlogged : {D : Type 0} → (D → D) → Bool → Bool → Tables D → Outcome D → Type 0
Unlogged {D} real connected refused t out =
    (shown_in out ≡ none)
    ⊎ ((connected ≡ false)
        ⊎ ((refused ≡ true)
            ⊎ ((row : MatchLog D) × (insert_match row t ≡ none) × Tells real row out)))

-- Either the tables stay as they are, for one of those reasons, or one row is added that tells what the
-- answer says.
abbrev pub Logged : {D : Type 0} → (D → D) → Bool → Bool → Tables D → Outcome D × Tables D → Type 0
Logged {D} real connected refused t (out, t') =
    ((t' ≡ t) × Unlogged real connected refused t out)
    ⊎ ((row : MatchLog D) × (t' ≡ record t { match_log = row ∷ t.match_log }) × Tells real row out)

module _ {D T S M I C N L : Type 0} (w : Matching D T S M) (v : Vision T I)
    (lib : Coordination C D T) (s : Serializer L D) (pq : Libpq N) where
  row_of : AnalyzeRequest → Context D T S M C N → GalleryMatch D → MatchLog D
  unfolding or_empty log_row
  row_of req ctx m =
      log_row req.frame_id (or_empty m.is_match m.matched_template_id)
        (or_empty m.is_match m.matched_identity_id) (s.real m.hamming_distance) m.is_match
        req.device_id ctx.latency_ms

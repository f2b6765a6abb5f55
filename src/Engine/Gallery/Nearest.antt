-- ===== src/Engine/Gallery/Nearest.antt =====
-- The answer of the gallery's match (iris-engine2/src/gallery.cpp) is a nearest one.
use eye_d.Base.{ℕ, ◌+◌, ◌≡◌, ◌⊎◌, false, List, some, if◌then◌else◌, get_elem?}
use eye_d.Base.Int.{pos}
use eye_d.Engine.Gallery.{
  Matching, MatchResult, VerifyResult, GalleryEntry, GalleryMatch, Gallery, Best,
}
use eye_d.Engine.Gallery

module _ {D T S M : Type 0} (w : Matching D T S M) where
  -- No result is nearer than `d`.
  abbrev pub NoneNearer : List (MatchResult D) → D → Type 0
  NoneNearer rs d =
      (k : ℕ) (r : MatchResult D) → get_elem? rs k ≡ some r → w.lt r.distance d ≡ false

  abbrev taken : ℕ → MatchResult D → Best D → Best D
  taken i r best =
      if w.lt r.distance best.dist
      then record { idx = i; dist = r.distance; rot = r.best_rotation }
      else best

  -- Where the best index comes from.
  abbrev From : ℕ → List (MatchResult D) → Best D → Type 0
  From i rs b =
      (k : ℕ) × (r : MatchResult D) × (get_elem? rs k ≡ some r)
      × (b.idx ≡ i + k)
      × (b.dist ≡ r.distance)
      × (b.rot ≡ r.best_rotation)

  -- No result is nearer than the answer's distance; and either that distance is that of a result, and the
  -- answer names the entry at its place, or no result is below the distance 1.0, and the answer names the
  -- first entry at 1.0, whatever its own distance.
  abbrev pub IsNearest : List (MatchResult D) → List (GalleryEntry T) → GalleryMatch D → Type 0
  IsNearest rs entries m =
      NoneNearer rs m.hamming_distance
      × (((m.hamming_distance ≡ w.one)
            × ((e : GalleryEntry T) × (get_elem? entries 0 ≡ some e)
                × (m.matched_template_id ≡ e.template_id)
                × (m.matched_identity_id ≡ e.identity_id)))
          ⊎ ((k : ℕ) × (r : MatchResult D) × (e : GalleryEntry T) × (get_elem? rs k ≡ some r)
              × (get_elem? entries k ≡ some e)
              × (m.hamming_distance ≡ r.distance)
              × (m.best_rotation ≡ r.best_rotation)
              × (m.matched_template_id ≡ e.template_id)
              × (m.matched_identity_id ≡ e.identity_id)))

  abbrev answer_match : D → Best D → GalleryEntry T → GalleryMatch D
  answer_match threshold b e = record {
    hamming_distance = b.dist;
    is_match = w.lt b.dist threshold;
    best_rotation = b.rot;
    matched_identity_id = e.identity_id;
    matched_identity_name = e.identity_name;
    matched_template_id = e.template_id;
  }

  abbrev start : Best D
  start = record { idx = 0; dist = w.one; rot = pos 0 }

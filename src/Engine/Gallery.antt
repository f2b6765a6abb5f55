-- ===== src/Engine/Gallery.antt =====
-- iris-engine2/src/gallery.h and gallery.cpp, the class Gallery. Distances are doubles: the comparison
-- is a parameter with the laws of `<` on numbers. The matcher, the simulated SMPC gallery and the
-- SMPC manager are parameters too; the two objects are owned by others and passed by pointer, so that
-- their states are part of the gallery's here.
pub mod Nearest
pub mod Removal
pub mod Groups
pub mod Listing
use eye_d.Base.{
  ℕ, zero, suc, ◌+◌, ◌≡◌, Bool, true, false, ◌&&◌, ◌||◌, not, List, [], ◌∷◌, ◌++◌, Option, none,
  some, if◌then◌else◌, get_elem?, take, length, is_empty, map,
}
use eye_d.Base.Eq.{same_bytes}
use eye_d.Base.Int.{ℤ, pos}

abbrev pub Text : Type 0
Text = List ℕ

-- A result of the matcher: the distance and the rotation.
pub record MatchResult (D : Type 0) : Type 0 where
  pub distance : D
  pub best_rotation : ℤ

-- A CoordinatorVerifyResult.
pub record VerifyResult (D : Type 0) : Type 0 where
  pub subject_id : Text
  pub distance : D

-- What the gallery uses of the code around it. An enrolment that fails is only logged.
pub record Matching (D T S M : Type 0) : Type 0 where
  pub lt : D → D → Bool
  pub one : D
  pub lt_irrefl : (d : D) → lt d d ≡ false
  pub lt_trans : (a b c : D) → lt a b ≡ true → lt b c ≡ true → lt a c ≡ true
  pub match_one_vs_n : T → List T → Option (List (MatchResult D))
  pub add_template : S → Text → T → S
  pub remove_template : S → Text → S
  pub match_probe : S → T → Option (List (MatchResult D))
  pub enroll_distributed : M → Text → T → M
  pub verify_distributed : M → T → Option (List (VerifyResult D))

pub record GalleryEntry (T : Type 0) : Type 0 where
  pub template_id : Text
  pub identity_id : Text
  pub identity_name : Text
  pub eye_side : Text
  pub tmpl : T

pub record GalleryMatch (D : Type 0) : Type 0 where
  pub hamming_distance : D
  pub is_match : Bool
  pub best_rotation : ℤ
  pub matched_identity_id : Text
  pub matched_identity_name : Text
  pub matched_template_id : Text

pub record DuplicateCheck : Type 0 where
  pub is_duplicate : Bool
  pub duplicate_identity_id : Text
  pub duplicate_identity_name : Text

pub record Gallery (D T S M : Type 0) : Type 0 where
  pub entries : List (GalleryEntry T)
  pub match_threshold : D
  pub dedup_threshold : D
  pub smpc_gallery : Option S
  pub smpc_manager : Option M

-- `best_idx`, `best_dist` and `best_rot` of the loops over the results.
pub record Best (D : Type 0) : Type 0 where
  pub idx : ℕ
  pub dist : D
  pub rot : ℤ

module _ {D T S M : Type 0} (w : Matching D T S M) where
  pub enable_smpc : S → Gallery D T S M → Gallery D T S M
  enable_smpc s g = record g { smpc_gallery = some s }

  pub enable_smpc_distributed : M → Gallery D T S M → Gallery D T S M
  enable_smpc_distributed m g = record g { smpc_manager = some m }

  enroll : GalleryEntry T → Option M → Option S → Option M × Option S
  enroll e (some m) s = (some (w.enroll_distributed m e.template_id e.tmpl), s)
  enroll e none (some s) = (none, some (w.add_template s e.template_id e.tmpl))
  enroll e none none = (none, none)

  pub add : GalleryEntry T → Gallery D T S M → Gallery D T S M
  unfolding enroll
  add e g =
      let (m, s) = enroll e g.smpc_manager g.smpc_gallery in
      record g { smpc_manager = m; smpc_gallery = s; entries = g.entries ++ (e ∷ []) }

  pub add_metadata_only : GalleryEntry T → Gallery D T S M → Gallery D T S M
  add_metadata_only e g = record g { entries = g.entries ++ (e ∷ []) }

  -- The loop that takes the templates of an identity out of the simulated SMPC gallery.
  unfoldable pub remove_templates : Text → List (GalleryEntry T) → S → S
  remove_templates identity [] s = s
  remove_templates identity (e ∷ es) s =
      remove_templates identity es
        (if same_bytes e.identity_id identity then w.remove_template s e.template_id else s)

  unfoldable pub others : Text → List (GalleryEntry T) → List (GalleryEntry T)
  others identity [] = []
  others identity (e ∷ es) =
      if same_bytes e.identity_id identity then others identity es else e ∷ others identity es

  unfoldable pub count_of : Text → List (GalleryEntry T) → ℕ
  count_of identity [] = 0
  count_of identity (e ∷ es) =
      if same_bytes e.identity_id identity then suc (count_of identity es) else count_of identity es

  -- The manager is not told.
  unfoldable pub remove : Text → Gallery D T S M → ℕ × Gallery D T S M
  unfolding remove_templates others count_of
  remove identity g = (
    count_of identity g.entries,
    record g {
      smpc_gallery = elim g.smpc_gallery [
        | none ↦ none
        | some s ↦ some (remove_templates identity g.entries s)
      ];
      entries = others identity g.entries;
    },
  )

  best_loop : ℕ → List (MatchResult D) → Best D → Best D
  best_loop i [] best = best
  best_loop i (r ∷ rs) best = best_loop (suc i) rs (
      if w.lt r.distance best.dist
      then record { idx = i; dist = r.distance; rot = r.best_rotation }
      else best)

  -- The answer for the best index. Out of the entries' range the source's behaviour is undefined.
  answer : List (GalleryEntry T) → D → Best D → Option (GalleryMatch D)
  answer entries threshold best = elim (get_elem? entries best.idx) [
    | none ↦ none
    | some e ↦ some (record {
      hamming_distance = best.dist;
      is_match = w.lt best.dist threshold;
      best_rotation = best.rot;
      matched_identity_id = e.identity_id;
      matched_identity_name = e.identity_name;
      matched_template_id = e.template_id;
    })
  ]

  best_answer :
      List (GalleryEntry T) → D → Option (List (MatchResult D)) → ℕ → Option (GalleryMatch D)
  unfolding best_loop answer
  best_answer entries threshold none bound = none
  best_answer entries threshold (some []) bound = none
  best_answer entries threshold (some (r ∷ rs)) bound =
      answer entries threshold
        (best_loop 0 (take bound (r ∷ rs)) (record { idx = 0; dist = w.one; rot = pos 0 }))

  -- The loop over the coordinator's results, from the first one on.
  unfoldable pub nearest : VerifyResult D → List (VerifyResult D) → VerifyResult D
  nearest best [] = best
  nearest best (r ∷ rs) = nearest (if w.lt r.distance best.distance then r else best) rs

  find_subject : List (GalleryEntry T) → D → VerifyResult D → Option (GalleryMatch D)
  find_subject [] threshold best = none
  find_subject (e ∷ es) threshold best =
      if same_bytes e.template_id best.subject_id
      then some (record {
        hamming_distance = best.distance;
        is_match = w.lt best.distance threshold;
        best_rotation = pos 0;
        matched_identity_id = e.identity_id;
        matched_identity_name = e.identity_name;
        matched_template_id = e.template_id;
      })
      else find_subject es threshold best

  find_best_match_coordinator :
      List (GalleryEntry T) → D → Option (List (VerifyResult D)) → Option (GalleryMatch D)
  unfolding nearest find_subject
  find_best_match_coordinator entries threshold none = none
  find_best_match_coordinator entries threshold (some []) = none
  find_best_match_coordinator entries threshold (some (r ∷ rs)) =
      find_subject entries threshold (nearest r rs)

  -- The simulated gallery's loop also stops at the end of the entries.
  by_mode : List (GalleryEntry T) → T → D → Option M → Option S → Option (GalleryMatch D)
  unfolding best_answer find_best_match_coordinator
  by_mode entries probe threshold (some m) s =
      find_best_match_coordinator entries threshold (w.verify_distributed m probe)
  by_mode entries probe threshold none (some s) =
      best_answer entries threshold (w.match_probe s probe) (length entries)
  by_mode entries probe threshold none none =
      let results = w.match_one_vs_n probe (map (λ (e : GalleryEntry T). e.tmpl) entries) in
      best_answer entries threshold results (result_count results)
    where
      result_count : Option (List (MatchResult D)) → ℕ
      result_count none = 0
      result_count (some rs) = length rs

  pub find_best_match : Gallery D T S M → T → D → Option (GalleryMatch D)
  unfolding by_mode
  find_best_match g probe threshold =
      if is_empty g.entries
      then none
      else by_mode g.entries probe threshold g.smpc_manager g.smpc_gallery

  pub match : Gallery D T S M → T → Option (GalleryMatch D)
  unfolding find_best_match
  match g probe = find_best_match g probe g.match_threshold

  duplicate_of : Option (GalleryMatch D) → DuplicateCheck
  duplicate_of none = record {
    is_duplicate = false;
    duplicate_identity_id = [];
    duplicate_identity_name = [];
  }
  duplicate_of (some best) =
      if best.is_match
      then record {
        is_duplicate = true;
        duplicate_identity_id = best.matched_identity_id;
        duplicate_identity_name = best.matched_identity_name;
      }
      else record { is_duplicate = false; duplicate_identity_id = []; duplicate_identity_name = [] }

  pub check_duplicate : Gallery D T S M → T → DuplicateCheck
  unfolding find_best_match duplicate_of
  check_duplicate g probe = duplicate_of (find_best_match g probe g.dedup_threshold)

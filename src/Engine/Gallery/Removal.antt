-- ===== src/Engine/Gallery/Removal.antt =====
-- What `remove` takes out of the gallery, and what it leaves behind with the SMPC manager
-- (iris-engine2/src/gallery.cpp).
use eye_d.Base.{
  ◌+◌, ◌≡◌, refl, sym, ◌∙◌, ◌≢◌, inl, inr, false, List, [], ◌∷◌, none, some, arith, if◌then◌else◌,
  length, is_empty, Bool-cases, All, All-append,
}
use eye_d.Base.Eq.{same_bytes, same_bytes_iff, same_ne, bytes_Eq}
use eye_d.Engine.Gallery.{
  Text, add_metadata_only, Matching, MatchResult, VerifyResult, GalleryEntry, GalleryMatch, Gallery,
  others, count_of, remove, nearest, find_subject, find_best_match_coordinator, by_mode,
  find_best_match,
}
use eye_d.Engine.Gallery

module _ {D T S M : Type 0} (w : Matching D T S M) where
  -- The entries of one identity, in their order.
  abbrev pub own : Text → List (GalleryEntry T) → List (GalleryEntry T)
  own identity [] = []
  own identity (e ∷ es) =
      if same_bytes e.identity_id identity then e ∷ own identity es else own identity es

  abbrev pub IsOther : Text → GalleryEntry T → Type 0
  IsOther identity e = e.identity_id ≢ identity

  pub others-IsOther :
      (identity : Text) (es : List (GalleryEntry T)) → All (IsOther identity) (others w identity es)
  unfolding others
  others-IsOther identity [] = tt
  others-IsOther identity (e ∷ es) = elim (Bool-cases (same_bytes e.identity_id identity)) [
    | inl h ↦ rw h (others-IsOther identity es)
    | inr h ↦
        rw h (λ q. cc (h, (same_bytes_iff e.identity_id identity).1 q), others-IsOther identity es)
  ]

  pub count_others :
      (identity : Text) (es : List (GalleryEntry T))
      → count_of w identity es + length (others w identity es) ≡ length es
  unfolding others count_of
  count_others identity [] = omega arith
  count_others identity (e ∷ es) = ground (arith, count_others identity es)

  own-others :
      (identity kept : Text) (es : List (GalleryEntry T))
      → kept ≢ identity
      → own kept (others w identity es) ≡ own kept es
  unfolding others
  own-others identity kept [] ne = refl
  own-others identity kept (e ∷ es) ne = elim (Bool-cases (same_bytes e.identity_id identity)) [
    | inl h ↦
        let same = (same_bytes_iff e.identity_id identity).0 h in
        rw (h, foreign same) (own-others identity kept es ne)
    | inr h ↦ rw h (ground (arith, own-others identity kept es ne))
  ]
    where
      foreign : e.identity_id ≡ identity → same_bytes e.identity_id kept ≡ false
      foreign same = same_ne e.identity_id kept (λ q. ne (sym q ∙ same))

  pub add_metadata_only-IsOther :
      (identity : Text) (e : GalleryEntry T) (g : Gallery D T S M)
      → IsOther identity e
      → All (IsOther identity) g.entries
      → All (IsOther identity) (add_metadata_only w e g).entries
  unfolding add_metadata_only
  add_metadata_only-IsOther identity e g h k =
      All-append (IsOther identity) g.entries (e ∷ []) k (h, tt)

  -- After `remove` no entry of the identity is left, the entries of every other identity are what they
  -- were, in the same order, and the number returned is that of the entries that are gone.
  pub remove-others :
      (identity kept : Text) (g : Gallery D T S M)
      → kept ≢ identity
      → let (count, g') = remove w identity g in
        All (IsOther identity) g'.entries
        × (own kept g'.entries ≡ own kept g.entries)
        × (count + length g'.entries ≡ length g.entries)
  unfolding remove
  remove-others identity kept g ne = (
    others-IsOther identity g.entries,
    own-others identity kept g.entries ne,
    count_others identity g.entries,
  )

  abbrev pub IsForeign : Text → GalleryEntry T → Type 0
  IsForeign subject e = e.template_id ≢ subject

  find_subject-none :
      (es : List (GalleryEntry T)) (threshold : D) (best : VerifyResult D)
      → All (IsForeign best.subject_id) es
      → find_subject w es threshold best ≡ none
  unfolding find_subject
  find_subject-none [] threshold best h = refl
  find_subject-none (e ∷ es) threshold best h =
      rw (same_ne e.template_id best.subject_id h.0) (find_subject-none es threshold best h.1)

  -- In the distributed mode `remove` leaves the manager as it was: if the nearest of the manager's results
  -- is for a template that is not among the entries left, `match` answers that nothing was found, whatever
  -- other entries and results there are.
  pub match-remove_distributed :
      (identity : Text) (g : Gallery D T S M) (m : M) (probe : T) (r : VerifyResult D)
      (rs : List (VerifyResult D))
      → g.smpc_manager ≡ some m
      → w.verify_distributed m probe ≡ some (r ∷ rs)
      → All (IsForeign (nearest w r rs).subject_id) (remove w identity g).1.entries
      → ((remove w identity g).1.smpc_manager ≡ some m)
        × (Gallery.match w (remove w identity g).1 probe ≡ none)
  unfolding remove Gallery.match find_best_match by_mode find_best_match_coordinator
  match-remove_distributed identity g m probe r rs manager results gone =
      (manager, rw (manager, results) (found (others w identity g.entries) gone))
    where
      found :
          (es : List (GalleryEntry T))
          → All (IsForeign (nearest w r rs).subject_id) es
          → (if is_empty es then none else find_subject w es g.match_threshold (nearest w r rs))
            ≡ none
      found [] h = refl
      found (e ∷ es) h = find_subject-none (e ∷ es) g.match_threshold (nearest w r rs) h

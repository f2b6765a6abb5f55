-- ===== src/Engine/Gallery/Listing.antt =====
-- iris-engine2/src/gallery.cpp: what `Gallery::list` tells of each identity, before and after
-- `Gallery::remove`.
use eye_d.Base.{◌≡◌, refl, sym, ◌∙◌, ap, ◌≢◌, inl, inr, List, [], ◌∷◌, map, Bool-cases, All}
use eye_d.Base.Eq.{same_bytes, same_ne, bytes_Eq}
use eye_d.Engine.Gallery.{Text, Matching, GalleryEntry, Gallery, remove}
use eye_d.Engine.Gallery.Removal.{own, IsOther, remove-others}
use eye_d.Engine.Gallery.Groups.{
  Sorted, templates_of, info_of, own_info, own_infos, list, visit_all-templates_of,
}

module _ {D T S M : Type 0} (w : Matching D T S M) (identity : Text) where
  own_infos-own :
      (es : List (GalleryEntry T)) → own_infos identity es ≡ map info_of (own w identity es)
  unfolding own_infos own_info
  own_infos-own [] = refl
  own_infos-own (e ∷ es) = elim (Bool-cases (same_bytes e.identity_id identity)) [
    | inl h ↦ rw h (ap (◌∷◌ (info_of e)) (own_infos-own es))
    | inr h ↦ rw h (own_infos-own es)
  ]

  own_infos-IsOther :
      (es : List (GalleryEntry T)) → All (IsOther w identity) es → own_infos identity es ≡ []
  unfolding own_infos own_info
  own_infos-IsOther [] h = refl
  own_infos-IsOther (e ∷ es) h = rw (same_ne e.identity_id identity h.0) (own_infos-IsOther es h.1)

  list-own_infos :
      (g : Gallery D T S M)
      → Sorted (list g) × (templates_of identity (list g) ≡ own_infos identity g.entries)
  unfolding list
  list-own_infos g = visit_all-templates_of identity g.entries [] tt

module _ {D T S M : Type 0} (w : Matching D T S M) (identity kept : Text)
    (g : Gallery D T S M) where
  -- `list` tells of every identity once, in the order of the identities' texts, and of each its templates
  -- in the order in which the gallery got them; and after `remove` of another identity it tells the same
  -- templates of this one, and none of the one that was removed.
  pub list-remove :
      kept ≢ identity
      → let g' = (remove w identity g).1 in
        Sorted (list g)
        × (templates_of kept (list g) ≡ map info_of (own w kept g.entries))
        × Sorted (list g')
        × (templates_of kept (list g') ≡ templates_of kept (list g))
        × (templates_of identity (list g') ≡ [])
  list-remove ne =
      let (gone, same, _) = remove-others w identity kept g ne in
      let now = list-own_infos w kept g in
      let later = list-own_infos w kept (remove w identity g).1 in
      let of_kept = now.1 ∙ own_infos-own w kept g.entries in
      (
        now.0,
        of_kept,
        later.0,
        later.1 ∙ own_infos-own w kept _ ∙ ap (map info_of) same ∙ sym of_kept,
        (list-own_infos w identity (remove w identity g).1).1 ∙ own_infos-IsOther w identity _ gone,
      )

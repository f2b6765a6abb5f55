-- ===== src/Engine/Gallery/Groups.antt =====
-- iris-engine2/src/gallery.cpp, `Gallery::list`. The std::map is the list of its values in the order of
-- their keys, which are the identities that the values carry.
use eye_d.Base.{
  ◌≡◌, refl, sym, ◌∙◌, ap, subst, inl, inr, true, false, List, [], ◌∷◌, ◌++◌, append_assoc,
  append-nil, arith, if◌then◌else◌, Bool-cases, All,
}
use eye_d.Base.Eq.{same_bytes, same_bytes_iff, bytes_Eq}
use eye_d.Base.Texts.{lex_lt, lex_gt_ne, lex_lt_trans, lex_lt_connected}
use eye_d.Engine.Gallery.{Text, GalleryEntry, Gallery}

pub record TemplateInfo : Type 0 where
  pub template_id : Text
  pub eye_side : Text

pub record IdentityInfo : Type 0 where
  pub identity_id : Text
  pub name : Text
  pub templates : List TemplateInfo

module _ {T : Type 0} where
  unfoldable pub info_of : GalleryEntry T → TemplateInfo
  info_of e = record { template_id = e.template_id; eye_side = e.eye_side }

  -- `by_identity[e.identity_id]`, which makes an empty value for a new key, and the three assignments.
  unfoldable pub visit : GalleryEntry T → List IdentityInfo → List IdentityInfo
  unfolding info_of
  visit e [] =
      record { identity_id = e.identity_id; name = e.identity_name; templates = info_of e ∷ [] }
      ∷ []
  visit e (i ∷ is) =
      let rest = visit e is in
      if same_bytes e.identity_id i.identity_id
      then record i { name = e.identity_name; templates = i.templates ++ (info_of e ∷ []) } ∷ is
      else if lex_lt e.identity_id i.identity_id
      then record {
        identity_id = e.identity_id;
        name = e.identity_name;
        templates = info_of e ∷ [];
      }
        ∷ i
        ∷ is
      else i ∷ rest

  unfoldable pub visit_all : List (GalleryEntry T) → List IdentityInfo → List IdentityInfo
  unfolding visit
  visit_all [] is = is
  visit_all (e ∷ es) is = visit_all es (visit e is)

  unfoldable pub list : {D S M : Type 0} → Gallery D T S M → List IdentityInfo
  unfolding visit_all
  list g = visit_all g.entries []

-- What a client reads from the listing about one identity.
abbrev pub templates_of : Text → List IdentityInfo → List TemplateInfo
templates_of identity [] = []
templates_of identity (i ∷ is) =
    if same_bytes i.identity_id identity then i.templates else templates_of identity is

abbrev pub IsBelow : Text → IdentityInfo → Type 0
IsBelow identity i = lex_lt identity i.identity_id ≡ true

abbrev pub Sorted : List IdentityInfo → Type 0
Sorted [] = Unit
Sorted (i ∷ is) = All (IsBelow i.identity_id) is × Sorted is

module _ {T : Type 0} (e : GalleryEntry T) where
  visit-IsBelow :
      (identity : Text) (is : List IdentityInfo)
      → lex_lt identity e.identity_id ≡ true
      → All (IsBelow identity) is
      → All (IsBelow identity) (visit e is)
  unfolding visit
  visit-IsBelow identity [] h k = (h, tt)
  visit-IsBelow identity (i ∷ is) h k = ground (arith, visit-IsBelow identity is h k.1)

  IsBelow-All :
      (i : IdentityInfo) (is : List IdentityInfo)
      → lex_lt e.identity_id i.identity_id ≡ true
      → All (IsBelow i.identity_id) is
      → All (IsBelow e.identity_id) is
  IsBelow-All i [] h k = tt
  IsBelow-All i (j ∷ js) h (k, ks) =
      (lex_lt_trans e.identity_id i.identity_id j.identity_id h k, IsBelow-All i js h ks)

  visit-Sorted : (is : List IdentityInfo) → Sorted is → Sorted (visit e is)
  unfolding visit
  visit-Sorted [] s = (tt, tt)
  visit-Sorted (i ∷ is) (b, s) = ground (
    arith,
    visit-Sorted is s,
    IsBelow-All i is,
    lex_lt_connected e.identity_id i.identity_id,
    visit-IsBelow i.identity_id is,
  )

templates_of_below :
    (identity : Text) (is : List IdentityInfo)
    → All (IsBelow identity) is
    → templates_of identity is ≡ []
templates_of_below identity [] h = refl
templates_of_below identity (i ∷ is) (h, hs) =
    rw (lex_gt_ne identity i.identity_id h) (templates_of_below identity is hs)

module _ {T : Type 0} (identity : Text) where
  -- What an entry adds to the templates of the identity.
  unfoldable pub own_info : GalleryEntry T → List TemplateInfo
  unfolding info_of
  own_info e = if same_bytes e.identity_id identity then info_of e ∷ [] else []

  own_info-fresh :
      (e : GalleryEntry T) (is : List IdentityInfo)
      → All (IsBelow e.identity_id) is
      → (if same_bytes e.identity_id identity then info_of e ∷ [] else templates_of identity is)
        ≡ templates_of identity is ++ own_info e
  unfolding own_info
  own_info-fresh e is h = elim (Bool-cases (same_bytes e.identity_id identity)) [
    | inl q ↦
        let none_yet : templates_of identity is ≡ [] =
          templates_of_below identity is
            (subst (λ x. All (IsBelow x) is) ((same_bytes_iff e.identity_id identity).0 q) h) in
        rw (q, none_yet) refl
    | inr q ↦ rw q (sym (append-nil (templates_of identity is)))
  ]

  own_info-same :
      (e : GalleryEntry T) (i : IdentityInfo) (rest : List TemplateInfo)
      → e.identity_id ≡ i.identity_id
      → (if same_bytes i.identity_id identity then i.templates ++ (info_of e ∷ []) else rest)
        ≡ (if same_bytes i.identity_id identity then i.templates else rest) ++ own_info e
  unfolding own_info
  own_info-same e i rest q = elim (Bool-cases (same_bytes i.identity_id identity)) [
    | inl h ↦ rw (q, h) refl
    | inr h ↦ rw (q, h) (sym (append-nil rest))
  ]

  own_info-other :
      (e : GalleryEntry T) (i : IdentityInfo) (old new : List TemplateInfo)
      → same_bytes e.identity_id i.identity_id ≡ false
      → new ≡ old ++ own_info e
      → (if same_bytes i.identity_id identity then i.templates else new)
        ≡ (if same_bytes i.identity_id identity then i.templates else old) ++ own_info e
  unfolding own_info
  own_info-other e i old new ne q = elim (Bool-cases (same_bytes i.identity_id identity)) [
    | inl h ↦
        let same = (same_bytes_iff i.identity_id identity).0 h in
        rw (h, subst (λ x. same_bytes e.identity_id x ≡ false) same ne)
          (sym (append-nil i.templates))
    | inr h ↦ rw h q
  ]

  visit-templates_of :
      (e : GalleryEntry T) (is : List IdentityInfo)
      → Sorted is
      → templates_of identity (visit e is) ≡ templates_of identity is ++ own_info e
  unfolding visit
  visit-templates_of e [] s = own_info-fresh e [] tt
  visit-templates_of e (i ∷ is) (b, s) =
      elim (Bool-cases (same_bytes e.identity_id i.identity_id)) [
        | inl h ↦ rw h (
            own_info-same e i (templates_of identity is)
              ((same_bytes_iff e.identity_id i.identity_id).0 h))
        | inr h ↦ elim (Bool-cases (lex_lt e.identity_id i.identity_id)) [
          | inl k ↦ rw (h, k) (own_info-fresh e (i ∷ is) (k, IsBelow-All e i is k b))
          | inr k ↦ rw (h, k) (own_info-other e i _ _ h (visit-templates_of e is s))
        ]
      ]

  -- The templates of the identity, in the order of the entries.
  unfoldable pub own_infos : List (GalleryEntry T) → List TemplateInfo
  unfolding own_info
  own_infos [] = []
  own_infos (e ∷ es) = own_info e ++ own_infos es

  pub visit_all-templates_of :
      (es : List (GalleryEntry T)) (is : List IdentityInfo)
      → Sorted is
      → Sorted (visit_all es is)
        × (templates_of identity (visit_all es is) ≡ templates_of identity is ++ own_infos es)
  unfolding visit_all own_infos
  visit_all-templates_of [] is s = (s, sym (append-nil (templates_of identity is)))
  visit_all-templates_of (e ∷ es) is s =
      let (sorted, rest) = visit_all-templates_of es (visit e is) (visit-Sorted e is s) in
      (
        sorted,
        rest
            ∙ ap (λ l. l ++ own_infos es) (visit-templates_of e is s)
            ∙ append_assoc (templates_of identity is) (own_info e) (own_infos es),
      )

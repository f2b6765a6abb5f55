-- ===== src/Engine/Db/Statements.antt =====
-- The references between the tables of config/init.sql, under each SQL statement of the Database class
-- (iris-engine2/src/db.cpp).
use eye_d.Base.{
  ◌≡◌, refl, inl, inr, true, false, ◌&&◌, List, [], ◌∷◌, Option, none, some, arith, Bool-cases, All,
  All-imp, All-map, subst,
}
use eye_d.Base.Eq.{same_bytes, same_bytes_iff, bytes_Eq}
use eye_d.Base.Assoc.{insert, erase, lookup-insert, lookup-insert_self, lookup-erase}
use eye_d.Engine.Db.Sql.{
  Text, TemplateRecord, MatchLog, Tables, is_known, is_reference, set_null, others, may_insert,
  upsert_identity, insert_template, insert_match, forget_templates, forget_identities,
  delete_templates, delete_row,
}

-- Every template names an identity, and what a row of the log refers to is there.
pub record IsValid {Q : Type 0} (t : Tables Q) : Type 0 where
  pub owners : All (λ e. is_known e.1.identity_id t.identities ≡ true) t.templates
  pub probes :
      All
        (λ row.
          (is_reference row.matched_template_id t.templates ≡ true)
          × (is_reference row.matched_identity_id t.identities ≡ true))
        t.match_log

is_known-insert :
    {V : Type 0} (k j : Text) (v : V) (m : List (Text × V))
    → is_known j m ≡ true
    → is_known j (insert k v m) ≡ true
unfolding is_known
is_known-insert k j v m h = ground (arith, lookup-insert k j v m)

is_known-insert_self :
    {V : Type 0} (k : Text) (v : V) (m : List (Text × V)) → is_known k (insert k v m) ≡ true
unfolding is_known
is_known-insert_self k v m = rw (lookup-insert_self k v m, is_known) refl

is_reference-insert :
    {V : Type 0} (r : Option Text) (k : Text) (v : V) (m : List (Text × V))
    → is_reference r m ≡ true
    → is_reference r (insert k v m) ≡ true
unfolding is_reference
is_reference-insert none k v m h = refl
is_reference-insert (some j) k v m h = is_known-insert k j v m h

is_reference-set_null :
    {V : Type 0} (m : List (Text × V)) (r : Option Text) → is_reference (set_null m r) m ≡ true
unfolding is_reference set_null
is_reference-set_null m none = refl
is_reference-set_null m (some k) = ground arith

known_elsewhere :
    {V : Type 0} (i j : Text) (m : List (Text × V))
    → same_bytes j i ≡ false
    → is_known j m ≡ true
    → is_known j (erase i m) ≡ true
unfolding is_known
known_elsewhere i j m ne h =
    ground (arith, lookup-erase i j m, same_bytes_iff j i, same_bytes_iff i j)

module _ {Q : Type 0} where
  owners-others :
      (i : Text) (ids : List (Text × Text)) (ts : List (Text × TemplateRecord Q))
      → All (λ e. is_known e.1.identity_id ids ≡ true) ts
      → All (λ e. is_known e.1.identity_id (erase i ids) ≡ true) (others i ts)
        × All (λ e. is_known e.1.identity_id ids ≡ true) (others i ts)
  unfolding others is_known
  owners-others i ids [] h = (tt, tt)
  owners-others i ids ((k, row) ∷ ts) h =
      let rest = owners-others i ids ts h.1 in
      elim (Bool-cases (same_bytes row.identity_id i)) [
        | inl e ↦ rw e rest
        | inr e ↦ rw e ((known_elsewhere i row.identity_id ids e h.0, rest.0), (h.0, rest.1))
      ]

  owners-insert :
      (k : Text) (row : TemplateRecord Q) (ids : List (Text × Text))
      (ts : List (Text × TemplateRecord Q))
      → is_known row.identity_id ids ≡ true
      → All (λ e. is_known e.1.identity_id ids ≡ true) ts
      → All (λ e. is_known e.1.identity_id ids ≡ true) (insert k row ts)
  unfolding insert
  owners-insert k row ids [] h all = (h, tt)
  owners-insert k row ids ((j, r) ∷ ts) h all = elim (Bool-cases (same_bytes j k)) [
    | inl e ↦ rw e (h, all.1)
    | inr e ↦ rw e (all.0, owners-insert k row ids ts h all.1)
  ]

  pub upsert_identity-IsValid :
      (i name : Text) (t : Tables Q) → IsValid t → IsValid (upsert_identity i name t)
  unfolding upsert_identity
  upsert_identity-IsValid i name t v = record {
    owners =
        All-imp _ (λ e h. is_known-insert i e.1.identity_id name t.identities h) t.templates
          v.owners;
    probes =
        All-imp _
          (λ row h. (h.0, is_reference-insert row.matched_identity_id i name t.identities h.1))
          t.match_log v.probes;
  }

  pub insert_template-IsValid :
      (k : Text) (row : TemplateRecord Q) (t t' : Tables Q)
      → IsValid t
      → insert_template k row t ≡ some t'
      → IsValid t'
  unfolding insert_template may_insert
  insert_template-IsValid k row t t' v e = elim (Bool-cases (may_insert k row t)) [
    | inl m ↦ subst IsValid (ground arith) (record {
      owners = owners-insert k row t.identities t.templates (ground arith) v.owners;
      probes =
          All-imp _ (λ p h. (is_reference-insert p.matched_template_id k row t.templates h.0, h.1))
            t.match_log v.probes;
    })
    | inr m ↦ absurd (ground arith)
  ]

  pub insert_match-IsValid :
      (row : MatchLog Q) (t t' : Tables Q) → IsValid t → insert_match row t ≡ some t' → IsValid t'
  unfolding insert_match
  insert_match-IsValid row t t' v e =
      let p = is_reference row.matched_template_id t.templates in
      let q = is_reference row.matched_identity_id t.identities in
      elim (Bool-cases (p && q)) [
        | inl m ↦
            subst IsValid {x = record t { match_log = row ∷ t.match_log }} (ground arith)
              (record { owners = v.owners; probes = ((ground arith, ground arith), v.probes) })
        | inr m ↦ absurd (ground arith)
      ]

  pub delete_templates-IsValid :
      (i : Text) (t : Tables Q) → IsValid t → IsValid (delete_templates i t)
  unfolding delete_templates forget_templates
  delete_templates-IsValid i t v = record {
    owners = (owners-others i t.identities t.templates v.owners).1;
    probes =
        All-map _ _
          (λ row h. (is_reference-set_null (others i t.templates) row.matched_template_id, h.1))
          t.match_log v.probes;
  }

  pub delete_row-IsValid : (i : Text) (t : Tables Q) → IsValid t → IsValid (delete_row i t)
  unfolding delete_row delete_templates forget_identities
  delete_row-IsValid i t v = record {
    owners = (owners-others i t.identities t.templates v.owners).0;
    probes =
        All-map _ _
          (λ row h. (h.0, is_reference-set_null (erase i t.identities) row.matched_identity_id)) _
          (delete_templates-IsValid i t v).probes;
  }

-- ===== src/Engine/Db/Sql.antt =====
-- The tables of config/init.sql and the SQL statements of iris-engine2/src/db.cpp on them. The keys are
-- UUIDs in the form in which the server prints them.
use eye_d.Base.{
  ℕ, suc, Bool, true, false, ◌&&◌, ◌||◌, not, List, [], ◌∷◌, Option, none, some, map, if◌then◌else◌,
  codes,
}
use eye_d.Base.Eq.{same_bytes, bytes_Eq}
use eye_d.Base.Assoc.{lookup, insert, erase}

abbrev pub Text : Type 0
Text = List ℕ

-- A row of `templates` behind its key.
pub record TemplateRecord (Q : Type 0) : Type 0 where
  pub identity_id : Text
  pub eye_side : Text
  pub iris_codes : List ℕ
  pub mask_codes : List ℕ
  pub width : ℕ
  pub height : ℕ
  pub n_scales : ℕ
  pub quality_score : Q
  pub device_id : Text

pub record MatchLog (Q : Type 0) : Type 0 where
  pub probe_frame_id : Text
  pub matched_template_id : Option Text
  pub matched_identity_id : Option Text
  pub hamming_distance : Q
  pub is_match : Bool
  pub device_id : Text
  pub latency_ms : ℕ

pub record Tables (Q : Type 0) : Type 0 where
  pub identities : List (Text × Text)
  pub templates : List (Text × TemplateRecord Q)
  pub match_log : List (MatchLog Q)

-- A row of the join of `templates` with `identities`.
pub record Joined (Q : Type 0) : Type 0 where
  pub template_id : Text
  pub row : TemplateRecord Q
  pub name : Text

unfoldable pub is_known : {V : Type 0} → Text → List (Text × V) → Bool
is_known k m = elim (lookup k m) [ none ↦ false | some v ↦ true ]

-- A reference may be NULL.
unfoldable pub is_reference : {V : Type 0} → Option Text → List (Text × V) → Bool
unfolding is_known
is_reference none m = true
is_reference (some k) m = is_known k m

-- ON DELETE SET NULL.
unfoldable pub set_null : {V : Type 0} → List (Text × V) → Option Text → Option Text
unfolding is_known
set_null m none = none
set_null m (some k) = if is_known k m then some k else none

module _ {Q : Type 0} where
  unfoldable pub join_rows : List (Text × TemplateRecord Q) → List (Text × Text) → List (Joined Q)
  join_rows [] ids = []
  join_rows ((template_id, row) ∷ ts) ids =
      let rest = join_rows ts ids in
      elim (lookup row.identity_id ids) [
        | none ↦ rest
        | some name ↦ record { template_id = template_id; row = row; name = name } ∷ rest
      ]

  unfoldable pub join : Tables Q → List (Joined Q)
  unfolding join_rows
  join t = join_rows t.templates t.identities

  -- INSERT INTO identities ... ON CONFLICT (identity_id) DO UPDATE SET name.
  unfoldable pub upsert_identity : Text → Text → Tables Q → Tables Q
  upsert_identity identity_id name t = record t {
    identities = insert identity_id name t.identities;
  }

  -- INSERT INTO templates, with the key, the reference and the CHECK on the side.
  unfoldable pub may_insert : Text → TemplateRecord Q → Tables Q → Bool
  unfolding is_known
  may_insert template_id row t =
      not (is_known template_id t.templates)
      && is_known row.identity_id t.identities
      && (same_bytes row.eye_side (codes "left") || same_bytes row.eye_side (codes "right"))

  unfoldable pub insert_template : Text → TemplateRecord Q → Tables Q → Option (Tables Q)
  unfolding may_insert
  insert_template template_id row t =
      if may_insert template_id row t
      then some (record t { templates = insert template_id row t.templates })
      else none

  unfoldable pub insert_match : MatchLog Q → Tables Q → Option (Tables Q)
  unfolding is_reference
  insert_match row t =
      if is_reference row.matched_template_id t.templates
        && is_reference row.matched_identity_id t.identities
      then some (record t { match_log = row ∷ t.match_log })
      else none

  unfoldable pub count_templates : Text → List (Text × TemplateRecord Q) → ℕ
  count_templates identity_id [] = 0
  count_templates identity_id ((k, row) ∷ ts) =
      let n = count_templates identity_id ts in
      if same_bytes row.identity_id identity_id then suc n else n

  unfoldable pub others : Text → List (Text × TemplateRecord Q) → List (Text × TemplateRecord Q)
  others identity_id [] = []
  others identity_id ((k, row) ∷ ts) =
      let rest = others identity_id ts in
      if same_bytes row.identity_id identity_id then rest else (k, row) ∷ rest

  unfoldable pub forget_templates : List (Text × TemplateRecord Q) → MatchLog Q → MatchLog Q
  unfolding set_null
  forget_templates ts row = record row { matched_template_id = set_null ts row.matched_template_id }

  unfoldable pub forget_identities : List (Text × Text) → MatchLog Q → MatchLog Q
  unfolding set_null
  forget_identities ids row = record row {
    matched_identity_id = set_null ids row.matched_identity_id;
  }

  -- DELETE FROM templates WHERE identity_id = $1.
  unfoldable pub delete_templates : Text → Tables Q → Tables Q
  unfolding others forget_templates
  delete_templates identity_id t =
      let rest = others identity_id t.templates in
      record t { templates = rest; match_log = map (forget_templates rest) t.match_log }

  -- DELETE FROM identities WHERE identity_id = $1, which cascades to the templates.
  unfoldable pub delete_row : Text → Tables Q → Tables Q
  unfolding delete_templates forget_identities
  delete_row identity_id t =
      let ids = erase identity_id t.identities in
      let t₁ = delete_templates identity_id t in
      record t₁ { identities = ids; match_log = map (forget_identities ids) t₁.match_log }

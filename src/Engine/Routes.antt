-- ===== src/Engine/Routes.antt =====
-- iris-engine2/src/routes_gallery.cpp, the handlers of /gallery, and the loading of the gallery in
-- iris-engine2/src/main.cpp, over the database of Engine.Db. The pictures of a code are a parameter.
pub mod Deletion
use eye_d.Base.{
  ℕ, Bool, true, false, not, List, [], ◌∷◌, Option, none, some, String, if◌then◌else◌, ltb, length,
}
use eye_d.Engine.Gallery.{Text, Matching, GalleryEntry, Gallery, add_metadata_only, remove}
use eye_d.Engine.Gallery.Groups.{IdentityInfo, list}
use eye_d.Engine.Db.Sql.{Tables}
use eye_d.Engine.Db.{
  Serializer, IrisTemplate, Libpq, Database, DbTemplate, TemplateRow, is_connected, reconnect,
  load_all_templates, load_template, delete_identity,
}

-- Templates are those of the database. The two flags tell what the server refuses.
pub record Context (D Q S M N C : Type 0) : Type 0 where
  pub gallery : Gallery D (IrisTemplate C) S M
  pub db : Database N
  pub tables : Tables Q
  pub smpc_active : Bool

pub record DeleteReply : Type 0 where
  pub deleted : Bool
  pub templates_removed : ℕ

pub record TemplateReply (C Q : Type 0) : Type 0 where
  pub row : TemplateRow C Q
  pub code_pictures : Option (Text × Text)
  pub smpc_protected : Bool

-- An answer with its status.
pub data TemplateOutcome (C Q : Type 0) : Type 0 where
  detail : ℕ → String → TemplateOutcome C Q
  found : TemplateReply C Q → TemplateOutcome C Q

module _ {D Q S M N C : Type 0} (w : Matching D (IrisTemplate C) S M) (s : Serializer C Q)
    (pq : Libpq N) (pictures : C → Text × Text) where
  unfoldable pub get_size : Context D Q S M N C → ℕ
  get_size ctx = length ctx.gallery.entries

  -- The array of objects that is written has just these fields.
  unfoldable pub get_list : Context D Q S M N C → List IdentityInfo
  unfolding list
  get_list ctx = list ctx.gallery

  unfoldable pub first_pictures : List C → Option (Text × Text)
  first_pictures [] = none
  first_pictures (c ∷ cs) = some (pictures c)

  unfoldable pub get_template :
      Bool → Text → Context D Q S M N C → TemplateOutcome C Q × Context D Q S M N C
  unfolding is_connected reconnect load_template first_pictures
  get_template refused template_id ctx =
      let db = if is_connected pq ctx.db then ctx.db else (reconnect pq ctx.db).1 in
      let ctx₁ = record ctx { db = db } in
      if not (is_connected pq db)
      then (detail 503 "Database not connected", ctx₁)
      else elim (load_template s pq db refused template_id ctx.tables) [
        | none ↦ (detail 404 "Template not found", ctx₁)
        | some row ↦ (
          found (record {
            row = row;
            code_pictures = first_pictures row.tmpl.iris_codes;
            smpc_protected = ctx.smpc_active;
          }),
          ctx₁,
        )
      ]

  -- The gallery first, and then the database, if it is connected.
  unfoldable pub delete_gallery :
      Bool → Bool → Text → Context D Q S M N C → DeleteReply × Context D Q S M N C
  unfolding remove is_connected delete_identity
  delete_gallery refused refused_row identity_id ctx =
      let (removed, gallery) = remove w identity_id ctx.gallery in
      let tables =
        if is_connected pq ctx.db
        then (delete_identity s pq ctx.db refused refused_row identity_id ctx.tables).1
        else ctx.tables in
      (
        record { deleted = ltb 0 removed; templates_removed = removed },
        record ctx { gallery = gallery; tables = tables },
      )

  unfoldable pub entry_of : DbTemplate C → GalleryEntry (IrisTemplate C)
  entry_of t = record {
    template_id = t.template_id;
    identity_id = t.identity_id;
    identity_name = t.identity_name;
    eye_side = t.eye_side;
    tmpl = t.tmpl;
  }

  unfoldable pub add_all :
      List (DbTemplate C) → Gallery D (IrisTemplate C) S M → Gallery D (IrisTemplate C) S M
  unfolding entry_of
  add_all [] g = g
  add_all (t ∷ ts) g = add_all ts (add_metadata_only w (entry_of t) g)

  -- What main puts into the gallery before it listens.
  unfoldable pub load_gallery :
      Bool → Database N → Tables Q → Gallery D (IrisTemplate C) S M → Gallery D (IrisTemplate C) S M
  unfolding add_all is_connected load_all_templates
  load_gallery refused db t g =
      if is_connected pq db then add_all (load_all_templates s pq db refused t) g else g

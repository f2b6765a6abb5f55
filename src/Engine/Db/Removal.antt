-- ===== src/Engine/Db/Removal.antt =====
-- What Database::delete_identity (iris-engine2/src/db.cpp) removes and what it leaves.
use eye_d.Base.{◌≡◌, refl, ◌≢◌, Bool, true, false, List, [], ◌∷◌, none, some, arith, if◌then◌else◌}
use eye_d.Base.Eq.{same_bytes, same_bytes_iff, bytes_Eq, same_self, same_ne}
use eye_d.Base.Assoc.{lookup, lookup-erase, lookup-erase_ne}
use eye_d.Engine.Db.Sql.{
  Text, TemplateRecord, Tables, count_templates, others, delete_templates, delete_row,
}
use eye_d.Engine.Db.{Serializer, Libpq, Database, is_connected, delete_identity}

module _ {Q : Type 0} where
  pub others-others :
      (i : Text) (ts : List (Text × TemplateRecord Q)) → others i (others i ts) ≡ others i ts
  unfolding others
  others-others i [] = refl
  others-others i ((k, row) ∷ ts) = ground (arith, others-others i ts)

  count_templates-others :
      (i j : Text) (ts : List (Text × TemplateRecord Q))
      → count_templates j (others i ts) ≡ (if same_bytes i j then 0 else count_templates j ts)
  unfolding others count_templates
  count_templates-others i j [] = ground arith
  count_templates-others i j ((k, row) ∷ ts) = ground (
    arith,
    count_templates-others i j ts,
    same_bytes_iff row.identity_id i,
    same_bytes_iff row.identity_id j,
    same_bytes_iff i j,
  )

  pub lookup-others :
      (i k : Text) (row : TemplateRecord Q) (ts : List (Text × TemplateRecord Q))
      → lookup k ts ≡ some row
      → row.identity_id ≢ i
      → lookup k (others i ts) ≡ some row
  unfolding lookup others
  lookup-others i k row [] h ne = h
  lookup-others i k row ((k', row') ∷ ts) h ne =
      ground
        (arith, lookup-others i k row ts, same_bytes_iff row'.identity_id i, same_bytes_iff k' k)

-- What a statement that removed identity `i` leaves of the tables `t`.
pub record IsRemoved {Q : Type 0} (i : Text) (t t' : Tables Q) : Type 0 where
  pub no_identity : lookup i t'.identities ≡ none
  pub no_templates : count_templates i t'.templates ≡ 0
  pub other_identities : (j : Text) → i ≢ j → lookup j t'.identities ≡ lookup j t.identities
  pub other_counts :
      (j : Text) → i ≢ j → count_templates j t'.templates ≡ count_templates j t.templates
  pub other_templates :
      (k : Text) (row : TemplateRecord Q)
      → lookup k t.templates ≡ some row
      → row.identity_id ≢ i
      → lookup k t'.templates ≡ some row

module _ {Q : Type 0} (i : Text) (t : Tables Q) where
  delete_row-IsRemoved : IsRemoved i t (delete_row i t)
  unfolding delete_row delete_templates
  delete_row-IsRemoved = record {
    no_identity = rw (lookup-erase i i t.identities, same_self i);
    no_templates = rw (count_templates-others i i t.templates, same_self i);
    other_identities = λ j ne. lookup-erase_ne i j t.identities ne;
    other_counts = λ j ne. rw (count_templates-others i j t.templates, same_ne i j ne);
    other_templates = λ k row h ne. lookup-others i k row t.templates h ne;
  }

  -- The cascade finds nothing more to delete behind the first statement.
  delete_row-delete_templates : IsRemoved i t (delete_row i (delete_templates i t))
  unfolding delete_row delete_templates
  delete_row-delete_templates = record {
    no_identity = rw (lookup-erase i i t.identities, same_self i);
    no_templates =
        rw (others-others i t.templates, count_templates-others i i t.templates, same_self i);
    other_identities = λ j ne. lookup-erase_ne i j t.identities ne;
    other_counts = λ j ne.
        rw (others-others i t.templates, count_templates-others i j t.templates, same_ne i j ne);
    other_templates =
        λ k row h ne. rw (others-others i t.templates) (lookup-others i k row t.templates h ne);
  }

module _ {C Q N : Type 0} (s : Serializer C Q) (pq : Libpq N) (db : Database N) where
  -- With a connection, and when the server carries out the second statement, delete_identity leaves
  -- neither the identity nor a template of it, whether the first statement was carried out or not; every
  -- other identity and every template of another one stays as it is. It returns the number of the
  -- identity's templates, or 0 where the first statement was refused.
  pub delete_identity_lem :
      (refused : Bool) (i : Text) (t : Tables Q)
      → is_connected pq db ≡ true
      → IsRemoved i t (delete_identity s pq db refused false i t).1
        × ((delete_identity s pq db refused false i t).0
            ≡ (if refused then 0 else count_templates i t.templates))
  unfolding delete_identity
  delete_identity_lem true i t c = rw c (delete_row-IsRemoved i t, refl)
  delete_identity_lem false i t c = rw c (delete_row-delete_templates i t, refl)

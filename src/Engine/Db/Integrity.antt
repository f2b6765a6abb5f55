-- ===== src/Engine/Db/Integrity.antt =====
-- The references between the tables of config/init.sql, under every call of the Database class
-- (iris-engine2/src/db.cpp).
use eye_d.Base.{
  length, ◌%◌, ◌^◌, ℕ, ◌≡◌, refl, inl, inr, Bool, true, false, not, List, [], Option, none, some,
  if◌then◌else◌, ◌&&◌, arith, Bool-cases, subst,
}
use eye_d.Base.Eq.{bytes_Eq}
use eye_d.Engine.Db.Sql.{TemplateRecord, Text, Tables, delete_templates, delete_row}
use eye_d.Engine.Db.{
  Serializer, Libpq, Database, IrisTemplate, is_connected, exec, ensure_identity, persist_template,
  insert_sent, is_sendable, record_for, serialize_codes, persist_encrypted_template,
  delete_identity, log_match,
}
use eye_d.Engine.Db.Statements.{
  IsValid, upsert_identity-IsValid, insert_template-IsValid, insert_match-IsValid,
  delete_templates-IsValid, delete_row-IsValid,
}

module _ {Q : Type 0} where
  insert_sent-IsValid :
      (k : Text) (row : TemplateRecord Q) (t t' : Tables Q)
      → IsValid t
      → insert_sent k row t ≡ some t'
      → IsValid t'
  unfolding insert_sent
  insert_sent-IsValid k row t t' v e =
      elim (Bool-cases (is_sendable row.iris_codes && is_sendable row.mask_codes)) [
        | inl b ↦ insert_template-IsValid k row t t' v (rw b at e)
        | inr b ↦ absurd (ground (arith, e, b))
      ]

  exec-IsValid :
      {C N : Type 0} (s : Serializer C Q) (pq : Libpq N) (db : Database N) (refused : Bool)
      (result : Option (Tables Q)) (t : Tables Q)
      → IsValid t
      → ((t' : Tables Q) → result ≡ some t' → IsValid t')
      → IsValid (exec s pq db refused result t).1
  unfolding exec
  exec-IsValid s pq db true result t v h = v
  exec-IsValid s pq db false none t v h = v
  exec-IsValid s pq db false (some t') t v h = h t' refl

  call-IsValid :
      {C N : Type 0} (s : Serializer C Q) (pq : Libpq N) (db : Database N) (refused : Bool)
      (result : Option (Tables Q)) (t : Tables Q)
      → IsValid t
      → ((t' : Tables Q) → result ≡ some t' → IsValid t')
      → IsValid (if not (is_connected pq db) then (false, t) else exec s pq db refused result t).1
  call-IsValid s pq db refused result t v h = elim (Bool-cases (is_connected pq db)) [
    | inl c ↦ rw c (exec-IsValid s pq db refused result t v h)
    | inr c ↦ rw c v
  ]

  delete_identity-IsValid :
      {C N : Type 0} (s : Serializer C Q) (pq : Libpq N) (db : Database N)
      (refused refused_row : Bool) (i : Text) (t : Tables Q)
      → IsValid t
      → IsValid (delete_identity s pq db refused refused_row i t).1
  unfolding delete_identity
  delete_identity-IsValid s pq db refused refused_row i t v =
      elim (Bool-cases (is_connected pq db)) [
        | inl c ↦ rw c (rest refused refused_row)
        | inr c ↦ rw c v
      ]
    where
      rest :
          (refused refused_row : Bool)
          → IsValid (
              if refused_row
              then (if refused then t else delete_templates i t)
              else delete_row i (if refused then t else delete_templates i t))
      rest true true = v
      rest true false = delete_row-IsValid i t v
      rest false true = delete_templates-IsValid i t v
      rest false false = delete_row-IsValid i _ (delete_templates-IsValid i t v)

-- The tables that the calls of the class can make of the empty ones, under any connection and with any
-- refusals of the server.
module _ {C Q N : Type 0} (s : Serializer C Q) (pq : Libpq N) where
  pub data Reachable : Tables Q → Type 0 where
    empty : Reachable (record { identities = []; templates = []; match_log = [] })
    ensured :
        (db : Database N) (refused : Bool) (identity_id name : Text) {t : Tables Q}
        → Reachable t
        → Reachable (ensure_identity s pq db refused identity_id name t).1
    persisted :
        (db : Database N) (refused : Bool) (template_id identity_id eye_side : Text)
        (tmpl : IrisTemplate C) (device_id : Text) {t : Tables Q}
        → Reachable t
        → Reachable
            (persist_template s pq db refused template_id identity_id eye_side tmpl device_id t).1
    persisted_encrypted :
        (db : Database N) (refused : Bool) (template_id identity_id eye_side : Text)
        (iris_blob mask_blob : List ℕ) (n_scales : ℕ) (device_id : Text) {t : Tables Q}
        → Reachable t
        → Reachable
            (persist_encrypted_template s pq db refused template_id identity_id eye_side iris_blob
              mask_blob n_scales device_id t).1
    deleted :
        (db : Database N) (refused refused_row : Bool) (identity_id : Text) {t : Tables Q}
        → Reachable t
        → Reachable (delete_identity s pq db refused refused_row identity_id t).1
    logged :
        (db : Database N) (refused : Bool) (frame_id template_id identity_id : Text) (distance : Q)
        (is_match : Bool) (device_id : Text) (latency_ms : ℕ) {t : Tables Q}
        → Reachable t
        → Reachable (
            log_match s pq db refused frame_id template_id identity_id distance is_match device_id
              latency_ms t)

  -- Whatever calls of the class are made, in whatever order and with whatever refusals of the server,
  -- every template in the tables names an identity that is there, and every row of the match log refers
  -- to a template and to an identity that are there, or to NULL.
  pub Reachable-IsValid : {t : Tables Q} → Reachable t → IsValid t
  unfolding ensure_identity persist_template persist_encrypted_template delete_identity log_match
  Reachable-IsValid empty = record { owners = tt; probes = tt }
  Reachable-IsValid (ensured db refused i name {t} r) =
      let v = Reachable-IsValid r in
      call-IsValid s pq db refused _ t v
        (λ t' e. subst IsValid (cc e) (upsert_identity-IsValid i name t v))
  Reachable-IsValid (persisted db refused k i side tmpl device {t} r) =
      let v = Reachable-IsValid r in
      call-IsValid s pq db refused _ t v (λ t' e.
        insert_sent-IsValid k
          (record_for s i side (serialize_codes s tmpl.iris_codes)
            (serialize_codes s tmpl.mask_codes) (length tmpl.iris_codes % 2 ^ 32) device)
          t t' v e)
  Reachable-IsValid (persisted_encrypted db refused k i side iris mask n device {t} r) =
      let v = Reachable-IsValid r in
      call-IsValid s pq db refused _ t v
        (λ t' e. insert_sent-IsValid k (record_for s i side iris mask n device) t t' v e)
  Reachable-IsValid (deleted db refused refused_row i {t} r) =
      delete_identity-IsValid s pq db refused refused_row i t (Reachable-IsValid r)
  Reachable-IsValid (logged db refused f k i d m device l {t} r) =
      let v = Reachable-IsValid r in
      elim (Bool-cases (is_connected pq db)) [
        | inl c ↦
            rw c (exec-IsValid s pq db refused _ t v (λ t' e. insert_match-IsValid _ t t' v e))
        | inr c ↦ rw c v
      ]

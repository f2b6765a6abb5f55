-- ===== src/Engine/Db/Listing.antt =====
-- What the loads of all templates (iris-engine2/src/db.cpp) list behind an enrolment, in the clear and
-- encrypted by iris-engine2/src/fhe.cpp.
use eye_d.Base.{
  ℕ, ◌≡◌, ◌<◌, ◌^◌, ◌⊎◌, refl, ap, inl, inr, true, false, List, [], ◌∷◌, ◌++◌, none, some, arith,
  Bool-cases, Option-cases, codes, length, map, get_elem?, zero, suc, subst, ◌∙◌, ◌+◌,
}
use eye_d.Base.Eq.{same_bytes, bytes_Eq}
use eye_d.Base.Assoc.{lookup, insert}
use eye_d.Engine.Db.Sql.{Text, TemplateRecord, Tables, Joined, join_rows, join, insert_template}
use eye_d.Engine.Db.{
  Serializer, Libpq, Database, IrisTemplate, RawTemplate, is_connected, exec, record_for,
  is_sendable, insert_sent, raw_template, load_all_raw_templates, persist_encrypted_template,
}
use eye_d.Engine.Db.RoundTrip.{may_insert_fits}
use eye_d.Engine.Fhe.{Library, PackedIrisCode, encrypt_template, decrypt_template}
use eye_d.Engine.Fhe.RoundTrip.{IsReversible, ready, decrypt_template-encrypt_template}

module _ {Q : Type 0} where
  -- A row under a new key comes last.
  join_rows-insert :
      (k name : Text) (row : TemplateRecord Q) (ts : List (Text × TemplateRecord Q))
      (ids : List (Text × Text))
      → lookup k ts ≡ none
      → lookup row.identity_id ids ≡ some name
      → join_rows (insert k row ts) ids
        ≡ join_rows ts ids ++ (record { template_id = k; row = row; name = name } ∷ [])
  unfolding join_rows insert lookup
  join_rows-insert k name row [] ids free there = rw (there, join_rows) refl
  join_rows-insert k name row ((j, r) ∷ ts) ids free there = elim (Bool-cases (same_bytes j k)) [
    | inl e ↦ absurd (ground arith)
    | inr e ↦
        let ih = join_rows-insert k name row ts ids (ground arith) there in
        elim (Option-cases (lookup r.identity_id ids)) [
          | inl o ↦ rw (e, o, join_rows) ih
          | inr (owner, o) ↦
              rw (e, o, join_rows) (ap (◌∷◌ (record { template_id = j; row = r; name = owner })) ih)
        ]
  ]

get_elem?-map {ℓ κ} :
    {A : Type ℓ} {B : Type κ} (f : A → B) (xs : List A) (k : ℕ) (x : A)
    → get_elem? xs k ≡ some x
    → get_elem? (map f xs) k ≡ some (f x)
get_elem?-map f [] k x e = cc
get_elem?-map f (y ∷ ys) zero x e = ground (arith, e)
get_elem?-map f (y ∷ ys) (suc k) x e = get_elem?-map f ys k x e

get_elem?-of_map {ℓ κ} :
    {A : Type ℓ} {B : Type κ} (f : A → B) (xs : List A) (k : ℕ) (y : B)
    → get_elem? (map f xs) k ≡ some y
    → (x : A) × (get_elem? xs k ≡ some x) × (f x ≡ y)
get_elem?-of_map f [] k y e = absurd (ground (arith, e))
get_elem?-of_map f (x ∷ xs) zero y e = (x, refl, ground (arith, e))
get_elem?-of_map f (x ∷ xs) (suc k) y e = get_elem?-of_map f xs k y e

get_elem?-append_left {ℓ} :
    {A : Type ℓ} (xs ys : List A) (k : ℕ) (x : A)
    → get_elem? xs k ≡ some x
    → get_elem? (xs ++ ys) k ≡ some x
get_elem?-append_left [] ys k x e = absurd (ground (arith, e))
get_elem?-append_left (z ∷ zs) ys zero x e = e
get_elem?-append_left (z ∷ zs) ys (suc k) x e = get_elem?-append_left zs ys k x e

get_elem?-last {ℓ} :
    {A : Type ℓ} (xs : List A) (x : A) → get_elem? (xs ++ (x ∷ [])) (length xs) ≡ some x
get_elem?-last [] x = refl
get_elem?-last (z ∷ zs) x = get_elem?-last zs x

get_elem?-snoc {ℓ} :
    {A : Type ℓ} (xs : List A) (x y : A) (k : ℕ)
    → get_elem? (xs ++ (x ∷ [])) k ≡ some y
    → (get_elem? xs k ≡ some y) ⊎ (x ≡ y)
get_elem?-snoc [] x y zero e = inr (ground (arith, e))
get_elem?-snoc [] x y (suc k) e = absurd (ground (arith, e))
get_elem?-snoc (z ∷ zs) x y zero e = inl e
get_elem?-snoc (z ∷ zs) x y (suc k) e = get_elem?-snoc zs x y k e

-- The entry stands somewhere in the list.
abbrev pub Has {ℓ} : {A : Type ℓ} → List A → A → Type ℓ
Has xs x = (k : ℕ) × (get_elem? xs k ≡ some x)

module _ {C Q N : Type 0} (s : Serializer C Q) (pq : Libpq N) (db : Database N)
    (connected : is_connected pq db ≡ true) where
  listed :
      (rows : List (Joined Q)) (row : Joined Q)
      → Has rows row
      → Has (map raw_template (s.order rows)) (raw_template row)
  listed rows row (k, e) =
      let (j, q) = s.order_there rows k row e in
      (j, get_elem?-map raw_template (s.order rows) j row q)

  was_listed :
      (rows : List (Joined Q)) (raw : RawTemplate)
      → Has (map raw_template (s.order rows)) raw
      → (row : Joined Q) × Has rows row × (raw_template row ≡ raw)
  was_listed rows raw (k, e) =
      let (row, q, same) = get_elem?-of_map raw_template (s.order rows) k raw e in
      (row, s.order_back rows k row q, same)

  -- Over a connection, an encrypted template under a key that is free, for an identity that is there and
  -- a side that is left or right, with blobs that the server takes, is persisted; load_all_raw_templates
  -- then lists it, with both blobs as they were given, and besides it just what it listed before.
  pub load_all_raw_templates-persist_encrypted_template :
      (k i name side : Text) (iris_blob mask_blob : List ℕ) (n_scales : ℕ) (device : Text)
      (t : Tables Q)
      → lookup k t.templates ≡ none
      → lookup i t.identities ≡ some name
      → (side ≡ codes "left") ⊎ (side ≡ codes "right")
      → (is_sendable iris_blob ≡ true) × (is_sendable mask_blob ≡ true)
      → let raw : RawTemplate = record {
        template_id = k;
        identity_id = i;
        identity_name = name;
        eye_side = side;
        iris_blob = iris_blob;
        mask_blob = mask_blob;
        n_scales = n_scales;
      } in
        let before = load_all_raw_templates s pq db false t in
        let after =
          load_all_raw_templates s pq db false
            (persist_encrypted_template s pq db false k i side iris_blob mask_blob n_scales device
              t).1 in
        Has after raw
        × ((r : RawTemplate) → Has before r → Has after r)
        × ((r : RawTemplate) → Has after r → Has before r ⊎ (raw ≡ r))
  unfolding load_all_raw_templates persist_encrypted_template insert_sent insert_template exec join
      record_for raw_template
  load_all_raw_templates-persist_encrypted_template k i name side iris_blob mask_blob n device t
        free there sided sent =
      let row = record_for s i side iris_blob mask_blob n device in
      let rows = join_rows t.templates t.identities in
      let new : Joined Q = record { template_id = k; row = row; name = name } in
      rw
        (
          connected,
          sent.0,
          sent.1,
          may_insert_fits k row name t free there sided,
          join_rows-insert k name row t.templates t.identities free there,
        )
        (
          listed (rows ++ (new ∷ [])) new (length rows, get_elem?-last rows new),
          λ r h.
              let (old, (j, e), same) = was_listed rows r h in
              subst (Has (map raw_template (s.order (rows ++ (new ∷ []))))) same (
                listed (rows ++ (new ∷ [])) old (j, get_elem?-append_left rows (new ∷ []) j old e)),
          λ r h.
              let (old, (j, e), same) = was_listed (rows ++ (new ∷ [])) r h in
              elim (get_elem?-snoc rows new old j e) [
                | inl q ↦
                    inl
                      (subst (Has (map raw_template (s.order rows))) same (listed rows old (j, q)))
                | inr q ↦ inr (ap raw_template q ∙ same)
              ],
        )

below_1_gb : (blob : List ℕ) → is_sendable blob ≡ true → length blob < 2 ^ 64
unfolding is_sendable
below_1_gb blob h = let small : length blob + 4 < 2 ^ 30 = ground arith in omega (arith, small)

module _ {C Q N X K E B D F : Type 0} (s : Serializer C Q) (pq : Libpq N) (db : Database N)
    (connected : is_connected pq db ≡ true) (lib : Library X K E B D F) (ctx : X)
    (l : IsReversible lib ctx) where
  -- Over a connection, and with a context that is lossless, a template of one to 2 ^ 31 - 1 scales whose
  -- encrypted blobs the server takes, persisted encrypted under a key that is free, for an identity that is
  -- there and a side that is left or right, is among what load_all_raw_templates lists, in whatever order
  -- the server gives the rows; besides it just what was listed before is; and its blob decrypts to the
  -- code bits of every scale and, where there is a mask for every scale, of every mask.
  pub decrypt_template-persist_encrypted_template :
      (k i name side device : Text) (tmpl : IrisTemplate (PackedIrisCode B)) (t : Tables Q)
      → lookup k t.templates ≡ none
      → lookup i t.identities ≡ some name
      → (side ≡ codes "left") ⊎ (side ≡ codes "right")
      → 0 < length tmpl.iris_codes
      → length tmpl.iris_codes < 2 ^ 31
      → (is_sendable (encrypt_template lib (ready lib ctx l) tmpl).0 ≡ true)
        × (is_sendable (encrypt_template lib (ready lib ctx l) tmpl).1 ≡ true)
      → let blobs = encrypt_template lib (ready lib ctx l) tmpl in
        let before = load_all_raw_templates s pq db false t in
        let after =
          load_all_raw_templates s pq db false
            (persist_encrypted_template s pq db false k i side blobs.0 blobs.1
              (length tmpl.iris_codes)
              device
              t).1 in
        (raw : RawTemplate) × (back : IrisTemplate (PackedIrisCode B)) × (Has after raw
          × ((r : RawTemplate) → Has before r → Has after r)
          × ((r : RawTemplate) → Has after r → Has before r ⊎ (raw ≡ r)))
        × (raw.template_id ≡ k)
        × (raw.identity_id ≡ i)
        × (decrypt_template lib (ready lib ctx l) raw.iris_blob ≡ some back)
        × (map (λ c. c.code_bits) back.iris_codes ≡ map (λ c. c.code_bits) tmpl.iris_codes)
        × (length tmpl.mask_codes ≡ length tmpl.iris_codes
            → map (λ c. c.code_bits) back.mask_codes ≡ map (λ c. c.code_bits) tmpl.mask_codes)
  decrypt_template-persist_encrypted_template k i name side device tmpl t free there sided one few
        sent =
      let blobs = encrypt_template lib (ready lib ctx l) tmpl in
      let restored =
        decrypt_template-encrypt_template lib ctx l tmpl one (omega (arith, few))
          (below_1_gb _ sent.0) in
      (
        record {
          template_id = k;
          identity_id = i;
          identity_name = name;
          eye_side = side;
          iris_blob = blobs.0;
          mask_blob = blobs.1;
          n_scales = length tmpl.iris_codes;
        },
        restored.0,
        load_all_raw_templates-persist_encrypted_template s pq db connected k i name side blobs.0
            blobs.1 (length tmpl.iris_codes) device t free there sided sent,
        refl,
        refl,
        restored.1,
        restored.2,
        restored.3,
      )

-- ===== src/Engine/Db/RoundTrip.antt =====
-- What the Database class (iris-engine2/src/db.cpp) reads back of what it wrote.
use eye_d.Base.{
  ℕ, ◌⊎◌, ◌≤◌, ◌<◌, ◌≡◌, refl, ap, zero, suc, inl, inr, true, false, List, [], ◌∷◌, ◌++◌, none,
  some, arith, leb, codes, length, take, drop, length-append, take-append, drop-append,
  append_assoc, subst,
}
use eye_d.Base.Eq.{bytes_Eq}
use eye_d.Base.Assoc.{lookup}
use eye_d.Engine.Db.Sql.{Text, TemplateRecord, Tables, is_known, may_insert}
use eye_d.Engine.Db.{
  Serializer, Libpq, Database, IrisTemplate, TemplateRow, serialize_codes, keep_code,
  deserialize_loop, deserialize_codes, is_connected, record_for, is_sendable,
}

-- What the iris library documents of its serializer: every code makes kBinarySize bytes, which are not
-- none, and from them the code again.
pub record IsLossless {C Q : Type 0} (s : Serializer C Q) : Type 0 where
  pub some_bytes : 0 < s.k_size
  pub size : (c : C) → length (s.to_binary c) ≡ s.k_size
  pub back : (c : C) → s.from_binary (s.to_binary c) ≡ some c

module _ {C Q : Type 0} (s : Serializer C Q) (lossless : IsLossless s) where
  deserialize_loop-to_binary :
      (c : C) (rest : List ℕ) (fuel : ℕ)
      → deserialize_loop s (suc fuel) (s.to_binary c ++ rest) ≡ c ∷ deserialize_loop s fuel rest
  unfolding deserialize_loop keep_code
  deserialize_loop-to_binary c rest fuel =
      let b = s.to_binary c in
      let fits : leb s.k_size (length (b ++ rest)) ≡ true =
        ground (arith, length-append b rest, lossless.size c) in
      let taken : take s.k_size (b ++ rest) ≡ b =
        subst (λ n. take n (b ++ rest) ≡ b) (lossless.size c) (take-append b rest) in
      let dropped : drop s.k_size (b ++ rest) ≡ rest =
        subst (λ n. drop n (b ++ rest) ≡ rest) (lossless.size c) (drop-append b rest) in
      rw (fits, taken, dropped, lossless.back c) refl

  deserialize_loop_short :
      (tail : List ℕ) (fuel : ℕ) → length tail < s.k_size → deserialize_loop s fuel tail ≡ []
  unfolding deserialize_loop
  deserialize_loop_short tail zero short = refl
  deserialize_loop_short tail (suc fuel) short =
      let stops : leb s.k_size (length tail) ≡ false = ground arith in rw stops refl

  deserialize_loop-serialize_codes :
      (cs : List C) (tail : List ℕ) (fuel : ℕ)
      → length tail < s.k_size
      → length (serialize_codes s cs ++ tail) ≤ fuel
      → deserialize_loop s fuel (serialize_codes s cs ++ tail) ≡ cs
  unfolding serialize_codes
  deserialize_loop-serialize_codes [] tail fuel short enough =
      deserialize_loop_short tail fuel short
  deserialize_loop-serialize_codes (c ∷ cs) tail zero short enough = absurd (
      omega (
        arith,
        length-append (s.to_binary c ++ serialize_codes s cs) tail,
        length-append (s.to_binary c) (serialize_codes s cs),
        lossless.size c,
        lossless.some_bytes,
        enough,
      ))
  deserialize_loop-serialize_codes (c ∷ cs) tail (suc fuel) short enough =
      let rest = serialize_codes s cs ++ tail in
      let split = append_assoc (s.to_binary c) (serialize_codes s cs) tail in
      let left_over : length rest ≤ fuel = omega (
        arith,
        ap length split,
        length-append (s.to_binary c) rest,
        lossless.size c,
        lossless.some_bytes,
        enough,
      ) in
      rw (split, deserialize_loop-to_binary c rest fuel)
        (ap (◌∷◌ c) (deserialize_loop-serialize_codes cs tail fuel short left_over))

  -- A trailing part of a chunk is left aside.
  pub deserialize_codes-serialize_codes :
      (cs : List C) (tail : List ℕ)
      → length tail < s.k_size
      → deserialize_codes s (serialize_codes s cs ++ tail) ≡ cs
  unfolding deserialize_codes
  deserialize_codes-serialize_codes cs tail short =
      deserialize_loop-serialize_codes cs tail _ short (omega arith)

pub may_insert_fits :
    {Q : Type 0} (k : Text) (row : TemplateRecord Q) (name : Text) (t : Tables Q)
    → lookup k t.templates ≡ none
    → lookup row.identity_id t.identities ≡ some name
    → (row.eye_side ≡ codes "left") ⊎ (row.eye_side ≡ codes "right")
    → may_insert k row t ≡ true
unfolding may_insert is_known
may_insert_fits k row name t free there (inl e) = rw (free, there, e, may_insert, is_known) refl
may_insert_fits k row name t free there (inr e) = rw (free, there, e, may_insert, is_known) refl

-- The row of a template that was enrolled in the clear.
abbrev pub plain_row :
    {C Q : Type 0}
    → Serializer C Q
    → Text
    → Text
    → Text
    → Text
    → List C
    → List C
    → Text
    → TemplateRow C Q
plain_row s template_id identity_id name eye_side iris mask device_id = record {
  template_id = template_id;
  identity_id = identity_id;
  identity_name = name;
  eye_side = eye_side;
  width = 512;
  height = 16;
  n_scales = length iris;
  quality_score = s.zero_quality;
  device_id = device_id;
  tmpl = record { iris_codes = iris; mask_codes = mask; iris_code_version = codes "v2.0" };
  is_encrypted = false;
}

module _ {C Q N : Type 0} (s : Serializer C Q) (lossless : IsLossless s) (pq : Libpq N)
    (db : Database N) (connected : is_connected pq db ≡ true) where
  plain_record : Text → Text → Text → IrisTemplate C → TemplateRecord Q
  plain_record i side device tmpl =
      record_for s i side (serialize_codes s tmpl.iris_codes) (serialize_codes s tmpl.mask_codes)
        (length tmpl.iris_codes) device

  -- Both lists of codes make a BYTEA value that the server takes.
  abbrev pub IsSendable : IrisTemplate C → Type 0
  IsSendable tmpl =
      (is_sendable (serialize_codes s tmpl.iris_codes) ≡ true)
      × (is_sendable (serialize_codes s tmpl.mask_codes) ≡ true)

-- ===== src/Engine/Fhe.antt =====
-- iris-engine2/src/fhe.cpp and fhe.h, compiled with IRIS_HAS_FHE. The iris library's context, keys and
-- encrypted templates are parameters, and so are the files of the key directory.
pub mod Spans
pub mod RoundTrip
pub mod Keys
use eye_d.Base.{
  ℕ, ◌+◌, ◌*◌, ◌/◌, ◌%◌, ◌^◌, zero, suc, Bool, true, false, ◌&&◌, ◌||◌, not, List, [], ◌∷◌, ◌++◌,
  Option, none, some, if◌then◌else◌, ltb, leb, codes, is_empty, length, take, drop,
}
use eye_d.Base.Int.{ℤ, pos}
use eye_d.Engine.Db.{IrisTemplate}
use eye_d.Engine.Db.Sql.{Text}

-- iris::PackedIrisCode.
pub record PackedIrisCode (B : Type 0) : Type 0 where
  pub code_bits : B
  pub mask_bits : B

-- A library call: its value, an error, or an exception.
pub data Called (A : Type 0) : Type 0 where
  done : A → Called A
  error threw : Called A

-- Contexts `X`, key bundles `K`, encrypted templates `E`, bits `B`, distances `D`, and the files `F`.
pub record Library (X K E B D F : Type 0) : Type 0 where
  pub create : Called X
  pub exists : Text → F → Called Bool
  pub load : Text → X → F → Called K
  pub load_keys : K → X → Called (Unit {0}) × X
  pub generate_keys : X → Called (Unit {0}) × X
  pub generate : X → Called K
  pub save : Text → X → K → F → Called (Unit {0}) × F
  pub encrypt : X → PackedIrisCode B → Option E
  pub serialize : E → Option (List ℕ)
  pub deserialize : X → List ℕ → Option E
  pub decrypt : X → E → Option (PackedIrisCode B)
  pub no_bits : B
  pub match_encrypted : X → E → E → Option E
  pub decrypt_result : X → E → Option D
  pub match_with_rotation : X → PackedIrisCode B → PackedIrisCode B → ℤ → Option (D × ℤ)
  pub one : D

-- A method of an active manager uses its context; that it has one is the invariant of Keys.
pub record FheManager (X : Type 0) : Type 0 where
  pub ctx : Option X
  pub active : Bool

unfoldable pub active_ctx : {X : Type 0} → FheManager X → Option X
active_ctx m = if m.active then m.ctx else none

-- memcpy between a number and its bytes, the low byte first.
unfoldable pub to_bytes : ℕ → ℕ → List ℕ
to_bytes zero v = []
to_bytes (suc n) v = v % 256 ∷ to_bytes n (v / 256)

unfoldable pub from_bytes : ℕ → List ℕ → ℕ
from_bytes zero bs = 0
from_bytes (suc n) [] = 0
from_bytes (suc n) (b ∷ bs) = b + 256 * from_bytes n bs

module _ {X K E B D F : Type 0} (lib : Library X K E B D F) where
  unfoldable pub save_keys : Text → X → F → Called K → Called (Unit {0}) × F
  save_keys key_dir ctx files threw = (threw, files)
  save_keys key_dir ctx files error = (done tt, files)
  save_keys key_dir ctx files (done bundle) = lib.save key_dir ctx bundle files

  -- A failure to save is a warning; only an exception counts.
  unfoldable pub activate : X → FheManager X → Called (Unit {0}) × F → Bool × FheManager X × F
  activate ctx m (threw, files) = (false, m, files)
  activate ctx m (error, files) = (true, record { ctx = some ctx; active = true }, files)
  activate ctx m (done u, files) = (true, record { ctx = some ctx; active = true }, files)

  unfoldable pub keep_keys :
      Text → F → FheManager X → Called (Unit {0}) × X → Bool × FheManager X × F
  unfolding save_keys activate
  keep_keys key_dir files m (threw, ctx) = (false, record m { ctx = some ctx }, files)
  keep_keys key_dir files m (error, ctx) = (false, record m { ctx = some ctx }, files)
  keep_keys key_dir files m (done u, ctx) =
      let saved =
        if is_empty key_dir
        then (done tt, files)
        else save_keys key_dir ctx files (lib.generate ctx) in
      activate ctx (record m { ctx = some ctx }) saved

  unfoldable pub fresh_keys : Text → X → F → FheManager X → Bool × FheManager X × F
  unfolding keep_keys
  fresh_keys key_dir ctx files m = keep_keys key_dir files m (lib.generate_keys ctx)

  unfoldable pub restore : F → FheManager X → Called (Unit {0}) × X → Bool × FheManager X × F
  restore files m (threw, ctx) = (false, record m { ctx = some ctx }, files)
  restore files m (error, ctx) = (false, record m { ctx = some ctx }, files)
  restore files m (done u, ctx) = (true, record { ctx = some ctx; active = true }, files)

  unfoldable pub use_bundle : Text → X → F → FheManager X → Called K → Bool × FheManager X × F
  unfolding restore fresh_keys
  use_bundle key_dir ctx files m threw = (false, record m { ctx = some ctx }, files)
  use_bundle key_dir ctx files m error = fresh_keys key_dir ctx files m
  use_bundle key_dir ctx files m (done bundle) = restore files m (lib.load_keys bundle ctx)

  unfoldable pub find_keys : Text → X → F → FheManager X → Called Bool → Bool × FheManager X × F
  unfolding use_bundle fresh_keys
  find_keys key_dir ctx files m threw = (false, record m { ctx = some ctx }, files)
  find_keys key_dir ctx files m error = (false, record m { ctx = some ctx }, files)
  find_keys key_dir ctx files m (done there) =
      if there
      then use_bundle key_dir ctx files m (lib.load key_dir ctx files)
      else fresh_keys key_dir ctx files m

  unfoldable pub with_context : Text → F → FheManager X → Called X → Bool × FheManager X × F
  unfolding find_keys fresh_keys
  with_context key_dir files m threw = (false, m, files)
  with_context key_dir files m error = (false, m, files)
  with_context key_dir files m (done ctx) =
      if is_empty key_dir
      then fresh_keys key_dir ctx files m
      else find_keys key_dir ctx files m (lib.exists key_dir files)

  unfoldable pub initialize : Text → F → FheManager X → Bool × FheManager X × F
  unfolding with_context
  initialize key_dir files m = with_context key_dir files m lib.create

  unfoldable pub seal : X → PackedIrisCode B → Option (List ℕ)
  seal ctx code = elim (lib.encrypt ctx code) [ none ↦ none | some enc ↦ lib.serialize enc ]

  unfoldable pub encrypt_and_serialize : FheManager X → PackedIrisCode B → List ℕ
  unfolding active_ctx seal
  encrypt_and_serialize m code = elim (active_ctx m) [
    | none ↦ []
    | some ctx ↦ elim (seal ctx code) [ none ↦ [] | some ser ↦ ser ]
  ]

  -- The mask of a scale is the code of its mask, where the template has one.
  unfoldable pub combine : PackedIrisCode B → List (PackedIrisCode B) → PackedIrisCode B
  combine iris [] = record { code_bits = iris.code_bits; mask_bits = iris.mask_bits }
  combine iris (mask ∷ masks) = record { code_bits = iris.code_bits; mask_bits = mask.code_bits }

  unfoldable pub frame : List ℕ → List ℕ
  unfolding to_bytes
  frame ser = to_bytes 8 (length ser) ++ ser

  unfoldable pub encrypt_scales :
      X → List (PackedIrisCode B) → List (PackedIrisCode B) → Option (List ℕ)
  unfolding combine seal frame
  encrypt_scales ctx [] masks = some []
  encrypt_scales ctx (iris ∷ irises) masks =
      let rest = encrypt_scales ctx irises (drop 1 masks) in
      elim (seal ctx (combine iris masks)) [
        | none ↦ none
        | some ser ↦ elim rest [ none ↦ none | some blob ↦ some (frame ser ++ blob) ]
      ]

  unfoldable pub encrypt_template : FheManager X → IrisTemplate (PackedIrisCode B) → List ℕ × List ℕ
  unfolding active_ctx encrypt_scales to_bytes
  encrypt_template m tmpl = elim (active_ctx m) [
    | none ↦ ([], [])
    | some ctx ↦ elim (encrypt_scales ctx tmpl.iris_codes tmpl.mask_codes) [
      | none ↦ ([], [])
      | some blob ↦ (to_bytes 4 (length tmpl.iris_codes % 2 ^ 32) ++ blob, to_bytes 4 0)
    ]
  ]

  -- The place and the size of the next template in the blob, if the loop goes on. The addition in the
  -- check is one of 64-bit numbers.
  unfoldable pub next_span : List ℕ → ℕ → Option (ℕ × ℕ)
  unfolding from_bytes
  next_span bytes offset =
      let size = from_bytes 8 (drop offset bytes) in
      if not (leb (offset + 8) (length bytes))
      then none
      else if ltb (length bytes) ((offset + 8 + size) % 2 ^ 64)
      then none
      else some (offset + 8, size)

  unfoldable pub deserialize_spans : X → List ℕ → ℕ → ℕ → List E
  unfolding next_span
  deserialize_spans ctx bytes zero offset = []
  deserialize_spans ctx bytes (suc n) offset = elim (next_span bytes offset) [
    | none ↦ []
    | some (start, size) ↦ elim (lib.deserialize ctx (take size (drop start bytes))) [
      | none ↦ []
      | some et ↦ et ∷ deserialize_spans ctx bytes n ((start + size) % 2 ^ 64)
    ]
  ]

  unfoldable pub deserialize_encrypted : FheManager X → List ℕ → List E
  unfolding active_ctx deserialize_spans from_bytes
  deserialize_encrypted m bytes = elim (active_ctx m) [
    | none ↦ []
    | some ctx ↦
        if ltb (length bytes) 4 then [] else deserialize_spans ctx bytes (from_bytes 4 bytes) 4
  ]

  unfoldable pub split_code : PackedIrisCode B → PackedIrisCode B × PackedIrisCode B
  split_code code = (code, record { code_bits = code.mask_bits; mask_bits = lib.no_bits })

  unfoldable pub decrypt_scales :
      X → List E → Option (List (PackedIrisCode B) × List (PackedIrisCode B))
  unfolding split_code
  decrypt_scales ctx [] = some ([], [])
  decrypt_scales ctx (et ∷ ets) =
      let rest = decrypt_scales ctx ets in
      elim (lib.decrypt ctx et) [
        | none ↦ none
        | some code ↦ elim rest [
          | none ↦ none
          | some (irises, masks) ↦
              let (iris, mask) = split_code code in some (iris ∷ irises, mask ∷ masks)
        ]
      ]

  unfoldable pub decrypt_template : FheManager X → List ℕ → Option (IrisTemplate (PackedIrisCode B))
  unfolding active_ctx deserialize_encrypted decrypt_scales
  decrypt_template m iris_blob = elim (active_ctx m) [
    | none ↦ none
    | some ctx ↦
        let ets = deserialize_encrypted m iris_blob in
        if is_empty ets then none else elim (decrypt_scales ctx ets) [
          | none ↦ none
          | some (irises, masks) ↦
              some (record {
                iris_codes = irises;
                mask_codes = masks;
                iris_code_version = codes "v2.0";
              })
        ]
  ]

  unfoldable pub match_probe_vs_encrypted : FheManager X → PackedIrisCode B → E → D × ℤ
  unfolding active_ctx
  match_probe_vs_encrypted m probe gallery = elim (active_ctx m) [
    | none ↦ (lib.one, pos 0)
    | some ctx ↦ elim (lib.encrypt ctx probe) [
      | none ↦ (lib.one, pos 0)
      | some enc_probe ↦ elim (lib.match_encrypted ctx enc_probe gallery) [
        | none ↦ (lib.one, pos 0)
        | some enc_result ↦ elim (lib.decrypt_result ctx enc_result) [
          | none ↦ (lib.one, pos 0)
          | some hd ↦ (hd, pos 0)
        ]
      ]
    ]
  ]

  unfoldable pub match_with_rotation :
      FheManager X → PackedIrisCode B → PackedIrisCode B → ℤ → D × ℤ
  unfolding active_ctx
  match_with_rotation m probe gallery rotation_shift = elim (active_ctx m) [
    | none ↦ (lib.one, pos 0)
    | some ctx ↦ elim (lib.match_with_rotation ctx probe gallery rotation_shift) [
      | none ↦ (lib.one, pos 0)
      | some result ↦ result
    ]
  ]

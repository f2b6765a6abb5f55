-- ===== src/KeyService/Context.antt =====
-- key-service/src/he_context.cpp: the key pair, its files, and decryption. OpenFHE is a parameter; how
-- each write to a file turns out is an argument.
pub mod Files
pub mod TempFile
use eye_d.Base.{
  ℕ, ◌+◌, ◌*◌, zero, suc, Bool, true, false, ◌&&◌, List, [], ◌∷◌, Option, none, some, if◌then◌else◌,
  ltb, codes, take,
}
use eye_d.Base.Eq.{bytes_Eq}
use eye_d.Base.Assoc.{lookup, insert}
use eye_d.Engine.Reader.{Result, value, failed}
use eye_d.KeyService.Decrypt.{iris_code_slots}

abbrev pub Text : Type 0
Text = List ℕ

-- The files of the key directory.
abbrev pub Files : Type 0
Files = List (Text × List ℕ)

-- What the serialization of OpenFHE makes of a value, and back.
pub record Format (A : Type 0) : Type 0 where
  pub write : A → List ℕ
  pub read : List ℕ → Option A

-- Contexts `X`, secret keys `S`, public keys `P`, evaluation keys `M` and `R`, ciphertexts `C` and
-- numbers `Z`.
pub record OpenFhe (X S P M R C Z : Type 0) : Type 0 where
  pub gen_crypto_context : X
  pub ring_dimension : X → ℕ
  pub key_gen : X → S × P
  pub eval_mult_key_gen : S → M
  pub eval_rotate_key_gen : S → List ℕ → R
  pub context_format : Format X
  pub secret_format : Format S
  pub public_format : Format P
  pub mult_format : Format M
  pub rotate_format : Format R
  pub read_ciphertext : List ℕ → Option C
  pub decrypt : X → S → C → List Z

-- The globals; the evaluation keys are in OpenFHE's own.
pub record State (X S P M R : Type 0) : Type 0 where
  pub context : Option X
  pub secret_key : Option S
  pub public_key : Option P
  pub mult_key : Option M
  pub rotate_key : Option R
  pub initialized : Bool

-- A write that fails leaves part of the file, or no file.
pub data Write : Type 0 where
  whole : Write
  broken : List ℕ → Write
  missing : Write

-- How the five writes turn out.
pub record Writes : Type 0 where
  pub context : Write
  pub public : Write
  pub secret : Write
  pub mult : Write
  pub rotate : Write

abbrev pub context_file : Text
context_file = codes "cryptocontext.bin"

abbrev pub secret_file : Text
secret_file = codes "secret.key"

abbrev pub public_file : Text
public_file = codes "public.key"

abbrev pub mult_file : Text
mult_file = codes "eval_mult.key"

abbrev pub rotate_file : Text
rotate_file = codes "eval_rotate.key"

unfoldable pub exists : Text → Files → Bool
exists name files = elim (lookup name files) [ none ↦ false | some bytes ↦ true ]

unfoldable pub keys_exist : Files → Bool
unfolding exists
keys_exist files =
    exists context_file files && (exists secret_file files && exists public_file files)

unfoldable pub save : Text → List ℕ → Write → Files → Bool × Files
save name bytes whole files = (true, insert name bytes files)
save name bytes (broken part) files = (false, insert name part files)
save name bytes missing files = (false, files)

-- 1 << i for the numbers below n, and the numbers of rounds that 8192 slots take.
unfoldable pub powers : ℕ → ℕ → List ℕ
powers zero power = []
powers (suc n) power = power ∷ powers n (power * 2)

abbrev pub rotate_sum_iters : ℕ
rotate_sum_iters = 13

-- Read a file, and go on with its value.
unfoldable pub load : {A : Type 0} → Format A → Text → Files → Option A
load format name files = elim (lookup name files) [ none ↦ none | some bytes ↦ format.read bytes ]

module _ {X S P M R C Z : Type 0} (fhe : OpenFhe X S P M R C Z) where
  -- One file after the other, up to the first failure.
  unfoldable pub save_keys : Writes → X → S → P → Files → Bool × Files
  unfolding save powers
  save_keys w ctx secret public files =
      let (ok₁, files₁) = save context_file (fhe.context_format.write ctx) w.context files in
      let (ok₂, files₂) = save public_file (fhe.public_format.write public) w.public files₁ in
      let (ok₃, files₃) = save secret_file (fhe.secret_format.write secret) w.secret files₂ in
      let (ok₄, files₄) =
        save mult_file (fhe.mult_format.write (fhe.eval_mult_key_gen secret)) w.mult files₃ in
      let rotate = fhe.eval_rotate_key_gen secret (powers rotate_sum_iters 1) in
      let (ok₅, files₅) = save rotate_file (fhe.rotate_format.write rotate) w.rotate files₄ in
      if ok₁
      then if ok₂
        then if ok₃ then if ok₄ then (ok₅, files₅) else (false, files₄) else (false, files₃)
        else (false, files₂)
      else (false, files₁)

  unfoldable pub generate_and_save_keys :
      Writes → Files → State X S P M R → Bool × State X S P M R × Files
  unfolding save_keys
  generate_and_save_keys w files st =
      let ctx = fhe.gen_crypto_context in
      let (secret, public) = fhe.key_gen ctx in
      let (ok, files') = save_keys w ctx secret public files in
      if ltb (fhe.ring_dimension ctx) iris_code_slots
      then (false, record st { context = some ctx }, files)
      else (
        ok,
        record {
          context = some ctx;
          secret_key = some secret;
          public_key = some public;
          mult_key = some (fhe.eval_mult_key_gen secret);
          rotate_key = some (fhe.eval_rotate_key_gen secret (powers rotate_sum_iters 1));
          initialized = st.initialized;
        },
        files',
      )

  unfoldable pub load_rotate : Files → State X S P M R → Bool × State X S P M R
  unfolding load
  load_rotate files st = elim (load fhe.rotate_format rotate_file files) [
    | none ↦ (false, st)
    | some key ↦ (true, record st { rotate_key = some key })
  ]

  unfoldable pub load_mult : Files → State X S P M R → Bool × State X S P M R
  unfolding load load_rotate
  load_mult files st = elim (load fhe.mult_format mult_file files) [
    | none ↦ (false, st)
    | some key ↦ load_rotate files (record st { mult_key = some key })
  ]

  unfoldable pub load_public : Files → State X S P M R → Bool × State X S P M R
  unfolding load load_mult
  load_public files st = elim (load fhe.public_format public_file files) [
    | none ↦ (false, st)
    | some key ↦ load_mult files (record st { public_key = some key })
  ]

  unfoldable pub load_secret : Files → State X S P M R → Bool × State X S P M R
  unfolding load load_public
  load_secret files st = elim (load fhe.secret_format secret_file files) [
    | none ↦ (false, st)
    | some key ↦ load_public files (record st { secret_key = some key })
  ]

  unfoldable pub load_keys_from_dir : Files → State X S P M R → Bool × State X S P M R
  unfolding load load_secret
  load_keys_from_dir files st = elim (load fhe.context_format context_file files) [
    | none ↦ (false, st)
    | some ctx ↦ load_secret files (record st { context = some ctx })
  ]

  unfoldable pub init_context : Writes → Files → State X S P M R → Bool × State X S P M R × Files
  unfolding keys_exist load_keys_from_dir generate_and_save_keys
  init_context w files st =
      let (loaded, st₁) = load_keys_from_dir files st in
      let (ok, st₂, files') = generate_and_save_keys w files st in
      if st.initialized
      then (true, st, files)
      else if keys_exist files
      then (loaded, (if loaded then record st₁ { initialized = true } else st₁), files)
      else (ok, (if ok then record st₂ { initialized = true } else st₂), files')

  -- Decryption behind the temporary file; it throws where the result is failed.
  unfoldable pub decrypt_packed : List ℕ → State X S P M R → Result (List Z)
  decrypt_packed ct_bytes st =
      if st.initialized
      then elim (fhe.read_ciphertext ct_bytes) [
        | none ↦ failed "Failed to deserialize ciphertext"
        | some ct ↦ elim st.context [
          | none ↦ failed "HE context not initialized"
          | some ctx ↦ elim st.secret_key [
            | none ↦ failed "HE context not initialized"
            | some key ↦ value (fhe.decrypt ctx key ct)
          ]
        ]
      ]
      else failed "HE context not initialized"

  unfoldable pub decrypt_to_vector : List ℕ → State X S P M R → Result (List Z)
  unfolding decrypt_packed
  decrypt_to_vector ct_bytes st = elim (decrypt_packed ct_bytes st) [
    | failed e ↦ failed e
    | value packed ↦ value (take iris_code_slots packed)
  ]

  unfoldable pub get_ring_dimension : State X S P M R → ℕ
  get_ring_dimension st =
      if st.initialized then elim st.context [ none ↦ 0 | some ctx ↦ fhe.ring_dimension ctx ] else 0

-- ===== src/KeyService/Context/Files.antt =====
-- What a later process finds of the key files that key-service/src/he_context.cpp saved.
pub mod Stuck
use eye_d.Base.{
  ℕ, ◌≡◌, ◌≤◌, refl, sym, Bool, true, false, ◌&&◌, List, [], ◌∷◌, Option, none, some, arith,
  if◌then◌else◌, ltb, codes, ltb-eq_false,
}
use eye_d.Base.Eq.{bytes_Eq}
use eye_d.Base.Assoc.{lookup, insert, lookup-insert, lookup-insert_self}
use eye_d.KeyService.Decrypt.{iris_code_slots}
use eye_d.KeyService.Context.{
  Text, Files, Format, OpenFhe, State, Write, whole, broken, missing, Writes, context_file,
  secret_file, public_file, mult_file, rotate_file, exists, keys_exist, save, powers,
  rotate_sum_iters, load, save_keys, generate_and_save_keys, load_rotate, load_mult, load_public,
  load_secret, load_keys_from_dir, init_context,
}

abbrev pub all_whole : Writes
all_whole = record { context = whole; public = whole; secret = whole; mult = whole; rotate = whole }

-- A serialization that gives the value back.
abbrev pub IsLossless : {A : Type 0} → Format A → Type 0
IsLossless {A} format = (a : A) → format.read (format.write a) ≡ some a

module _ {X S P M R C Z : Type 0} (fhe : OpenFhe X S P M R C Z) where
  abbrev secret : S
  secret = (fhe.key_gen fhe.gen_crypto_context).0

  abbrev public : P
  public = (fhe.key_gen fhe.gen_crypto_context).1

  abbrev mult : M
  mult = fhe.eval_mult_key_gen secret

  abbrev rotate : R
  rotate = fhe.eval_rotate_key_gen secret (powers rotate_sum_iters 1)

  -- The files behind the first three writes.
  three : Files → Files
  three files = insert secret_file (fhe.secret_format.write secret) (
      insert public_file (fhe.public_format.write public)
        (insert context_file (fhe.context_format.write fhe.gen_crypto_context) files))

  five : Files → Files
  unfolding three
  five files =
      insert rotate_file (fhe.rotate_format.write rotate)
        (insert mult_file (fhe.mult_format.write mult) (three files))

  -- The keys are all there.
  abbrev complete : State X S P M R
  complete = record {
    context = some fhe.gen_crypto_context;
    secret_key = some secret;
    public_key = some public;
    mult_key = some mult;
    rotate_key = some rotate;
    initialized = true;
  }

  three_lem :
      (files : Files)
      → (lookup context_file (three files) ≡ some (fhe.context_format.write fhe.gen_crypto_context))
        × (lookup secret_file (three files) ≡ some (fhe.secret_format.write secret))
        × (lookup public_file (three files) ≡ some (fhe.public_format.write public))
  unfolding three
  three_lem files = (
    rw
        (
          lookup-insert secret_file context_file _ _,
          lookup-insert public_file context_file _ _,
          lookup-insert_self context_file _ files,
        )
        refl,
    lookup-insert_self secret_file _ _,
    rw (lookup-insert secret_file public_file _ _, lookup-insert_self public_file _ _) refl,
  )

  -- A later file leaves the first three alone.
  beside :
      (name found : Text) (bytes : List ℕ) (files : Files) (v : List ℕ)
      → bytes_Eq.same name found ≡ false
      → lookup found files ≡ some v
      → lookup found (insert name bytes files) ≡ some v
  beside name found bytes files v ne h = rw (lookup-insert name found bytes files, ne) h

  load_found :
      {A : Type 0} (format : Format A) (name : Text) (files : Files) (a : A)
      → IsLossless format
      → lookup name files ≡ some (format.write a)
      → load format name files ≡ some a
  unfolding load
  load_found format name files a lossless h = rw (h, load) (lossless a)

  exists_found :
      (name : Text) (files : Files) (v : List ℕ)
      → lookup name files ≡ some v
      → exists name files ≡ true
  unfolding exists
  exists_found name files v h = rw (h, exists) refl

  -- The files that a process needs to find its keys.
  record Holds (files : Files) : Type 0 where
    context : lookup context_file files ≡ some (fhe.context_format.write fhe.gen_crypto_context)
    secret : lookup secret_file files ≡ some (fhe.secret_format.write secret)
    public : lookup public_file files ≡ some (fhe.public_format.write public)

  three-Holds : (files : Files) → Holds (three files)
  three-Holds files =
      let lem = three_lem files in record { context = lem.0; secret = lem.1; public = lem.2 }

  insert-Holds :
      (name : Text) (bytes : List ℕ) (files : Files)
      → bytes_Eq.same name context_file ≡ false
      → bytes_Eq.same name secret_file ≡ false
      → bytes_Eq.same name public_file ≡ false
      → Holds files
      → Holds (insert name bytes files)
  insert-Holds name bytes files c s p h = record {
    context = beside name context_file bytes files _ c h.context;
    secret = beside name secret_file bytes files _ s h.secret;
    public = beside name public_file bytes files _ p h.public;
  }

  Holds-keys_exist : (files : Files) → Holds files → keys_exist files ≡ true
  unfolding keys_exist
  Holds-keys_exist files h =
      rw
        (
          exists_found context_file files _ h.context,
          exists_found secret_file files _ h.secret,
          exists_found public_file files _ h.public,
        )
        refl

  five-Holds : (files : Files) → Holds (five files)
  unfolding five
  five-Holds files =
      insert-Holds rotate_file _ _ refl refl refl
        (insert-Holds mult_file _ _ refl refl refl (three-Holds files))

  pub record IsReadable : Type 0 where
    pub context : IsLossless fhe.context_format
    pub secret : IsLossless fhe.secret_format
    pub public : IsLossless fhe.public_format
    pub mult : IsLossless fhe.mult_format
    pub rotate : IsLossless fhe.rotate_format

  mult_five : (files : Files) → lookup mult_file (five files) ≡ some (fhe.mult_format.write mult)
  unfolding five
  mult_five files =
      beside rotate_file mult_file _ _ _ refl (lookup-insert_self mult_file _ (three files))

  rotate_five :
      (files : Files) → lookup rotate_file (five files) ≡ some (fhe.rotate_format.write rotate)
  unfolding five
  rotate_five files = lookup-insert_self rotate_file _ _

  load_keys-five :
      (files : Files) (st : State X S P M R)
      → IsReadable
      → load_keys_from_dir fhe (five files) st
        ≡ (true, record complete { initialized = st.initialized })
  unfolding load_keys_from_dir powers
  load_keys-five files st r =
      let h = five-Holds files in
      let ctx = fhe.gen_crypto_context in
      rw
        (
          load_keys_from_dir,
          load_found fhe.context_format context_file (five files) ctx r.context h.context,
          load_secret,
          load_found fhe.secret_format secret_file (five files) secret r.secret h.secret,
          load_public,
          load_found fhe.public_format public_file (five files) public r.public h.public,
          load_mult,
          load_found fhe.mult_format mult_file (five files) mult r.mult (mult_five files),
          load_rotate,
          load_found fhe.rotate_format rotate_file (five files) rotate r.rotate (rotate_five files),
        )
        refl

  generate-five :
      (files : Files) (st : State X S P M R)
      → iris_code_slots ≤ fhe.ring_dimension fhe.gen_crypto_context
      → generate_and_save_keys fhe all_whole files st
        ≡ (true, record complete { initialized = st.initialized }, five files)
  unfolding generate_and_save_keys save_keys save five three
  generate-five files st wide =
      let enough : ltb (fhe.ring_dimension fhe.gen_crypto_context) iris_code_slots ≡ false =
        ltb-eq_false _ _ wide in
      rw enough refl

  init_generates :
      (w : Writes) (files files' : Files) (st st' : State X S P M R) (ok : Bool)
      → st.initialized ≡ false
      → keys_exist files ≡ false
      → generate_and_save_keys fhe w files st ≡ (ok, st', files')
      → init_context fhe w files st
        ≡ (ok, (if ok then record st' { initialized = true } else st'), files')
  unfolding init_context
  init_generates w files files' st st' ok fresh none_yet made =
      rw (init_context, made, fresh, none_yet) refl

  init_loads :
      (w : Writes) (files : Files) (st st' : State X S P M R) (ok : Bool)
      → st.initialized ≡ false
      → keys_exist files ≡ true
      → load_keys_from_dir fhe files st ≡ (ok, st')
      → init_context fhe w files st
        ≡ (ok, (if ok then record st' { initialized = true } else st'), files)
  unfolding init_context
  init_loads w files st st' ok fresh there loaded = rw (init_context, loaded, fresh, there) refl

  -- Where no keys are and the context is wide enough, a process whose writes all go through gets ready with
  -- fresh keys, and every later process on the files that it left gets ready with the very same keys and
  -- leaves the files as they are, as long as each serialization gives its value back.
  pub init_context-init_context :
      (files : Files) (st later : State X S P M R) (w : Writes)
      → IsReadable
      → iris_code_slots ≤ fhe.ring_dimension fhe.gen_crypto_context
      → keys_exist files ≡ false
      → st.initialized ≡ false
      → later.initialized ≡ false
      → let (ok, ready, files') = init_context fhe all_whole files st in
        (ok ≡ true)
        × (ready.initialized ≡ true)
        × (init_context fhe w files' later ≡ (true, ready, files'))
  init_context-init_context files st later w r wide none_yet fresh fresh' =
      let first =
        init_generates all_whole files _ st _ true fresh none_yet (generate-five files st wide) in
      let second =
        init_loads w (five files) later _ true fresh'
          (Holds-keys_exist (five files) (five-Holds files)) (load_keys-five files later r) in
      rw first (refl, refl, second)

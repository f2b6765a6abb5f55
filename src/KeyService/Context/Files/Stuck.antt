-- ===== src/KeyService/Context/Files/Stuck.antt =====
-- A write of the key files (key-service/src/he_context.cpp) that breaks off behind the three files that
-- `KeysExist` looks for.
use eye_d.Base.{ℕ, ◌≡◌, ◌≤◌, refl, false, List, none, ltb, ltb-eq_false}
use eye_d.Base.Eq.{bytes_Eq}
use eye_d.Base.Assoc.{insert, lookup-insert_self}
use eye_d.KeyService.Decrypt.{iris_code_slots}
use eye_d.KeyService.Context.{
  Files, OpenFhe, State, Write, whole, broken, Writes, context_file, secret_file, public_file,
  mult_file, keys_exist, save, powers, load, save_keys, generate_and_save_keys, load_mult,
  load_public, load_secret, load_keys_from_dir, init_context,
}
use eye_d.KeyService.Context.Files.{
  secret, public, three, complete, load_found, Holds, three-Holds, insert-Holds, Holds-keys_exist,
  IsReadable, init_generates, init_loads,
}

-- The writes of which the fourth leaves a part of the file.
abbrev pub cut_at_mult : List ℕ → Write → Writes
cut_at_mult part rotate = record {
  context = whole;
  public = whole;
  secret = whole;
  mult = broken part;
  rotate = rotate;
}

module _ {X S P M R C Z : Type 0} (fhe : OpenFhe X S P M R C Z) where
  four : List ℕ → Files → Files
  unfolding three
  four part files = insert mult_file part (three fhe files)

  four-Holds : (part : List ℕ) (files : Files) → Holds fhe (four part files)
  unfolding four
  four-Holds part files = insert-Holds fhe mult_file part _ refl refl refl (three-Holds fhe files)

  generate-four :
      (part : List ℕ) (rotate : Write) (files : Files) (st : State X S P M R)
      → iris_code_slots ≤ fhe.ring_dimension fhe.gen_crypto_context
      → generate_and_save_keys fhe (cut_at_mult part rotate) files st
        ≡ (false, record (complete fhe) { initialized = st.initialized }, four part files)
  unfolding generate_and_save_keys save_keys save four three
  generate-four part rotate files st wide =
      let enough : ltb (fhe.ring_dimension fhe.gen_crypto_context) iris_code_slots ≡ false =
        ltb-eq_false _ _ wide in
      rw enough refl

  load_keys-four :
      (part : List ℕ) (files : Files) (st : State X S P M R)
      → IsReadable fhe
      → fhe.mult_format.read part ≡ none
      → (load_keys_from_dir fhe (four part files) st).0 ≡ false
  unfolding load_keys_from_dir powers four load
  load_keys-four part files st r bad =
      let h = four-Holds part files in
      let ctx = fhe.gen_crypto_context in
      let cut : load fhe.mult_format mult_file (four part files) ≡ none =
        rw (load, lookup-insert_self mult_file part (three fhe files)) bad in
      rw
        (
          load_keys_from_dir,
          load_found fhe fhe.context_format context_file (four part files) ctx r.context h.context,
          load_secret,
          load_found fhe fhe.secret_format secret_file (four part files) (secret fhe) r.secret
              h.secret,
          load_public,
          load_found fhe fhe.public_format public_file (four part files) (public fhe) r.public
              h.public,
          load_mult,
          cut,
        )
        refl

  -- A process without keys whose write of eval_mult.key breaks off, so that what is left does not read as a
  -- key, does not get ready; and no later process on the files that it left gets ready either, whatever its
  -- own writes would do, since the three files that are looked for are there, and the files stay as they
  -- are.
  pub init_context_stuck :
      (part : List ℕ) (rotate : Write) (files : Files) (st : State X S P M R)
      → IsReadable fhe
      → fhe.mult_format.read part ≡ none
      → iris_code_slots ≤ fhe.ring_dimension fhe.gen_crypto_context
      → keys_exist files ≡ false
      → st.initialized ≡ false
      → let (ok, st', files') = init_context fhe (cut_at_mult part rotate) files st in
        (ok ≡ false)
        × ((later : State X S P M R) (w : Writes)
            → later.initialized ≡ false
            → ((init_context fhe w files' later).0 ≡ false)
              × ((init_context fhe w files' later).2 ≡ files'))
  init_context_stuck part rotate files st r bad wide none_yet fresh =
      let first =
        init_generates fhe (cut_at_mult part rotate) files _ st _ false fresh none_yet
          (generate-four part rotate files st wide) in
      rw first (
        refl,
        λ later w fresh'.
            let loaded = load_keys_from_dir fhe (four part files) later in
            let second =
              init_loads fhe w (four part files) later loaded.1 loaded.0 fresh'
                (Holds-keys_exist fhe (four part files) (four-Holds part files)) refl in
            rw second (load_keys-four part files later r bad, refl),
      )

-- ===== src/Tests/Context.antt =====
-- The key service's context (key-service/src/he_context.cpp): theorems at concrete inputs.
use eye_d.Base.{ℕ, ◌≤◌, ◌≡◌, refl, true, false, [], ◌∷◌, none, some, arith}
use eye_d.Base.Eq.{bytes_Eq}
use eye_d.Base.Assoc.{lookup}
use eye_d.KeyService.Decrypt.{iris_code_slots}
use eye_d.KeyService.Context.{Format, OpenFhe, State, missing, Writes, keys_exist, init_context}
use eye_d.KeyService.Context.Files.{all_whole, IsReadable, init_context-init_context}
use eye_d.KeyService.Context.Files.Stuck.{cut_at_mult, init_context_stuck}

-- A number is one byte.
abbrev one_byte : Format ℕ
one_byte = record { write = λ n. n ∷ []; read = λ bs. elim bs [ [] ↦ none | b ∷ rest ↦ some b ] }

abbrev small_fhe : OpenFhe ℕ ℕ ℕ ℕ ℕ ℕ ℕ
small_fhe = record {
  gen_crypto_context = 9;
  ring_dimension = λ ctx. 16384;
  key_gen = λ ctx. (3, 4);
  eval_mult_key_gen = λ secret. 5;
  eval_rotate_key_gen = λ secret powers. 6;
  context_format = one_byte;
  secret_format = one_byte;
  public_format = one_byte;
  mult_format = one_byte;
  rotate_format = one_byte;
  read_ciphertext = one_byte.read;
  decrypt = λ ctx secret ct. ct ∷ [];
}

small_fhe-IsReadable : IsReadable small_fhe
small_fhe-IsReadable = record {
  context = λ a. refl;
  secret = λ a. refl;
  public = λ a. refl;
  mult = λ a. refl;
  rotate = λ a. refl;
}

abbrev cold : State ℕ ℕ ℕ ℕ ℕ
cold = record {
  context = none;
  secret_key = none;
  public_key = none;
  mult_key = none;
  rotate_key = none;
  initialized = false;
}

no_keys : keys_exist [] ≡ false
unfolding keys_exist lookup
no_keys = refl

wide : iris_code_slots ≤ small_fhe.ring_dimension small_fhe.gen_crypto_context
wide = omega arith

init_context-init_context_example :
    let (ok, ready, files) = init_context small_fhe all_whole [] cold in
    (ok ≡ true)
    × (ready.initialized ≡ true)
    × (init_context small_fhe (cut_at_mult [] missing) files cold ≡ (true, ready, files))
init_context-init_context_example =
    init_context-init_context small_fhe [] cold cold (cut_at_mult [] missing) small_fhe-IsReadable
      wide no_keys refl refl

init_context_stuck_example :
    let (ok, st, files) = init_context small_fhe (cut_at_mult [] missing) [] cold in
    (ok ≡ false)
    × ((later : State ℕ ℕ ℕ ℕ ℕ) (w : Writes)
        → later.initialized ≡ false
        → ((init_context small_fhe w files later).0 ≡ false)
          × ((init_context small_fhe w files later).2 ≡ files))
init_context_stuck_example =
    init_context_stuck small_fhe [] missing [] cold small_fhe-IsReadable refl wide no_keys refl

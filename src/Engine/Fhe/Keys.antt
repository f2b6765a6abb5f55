-- ===== src/Engine/Fhe/Keys.antt =====
-- When FHEManager::initialize (iris-engine2/src/fhe.cpp) makes the manager active, and which keys are in
-- the key directory afterwards.
use eye_d.Base.{◌≡◌, refl, Bool, true, false, some, is_empty, inl, inr, Bool-cases}
use eye_d.Engine.Db.Sql.{Text}
use eye_d.Engine.Fhe.{
  Library, Called, done, error, threw, FheManager, save_keys, activate, keep_keys, fresh_keys,
  restore, use_bundle, find_keys, with_context, initialize,
}

-- An active manager has a context, which every other method of it uses.
abbrev pub HasContext : {X : Type 0} → FheManager X → Type 0
HasContext {X} m = m.active ≡ true → (ctx : X) × (m.ctx ≡ some ctx)

-- What a result says of the manager `m` before and the one after.
pub record IsSound {X F : Type 0} (m : FheManager X) (r : Bool × FheManager X × F) : Type 0 where
  pub context : HasContext r.1
  pub success : r.0 ≡ true → r.1.active ≡ true
  pub failure : r.0 ≡ false → r.1.active ≡ m.active

module _ {X K E B D F : Type 0} (lib : Library X K E B D F) where
  on :
      (m : FheManager X) (ctx : X) (files : F)
      → IsSound m (true, record { ctx = some ctx; active = true }, files)
  on m ctx files = record { context = λ h. (ctx, refl); success = λ h. refl; failure = λ h. cc h }

  off :
      (m : FheManager X) (ctx : X) (files : F)
      → IsSound m (false, record m { ctx = some ctx }, files)
  off m ctx files = record { context = λ h. (ctx, refl); success = λ h. cc h; failure = λ h. refl }

  activate-IsSound :
      (m : FheManager X) (ctx : X) (saved : Called (Unit {0}) × F)
      → IsSound m (activate lib ctx (record m { ctx = some ctx }) saved)
  unfolding activate
  activate-IsSound m ctx (threw, files) = off m ctx files
  activate-IsSound m ctx (error, files) = on m ctx files
  activate-IsSound m ctx (done u, files) = on m ctx files

  keep_keys-IsSound :
      (key_dir : Text) (files : F) (m : FheManager X) (r : Called (Unit {0}) × X)
      → IsSound m (keep_keys lib key_dir files m r)
  unfolding keep_keys
  keep_keys-IsSound key_dir files m (threw, ctx) = off m ctx files
  keep_keys-IsSound key_dir files m (error, ctx) = off m ctx files
  keep_keys-IsSound key_dir files m (done u, ctx) = activate-IsSound m ctx _

  use_bundle-IsSound :
      (key_dir : Text) (ctx : X) (files : F) (m : FheManager X) (r : Called K)
      → IsSound m (use_bundle lib key_dir ctx files m r)
  unfolding use_bundle fresh_keys restore
  use_bundle-IsSound key_dir ctx files m threw = off m ctx files
  use_bundle-IsSound key_dir ctx files m error =
      keep_keys-IsSound key_dir files m (lib.generate_keys ctx)
  use_bundle-IsSound key_dir ctx files m (done bundle) = restored (lib.load_keys bundle ctx)
    where
      restored : (r : Called (Unit {0}) × X) → IsSound m (restore lib files m r)
      restored (threw, ctx) = off m ctx files
      restored (error, ctx) = off m ctx files
      restored (done u, ctx) = on m ctx files

  find_keys-IsSound :
      (key_dir : Text) (ctx : X) (files : F) (m : FheManager X) (r : Called Bool)
      → IsSound m (find_keys lib key_dir ctx files m r)
  unfolding find_keys fresh_keys
  find_keys-IsSound key_dir ctx files m threw = off m ctx files
  find_keys-IsSound key_dir ctx files m error = off m ctx files
  find_keys-IsSound key_dir ctx files m (done true) =
      use_bundle-IsSound key_dir ctx files m (lib.load key_dir ctx files)
  find_keys-IsSound key_dir ctx files m (done false) =
      keep_keys-IsSound key_dir files m (lib.generate_keys ctx)

  with_context-IsSound :
      (key_dir : Text) (files : F) (m : FheManager X) (r : Called X)
      → HasContext m
      → IsSound m (with_context lib key_dir files m r)
  unfolding with_context fresh_keys
  with_context-IsSound key_dir files m threw h = record {
    context = h;
    success = λ e. cc e;
    failure = λ e. refl;
  }
  with_context-IsSound key_dir files m error h = record {
    context = h;
    success = λ e. cc e;
    failure = λ e. refl;
  }
  with_context-IsSound key_dir files m (done ctx) h = elim (Bool-cases (is_empty key_dir)) [
    | inl e ↦ rw e (keep_keys-IsSound key_dir files m (lib.generate_keys ctx))
    | inr e ↦ rw e (find_keys-IsSound key_dir ctx files m (lib.exists key_dir files))
  ]

  -- initialize keeps the invariant that an active manager has a context; when it returns true the manager
  -- is active, and when it returns false, after an error or an exception of any call, the manager is as
  -- active as it was.
  pub initialize-IsSound :
      (key_dir : Text) (files : F) (m : FheManager X)
      → HasContext m
      → IsSound m (initialize lib key_dir files m)
  unfolding initialize
  initialize-IsSound key_dir files m h = with_context-IsSound key_dir files m lib.create h

  restore_files :
      (files : F) (m : FheManager X) (r : Called (Unit {0}) × X) → (restore lib files m r).2 ≡ files
  unfolding restore
  restore_files files m (threw, ctx) = refl
  restore_files files m (error, ctx) = refl
  restore_files files m (done u, ctx) = refl

  activate_files :
      (ctx : X) (m : FheManager X) (saved : Called (Unit {0}) × F)
      → (activate lib ctx m saved).2 ≡ saved.1
  unfolding activate
  activate_files ctx m (threw, files) = refl
  activate_files ctx m (error, files) = refl
  activate_files ctx m (done u, files) = refl

  keep_keys_files :
      (key_dir : Text) (files : F) (m : FheManager X) (ctx : X) (bundle : K)
      → is_empty key_dir ≡ false
      → lib.generate ctx ≡ done bundle
      → (keep_keys lib key_dir files m (done tt, ctx)).2 ≡ (lib.save key_dir ctx bundle files).1
  unfolding keep_keys save_keys
  keep_keys_files key_dir files m ctx bundle named made =
      rw (named, made) (activate_files ctx (record m { ctx = some ctx }) _)

  -- When the context is made and the key directory is there, keys that load are used, and the directory
  -- stays as it is; keys that are there but do not load are replaced by new ones, which are saved to the
  -- same directory.
  pub initialize_keys :
      (key_dir : Text) (files : F) (m : FheManager X) (ctx : X)
      → is_empty key_dir ≡ false
      → lib.create ≡ done ctx
      → lib.exists key_dir files ≡ done true
      → ((bundle : K)
          → lib.load key_dir ctx files ≡ done bundle
          → (initialize lib key_dir files m).2 ≡ files)
        × ((ctx' : X) (bundle : K)
            → lib.load key_dir ctx files ≡ error
            → lib.generate_keys ctx ≡ (done tt, ctx')
            → lib.generate ctx' ≡ done bundle
            → (initialize lib key_dir files m).2 ≡ (lib.save key_dir ctx' bundle files).1)
  unfolding initialize with_context find_keys use_bundle fresh_keys
  initialize_keys key_dir files m ctx named created there = (
    λ bundle loads.
        rw (created, named, there, loads) (restore_files files m (lib.load_keys bundle ctx)),
    λ ctx' bundle fails generated made.
        rw (created, named, there, fails, generated)
          (keep_keys_files key_dir files m ctx' bundle named made),
  )

-- ===== src/Engine/Smpc/Wiring.antt =====
-- What an SMPCManager (iris-engine2/src/smpc.cpp, smpc_distributed.cpp) consists of once it is
-- initialised, and what a migration counts.
use eye_d.Base.{
  ℕ, suc, ◌+◌, ◌≡◌, refl, ◌⊎◌, true, false, List, [], ◌∷◌, none, some, String, arith, if◌then◌else◌,
  length,
}
use eye_d.Base.Int.{ℤ}
use eye_d.Engine.Smpc.{
  Text, SecurityConfig, Library, SmpcManager, MigrationStats, same, init_security, init_distributed,
  initialize, migrate_one, count_templates, migrate_templates,
}

module _ {G H K P T D : Type 0} (lib : Library G H K P T D) where
  -- A simulated manager has its gallery and nothing of the network; a distributed one has a connection and
  -- either a sharded coordinator alone or a plain one, and no gallery.
  abbrev pub IsWired : SmpcManager G H K P → Type 0
  IsWired m =
      ((same m.mode "simulated" ≡ true)
        × (m.gallery ≡ some lib.new_gallery)
        × (m.nats_client ≡ false)
        × (m.sharded ≡ none)
        × (m.coordinator ≡ none)
        × (m.pipelined ≡ none))
      ⊎ ((same m.mode "distributed" ≡ true)
          × (m.gallery ≡ none)
          × (m.nats_client ≡ true)
          × (((h : H) × (m.sharded ≡ some h) × (m.coordinator ≡ none) × (m.pipelined ≡ none))
              ⊎ ((k : K) × (m.coordinator ≡ some k) × (m.sharded ≡ none))))

  -- A manager before its initialisation.
  pub record IsFresh (m : SmpcManager G H K P) : Type 0 where
    pub idle : m.active ≡ false
    pub no_gallery : m.gallery ≡ none
    pub no_client : m.nats_client ≡ false
    pub no_shards : m.sharded ≡ none
    pub no_coordinator : m.coordinator ≡ none
    pub no_pipeline : m.pipelined ≡ none

  -- Initialising a fresh manager either fails, and then the manager is not active; or it succeeds, for
  -- three parties, and then the manager is active and has the parts of its mode and no others.
  pub initialize-IsWired :
      (mode nats_url : String) (n : ℕ) (depth shards : ℤ) (security : SecurityConfig)
      (m : SmpcManager G H K P)
      → IsFresh m
      → let (ok, m') = initialize lib mode nats_url n depth shards security m in
        ((ok ≡ false) × (m'.active ≡ false))
        ⊎ ((ok ≡ true) × (n ≡ 3) × (m'.active ≡ true) × IsWired m')
  unfolding initialize init_security init_distributed
  initialize-IsWired mode nats_url n depth shards security m fresh = ground arith

  count_templates_lem :
      (ts : List (Text × T)) (stats : MigrationStats) (m : SmpcManager G H K P)
      → let r = (count_templates lib ts stats m).0 in
        (r.total ≡ stats.total)
        × (r.succeeded + r.failed_count ≡ stats.succeeded + stats.failed_count + length ts)
  unfolding count_templates
  count_templates_lem [] stats m = (refl, omega arith)
  count_templates_lem ((subject, t) ∷ ts) stats m =
      let (ok, m') = migrate_one lib subject t m in
      let ih =
        count_templates_lem ts
          (if ok
            then record stats { succeeded = suc stats.succeeded }
            else record stats { failed_count = suc stats.failed_count })
          m' in
      (ground (arith, ih.0), ground (arith, ih.1))

  -- A migration counts every template once, as succeeded or as failed.
  pub migrate_templates_lem :
      (ts : List (Text × T)) (m : SmpcManager G H K P)
      → let stats = (migrate_templates lib ts m).0 in
        (stats.total ≡ length ts) × (stats.succeeded + stats.failed_count ≡ length ts)
  unfolding migrate_templates
  migrate_templates_lem ts m =
      let (a, b) =
        count_templates_lem ts (record { total = length ts; succeeded = 0; failed_count = 0 }) m in
      (a, omega (arith, b))

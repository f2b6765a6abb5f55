-- ===== src/Engine/Smpc.antt =====
-- iris-engine2/src/smpc.h, smpc.cpp and smpc_distributed.cpp, the class SMPCManager. The galleries, the
-- coordinators and TLS are the iris library's. The audit log, the health counters and what only keeps them
-- (the bus, the two numbers it is made with, the health service) are not modelled.
pub mod Wiring
use eye_d.Base.{
  ℕ, suc, ◌+◌, ◌≡◌, refl, ◌⊎◌, inl, inr, Bool, true, false, ◌&&◌, ◌||◌, not, List, [], ◌∷◌, Option,
  none, some, String, arith, if◌then◌else◌, ◌==◌, length, map, Bool-cases,
}
use eye_d.Base.Eq.{string_Eq}
use eye_d.Base.Int.{ℤ, is_positive}
use eye_d.Engine.Reader.{Result, value, failed}
use eye_d.Engine.Gallery.{VerifyResult}

abbrev pub Text : Type 0
Text = List ℕ

pub record SecurityConfig : Type 0 where
  pub audit_log_path : String
  pub tls_cert_dir : String
  pub security_monitor_enabled : Bool

-- `G` is a simulated gallery, `H` a sharded, `K` a plain and `P` a pipelined coordinator.
pub record Library (G H K P T D : Type 0) : Type 0 where
  pub creates_tls : String → Bool
  pub connects : String → Bool → Bool
  pub new_gallery : G
  pub new_sharded : ℕ → ℤ → H
  pub new_coordinator : ℕ → K
  pub new_pipelined : ℕ → ℤ → P
  pub add_template : G → Text → T → Result (Unit {0}) × G
  pub enroll_sharded : H → Text → T → Result (Unit {0}) × H
  pub enroll_coordinator : K → Text → T → Result (Unit {0}) × K
  pub verify_sharded : H → T → Result (List (VerifyResult D))
  pub verify_coordinator : K → T → Result (List (VerifyResult D))
  pub verify_pipelined : P → T → Result (VerifyResult D)

pub record SmpcManager (G H K P : Type 0) : Type 0 where
  pub mode : String
  pub active : Bool
  pub security_config : SecurityConfig
  pub tls_context : Bool
  pub security_monitor : Bool
  pub gallery : Option G
  pub nats_client : Bool
  pub sharded : Option H
  pub coordinator : Option K
  pub pipelined : Option P

pub record MigrationStats : Type 0 where
  pub total : ℕ
  pub succeeded : ℕ
  pub failed_count : ℕ

abbrev pub same : String → String → Bool
same = string_Eq.same

module _ {G H K P T D : Type 0} (lib : Library G H K P T D) where
  init_security : SecurityConfig → SmpcManager G H K P → Bool × SmpcManager G H K P
  init_security security m =
      let m₁ = record m { security_config = security } in
      let wants_tls = not (same security.tls_cert_dir "") in
      if wants_tls && not (lib.creates_tls security.tls_cert_dir) then (false, m₁) else (
        true,
        record m₁ {
          tls_context = wants_tls || m.tls_context;
          security_monitor = security.security_monitor_enabled || m.security_monitor;
        },
      )

  init_distributed : String → ℕ → ℤ → ℤ → SmpcManager G H K P → Bool × SmpcManager G H K P
  init_distributed nats_url num_parties pipeline_depth shards m =
      if same nats_url ""
      then (false, m)
      else if not (lib.connects nats_url m.tls_context)
      then (false, record m { nats_client = false })
      else if is_positive shards
      then (
        true,
        record m { nats_client = true; sharded = some (lib.new_sharded num_parties shards) },
      )
      else (
        true,
        record m {
          nats_client = true;
          coordinator = some (lib.new_coordinator num_parties);
          pipelined =
              if is_positive pipeline_depth
              then some (lib.new_pipelined num_parties pipeline_depth)
              else m.pipelined;
        },
      )

  pub initialize :
      String
      → String
      → ℕ
      → ℤ
      → ℤ
      → SecurityConfig
      → SmpcManager G H K P
      → Bool × SmpcManager G H K P
  unfolding init_security init_distributed
  initialize mode nats_url num_parties pipeline_depth shards security m =
      let (secured, m₁) = init_security security (record m { mode = mode }) in
      let (wired, m₂) = init_distributed nats_url num_parties pipeline_depth shards m₁ in
      if not (same mode "simulated") && not (same mode "distributed")
      then (false, m)
      else if not (num_parties == 3)
      then (false, m)
      else if not secured
      then (false, m₁)
      else if same mode "simulated"
      then (true, record m₁ { gallery = some lib.new_gallery; active = true })
      else if wired
      then (true, record m₂ { active = true })
      else (false, m₂)

  pub is_distributed : SmpcManager G H K P → Bool
  is_distributed m = m.active && same m.mode "distributed"

  enroll_by : Text → T → Option H → Option K → Result (Unit {0}) × Option H × Option K
  enroll_by subject t (some h) k = let (r, h') = lib.enroll_sharded h subject t in (r, some h', k)
  enroll_by subject t none (some k) =
      let (r, k') = lib.enroll_coordinator k subject t in (r, none, some k')
  enroll_by subject t none none = (failed "Coordinator not initialized", none, none)

  pub enroll_distributed : Text → T → SmpcManager G H K P → Result (Unit {0}) × SmpcManager G H K P
  unfolding enroll_by
  enroll_distributed subject t m =
      let (r, h, k) = enroll_by subject t m.sharded m.coordinator in
      (r, record m { sharded = h; coordinator = k })

  one_result : Result (VerifyResult D) → Result (List (VerifyResult D))
  one_result (value r) = value (r ∷ [])
  one_result (failed e) = failed e

  verify_by : T → Option H → Option P → Option K → Result (List (VerifyResult D))
  unfolding one_result
  verify_by probe (some h) p k = lib.verify_sharded h probe
  verify_by probe none (some p) k = one_result (lib.verify_pipelined p probe)
  verify_by probe none none (some k) = lib.verify_coordinator k probe
  verify_by probe none none none = failed "Coordinator not initialized"

  pub verify_distributed : T → SmpcManager G H K P → Result (List (VerifyResult D))
  unfolding verify_by
  verify_distributed probe m = verify_by probe m.sharded m.pipelined m.coordinator

  -- The simulated gallery takes the template.
  add_to : Text → T → Option G → Result (Unit {0}) × Option G
  add_to subject t none = (failed "", none)
  add_to subject t (some g) = let (r, g') = lib.add_template g subject t in (r, some g')

  -- One template: whether it succeeded, and the manager.
  migrate_one : Text → T → SmpcManager G H K P → Bool × SmpcManager G H K P
  unfolding add_to enroll_distributed is_distributed
  migrate_one subject t m =
      let (r, g) = add_to subject t m.gallery in
      let (r', m') = enroll_distributed subject t m in
      if same m.mode "simulated" && is_some m.gallery
      then (succeeded r, record m { gallery = g })
      else if is_distributed m
      then (succeeded r', m')
      else (false, m)
    where
      succeeded : Result (Unit {0}) → Bool
      succeeded (value u) = true
      succeeded (failed e) = false

      is_some : Option G → Bool
      is_some none = false
      is_some (some g) = true

  count_templates :
      List (Text × T) → MigrationStats → SmpcManager G H K P → MigrationStats × SmpcManager G H K P
  unfolding migrate_one
  count_templates [] stats m = (stats, m)
  count_templates ((subject, t) ∷ ts) stats m =
      let (ok, m') = migrate_one subject t m in
      count_templates ts
        (if ok
          then record stats { succeeded = suc stats.succeeded }
          else record stats { failed_count = suc stats.failed_count })
        m'

  pub migrate_templates :
      List (Text × T) → SmpcManager G H K P → MigrationStats × SmpcManager G H K P
  unfolding count_templates
  migrate_templates ts m =
      count_templates ts (record { total = length ts; succeeded = 0; failed_count = 0 }) m

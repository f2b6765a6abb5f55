-- ===== src/Engine/Smpc2.antt =====
-- iris-engine2/src/smpc2_manager.h and smpc2_manager.cpp, the class SMPC2Manager. The coordinator and
-- the buses are the iris library's: `C` is a coordinator's state, made from a configuration.
use eye_d.Base.{
  ℕ, zero, suc, ◌+◌, ◌*◌, ◌/◌, ◌≤◌, ◌≡◌, ◌⊎◌, Bool, true, false, List, Option, none, some, String,
  arith, ltb, if◌then◌else◌,
}
use eye_d.Base.Eq.{string_Eq}
use eye_d.Engine.Reader.{Result, failed}

pub record SmpcConfig : Type 0 where
  pub total_parties : ℕ
  pub threshold : ℕ
  pub store_count : ℕ

-- std::clamp(total_parties, 3, 15), where a negative count is below 3 like 0.
abbrev pub clamp : ℕ → ℕ → ℕ → ℕ
clamp n low high = if ltb n low then low else if ltb high n then high else n

pub config_for : ℕ → SmpcConfig
config_for parties =
    let total = clamp parties 3 15 in
    let half = (total + 1) / 2 in
    let threshold = if ltb half 2 then 2 else half in
    record { total_parties = total; threshold = threshold; store_count = threshold }

pub record Smpc2VerifyResult (D : Type 0) : Type 0 where
  pub subject_id : List ℕ
  pub distance : D
  pub is_match : Bool

-- What the manager uses of the iris library and of the NATS client: whether the i-th in-process
-- participant registers, whether a connection comes about, and the coordinator's operations.
pub record Coordination (C D T : Type 0) : Type 0 where
  pub registers : ℕ → Bool
  pub connects : String → String → Bool
  pub coordinator : SmpcConfig → C
  pub enroll_in : C → List ℕ → T → Result (Unit {0}) × C
  pub verify_in : C → T → Result (List (Smpc2VerifyResult D))

-- The configuration is what the coordinator's `config()` gives back.
pub record Smpc2Manager (C : Type 0) : Type 0 where
  pub mode : String
  pub active : Bool
  pub coordinator : Option C
  pub config : SmpcConfig
  pub nats_client : Bool

module _ {C D T : Type 0} (lib : Coordination C D T) where
  -- The participants from `i` on, `n` of them.
  register_all : ℕ → ℕ → Bool
  register_all zero i = true
  register_all (suc n) i =
      let rest = register_all n (suc i) in if lib.registers i then rest else false

  activate : SmpcConfig → Smpc2Manager C → Smpc2Manager C
  activate cfg m = record m {
    coordinator = some (lib.coordinator cfg);
    config = cfg;
    active = true;
  }

  pub init : String → String → ℕ → String → Smpc2Manager C → Bool × Smpc2Manager C
  unfolding register_all activate
  init mode nats_url total_parties tls_cert_dir m =
      let cfg = config_for total_parties in
      let m' = record m { mode = mode } in
      if string_Eq.same mode "simulated"
      then (if register_all cfg.total_parties 1 then (true, activate cfg m') else (false, m'))
      else if string_Eq.same nats_url ""
      then (false, m')
      else if lib.connects nats_url tls_cert_dir
      then (true, activate cfg (record m' { nats_client = true }))
      else (false, record m' { nats_client = false })

  pub total_parties_of : Smpc2Manager C → ℕ
  total_parties_of m = elim m.coordinator [ none ↦ 0 | some c ↦ m.config.total_parties ]

  pub threshold_of : Smpc2Manager C → ℕ
  threshold_of m = elim m.coordinator [ none ↦ 0 | some c ↦ m.config.threshold ]

  enroll_with : Option C → List ℕ → T → Result (Unit {0}) × Option C
  enroll_with none subject t = (failed "SMPC2Coordinator not initialized", none)
  enroll_with (some c) subject t = let (r, c') = lib.enroll_in c subject t in (r, some c')

  pub enroll : List ℕ → T → Smpc2Manager C → Result (Unit {0}) × Smpc2Manager C
  unfolding enroll_with
  enroll subject t m =
      let (r, c) = enroll_with m.coordinator subject t in (r, record m { coordinator = c })

  pub verify : T → Smpc2Manager C → Result (List (Smpc2VerifyResult D))
  verify probe m = elim m.coordinator [
    | none ↦ failed "SMPC2Coordinator not initialized"
    | some c ↦ lib.verify_in c probe
  ]

  -- Whatever number of parties is asked for, `init` either fails and leaves a manager that was not active
  -- inactive, or it succeeds with between 3 and 15 parties and a threshold that is at least two and the
  -- half of them, rounded up.
  pub init_lem :
      (mode nats_url : String) (n : ℕ) (tls_cert_dir : String) (m : Smpc2Manager C)
      → m.active ≡ false
      → let (ok, m') = init mode nats_url n tls_cert_dir m in
        ((ok ≡ false) × (m'.active ≡ false))
        ⊎ ((ok ≡ true)
            × (m'.active ≡ true)
            × (3 ≤ total_parties_of m')
            × (total_parties_of m' ≤ 15)
            × (2 ≤ threshold_of m')
            × (total_parties_of m' ≤ 2 * threshold_of m')
            × (2 * threshold_of m' ≤ total_parties_of m' + 1))
  unfolding init config_for total_parties_of threshold_of
  init_lem mode nats_url n tls_cert_dir m idle = ground arith

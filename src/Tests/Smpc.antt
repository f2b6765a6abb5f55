-- ===== src/Tests/Smpc.antt =====
-- The SMPC manager of the engine (iris-engine2/src/smpc.cpp): theorems at concrete inputs.
use eye_d.Base.{ℕ, suc, ◌≡◌, refl, ◌⊎◌, true, false, [], codes, none}
use eye_d.Base.Int.{pos}
use eye_d.Engine.Reader.{value}
use eye_d.Engine.Smpc.{SecurityConfig, Library, SmpcManager, initialize}
use eye_d.Engine.Smpc.Wiring.{IsWired, IsFresh, initialize-IsWired}

-- Galleries and coordinators that only count.
abbrev library : Library ℕ ℕ ℕ ℕ ℕ ℕ
library = record {
  creates_tls = λ dir. true;
  connects = λ url tls. true;
  new_gallery = 0;
  new_sharded = λ n shards. 0;
  new_coordinator = λ n. 0;
  new_pipelined = λ n depth. 0;
  add_template = λ g subject t. (value tt, suc g);
  enroll_sharded = λ h subject t. (value tt, suc h);
  enroll_coordinator = λ k subject t. (value tt, suc k);
  verify_sharded = λ h probe. value [];
  verify_coordinator = λ k probe. value [];
  verify_pipelined = λ p probe. value (record { subject_id = codes "t-1"; distance = 3 });
}

abbrev no_security : SecurityConfig
no_security = record { audit_log_path = ""; tls_cert_dir = ""; security_monitor_enabled = false }

abbrev fresh_manager : SmpcManager ℕ ℕ ℕ ℕ
fresh_manager = record {
  mode = "";
  active = false;
  security_config = no_security;
  tls_context = false;
  security_monitor = false;
  gallery = none;
  nats_client = false;
  sharded = none;
  coordinator = none;
  pipelined = none;
}

abbrev parties : ℕ
parties = 3

fresh_manager-IsFresh : IsFresh library fresh_manager
fresh_manager-IsFresh = record {
  idle = refl;
  no_gallery = refl;
  no_client = refl;
  no_shards = refl;
  no_coordinator = refl;
  no_pipeline = refl;
}

initialize-IsWired_example :
    let (ok, m) =
      initialize library "distributed" "nats://bus" parties
        (pos 4)
        (pos 0)
        no_security
        fresh_manager in
    ((ok ≡ false) × (m.active ≡ false))
    ⊎ ((ok ≡ true) × (parties ≡ 3) × (m.active ≡ true) × IsWired library m)
initialize-IsWired_example =
    initialize-IsWired library "distributed" "nats://bus" parties (pos 4) (pos 0) no_security
      fresh_manager fresh_manager-IsFresh

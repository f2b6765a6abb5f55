-- ===== src/KeyService/Service.antt =====
-- key-service/src/nats_service.cpp and main.cpp: the connection, the subscriptions, and the life of the
-- process. What NATS answers is an argument; an attempt to connect is known by its number.
pub mod Life
use eye_d.Base.{
  ℕ, zero, suc, ◌+◌, ◌<◌, ◌≤◌, ◌≡◌, refl, ◌⊎◌, ◌↔◌, inl, inr, Bool, true, false, not, List, [], ◌∷◌,
  ◌++◌, map, codes, if◌then◌else◌, ap, subst, sym, ◌∙◌, arith, Bool-cases,
}

abbrev pub Text : Type 0
Text = List ℕ

pub record Statuses : Type 0 where
  pub context_ok : Bool
  pub options_ok : Bool
  pub connect : ℕ → Bool
  pub subscribe : Text → Bool

-- The handles of the NATS library.
pub data Handle : Type 0 where
  options connection : Handle
  subscription : Text → Handle

unfoldable pub k_max_retries : ℕ
k_max_retries = 30

abbrev pub subjects : List Text
subjects =
    codes "eyed.key.decrypt_batch"
    ∷ codes "eyed.key.decrypt_template"
    ∷ codes "eyed.key.health"
    ∷ []

-- The run of main, with the handles in the order in which they are made and destroyed. `waited` tells
-- whether it came to wait for the shutdown.
pub record Run : Type 0 where
  pub exit_code : ℕ
  pub attempts : ℕ
  pub waited : Bool
  pub made : List Handle
  pub destroyed : List Handle

module _ (st : Statuses) where
  -- The attempts from number `i` on: how many are made, and whether the last one connects.
  unfoldable pub connect_loop : ℕ → ℕ → ℕ × Bool
  connect_loop zero i = (0, false)
  connect_loop (suc left) i =
      let (made, connected) = connect_loop left (suc i) in
      if st.connect i then (1, true) else (suc made, connected)

  unfoldable pub connect_nats : ℕ × Bool
  unfolding connect_loop k_max_retries
  connect_nats = if not st.options_ok then (0, false) else connect_loop k_max_retries 1

  -- The subscriptions that are made, and whether all were.
  unfoldable pub subscribe_all : List Text → List Text × Bool
  subscribe_all [] = ([], true)
  subscribe_all (subject ∷ later) =
      let (subscriptions, ok) = subscribe_all later in
      if st.subscribe subject then (subject ∷ subscriptions, ok) else ([], false)

  unfoldable pub cleanup : List Text → List Handle
  cleanup subscriptions = map subscription subscriptions ++ (connection ∷ [])

  -- main, by how the attempts to connect and the subscriptions turn out, which it asks for in this order.
  unfoldable pub run_with : ℕ × Bool → List Text × Bool → Run
  unfolding cleanup
  run_with (attempts, connected) (subscriptions, ok) =
      let made = options ∷ connection ∷ map subscription subscriptions in
      if not st.context_ok
      then record { exit_code = 1; attempts = 0; waited = false; made = []; destroyed = [] }
      else if not st.options_ok
      then record { exit_code = 1; attempts = 0; waited = false; made = []; destroyed = [] }
      else if not connected
      then record {
        exit_code = 1;
        attempts = attempts;
        waited = false;
        made = options ∷ [];
        destroyed = options ∷ [];
      }
      else if not ok
      then record {
        exit_code = 1;
        attempts = attempts;
        waited = false;
        made = made;
        destroyed = options ∷ [];
      }
      else record {
        exit_code = 0;
        attempts = attempts;
        waited = true;
        made = made;
        destroyed = options ∷ cleanup subscriptions;
      }

  unfoldable pub run_main : Run
  unfolding connect_nats subscribe_all run_with
  run_main = run_with connect_nats (subscribe_all subjects)

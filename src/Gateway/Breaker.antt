-- ===== src/Gateway/Breaker.antt =====
-- gateway/src/breaker.h and breaker.cpp. `Clock::now()` is an argument of each call, in ticks of the
-- steady clock (nanoseconds since its epoch, never negative); a timeout is in milliseconds.
-- A C++ difference of time points that is negative exceeds no timeout, as the truncated one here.
pub mod Steps
pub mod Traffic
use eye_d.Base.{
  ℕ, ◌+◌, ◌-◌, ◌*◌, ◌≡◌, Bool, true, false, not, ◌&&◌, List, [], ◌∷◌, String, ltb, ◌==◌,
  if◌then◌else◌,
}

pub data State : Type 0 where
  closed open_state half_open : State

pub state_string : State → String
state_string closed = "closed"
state_string open_state = "open"
state_string half_open = "half-open"

pub record Breaker : Type 0 where
  pub state_ : State
  pub timeout : ℕ
  pub probe_interval : ℕ
  pub last_sent : ℕ
  pub last_result : ℕ
  pub last_probe : ℕ

abbrev pub ticks_per_ms : ℕ
ticks_per_ms = 1_000_000

pub init : ℕ → ℕ → Breaker
init timeout probe_interval = record {
  state_ = closed;
  timeout = timeout;
  probe_interval = probe_interval;
  last_sent = 0;
  last_result = 0;
  last_probe = 0;
}

-- `(now - since) > limit`, a duration in ticks against one in milliseconds.
abbrev pub elapsed_over : ℕ → ℕ → ℕ → Bool
elapsed_over now since limit = ltb (limit * ticks_per_ms) (now - since)

evaluate_in : State → Breaker → ℕ → Breaker
evaluate_in closed b now =
    if not (b.last_sent == 0)
      && (ltb b.last_result b.last_sent && elapsed_over now b.last_sent b.timeout)
    then record b { state_ = open_state; last_probe = now }
    else b
evaluate_in open_state b now =
    if elapsed_over now b.last_probe b.probe_interval then record b { state_ = half_open } else b
evaluate_in half_open b now = b

pub evaluate : Breaker → ℕ → Breaker
unfolding evaluate_in
evaluate b now = evaluate_in b.state_ b now

admit_in : State → Breaker → ℕ → Bool × Breaker
admit_in closed b now = (true, record b { last_sent = now })
admit_in half_open b now =
    (true, record b { last_sent = now; last_probe = now; state_ = open_state })
admit_in open_state b now = (false, b)

pub allow : Breaker → ℕ → Bool × Breaker
unfolding admit_in
allow b now = let b' = evaluate b now in admit_in b'.state_ b' now

pub record_result : Breaker → ℕ → Breaker
record_result b now = record b { last_result = now; state_ = closed }

-- `state()` evaluates first, and so may change the breaker; `state_string()` does not.
pub state : Breaker → ℕ → State × Breaker
state b now = let b' = evaluate b now in (b'.state_, b')

-- What may happen to a breaker: a frame asks to pass, a result comes, somebody reads the state.
pub data Event : Type 0 where
  frame result query : Event

after : Event → Breaker → ℕ → Breaker
after frame b now = (allow b now).1
after result b now = record_result b now
after query b now = (state b now).1

pub run : Breaker → List (ℕ × Event) → Breaker
run b [] = b
run b ((now, e) ∷ es) = run (after e b now) es

-- The answers that a stream of frames gets, and the breaker behind it.
pub offer : Breaker → List ℕ → List Bool × Breaker
offer b [] = ([], b)
offer b (now ∷ times) =
    let (ok, b') = allow b now in let (oks, b'') = offer b' times in (ok ∷ oks, b'')

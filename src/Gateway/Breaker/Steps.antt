-- ===== src/Gateway/Breaker/Steps.antt =====
-- Each operation of the breaker (gateway/src/breaker.cpp), on every branch.
use eye_d.Base.{ℕ, ◌-◌, ◌*◌, ◌≤◌, ◌<◌, ◌≡◌, refl, ◌≢◌, ◌↔◌, Bool, true, false, List, [], ◌∷◌, arith}
use eye_d.Gateway.Breaker.{
  Breaker, Event, closed, open_state, half_open, frame, result, query, ticks_per_ms, evaluate,
  allow, record_result, state, after, run, init,
}

-- A frame is out without an answer, and has been for longer than the timeout.
abbrev pub Unanswered : Breaker → ℕ → Type 0
Unanswered b now =
    (b.last_sent ≢ 0)
    × (b.last_result < b.last_sent)
    × (b.timeout * ticks_per_ms < now - b.last_sent)

abbrev pub Probe : Breaker → ℕ → Type 0
Probe b now = b.probe_interval * ticks_per_ms < now - b.last_probe

-- A closed breaker refuses a frame exactly when the last frame is unanswered past the timeout, and
-- then it is open with its probe interval starting now; else it stays closed and notes the frame.
pub allow_closed :
    (b : Breaker) (now : ℕ)
    → b.state_ ≡ closed
    → (((allow b now).0 ≡ false) ↔ Unanswered b now)
      × (((allow b now).0 ≡ false)
          → (allow b now).1 ≡ record b { state_ = open_state; last_probe = now })
      × (((allow b now).0 ≡ true) → (allow b now).1 ≡ record b { last_sent = now })
unfolding allow evaluate
allow_closed b now e =
    ((λ h. ground arith, λ h. ground arith), λ h. ground arith, λ h. ground arith)

-- An open breaker passes a frame exactly when the probe interval has run out, stays open in either
-- case, and starts the interval again with each frame that it passes.
pub allow_open :
    (b : Breaker) (now : ℕ)
    → b.state_ ≡ open_state
    → (((allow b now).0 ≡ true) ↔ Probe b now)
      × (((allow b now).0 ≡ true)
          → (allow b now).1 ≡ record b { last_sent = now; last_probe = now })
      × (((allow b now).0 ≡ false) → (allow b now).1 ≡ b)
unfolding allow evaluate
allow_open b now e = ((λ h. ground arith, λ h. ground arith), λ h. ground arith, λ h. ground arith)

-- No call of `allow` leaves the breaker half open: whoever asks first takes the probe.
pub allow-ne-half_open : (b : Breaker) (now : ℕ) → (allow b now).1.state_ ≢ half_open
unfolding allow evaluate
allow-ne-half_open b now = ground arith

-- The clock has passed every time that the breaker noted.
pub record IsPast (b : Breaker) (now : ℕ) : Type 0 where
  pub sent : b.last_sent ≤ now
  pub answered : b.last_result ≤ now
  pub probed : b.last_probe ≤ now

after-IsPast :
    (e : Event) (b : Breaker) (t now : ℕ) → IsPast b t → t ≤ now → IsPast (after e b now) now
unfolding after allow evaluate record_result state
after-IsPast frame b t now p h = ground arith
after-IsPast result b t now p h = ground arith
after-IsPast query b t now p h = ground arith

-- The times of the events, from `t` on, do not fall.
abbrev pub Rising : ℕ → List (ℕ × Event) → Type 0
Rising t [] = Unit {0}
Rising t ((now, e) ∷ es) = (t ≤ now) × Rising now es

abbrev pub last_time : ℕ → List (ℕ × Event) → ℕ
last_time t [] = t
last_time t ((now, e) ∷ es) = last_time now es

run-IsPast :
    (b : Breaker) (t : ℕ) (es : List (ℕ × Event))
    → IsPast b t
    → Rising t es
    → IsPast (run b es) (last_time t es)
unfolding run
run-IsPast b t [] p r = p
run-IsPast b t ((now, e) ∷ es) p r =
    run-IsPast (after e b now) now es (after-IsPast e b t now p r.0) r.1

result_recovers-past :
    (b : Breaker) (t now later : ℕ)
    → IsPast b t
    → t ≤ now
    → allow (record_result b now) later ≡ (true, record (record_result b now) { last_sent = later })
unfolding allow evaluate record_result
result_recovers-past b t now later p h = ground arith

-- After any history of a fresh breaker on a clock that does not go back, a result that comes no earlier than its last event closes
-- the breaker, and whenever the next frame asks, it passes.
pub result_recovers :
    (timeout interval : ℕ) (es : List (ℕ × Event)) (now later : ℕ)
    → Rising 0 es
    → last_time 0 es ≤ now
    → ((record_result (run (init timeout interval) es) now).state_ ≡ closed)
      × ((allow (record_result (run (init timeout interval) es) now) later).0 ≡ true)
result_recovers timeout interval es now later r h = (
  unfold record_result in refl,
  ap_first (
      result_recovers-past b (last_time 0 es) now later
        (run-IsPast (init timeout interval) 0 es past r) h),
)
  where
    b : Breaker
    b = run (init timeout interval) es

    past : IsPast (init timeout interval) 0
    past =
        unfold init in record { sent = omega arith; answered = omega arith; probed = omega arith }

    ap_first : {p q : Bool × Breaker} → p ≡ q → p.0 ≡ q.0
    ap_first e = λ i. (e i).0

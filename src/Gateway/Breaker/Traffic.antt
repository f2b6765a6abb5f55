-- ===== src/Gateway/Breaker/Traffic.antt =====
-- Streams of frames against the breaker (gateway/src/breaker.cpp), with no result in between.
use eye_d.Base.{ℕ, ◌-◌, ◌*◌, ◌≤◌, ◌<◌, ◌≡◌, refl, Bool, true, false, List, [], ◌∷◌, arith, All}
use eye_d.Gateway.Breaker.{Breaker, closed, open_state, ticks_per_ms, evaluate, allow, offer}

-- Of the frames at these times just those pass that come more than `limit` after the frame that
-- passed before them; the first is measured from `last`.
abbrev pub Spaced : ℕ → ℕ → List ℕ → List Bool → Type 0
Spaced limit last [] [] = Unit {0}
Spaced limit last [] (ok ∷ oks) = ⊥
Spaced limit last (now ∷ times) [] = ⊥
Spaced limit last (now ∷ times) (true ∷ oks) = (limit < now - last) × Spaced limit now times oks
Spaced limit last (now ∷ times) (false ∷ oks) = (now - last ≤ limit) × Spaced limit last times oks

-- Without results, an open breaker stays open whatever frames are offered, and the frames that it
-- passes are more than a probe interval apart, each measured from the one before.
pub offer-Spaced :
    (b : Breaker) (times : List ℕ)
    → b.state_ ≡ open_state
    → Spaced (b.probe_interval * ticks_per_ms) b.last_probe times (offer b times).0
      × ((offer b times).1.state_ ≡ open_state)
unfolding offer allow evaluate
offer-Spaced b [] e = (tt, e)
offer-Spaced b (now ∷ times) e = ground (
  arith,
  offer-Spaced b times,
  offer-Spaced (record b { last_sent = now; last_probe = now; state_ = open_state }) times,
)

-- No frame comes later than `limit` after the one before it; the first is measured from `last`.
abbrev pub Steady : ℕ → ℕ → List ℕ → Type 0
Steady limit last [] = Unit {0}
Steady limit last (now ∷ times) = (now - last ≤ limit) × Steady limit now times

-- Frames that keep coming within the timeout of one another are all accepted by a closed breaker,
-- which never opens, though no result comes for any of them, however long this lasts.
pub offer-Steady :
    (b : Breaker) (times : List ℕ)
    → b.state_ ≡ closed
    → Steady (b.timeout * ticks_per_ms) b.last_sent times
    → All (λ ok. ok ≡ true) (offer b times).0
      × ((offer b times).1.state_ ≡ closed)
      × ((offer b times).1.last_result ≡ b.last_result)
unfolding offer allow evaluate
offer-Steady b [] e h = (tt, e, refl)
offer-Steady b (now ∷ times) e h = ground (arith, offer-Steady (record b { last_sent = now }) times)

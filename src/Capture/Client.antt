-- ===== src/Capture/Client.antt =====
-- capture/src/client.h and client.cpp, the class GrpcClient and `reconnect_with_backoff`. What gRPC answers
-- to a call is an argument of the call.
use eye_d.Base.{
  ℕ, ◌*◌, ◌≤◌, ◌≡◌, Bool, true, false, ◌&&◌, not, List, [], ◌∷◌, ◌++◌, Option, none, some, arith,
  if◌then◌else◌, length, All, min, max, Bool-cases, inl, inr,
}

-- Whether there is a stream, and the flag `connected_`.
pub record GrpcClient : Type 0 where
  pub stream : Bool
  pub connected : Bool

pub record Ack : Type 0 where
  pub accepted : Bool
  pub queue_depth : ℕ

pub record SendResult : Type 0 where
  pub accepted : Bool
  pub queue_depth : ℕ
  pub connection_ok : Bool

-- One try to connect: whether the channel comes up in time, and whether the stream opens.
pub record Attempt : Type 0 where
  pub waits : Bool
  pub opens : Bool

unfoldable pub teardown_stream : GrpcClient → GrpcClient
teardown_stream c = record { stream = false; connected = false }

pub open_stream : Bool → GrpcClient → Bool × GrpcClient
open_stream opens c =
    if opens
    then (true, record c { stream = true })
    else (false, record { stream = false; connected = false })

pub connect : Attempt → GrpcClient → Bool × GrpcClient
unfolding teardown_stream open_stream
connect a c =
    let c₁ = record (teardown_stream c) { connected = a.waits } in
    if a.waits then open_stream a.opens c₁ else (false, c₁)

unfoldable pub lost : SendResult
lost = record { accepted = false; queue_depth = 0; connection_ok = false }

-- `ack` is what the read after the write brings, if it brings anything.
unfoldable pub send_frame : Bool → Option Ack → GrpcClient → SendResult × GrpcClient
unfolding teardown_stream lost
send_frame writes ack c =
    if not c.stream then (lost, c) else if not writes then (lost, teardown_stream c) else elim ack [
      | none ↦ (lost, teardown_stream c)
      | some a ↦
          (record { accepted = a.accepted; queue_depth = a.queue_depth; connection_ok = true }, c)
    ]

-- The loop over the attempts as they turn out: the times it sleeps, and the client when it ends, or
-- `none` if none of the attempts succeeds.
reconnect_loop : ℕ → ℕ → List Attempt → GrpcClient → List ℕ × Option GrpcClient
reconnect_loop backoff_ms reconnect_max_ms [] c = ([], none)
reconnect_loop backoff_ms reconnect_max_ms (a ∷ later) c =
    let (ok, c') = connect a c in
    let (sleeps, end) =
      reconnect_loop (min (backoff_ms * 2) reconnect_max_ms) reconnect_max_ms later c' in
    if ok then ([], some c') else (backoff_ms ∷ sleeps, end)

pub reconnect_with_backoff : ℕ → ℕ → List Attempt → GrpcClient → List ℕ × Option GrpcClient
unfolding reconnect_loop
reconnect_with_backoff reconnect_base_ms reconnect_max_ms attempts c =
    reconnect_loop reconnect_base_ms reconnect_max_ms attempts c

abbrev pub succeeds : Attempt → Bool
succeeds a = a.waits && a.opens

abbrev pub Fails : Attempt → Type 0
Fails a = succeeds a ≡ false

reconnect_loop_lem :
    (base limit cap : ℕ) (fails : List Attempt) (a : Attempt) (rest : List Attempt) (c : GrpcClient)
    → All Fails fails
    → succeeds a ≡ true
    → base ≤ cap
    → limit ≤ cap
    → let (sleeps, end) = reconnect_loop base limit (fails ++ (a ∷ rest)) c in
      (end ≡ some (record { stream = true; connected = true }))
      × (length sleeps ≡ length fails)
      × All (λ ms. ms ≤ cap) sleeps
unfolding reconnect_loop connect open_stream teardown_stream
reconnect_loop_lem base limit cap [] a rest c bad good h k =
    (ground arith, ground arith, ground arith)
reconnect_loop_lem base limit cap (f ∷ fails) a rest c bad good h k =
    let ih =
      reconnect_loop_lem (min (base * 2) limit) limit cap fails a rest (connect f c).1 bad.1 good
        (omega arith) k in
    let failed : (connect f c).0 ≡ false = ground arith in
    rw failed (ih.0, omega (arith, ih.1), (h, ih.2))

-- The loop to reconnect ends with the first attempt that succeeds, with a stream and connected; it sleeps
-- once for each attempt that failed, never longer than the greater of the base and the maximum.
pub reconnect_with_backoff_lem :
    (base limit : ℕ) (fails : List Attempt) (a : Attempt) (rest : List Attempt) (c : GrpcClient)
    → All Fails fails
    → succeeds a ≡ true
    → let (sleeps, end) = reconnect_with_backoff base limit (fails ++ (a ∷ rest)) c in
      (end ≡ some (record { stream = true; connected = true }))
      × (length sleeps ≡ length fails)
      × All (λ ms. ms ≤ max base limit) sleeps
unfolding reconnect_with_backoff
reconnect_with_backoff_lem base limit fails a rest c bad good =
    reconnect_loop_lem base limit (max base limit) fails a rest c bad good (omega arith)
      (omega arith)

-- A client with a stream that works.
abbrev pub ready : GrpcClient
ready = record { stream = true; connected = true }

connect-ready : (a : Attempt) (c : GrpcClient) → (connect a c).0 ≡ true → (connect a c).1 ≡ ready
unfolding connect open_stream teardown_stream
connect-ready a c h = ground arith

reconnect_loop-ready :
    (base limit : ℕ) (attempts : List Attempt) (c c' : GrpcClient)
    → (reconnect_loop base limit attempts c).1 ≡ some c'
    → c' ≡ ready
unfolding reconnect_loop
reconnect_loop-ready base limit [] c c' h = absurd (cc h)
reconnect_loop-ready base limit (a ∷ later) c c' h = elim (Bool-cases (connect a c).0) [
  | inl e ↦ ground (arith, connect-ready a c)
  | inr e ↦
      reconnect_loop-ready (min (base * 2) limit) limit later (connect a c).1 c' (ground arith)
]

pub reconnect_with_backoff-ready :
    (base limit : ℕ) (attempts : List Attempt) (c c' : GrpcClient)
    → (reconnect_with_backoff base limit attempts c).1 ≡ some c'
    → c' ≡ ready
unfolding reconnect_with_backoff
reconnect_with_backoff-ready base limit attempts c c' h =
    reconnect_loop-ready base limit attempts c c' h

pub send_frame_kept :
    (writes : Bool) (ack : Option Ack) (c : GrpcClient)
    → (send_frame writes ack c).0.connection_ok ≡ true
    → (send_frame writes ack c).1 ≡ c
unfolding send_frame lost teardown_stream
send_frame_kept writes ack c h = ground arith

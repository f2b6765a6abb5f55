-- ===== src/Gateway/Frames.antt =====
-- gateway/src/grpc_server.h and grpc_server.cpp, the class GrpcServiceImpl. The clock readings of a
-- call and whether NATS takes the request are arguments; `put_time` is std::put_time on gmtime.
pub mod Counts
use eye_d.Base.{
  ℕ, zero, suc, ◌+◌, ◌-◌, ◌*◌, ◌/◌, ◌%◌, ◌^◌, ◌≡◌, refl, Bool, true, false, ◌&&◌, not, List, [],
  ◌∷◌, ◌++◌, arith, if◌then◌else◌, codes, ltb, ◌==◌,
}
use eye_d.Gateway.Base64.{base64_encode}
use eye_d.Gateway.Breaker.{Breaker, State, closed, allow}
use eye_d.Gateway.Breaker

pub record CaptureFrame : Type 0 where
  pub frame_id : ℕ
  pub device_id : List ℕ
  pub jpeg_data : List ℕ
  pub quality_score : List ℕ
  pub eye_side : List ℕ
  pub timestamp_us : ℕ

pub record FrameAck : Type 0 where
  pub frame_id : ℕ
  pub accepted : Bool
  pub queue_depth : ℕ

-- The fields of the JSON request; the quality score is a float's text.
pub record AnalyzeRequest : Type 0 where
  pub frame_id : List ℕ
  pub device_id : List ℕ
  pub jpeg_b64 : List ℕ
  pub quality_score : List ℕ
  pub eye_side : List ℕ
  pub timestamp : List ℕ

-- uint64_t counters, an int32_t as its bit pattern, and what was published.
pub record GrpcService : Type 0 where
  pub breaker : Breaker
  pub frames_processed : ℕ
  pub frames_rejected : ℕ
  pub connected_devices : ℕ
  pub total_latency_us : ℕ
  pub published : List AnalyzeRequest

-- std::to_string: the digits, the last one first decided. Twenty rounds print any uint64_t.
digits_of : ℕ → ℕ → List ℕ → List ℕ
digits_of zero n text = text
digits_of (suc fuel) n text =
    let more = digits_of fuel (n / 10) ((b'0' + n % 10) ∷ text) in
    if ltb n 10 then (b'0' + n) ∷ text else more

pub to_string : ℕ → List ℕ
unfolding digits_of
to_string n = digits_of 20 n []

-- `std::setw(6)` filled with zeros, on a number below 10 ^ 6.
abbrev six_digits : ℕ → List ℕ
six_digits n =
    (b'0' + n / 100000 % 10)
    ∷ (b'0' + n / 10000 % 10)
    ∷ (b'0' + n / 1000 % 10)
    ∷ (b'0' + n / 100 % 10)
    ∷ (b'0' + n / 10 % 10)
    ∷ (b'0' + n % 10)
    ∷ []

-- What one call sees of the world: the clock in the breaker, the latency that it measures if it comes
-- to that, and whether the publish succeeds.
pub record Surroundings : Type 0 where
  pub now : ℕ
  pub latency_us : ℕ
  pub publishes : Bool

abbrev pub bump : ℕ → ℕ
bump n = (n + 1) % 2 ^ 64

ack_of : CaptureFrame → Bool → FrameAck
ack_of frame accepted = record { frame_id = frame.frame_id; accepted = accepted; queue_depth = 0 }

module _ (put_time : ℕ → List ℕ) where
  pub request_of : CaptureFrame → AnalyzeRequest
  request_of frame =
      let sec = frame.timestamp_us / 1000000 in
      let usec = frame.timestamp_us % 1000000 in
      record {
        frame_id = to_string frame.frame_id;
        device_id = frame.device_id;
        jpeg_b64 = base64_encode frame.jpeg_data;
        quality_score = frame.quality_score;
        eye_side = frame.eye_side;
        timestamp = put_time sec ++ (codes "." ++ (six_digits usec ++ codes "Z"));
      }

  reject : GrpcService → CaptureFrame → Bool × FrameAck × GrpcService
  reject s frame =
      (false, ack_of frame false, record s { frames_rejected = bump s.frames_rejected })

  accept : GrpcService → CaptureFrame → Surroundings → Bool × FrameAck × GrpcService
  accept s frame env = (
    true,
    ack_of frame true,
    record s {
      frames_processed = bump s.frames_processed;
      total_latency_us = (s.total_latency_us + env.latency_us) % 2 ^ 64;
      published = s.published ++ (request_of frame ∷ []);
    },
  )

  pub process_frame : GrpcService → CaptureFrame → Surroundings → Bool × FrameAck × GrpcService
  unfolding reject accept ack_of
  process_frame s frame env =
      let (allowed, breaker) = allow s.breaker env.now in
      let s' = record s { breaker = breaker } in
      if not allowed
      then reject s' frame
      else if env.publishes
      then accept s' frame env
      else reject s' frame

  pub submit_frame : GrpcService → CaptureFrame → Surroundings → FrameAck × GrpcService
  submit_frame s frame env = let (_, ack, s') = process_frame s frame env in (ack, s')

  -- The frames that the stream delivers until a read fails, each with its surroundings and with
  -- whether the write of its ack succeeds.
  stream_loop :
      GrpcService → List (CaptureFrame × Surroundings × Bool) → List FrameAck × GrpcService
  stream_loop s [] = ([], s)
  stream_loop s ((frame, env, writes) ∷ rest) =
      let (_, ack, s') = process_frame s frame env in
      let more = stream_loop s' rest in if writes then (ack ∷ more.0, more.1) else (ack ∷ [], s')

  pub stream_frames :
      GrpcService → List (CaptureFrame × Surroundings × Bool) → List FrameAck × GrpcService
  unfolding stream_loop
  stream_frames s frames =
      let s₀ = record s { connected_devices = (s.connected_devices + 1) % 2 ^ 32 } in
      let (acks, s₁) = stream_loop s₀ frames in
      (acks, record s₁ { connected_devices = (s₁.connected_devices + (2 ^ 32 - 1)) % 2 ^ 32 })

-- A double that is a quotient, kept as its two terms.
pub record Quotient : Type 0 where
  pub dividend : ℕ
  pub divisor : ℕ

pub avg_latency_ms : GrpcService → Quotient
avg_latency_ms s =
    if s.frames_processed == 0
    then record { dividend = 0; divisor = 1 }
    else record { dividend = s.total_latency_us; divisor = s.frames_processed * 1000 }

pub record ServerStatus : Type 0 where
  pub alive : Bool
  pub ready : Bool
  pub connected_devices : ℕ
  pub avg_latency : Quotient
  pub frames_processed : ℕ

is_closed : State → Bool
is_closed Breaker.closed = true
is_closed _ = false

-- `nats_->is_connected() && ...`: the state is only asked for, and so evaluated, if NATS is connected.
pub get_status : Bool → GrpcService → ℕ → ServerStatus × GrpcService
unfolding is_closed
get_status nats_connected s now =
    let (state, breaker) = Breaker.state s.breaker now in
    (
      record {
        alive = true;
        ready = nats_connected && is_closed state;
        connected_devices = s.connected_devices;
        avg_latency = avg_latency_ms s;
        frames_processed = s.frames_processed;
      },
      record s { breaker = if nats_connected then breaker else s.breaker },
    )

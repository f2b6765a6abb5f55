-- ===== src/Capture/Main.antt =====
-- capture/src/main.cpp: the capture thread and the loop of the main thread, which takes frames from the
-- ring buffer, gates them and sends them. The camera's images, what gRPC answers and the measures of
-- OpenCV are arguments.
pub mod Numbers
pub mod Counts
pub mod Account
use eye_d.Base.{
  ℕ, ◌+◌, ◌%◌, ◌^◌, Bool, true, false, not, List, [], ◌∷◌, Option, none, some, if◌then◌else◌,
  is_empty,
}
use eye_d.Capture.Client.{GrpcClient, Ack, SendResult, Attempt, send_frame, reconnect_with_backoff}

-- `I` is cv::Mat.
pub record Frame (I : Type 0) : Type 0 where
  pub image : I
  pub frame_id : ℕ
  pub timestamp_us : ℕ

-- What Camera::next_frame brings: a failure for good, an empty image, or an image with its time.
pub data Shot (I : Type 0) : Type 0 where
  lost_camera blank : Shot I
  shot : I → ℕ → Shot I

-- capture_thread, with the frames that go into the buffer and those that are dropped since it is full.
-- Each image comes with whether the buffer then has room; the list ends with the shutdown.
module _ {I : Type 0} where
  unfoldable pub capture_loop : ℕ → List (Shot I × Bool) → List (Frame I) × List (Frame I)
  capture_loop frame_id [] = ([], [])
  capture_loop frame_id ((lost_camera, room) ∷ later) = ([], [])
  capture_loop frame_id ((blank, room) ∷ later) = capture_loop frame_id later
  capture_loop frame_id ((shot image ts, room) ∷ later) =
      let (pushed, dropped) = capture_loop ((frame_id + 1) % 2 ^ 32) later in
      let frame : Frame I = record { image = image; frame_id = frame_id; timestamp_us = ts } in
      if room then (frame ∷ pushed, dropped) else (pushed, frame ∷ dropped)

  unfoldable pub capture_thread : List (Shot I × Bool) → List (Frame I) × List (Frame I)
  unfolding capture_loop
  capture_thread shots = capture_loop 0 shots

-- QualityGate; `Q` is float.
pub record QualityGate (I Q : Type 0) : Type 0 where
  pub score : I → Q
  pub passes : Q → Bool
  pub encode_jpeg : I → List ℕ

pub record GatewayConfig : Type 0 where
  pub reconnect_base_ms : ℕ
  pub reconnect_max_ms : ℕ

-- The counters of the main loop.
pub record Stats : Type 0 where
  pub sent : ℕ
  pub rejected_quality : ℕ
  pub rejected_gw : ℕ

-- What gRPC answers while a frame is sent: whether the write goes through, what the read brings, and how
-- the attempts to reconnect turn out that follow a failure.
pub record Answers : Type 0 where
  pub writes : Bool
  pub ack : Option Ack
  pub attempts : List Attempt

-- What became of a frame.
pub data Fate : Type 0 where
  low_quality no_jpeg lost_connection not_accepted delivered : Fate

-- The loop's state behind a frame; the client is none while the loop to reconnect goes on.
pub record Turn : Type 0 where
  pub fate : Fate
  pub stats : Stats
  pub client : Option GrpcClient

unfoldable pub settle : GatewayConfig → Answers → Stats → SendResult × GrpcClient → Turn
settle cfg ans st (result, c) =
    if not result.connection_ok
    then record {
      fate = lost_connection;
      stats = st;
      client = (reconnect_with_backoff cfg.reconnect_base_ms cfg.reconnect_max_ms ans.attempts c).1;
    }
    else if not result.accepted
    then record {
      fate = not_accepted;
      stats = record st { rejected_gw = (st.rejected_gw + 1) % 2 ^ 64 };
      client = some c;
    }
    else record {
      fate = delivered;
      stats = record st { sent = (st.sent + 1) % 2 ^ 64 };
      client = some c;
    }

module _ {I Q : Type 0} (gate : QualityGate I Q) (cfg : GatewayConfig) where
  unfoldable pub handle_frame : Frame I → Answers → Stats → GrpcClient → Turn
  unfolding settle
  handle_frame frame ans st c =
      if not (gate.passes (gate.score frame.image))
      then record {
        fate = low_quality;
        stats = record st { rejected_quality = (st.rejected_quality + 1) % 2 ^ 64 };
        client = some c;
      }
      else if is_empty (gate.encode_jpeg frame.image)
      then record { fate = no_jpeg; stats = st; client = some c }
      else settle cfg ans st (send_frame ans.writes ans.ack c)

  -- The loop over what try_pop brings, up to the shutdown: none where the buffer is empty.
  unfoldable pub main_loop :
      List (Option (Frame I) × Answers)
      → Stats
      → GrpcClient
      → List (Frame I × Fate) × Stats × Option GrpcClient
  unfolding handle_frame
  main_loop [] st c = ([], st, some c)
  main_loop ((none, ans) ∷ later) st c = main_loop later st c
  main_loop ((some frame, ans) ∷ later) st c =
      let turn = handle_frame frame ans st c in
      elim turn.client [
        | none ↦ ((frame, turn.fate) ∷ [], turn.stats, none)
        | some c' ↦
            let (fates, st', end) = main_loop later turn.stats c' in
            ((frame, turn.fate) ∷ fates, st', end)
      ]

-- ===== src/Gateway/Frames/Counts.antt =====
-- What gateway/src/grpc_server.cpp answers, counts and publishes.
use eye_d.Base.{
  ℕ, suc, ◌+◌, ◌%◌, ◌^◌, ◌<◌, ◌≡◌, refl, Bool, false, List, [], ◌∷◌, ◌++◌, arith, All, length,
  length-append, Bool-cases, inl, inr, if◌then◌else◌,
}
use eye_d.Base64.{IsByte}
use eye_d.Gateway.Breaker.{allow}
use eye_d.Gateway.Frames.{
  CaptureFrame, FrameAck, GrpcService, Surroundings, bump, request_of, process_frame, stream_loop,
  stream_frames,
}
use eye_d.Storage.Base64.{base64_decode, base64_decode-base64_encode}

module _ (put_time : ℕ → List ℕ) where
  -- One frame: it is accepted exactly if the breaker lets it pass and NATS takes the request; then
  -- just its request is published and it counts as processed; otherwise nothing is published and it
  -- counts as rejected. The ack carries the frame's number and the answer.
  pub process_frame_cases :
      (s : GrpcService) (frame : CaptureFrame) (env : Surroundings)
      → let (ok, ack, s') = process_frame put_time s frame env in
        (ok ≡ (if (allow s.breaker env.now).0 then env.publishes else false))
        × (ack ≡ record { frame_id = frame.frame_id; accepted = ok; queue_depth = 0 })
        × (s'.published
            ≡ (if ok then s.published ++ (request_of put_time frame ∷ []) else s.published))
        × (s'.frames_processed ≡ (if ok then bump s.frames_processed else s.frames_processed))
        × (s'.frames_rejected ≡ (if ok then s.frames_rejected else bump s.frames_rejected))
        × (s'.breaker ≡ (allow s.breaker env.now).1)
  unfolding process_frame
  process_frame_cases s frame env =
      (ground arith, ground arith, ground arith, ground arith, ground arith, ground arith)

  -- The image that a request carries decodes to the frame's own.
  pub request_of_image :
      (frame : CaptureFrame)
      → All IsByte frame.jpeg_data
      → base64_decode (request_of put_time frame).jpeg_b64 ≡ frame.jpeg_data
  unfolding request_of
  request_of_image frame h = base64_decode-base64_encode frame.jpeg_data h

  stream_loop_connected :
      (s : GrpcService) (frames : List (CaptureFrame × Surroundings × Bool))
      → (stream_loop put_time s frames).1.connected_devices ≡ s.connected_devices
  unfolding stream_loop process_frame
  stream_loop_connected s [] = refl
  stream_loop_connected s ((frame, env, writes) ∷ rest) =
      ground (arith, stream_loop_connected (process_frame put_time s frame env).2 rest)

abbrev pub accepted_count : List FrameAck → ℕ
accepted_count [] = 0
accepted_count (a ∷ acks) = if a.accepted then suc (accepted_count acks) else accepted_count acks

module _ (put_time : ℕ → List ℕ) where
  process_frame_counted :
      (s : GrpcService) (frame : CaptureFrame) (env : Surroundings)
      → let (ok, ack, s') = process_frame put_time s frame env in
        ((s'.frames_processed + s'.frames_rejected) % 2 ^ 64
          ≡ (s.frames_processed + s.frames_rejected + 1) % 2 ^ 64)
        × (length s'.published ≡ length s.published + accepted_count (ack ∷ []))
  unfolding process_frame
  process_frame_counted s frame env =
      (ground arith, ground (arith, length-append s.published (request_of put_time frame ∷ [])))

  stream_loop_counted :
      (s : GrpcService) (frames : List (CaptureFrame × Surroundings × Bool))
      → let (acks, s') = stream_loop put_time s frames in
        ((s'.frames_processed + s'.frames_rejected) % 2 ^ 64
          ≡ (s.frames_processed + s.frames_rejected + length acks) % 2 ^ 64)
        × (length s'.published ≡ length s.published + accepted_count acks)
  unfolding stream_loop
  stream_loop_counted s [] = (omega arith, omega arith)
  stream_loop_counted s ((frame, env, writes) ∷ rest) =
      let (c, p) = process_frame_counted s frame env in
      let s' = (process_frame put_time s frame env).2 in
      let (cs, ps) = stream_loop_counted s' rest in
      elim (Bool-cases writes) [
        | inl e ↦ rw e (omega arith, ground arith)
        | inr e ↦ rw e (omega arith, ground arith)
      ]

  -- With a number of connected devices below 2 ^ 32: a stream leaves that number as it found it; each
  -- frame that it answers is counted once, as processed or as rejected, modulo 2 ^ 64; and as many
  -- requests are published as acks accept.
  pub stream_frames_counted :
      (s : GrpcService) (frames : List (CaptureFrame × Surroundings × Bool))
      → s.connected_devices < 2 ^ 32
      → let (acks, s') = stream_frames put_time s frames in
        (s'.connected_devices ≡ s.connected_devices)
        × ((s'.frames_processed + s'.frames_rejected) % 2 ^ 64
            ≡ (s.frames_processed + s.frames_rejected + length acks) % 2 ^ 64)
        × (length s'.published ≡ length s.published + accepted_count acks)
  unfolding stream_frames
  stream_frames_counted s frames h =
      let s₀ = record s { connected_devices = (s.connected_devices + 1) % 2 ^ 32 } in
      let (c, p) = stream_loop_counted s₀ frames in
      (omega (arith, stream_loop_connected put_time s₀ frames), c, p)

-- ===== src/Tests/Gateway.antt =====
-- The gateway (gateway/src): theorems at concrete inputs.
use eye_d.Base.{
  ℕ, ◌+◌, ◌%◌, ◌^◌, ◌≡◌, refl, Bool, true, false, List, [], ◌∷◌, arith, All, codes, length, String,
  none, some,
}
use eye_d.Base.Assoc.{lookup, insert}
use eye_d.Base.Eq.{string_Eq, nat_Eq}
use eye_d.Base.Sets.{member, IsAscending}
use eye_d.Gateway.Breaker.{
  Breaker, Event, init, allow, record_result, run, offer, closed, open_state, frame, query,
}
use eye_d.Gateway.Breaker.Steps.{result_recovers}
use eye_d.Gateway.Breaker.Traffic.{offer-Steady}
use eye_d.Gateway.WsHub.{
  Wire, WsHub, joins, leaves, message, run as run_hub, empty_hub as no_clients, present_after,
  run-member,
}
use eye_d.Gateway.Signaling.{
  SignalingHub, empty_hub, register_device, register_viewer, unregister, relay,
}
use eye_d.Gateway.Signaling.Isolation.{
  Reachable, start, next, device_joins, viewer_joins, GoesTo, Reachable-Agrees, relay_isolation,
}
use eye_d.Gateway.Signaling.Tables.{Agrees}
use eye_d.Gateway.Signaling.Stale.{unregister_stale}
use eye_d.Gateway.Frames.{CaptureFrame, Surroundings, GrpcService, stream_frames}
use eye_d.Gateway.Frames.Counts.{accepted_count, stream_frames_counted}
use eye_d.Gateway.Http.{HttpServer}
use eye_d.Gateway.Http.Sessions.{IsTidy}

-- A breaker of 5 s and 10 s, closed, with a frame out since 1 ms.
abbrev waiting : Breaker
waiting = record {
  state_ = closed;
  timeout = 5000;
  probe_interval = 10000;
  last_sent = 1_000_000;
  last_result = 0;
  last_probe = 0;
}

abbrev tripped : Breaker
tripped = record waiting { state_ = open_state; last_probe = 6_000_000_000 }

abbrev late_times : List ℕ
late_times = 7_000_000_000 ∷ 16_000_000_001 ∷ 20_000_000_000 ∷ 26_000_000_002 ∷ []

abbrev steady_times : List ℕ
steady_times = 4_000_000_000 ∷ 8_000_000_000 ∷ 12_000_000_000 ∷ []

offer-Steady_example :
    All (λ ok. ok ≡ true) (offer waiting steady_times).0
    × ((offer waiting steady_times).1.state_ ≡ closed)
    × ((offer waiting steady_times).1.last_result ≡ 0)
offer-Steady_example = offer-Steady waiting steady_times refl (omega arith)

abbrev history : List (ℕ × Event)
history = (1, frame) ∷ (6_000_000_000, query) ∷ []

result_recovers_example :
    ((record_result (run (init 5000 10000) history) 7_000_000_000).state_ ≡ closed)
    × ((allow (record_result (run (init 5000 10000) history) 7_000_000_000) 8_000_000_000).0 ≡ true)
result_recovers_example =
    result_recovers 5000 10000 history 7_000_000_000 8_000_000_000 (omega arith) (omega arith)

abbrev fine : Wire
fine = record { is_open = λ s. true; sends = λ s. true }

-- A device 1 and a viewer 2 of "cam".
abbrev joined : SignalingHub
joined = (register_viewer (register_device fine empty_hub "cam" 1).1 "cam" 2)

nobody_one : lookup 1 empty_hub.session_device ≡ none
unfolding empty_hub lookup
nobody_one = refl

nobody_two : lookup 2 (register_device fine empty_hub "cam" 1).1.session_device ≡ none
unfolding empty_hub register_device lookup insert
nobody_two = refl

cam_hub : Reachable joined
cam_hub = next (next start (device_joins fine "cam" 1 nobody_one)) (viewer_joins "cam" 2 nobody_two)

relay_isolation_example :
    ((d : String)
      → lookup 1 joined.session_device ≡ some d
      → All (GoesTo joined d) (relay fine joined 1 (codes "offer")).0)
    × (lookup 1 joined.session_device ≡ none → (relay fine joined 1 (codes "offer")).0 ≡ [])
relay_isolation_example = relay_isolation cam_hub fine 1 (codes "offer")

unregister_stale_example :
    let hub =
      (unregister fine
        (register_device fine (register_device fine empty_hub "cam" 1).1 "cam" 3).1
        1).1 in
    (lookup "cam" hub.devices ≡ none)
    × (lookup 3 hub.session_device ≡ some "cam")
    × (lookup 3 hub.session_role ≡ some "device")
unregister_stale_example = unregister_stale fine empty_hub "cam" 1 3 (omega arith)

abbrev a_frame : CaptureFrame
a_frame = record {
  frame_id = 7;
  device_id = codes "cam";
  jpeg_data = 255 ∷ 216 ∷ 255 ∷ [];
  quality_score = codes "0.5";
  eye_side = codes "left";
  timestamp_us = 1_700_000_000_000_123;
}

abbrev service : GrpcService
service = record {
  breaker = waiting;
  frames_processed = 4;
  frames_rejected = 1;
  connected_devices = 2;
  total_latency_us = 9000;
  published = [];
}

abbrev arrivals : List (CaptureFrame × Surroundings × Bool)
arrivals =
    (a_frame, record { now = 2_000_000; latency_us = 800; publishes = true }, true)
    ∷ (a_frame, record { now = 3_000_000; latency_us = 800; publishes = false }, true)
    ∷ []

stream_frames_counted_example :
    let (acks, s) = stream_frames (λ t. codes "2023-11-14T22:13:20") service arrivals in
    (s.connected_devices ≡ 2)
    × ((s.frames_processed + s.frames_rejected) % 2 ^ 64 ≡ (5 + length acks) % 2 ^ 64)
    × (length s.published ≡ 0 + accepted_count acks)
stream_frames_counted_example =
    stream_frames_counted (λ t. codes "2023-11-14T22:13:20") service arrivals (omega arith)

run-member_example :
    (member 4 (run_hub no_clients (joins 4 ∷ joins 2 ∷ message fine ∷ leaves 2 ∷ [])).clients
      ≡ present_after 4 false (joins 4 ∷ joins 2 ∷ message fine ∷ leaves 2 ∷ []))
    × IsAscending (run_hub no_clients (joins 4 ∷ joins 2 ∷ message fine ∷ leaves 2 ∷ [])).clients
run-member_example = run-member (joins 4 ∷ joins 2 ∷ message fine ∷ leaves 2 ∷ []) 4

abbrev two_clients : WsHub
two_clients = record { clients = 2 ∷ 4 ∷ [] }

Reachable-Agrees_example : Agrees joined
Reachable-Agrees_example = Reachable-Agrees cam_hub

abbrev stopped : HttpServer
stopped = record {
  running = false;
  acceptor_open = false;
  thread_joinable = false;
  threads_started = 0;
}

stopped-IsTidy : IsTidy stopped
stopped-IsTidy = record { acceptor = refl; thread = refl }

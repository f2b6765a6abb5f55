-- ===== src/Tests/Devices.antt =====
-- The capture device's program (capture/src/main.cpp): theorems at concrete inputs.
use eye_d.Base.{
  ℕ, ◌+◌, ◌%◌, ◌^◌, ◌≡◌, Bool, true, false, List, [], ◌∷◌, Option, none, some, arith, get_elem?,
  length, take, All, ltb,
}
use eye_d.Capture.Client.{GrpcClient, ready}
use eye_d.Capture.Main.{
  Frame, Shot, lost_camera, blank, shot, capture_thread, QualityGate, GatewayConfig, Answers,
  main_loop,
}
use eye_d.Capture.Main.Numbers.{images, Rising, capture_thread_lem}
use eye_d.Capture.Main.Counts.{is_low, is_delivered, is_refused, tally}
use eye_d.Capture.Main.Account.{verdicts, IsGated, no_stats, main_loop_lem}

-- The second image is blank, and the third finds no room.
abbrev shots : List (Shot ℕ × Bool)
shots =
    (shot 7 100, true)
    ∷ (blank, true)
    ∷ (shot 8 200, false)
    ∷ (shot 9 300, true)
    ∷ (lost_camera, true)
    ∷ []

capture_thread_lem_example :
    let (pushed, dropped) = capture_thread shots in
    All (λ f. get_elem? (images shots) f.frame_id ≡ some (f.image, f.timestamp_us)) pushed
    × All (λ f. get_elem? (images shots) f.frame_id ≡ some (f.image, f.timestamp_us)) dropped
    × Rising 0 pushed
    × Rising 0 dropped
    × (length pushed + length dropped ≡ length (images shots))
capture_thread_lem_example = capture_thread_lem shots (omega arith)

-- An image is its score, which passes from 5 on.
abbrev gate : QualityGate ℕ ℕ
gate = record { score = λ image. image; passes = λ q. ltb 4 q; encode_jpeg = λ image. image ∷ [] }

abbrev config : GatewayConfig
config = record { reconnect_base_ms = 500; reconnect_max_ms = 30000 }

abbrev answers : Bool → Answers
answers writes = record {
  writes = writes;
  ack = some (record { accepted = true; queue_depth = 0 });
  attempts = record { waits = true; opens = true } ∷ [];
}

abbrev frame : ℕ → ℕ → Frame ℕ
frame image id = record { image = image; frame_id = id; timestamp_us = 0 }

-- One frame is too low, one is lost with its connection, and one is sent.
abbrev events : List (Option (Frame ℕ) × Answers)
events =
    (some (frame 2 0), answers true)
    ∷ (none, answers true)
    ∷ (some (frame 7 1), answers false)
    ∷ (some (frame 8 2), answers true)
    ∷ []

main_loop_lem_example :
    let (fates, st, end) = main_loop gate config events no_stats ready in
    (st.sent ≡ tally is_delivered fates % 2 ^ 64)
    × (st.rejected_quality ≡ tally is_low fates % 2 ^ 64)
    × (st.rejected_gw ≡ tally is_refused fates % 2 ^ 64)
    × All (IsGated gate config) fates
    × (fates ≡ take (length fates) (verdicts gate config events))
    × ((c : GrpcClient) → end ≡ some c → (c ≡ ready) × (fates ≡ verdicts gate config events))
main_loop_lem_example = main_loop_lem gate config events

-- ===== src/Tests/Capture.antt =====
-- The capture device (capture/src): theorems at concrete inputs.
use eye_d.Base.{
  max, ◌≤◌, length, All, some, ◌++◌, false, ℕ, ◌<◌, ◌≡◌, refl, true, List, [], ◌∷◌, arith, length,
}
use eye_d.Capture.Client.{GrpcClient, Attempt, reconnect_with_backoff, reconnect_with_backoff_lem}
use eye_d.Capture.Ring.{System, resting, granted, stored, has_room, next, store_slot, store_head}
use eye_d.Capture.Ring.Fifo.{grants, stores, publishes, Runs, stays, then_steps, fresh, Runs-fresh}

abbrev four_slots : List ℕ
four_slots = 0 ∷ 0 ∷ 0 ∷ 0 ∷ []

has_room_first : has_room 4 (fresh 4 four_slots).ring ≡ true
unfolding has_room next
has_room_first = refl

abbrev filling : System ℕ
filling = record (fresh 4 four_slots) { producer = granted 7 }

abbrev written : System ℕ
written = record filling { ring = store_slot 4 7 (fresh 4 four_slots).ring; producer = stored 7 }

abbrev filled : System ℕ
filled = record written { ring = store_head 4 written.ring; producer = resting; pushed = 7 ∷ [] }

one_push : Runs 4 (fresh 4 four_slots) filled
one_push =
    then_steps (then_steps (then_steps stays (grants 7 refl has_room_first)) (stores 7 refl))
      (publishes 7 refl)

Runs-fresh_example : (inside : List ℕ) × (7 ∷ [] ≡ [] ++ inside) × (length inside < 4)
Runs-fresh_example = Runs-fresh 4 four_slots refl (omega arith) one_push

abbrev no_channel : Attempt
no_channel = record { waits = false; opens = true }

abbrev no_stream : Attempt
no_stream = record { waits = true; opens = false }

abbrev good : Attempt
good = record { waits = true; opens = true }

abbrev offline : GrpcClient
offline = record { stream = false; connected = false }

reconnect_with_backoff_lem_example :
    let (sleeps, end) =
      reconnect_with_backoff 500 700 ((no_channel ∷ no_stream ∷ []) ++ (good ∷ [])) offline in
    (end ≡ some (record { stream = true; connected = true }))
    × (length sleeps ≡ 2)
    × All (λ ms. ms ≤ max 500 700) sleeps
reconnect_with_backoff_lem_example =
    reconnect_with_backoff_lem 500 700 (no_channel ∷ no_stream ∷ []) good [] offline
      (refl, (refl, tt)) refl

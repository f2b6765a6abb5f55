-- ===== src/Gateway/WsHub.antt =====
-- gateway/src/ws_hub.h and ws_hub.cpp. A session is the number that stands for its pointer; what its
-- socket does during a broadcast is a parameter of the call.
use eye_d.Base.{
  ℕ, ◌≡◌, refl, Bool, false, not, ◌&&◌, ◌||◌, List, [], ◌∷◌, arith, if◌then◌else◌, ◌==◌, length,
}
use eye_d.Base.Sets.{
  member, add, remove, keep, IsAscending, member-add, member-remove, member-keep, add-IsAscending,
  remove-IsAscending, keep-IsAscending,
}

-- The interface WsSession: whether `is_open()` says yes, and whether `send` returns or throws.
pub record Wire : Type 0 where
  pub is_open : ℕ → Bool
  pub sends : ℕ → Bool

pub record WsHub : Type 0 where
  pub clients : List ℕ

pub empty_hub : WsHub
empty_hub = record { clients = [] }

pub add_client : WsHub → ℕ → WsHub
add_client hub session = record { clients = add session hub.clients }

pub remove_client : WsHub → ℕ → WsHub
remove_client hub session = record { clients = remove session hub.clients }

-- The loop of `broadcast`, and of `relay` in the signaling hub: who got the message, and who stays.
unfoldable pub send_loop : Wire → List ℕ → List ℕ × List ℕ
send_loop w [] = ([], [])
send_loop w (s ∷ rest) =
    let (got, stay) = send_loop w rest in
    if w.is_open s then (if w.sends s then (s ∷ got, s ∷ stay) else (got, stay)) else (got, stay)

pub broadcast : Wire → WsHub → List ℕ × WsHub
unfolding send_loop
broadcast w hub = let (got, stay) = send_loop w hub.clients in (got, record { clients = stay })

pub client_count : WsHub → ℕ
client_count hub = length hub.clients

-- The sessions that a message reaches.
abbrev pub healthy : Wire → ℕ → Bool
healthy w s = w.is_open s && w.sends s

pub send_loop-keep :
    (w : Wire) (xs : List ℕ)
    → ((send_loop w xs).0 ≡ keep (healthy w) xs) × ((send_loop w xs).1 ≡ keep (healthy w) xs)
unfolding send_loop keep
send_loop-keep w [] = (refl, refl)
send_loop-keep w (s ∷ rest) =
    let (got, stay) = send_loop-keep w rest in (ground arith, ground arith)

-- What happens to a hub.
pub data Event : Type 0 where
  joins leaves : ℕ → Event
  message : Wire → Event

step : WsHub → Event → WsHub
step hub (joins s) = add_client hub s
step hub (leaves s) = remove_client hub s
step hub (message w) = (broadcast w hub).1

pub run : WsHub → List Event → WsHub
unfolding step
run hub [] = hub
run hub (e ∷ es) = run (step hub e) es

-- The hub as a set of sessions.
abbrev present : ℕ → Bool → Event → Bool
present s was (joins t) = t == s || was
present s was (leaves t) = not (t == s) && was
present s was (message w) = was && healthy w s

abbrev pub present_after : ℕ → Bool → List Event → Bool
present_after s was [] = was
present_after s was (e ∷ es) = present_after s (present s was e) es

step-IsAscending :
    (hub : WsHub) (e : Event) → IsAscending hub.clients → IsAscending (step hub e).clients
unfolding step add_client remove_client broadcast
step-IsAscending hub (joins s) a = add-IsAscending s hub.clients a
step-IsAscending hub (leaves s) a = remove-IsAscending s hub.clients a
step-IsAscending hub (message w) a =
    rw ((send_loop-keep w hub.clients).1) (keep-IsAscending (healthy w) hub.clients a)

step-member :
    (hub : WsHub) (e : Event) (s : ℕ)
    → IsAscending hub.clients
    → member s (step hub e).clients ≡ present s (member s hub.clients) e
unfolding step add_client remove_client broadcast
step-member hub (joins t) s a = member-add t s hub.clients
step-member hub (leaves t) s a = member-remove t s hub.clients a
step-member hub (message w) s a =
    rw ((send_loop-keep w hub.clients).1) (member-keep (healthy w) s hub.clients)

run-member_from :
    (hub : WsHub) (es : List Event) (s : ℕ)
    → IsAscending hub.clients
    → (member s (run hub es).clients ≡ present_after s (member s hub.clients) es)
      × IsAscending (run hub es).clients
unfolding run
run-member_from hub [] s a = (refl, a)
run-member_from hub (e ∷ es) s a =
    let (m, asc) = run-member_from (step hub e) es s (step-IsAscending hub e a) in
    (rw (step-member hub e s a) at m, asc)

-- After any history of a fresh hub, a session is among the clients exactly if it joined and has since
-- neither left nor failed a broadcast; and no session is there twice, so that `client_count` counts
-- sessions.
pub run-member :
    (es : List Event) (s : ℕ)
    → (member s (run empty_hub es).clients ≡ present_after s false es)
      × IsAscending (run empty_hub es).clients
unfolding empty_hub member
run-member es s = run-member_from (record { clients = [] }) es s tt

-- A broadcast reaches exactly the clients whose socket is open and whose send succeeds, and just those
-- are the clients afterwards.
pub broadcast-member :
    (w : Wire) (hub : WsHub) (s : ℕ)
    → (member s (broadcast w hub).0 ≡ (member s hub.clients && healthy w s))
      × ((broadcast w hub).1.clients ≡ (broadcast w hub).0)
unfolding broadcast
broadcast-member w hub s =
    let (got, stay) = send_loop-keep w hub.clients in
    (rw got (member-keep (healthy w) s hub.clients), rw (got, stay))

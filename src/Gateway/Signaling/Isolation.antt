-- ===== src/Gateway/Signaling/Isolation.antt =====
-- Who hears whom, in gateway/src/signaling_hub.cpp. A session registers once, as
-- HttpServer::handle_ws_signaling (gateway/src/http_server.cpp) does it.
use eye_d.Base.{
  ℕ, ◌≡◌, refl, ◌≢◌, inl, inr, Bool, true, false, List, [], ◌∷◌, Option, none, some, String, arith,
  All, is_empty, Bool-cases,
}
use eye_d.Base.Assoc.{lookup, insert, erase, lookup-insert_inv, lookup-erase_inv}
use eye_d.Base.Eq.{nat_Eq, string_Eq}
use eye_d.Base.Sets.{
  member, remove, keep, IsAscending, member-remove, member-keep, remove-IsAscending,
  keep-IsAscending,
}
use eye_d.Gateway.WsHub.{Wire, send_loop-keep, healthy}
use eye_d.Gateway.Signaling.{
  SignalingHub, Message, relayed, send_all, empty_hub, register_device, register_viewer, unregister,
  leave, relay, relay_from, relay_to_device, relay_to_viewers, is_device_role, or_blank, or_empty,
  drop_viewer, forget,
}
use eye_d.Gateway.Signaling.Tables.{
  Agrees, empty_hub-Agrees, known_ascending, register_device-Agrees, register_viewer-Agrees,
  without_device-Agrees, without_viewers-Agrees, fewer_viewers-Agrees, forget-Agrees,
}

-- One call of the hub. The transport of each call is arbitrary.
pub data Step (hub : SignalingHub) : SignalingHub → Type 0 where
  device_joins :
      (w : Wire) (d : String) (s : ℕ)
      → lookup s hub.session_device ≡ none
      → Step hub (register_device w hub d s).1
  viewer_joins :
      (d : String) (s : ℕ) → lookup s hub.session_device ≡ none → Step hub (register_viewer hub d s)
  relays : (w : Wire) (s : ℕ) (msg : List ℕ) → Step hub (relay w hub s msg).1
  ends : (w : Wire) (s : ℕ) → Step hub (unregister w hub s).1

pub data Reachable : SignalingHub → Type 0 where
  start : Reachable empty_hub
  next : {hub hub' : SignalingHub} → Reachable hub → Step hub hub' → Reachable hub'

device_role : (o : Option String) → o ≡ some "device" → is_device_role (or_blank o) ≡ true
unfolding is_device_role
device_role o e = rw e

viewer_role : (o : Option String) → o ≡ some "viewer" → is_device_role (or_blank o) ≡ false
unfolding is_device_role
viewer_role o e = rw e

module _ (w : Wire) (hub : SignalingHub) (a : Agrees hub) (s : ℕ) where
  device_leaves-Agrees :
      (d : String)
      → lookup s hub.session_device ≡ some d
      → is_device_role (or_blank (lookup s hub.session_role)) ≡ true
      → Agrees (forget s (record hub { devices = erase d hub.devices }))
  device_leaves-Agrees d e r =
      forget-Agrees _ s (without_device-Agrees hub a d)
        (λ k q.
          let (other, was) = lookup-erase_inv d k s hub.devices q in
          other (cc (e, (a.device_known k s was).0)))
        (λ k xs q. not_viewer k xs q (member s xs) refl)
    where
      not_viewer :
          (k : String) (xs : List ℕ)
          → lookup k hub.viewers ≡ some xs
          → (b : Bool) → member s xs ≡ b
          → member s xs ≡ false
      not_viewer k xs q true m = cc (r, viewer_role _ (a.viewer_known k xs s q m).1)
      not_viewer k xs q false m = m

  no_device :
      is_device_role (or_blank (lookup s hub.session_role)) ≡ false
      → (k : String) → lookup k hub.devices ≢ some s
  no_device r k q = cc (r, device_role _ (a.device_known k s q).1)

  elsewhere :
      (d k : String) (xs : List ℕ)
      → lookup s hub.session_device ≡ some d
      → d ≢ k
      → lookup k hub.viewers ≡ some xs
      → (b : Bool) → member s xs ≡ b
      → member s xs ≡ false
  elsewhere d k xs e other q true m = absurd (other (cc (e, (a.viewer_known k xs s q m).0)))
  elsewhere d k xs e other q false m = m

  module _ (d : String) (e : lookup s hub.session_device ≡ some d)
      (r : is_device_role (or_blank (lookup s hub.session_role)) ≡ false) where
    abbrev left_over : List ℕ
    left_over = remove s (or_empty (lookup d hub.viewers))

    abbrev old : IsAscending (or_empty (lookup d hub.viewers))
    old = known_ascending hub a d _ refl

    last_leaves-Agrees : Agrees (forget s (record hub { viewers = erase d hub.viewers }))
    last_leaves-Agrees = forget-Agrees _ s (without_viewers-Agrees hub a d) (no_device r) (λ k xs q.
        let (other, was) = lookup-erase_inv d k xs hub.viewers q in
        elsewhere d k xs e other was (member s xs) refl)

    one_leaves-Agrees : Agrees (forget s (record hub { viewers = insert d left_over hub.viewers }))
    one_leaves-Agrees =
        forget-Agrees _ s
          (fewer_viewers-Agrees hub a d left_over (remove-IsAscending s _ old)
            (λ t m. ground (arith, member-remove s t (or_empty (lookup d hub.viewers)) old)))
          (no_device r)
          (λ k xs q. elim (lookup-insert_inv d k left_over xs hub.viewers q) [
            | inl (p, same) ↦
                rw (← same)
                  (ground (arith, member-remove s s (or_empty (lookup d hub.viewers)) old))
            | inr (other, was) ↦ elsewhere d k xs e other was (member s xs) refl
          ])

    viewer_leaves-Agrees : Agrees (forget s (record hub { viewers = drop_viewer hub d s }))
    unfolding drop_viewer
    viewer_leaves-Agrees = elim (Bool-cases (is_empty left_over)) [
      | inl h ↦ rw h last_leaves-Agrees
      | inr h ↦ rw h one_leaves-Agrees
    ]

  leave-Agrees : (o : Option String) → lookup s hub.session_device ≡ o → Agrees (leave w hub s o).1
  unfolding leave
  leave-Agrees none e = a
  leave-Agrees (some d) e =
      elim (Bool-cases (is_device_role (or_blank (lookup s hub.session_role)))) [
        | inl r ↦ rw (r, leave) (device_leaves-Agrees d e r)
        | inr r ↦ rw (r, leave) (viewer_leaves-Agrees d e r)
      ]

module _ (w : Wire) (hub : SignalingHub) (a : Agrees hub) (d : String) (msg : List ℕ) where
  relay_to_viewers-Agrees :
      (o : Option (List ℕ)) → lookup d hub.viewers ≡ o → Agrees (relay_to_viewers w hub d msg o).1
  unfolding relay_to_viewers
  relay_to_viewers-Agrees none e = a
  relay_to_viewers-Agrees (some xs) e = rw (send_loop-keep w xs).1 (
      fewer_viewers-Agrees hub a d (keep (healthy w) xs)
        (keep-IsAscending (healthy w) xs (a.ascending d xs e))
        (λ t m. rw e (ground (arith, member-keep (healthy w) t xs))))

  relay_to_device-Agrees : (o : Option ℕ) → Agrees (relay_to_device w hub d msg o).1
  unfolding relay_to_device
  relay_to_device-Agrees none = a
  relay_to_device-Agrees (some t) = elim (Bool-cases (w.is_open t)) [
    | inr h ↦ rw h a
    | inl h ↦ elim (Bool-cases (w.sends t)) [
      | inl k ↦ rw (h, k) a
      | inr k ↦ rw (h, k) (without_device-Agrees hub a d)
    ]
  ]

relay_from-Agrees :
    (w : Wire) (hub : SignalingHub) (s : ℕ) (msg : List ℕ) (o : Option String)
    → Agrees hub
    → Agrees (relay_from w hub s msg o).1
unfolding relay_from
relay_from-Agrees w hub s msg none a = a
relay_from-Agrees w hub s msg (some d) a =
    elim (Bool-cases (is_device_role (or_blank (lookup s hub.session_role)))) [
      | inl r ↦ rw (r, relay_from) (relay_to_viewers-Agrees w hub a d msg _ refl)
      | inr r ↦ rw (r, relay_from) (relay_to_device-Agrees w hub a d msg _)
    ]

Step-Agrees : {hub hub' : SignalingHub} → Step hub hub' → Agrees hub → Agrees hub'
unfolding unregister relay
Step-Agrees {hub} (device_joins w d s fresh) a = register_device-Agrees hub a s d fresh w
Step-Agrees {hub} (viewer_joins d s fresh) a = register_viewer-Agrees hub a s d fresh
Step-Agrees {hub} (relays w s msg) a = relay_from-Agrees w hub s msg _ a
Step-Agrees {hub} (ends w s) a = leave-Agrees w hub a s _ refl

-- In every hub that sessions can bring about that register once each: a name's device and its viewers
-- are registered under that name, as its device and as its viewers, and no session is twice among the
-- viewers of a name.
pub Reachable-Agrees : {hub : SignalingHub} → Reachable hub → Agrees hub
Reachable-Agrees start = empty_hub-Agrees
Reachable-Agrees (next r s) = Step-Agrees s (Reachable-Agrees r)

-- A message goes to somebody who is registered under the name `d`.
abbrev pub GoesTo : SignalingHub → String → ℕ × Message → Type 0
GoesTo hub d (t, m) = lookup t hub.session_device ≡ some d

relay_to_viewers-GoesTo :
    (w : Wire) (hub : SignalingHub) (a : Agrees hub) (d : String) (msg : List ℕ)
    (o : Option (List ℕ))
    → lookup d hub.viewers ≡ o
    → All (GoesTo hub d) (relay_to_viewers w hub d msg o).0
unfolding relay_to_viewers member
relay_to_viewers-GoesTo w hub a d msg none e = tt
relay_to_viewers-GoesTo w hub a d msg (some xs) e = rw (send_loop-keep w xs).0 (
    each (keep (healthy w) xs)
      (λ t m. a.viewer_known d xs t e (ground (arith, member-keep (healthy w) t xs))))
  where
    each :
        (ys : List ℕ)
        → ((t : ℕ)
            → member t ys ≡ true
            → (lookup t hub.session_device ≡ some d) × (lookup t hub.session_role ≡ some "viewer"))
        → All (GoesTo hub d) (send_all (relayed msg) ys)
    each [] h = tt
    each (y ∷ ys) h = ((h y (ground arith)).0, each ys (λ t m. h t (ground arith)))

relay_to_device-GoesTo :
    (w : Wire) (hub : SignalingHub) (a : Agrees hub) (d : String) (msg : List ℕ) (o : Option ℕ)
    → lookup d hub.devices ≡ o
    → All (GoesTo hub d) (relay_to_device w hub d msg o).0
unfolding relay_to_device
relay_to_device-GoesTo w hub a d msg none e = tt
relay_to_device-GoesTo w hub a d msg (some t) e = ground (arith, (a.device_known d t e).0)

relay_from-GoesTo :
    (w : Wire) (hub : SignalingHub) (a : Agrees hub) (s : ℕ) (msg : List ℕ) (d : String)
    → All (GoesTo hub d) (relay_from w hub s msg (some d)).0
unfolding relay_from
relay_from-GoesTo w hub a s msg d =
    elim (Bool-cases (is_device_role (or_blank (lookup s hub.session_role)))) [
      | inl r ↦ rw (r, relay_from) (relay_to_viewers-GoesTo w hub a d msg _ refl)
      | inr r ↦ rw (r, relay_from) (relay_to_device-GoesTo w hub a d msg _ refl)
    ]

-- In every hub that sessions can bring about that register once each, a message goes only to sessions
-- registered under the sender's own name, and a
-- sender that is not registered reaches nobody.
pub relay_isolation :
    {hub : SignalingHub}
    → Reachable hub
    → (w : Wire) (sender : ℕ) (msg : List ℕ)
    → ((d : String)
        → lookup sender hub.session_device ≡ some d
        → All (GoesTo hub d) (relay w hub sender msg).0)
      × (lookup sender hub.session_device ≡ none → (relay w hub sender msg).0 ≡ [])
unfolding relay relay_from
relay_isolation {hub} reach w sender msg = (
  λ d e. rw e (relay_from-GoesTo w hub (Reachable-Agrees reach) sender msg d),
  λ e. rw (e, relay_from),
)

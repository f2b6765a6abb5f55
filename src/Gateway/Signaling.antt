-- ===== src/Gateway/Signaling.antt =====
-- gateway/src/signaling_hub.h and signaling_hub.cpp. Sessions are numbered as in WsHub; each
-- operation returns the messages that were sent, in their order, and the hub. A String stands for the
-- bytes of an identifier or a role. That the announcement of a device throws on an identifier that is not
-- UTF-8 is in handle_ws_signaling of Gateway/Http, the only caller of the registration.
pub mod Tables
pub mod Isolation
pub mod Stale
use eye_d.Base.{
  ℕ, ◌+◌, ◌≡◌, refl, Bool, true, false, List, [], ◌∷◌, ◌++◌, Option, none, some, String, arith,
  if◌then◌else◌, length, is_empty, map,
}
use eye_d.Base.Assoc.{lookup, insert, erase}
use eye_d.Base.Eq.{Eq, nat_Eq, string_Eq}
use eye_d.Base.Sets.{add, remove, keep}
use eye_d.Gateway.WsHub.{Wire, send_loop, healthy}

pub record SignalingHub : Type 0 where
  pub devices : List (String × ℕ)
  pub viewers : List (String × List ℕ)
  pub session_device : List (ℕ × String)
  pub session_role : List (ℕ × String)

-- What goes over a socket: a presence event of a device, or a relayed message.
pub data Message : Type 0 where
  presence : String → String → Message
  relayed : List ℕ → Message

abbrev pub Sent : Type 0
Sent = List (ℕ × Message)

unfoldable pub empty_hub : SignalingHub
empty_hub = record { devices = []; viewers = []; session_device = []; session_role = [] }

-- `map[key]`, where a missing set or text springs up empty.
abbrev pub or_empty : Option (List ℕ) → List ℕ
or_empty none = []
or_empty (some s) = s

abbrev pub or_blank : Option String → String
or_blank none = ""
or_blank (some s) = s

abbrev send_all : Message → List ℕ → Sent
send_all m = map (λ (s : ℕ). (s, m))

-- A failed send is ignored here, and nobody is removed.
broadcast_presence : Wire → SignalingHub → String → String → Sent
broadcast_presence w hub device_id event =
    send_all (presence device_id event) (keep (healthy w) (or_empty (lookup device_id hub.viewers)))

unfoldable pub register_device : Wire → SignalingHub → String → ℕ → Sent × SignalingHub
unfolding broadcast_presence
register_device w hub device_id session =
    let hub' = record hub {
      devices = insert device_id session hub.devices;
      session_device = insert session device_id hub.session_device;
      session_role = insert session "device" hub.session_role;
    } in
    (broadcast_presence w hub' device_id "join", hub')

unfoldable pub register_viewer : SignalingHub → String → ℕ → SignalingHub
register_viewer hub device_id session = record hub {
  viewers = insert device_id (add session (or_empty (lookup device_id hub.viewers))) hub.viewers;
  session_device = insert session device_id hub.session_device;
  session_role = insert session "viewer" hub.session_role;
}

pub is_device_role : String → Bool
is_device_role role = string_Eq.same role "device"

drop_viewer : SignalingHub → String → ℕ → List (String × List ℕ)
drop_viewer hub device_id session =
    let viewer_set = remove session (or_empty (lookup device_id hub.viewers)) in
    if is_empty viewer_set
    then erase device_id hub.viewers
    else insert device_id viewer_set hub.viewers

pub forget : ℕ → SignalingHub → SignalingHub
forget session hub = record hub {
  session_device = erase session hub.session_device;
  session_role = erase session hub.session_role;
}

leave : Wire → SignalingHub → ℕ → Option String → Sent × SignalingHub
unfolding is_device_role drop_viewer forget broadcast_presence
leave w hub session none = ([], hub)
leave w hub session (some device_id) =
    let role = or_blank (lookup session hub.session_role) in
    if is_device_role role
    then (let hub' = record hub { devices = erase device_id hub.devices } in
        (broadcast_presence w hub' device_id "leave", forget session hub'))
    else ([], forget session (record hub { viewers = drop_viewer hub device_id session }))

pub unregister : Wire → SignalingHub → ℕ → Sent × SignalingHub
unfolding leave
unregister w hub session = leave w hub session (lookup session hub.session_device)

-- From a device to all its viewers; sessions that are closed or fail drop out of the set.
relay_to_viewers : Wire → SignalingHub → String → List ℕ → Option (List ℕ) → Sent × SignalingHub
relay_to_viewers w hub device_id msg none = ([], hub)
relay_to_viewers w hub device_id msg (some viewer_set) =
    let (got, stay) = send_loop w viewer_set in
    (send_all (relayed msg) got, record hub { viewers = insert device_id stay hub.viewers })

-- From a viewer to the device; a device whose send fails is removed, one that is closed is not.
relay_to_device : Wire → SignalingHub → String → List ℕ → Option ℕ → Sent × SignalingHub
relay_to_device w hub device_id msg none = ([], hub)
relay_to_device w hub device_id msg (some device) =
    if w.is_open device
    then (if w.sends device
        then ((device, relayed msg) ∷ [], hub)
        else ([], record hub { devices = erase device_id hub.devices }))
    else ([], hub)

relay_from : Wire → SignalingHub → ℕ → List ℕ → Option String → Sent × SignalingHub
unfolding relay_to_viewers relay_to_device is_device_role
relay_from w hub sender msg none = ([], hub)
relay_from w hub sender msg (some device_id) =
    let role = or_blank (lookup sender hub.session_role) in
    if is_device_role role
    then relay_to_viewers w hub device_id msg (lookup device_id hub.viewers)
    else relay_to_device w hub device_id msg (lookup device_id hub.devices)

pub relay : Wire → SignalingHub → ℕ → List ℕ → Sent × SignalingHub
unfolding relay_from
relay w hub sender msg = relay_from w hub sender msg (lookup sender hub.session_device)

pub device_count : SignalingHub → ℕ
device_count hub = length hub.devices

count_viewers : List (String × List ℕ) → ℕ
count_viewers [] = 0
count_viewers ((k, v) ∷ m) = length v + count_viewers m

pub viewer_count : SignalingHub → ℕ
unfolding count_viewers
viewer_count hub = count_viewers hub.viewers

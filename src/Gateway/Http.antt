-- ===== src/Gateway/Http.antt =====
-- gateway/src/http_server.h and http_server.cpp: the query parser, the routes, the life of a signaling
-- session and of the server. A std::string is the list of its bytes. Sockets and the event loop are not
-- modelled: a session's read loop is the list of the messages that arrive before it ends.
pub mod Query
pub mod Sessions
use eye_d.Base.{
  ℕ, ◌+◌, ◌≡◌, refl, Bool, true, false, not, ◌&&◌, ◌||◌, List, [], ◌∷◌, ◌++◌, Option, none, some,
  String, arith, if◌then◌else◌, codes, ◌==◌, is_empty,
}
use eye_d.Base.Eq.{Eq, bytes_Eq, same_bytes}
use eye_d.Gateway.WsHub.{Wire, WsHub, add_client, remove_client}
use eye_d.Gateway.Signaling.{
  SignalingHub, Sent, register_device, register_viewer, relay, unregister,
}

abbrev pub Text : Type 0
Text = List ℕ

-- `s.find(c)`, and the text behind it.
pub after_char : ℕ → Text → Option Text
after_char c [] = none
after_char c (x ∷ s) = if x == c then some s else after_char c s

-- The text behind a prefix.
pub after_prefix : Text → Text → Option Text
after_prefix [] s = some s
after_prefix (n ∷ needle) [] = none
after_prefix (n ∷ needle) (x ∷ s) = if n == x then after_prefix needle s else none

-- `s.find(needle)`, and the text behind the first occurrence.
pub after_text : Text → Text → Option Text
unfolding after_prefix
after_text needle [] = after_prefix needle []
after_text needle (x ∷ s) = elim (after_prefix needle (x ∷ s)) [
  | some rest ↦ some rest
  | none ↦ after_text needle s
]

-- The text up to the first `c`, or all of it.
pub until_char : ℕ → Text → Text
until_char c [] = []
until_char c (x ∷ s) = if x == c then [] else x ∷ until_char c s

value_in : Text → Option Text → Text
value_in key none = []
value_in key (some query) = elim (after_text (key ++ codes "=") query) [
  | none ↦ []
  | some rest ↦ until_char b'&' rest
]

pub parse_query_param : Text → Text → Text
unfolding value_in
parse_query_param target key = value_in key (after_char b'?' target)

-- `target.rfind(prefix, 0) == 0`
pub starts_with : Text → Text → Bool
starts_with prefix target = elim (after_prefix prefix target) [ none ↦ false | some rest ↦ true ]

pub data Role : Type 0 where
  device viewer : Role

-- What a request leads to. A refused upgrade is accepted as a WebSocket and dropped at once.
pub data Action : Type 0 where
  ws_results dropped health_alive health_ready no_content not_found : Action
  ws_signaling : Text → Role → Action

signaling_action : Text → Text → Action
signaling_action device_id role =
    if is_empty device_id
    then dropped
    else if same_bytes role (codes "device")
    then ws_signaling device_id device
    else if same_bytes role (codes "viewer")
    then ws_signaling device_id viewer
    else dropped

pub handle_request : Bool → Bool → Text → Action
unfolding signaling_action
handle_request is_upgrade is_options target =
    if is_upgrade
    then (if starts_with (codes "/ws/results") target
        then ws_results
        else if starts_with (codes "/ws/signaling") target
        then signaling_action (parse_query_param target (codes "device_id"))
            (parse_query_param target (codes "role"))
        else dropped)
    else if same_bytes target (codes "/health/alive")
    then health_alive
    else if same_bytes target (codes "/health/ready")
    then health_ready
    else if is_options
    then no_content
    else not_found

-- The status line of an answer. An upgrade has no response of this kind.
pub status : Action → Option ℕ
status health_alive = some 200
status health_ready = some 200
status no_content = some 204
status not_found = some 404
status _ = none

-- The client is there while its read loop runs.
pub handle_ws_results : WsHub → ℕ → WsHub × WsHub
handle_ws_results hub session =
    let during = add_client hub session in (during, remove_client during session)

relay_each : SignalingHub → ℕ → List (Wire × Text) → Sent × SignalingHub
relay_each hub session [] = ([], hub)
relay_each hub session ((w, msg) ∷ msgs) =
    let (sent, hub') = relay w hub session msg in
    let (more, hub'') = relay_each hub' session msgs in (sent ++ more, hub'')

register : Wire → SignalingHub → String → Role → ℕ → Sent × SignalingHub
register w hub device_id device session = register_device w hub device_id session
register w hub device_id viewer session = ([], register_viewer hub device_id session)

-- `register_device` announces the device after its tables are written, and `dump` of the announcement
-- throws where the identifier is not UTF-8, which `dumps` tells.
unfoldable pub register_throws : Bool → Role → Bool
register_throws dumps device = not dumps
register_throws dumps viewer = false

-- The transport at the registration, at each message and at the end; `messages` are what the read loop
-- receives. An exception at the registration leaves the function.
pub handle_ws_signaling :
    Bool → Wire → SignalingHub → ℕ → String → Role → List (Wire × Text) → Wire → Sent × SignalingHub
unfolding register relay_each register_throws
handle_ws_signaling dumps w hub session device_id role messages w' =
    let (sent, hub₁) = register w hub device_id role session in
    if register_throws dumps role
    then ([], hub₁)
    else let (relayed, hub₂) = relay_each hub₁ session messages in
      let (left, hub₃) = unregister w' hub₂ session in (sent ++ (relayed ++ left), hub₃)

-- The server's own life: `running_`, whether the acceptor is open, whether there is a thread to join, and
-- how many threads were started.
pub record HttpServer : Type 0 where
  pub running : Bool
  pub acceptor_open : Bool
  pub thread_joinable : Bool
  pub threads_started : ℕ

-- `binds` is false where make_address or the acceptor throws.
pub run : Bool → HttpServer → HttpServer
run binds s =
    if s.running
    then s
    else if binds
    then record {
      running = true;
      acceptor_open = true;
      thread_joinable = true;
      threads_started = s.threads_started + 1;
    }
    else record s { running = false }

pub stop : HttpServer → HttpServer
stop s =
    if not s.running
    then s
    else record s { running = false; acceptor_open = false; thread_joinable = false }

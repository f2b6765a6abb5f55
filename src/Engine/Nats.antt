-- ===== src/Engine/Nats.antt =====
-- iris-engine2/src/nats_client.cpp, the CNatsClient class. What the NATS library answers is an argument,
-- and it counts the handles that it has given out and not got back.
pub mod Handles
use eye_d.Base.{
  ℕ, ◌+◌, ◌-◌, Bool, true, false, ◌&&◌, not, List, [], Option, none, some, String, if◌then◌else◌,
  is_empty,
}
use eye_d.Engine.Reader.{Result, value, failed}

abbrev pub Text : Type 0
Text = List ℕ

-- Which calls of the library come back with NATS_OK.
pub record Statuses : Type 0 where
  pub create : Bool
  pub set_secure : Bool
  pub set_ca : Bool
  pub set_certificates : Bool
  pub connect : Bool

pub record NatsTlsConfig : Type 0 where
  pub ca_cert_path : Text
  pub cert_path : Text
  pub key_path : Text

-- Whether the two pointers are set, and the library's counts.
pub record Client : Type 0 where
  pub conn : Bool
  pub opts : Bool
  pub url : Text
  pub live_connections : ℕ
  pub live_options : ℕ

unfoldable pub new_client : Client
new_client = record { conn = false; opts = false; url = []; live_connections = 0; live_options = 0 }

unfoldable pub destroy_connection : Client → Client
destroy_connection c =
    if c.conn then record c { conn = false; live_connections = c.live_connections - 1 } else c

unfoldable pub destroy_options : Client → Client
destroy_options c =
    if c.opts then record c { opts = false; live_options = c.live_options - 1 } else c

unfoldable pub disconnect : Client → Client
unfolding destroy_connection destroy_options
disconnect c = destroy_options (destroy_connection c)

-- The options of the last two steps of a connect are set, so that destroying them is unconditional.
unfoldable pub give_up : Client → Bool × Client
give_up c = (false, record c { opts = false; live_options = c.live_options - 1 })

unfoldable pub create_options : Text → Client → Client
unfolding disconnect
create_options url c = let c₀ = if c.conn then disconnect c else c in record c₀ { url = url }

unfoldable pub made_options : Client → Client
made_options c = record c { opts = true; live_options = c.live_options + 1 }

unfoldable pub open_connection : Statuses → Client → Bool × Client
unfolding give_up
open_connection st c =
    if st.connect
    then (true, record c { conn = true; live_connections = c.live_connections + 1 })
    else give_up c

unfoldable pub connect : Statuses → Text → Client → Bool × Client
unfolding create_options made_options open_connection
connect st url c =
    let c₀ = create_options url c in
    if st.create then open_connection st (made_options c₀) else (false, c₀)

-- The TLS options, with a certificate or a path that is missing left out.
unfoldable pub secure_options : Statuses → NatsTlsConfig → Bool
secure_options st tls =
    st.set_secure
    && (if is_empty tls.ca_cert_path then true else st.set_ca)
    && (if not (is_empty tls.cert_path) && not (is_empty tls.key_path)
        then st.set_certificates
        else true)

unfoldable pub connect_tls : Statuses → Text → NatsTlsConfig → Client → Bool × Client
unfolding create_options made_options open_connection secure_options give_up
connect_tls st url tls c =
    let c₀ = create_options url c in
    if st.create
    then if secure_options st tls
      then open_connection st (made_options c₀)
      else give_up (made_options c₀)
    else (false, c₀)

-- `up` is whether the library reports the connection as connected.
unfoldable pub is_connected : Bool → Client → Bool
is_connected up c = c.conn && up

unfoldable pub publish : Bool → Client → Result (Unit {0})
publish ok c =
    if not c.conn
    then failed "NATS client not connected"
    else if ok
    then value tt
    else failed "NATS publish failed"

-- The reply of the library's request, if it is OK.
unfoldable pub request : Option (List ℕ) → Client → Result (List ℕ)
request reply c =
    if not c.conn
    then failed "NATS client not connected"
    else elim reply [ none ↦ failed "NATS request failed" | some bytes ↦ value bytes ]

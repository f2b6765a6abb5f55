-- ===== src/Engine/Nats/Handles.antt =====
-- The handles of the NATS library that CNatsClient (iris-engine2/src/nats_client.cpp) holds.
use eye_d.Base.{
  ℕ, ◌≡◌, refl, Bool, true, false, inl, inr, arith, if◌then◌else◌, is_empty, Bool-cases,
}
use eye_d.Engine.Nats.{
  Text, Statuses, NatsTlsConfig, Client, new_client, destroy_connection, destroy_options,
  disconnect, give_up, create_options, made_options, open_connection, connect, secure_options,
  connect_tls,
}

abbrev pub count : Bool → ℕ
count b = if b then 1 else 0

-- The options are held exactly as long as the connection, and the library has given out what is held.
pub record IsTidy (c : Client) : Type 0 where
  pub together : c.opts ≡ c.conn
  pub connections : c.live_connections ≡ count c.conn
  pub options : c.live_options ≡ count c.opts

pub data Reachable : Client → Type 0 where
  start : Reachable new_client
  connected :
      (st : Statuses) (url : Text) {c : Client} → Reachable c → Reachable (connect st url c).1
  connected_tls :
      (st : Statuses) (url : Text) (tls : NatsTlsConfig) {c : Client}
      → Reachable c
      → Reachable (connect_tls st url tls c).1
  disconnected : {c : Client} → Reachable c → Reachable (disconnect c)

-- What a connect begins with: nothing is held.
abbrev pub IsFree : Client → Type 0
IsFree d = (d.conn ≡ false) × (d.opts ≡ false) × (d.live_connections ≡ 0) × (d.live_options ≡ 0)

IsFree-choice :
    (b : Bool) (x y : Client) → IsFree x → (b ≡ false → IsFree y) → IsFree (if b then x else y)
IsFree-choice true x y h k = h
IsFree-choice false x y h k = k refl

module _ (c : Client) (t : IsTidy c) where
  disconnect-IsTidy :
      IsTidy (disconnect c) × ((disconnect c).conn ≡ false) × ((disconnect c).opts ≡ false)
  unfolding disconnect destroy_connection destroy_options
  disconnect-IsTidy = elim (Bool-cases c.conn) [
    | inl e ↦ (
      record {
        together = ground (arith, t.together);
        connections = ground (arith, t.connections);
        options = ground (arith, t.together, t.options);
      },
      ground arith,
      ground (arith, t.together),
    )
    | inr e ↦ (
      record {
        together = ground (arith, t.together);
        connections = ground (arith, t.connections);
        options = ground (arith, t.together, t.options);
      },
      ground arith,
      ground (arith, t.together),
    )
  ]

  disconnect-IsFree : IsFree (disconnect c)
  disconnect-IsFree =
      let d = disconnect-IsTidy in
      (d.1, d.2, ground (arith, d.0.connections, d.1), ground (arith, d.0.options, d.2))

  create_options-IsFree : (url : Text) → IsFree (create_options url c)
  unfolding create_options
  create_options-IsFree url = IsFree-choice c.conn (disconnect c) c disconnect-IsFree (λ e. (
    e,
    ground (arith, t.together),
    ground (arith, t.connections),
    ground (arith, t.options, t.together),
  ))

-- What a connect leaves: all is held, or nothing.
pub record IsOutcome (r : Bool × Client) : Type 0 where
  pub tidy : IsTidy r.1
  pub success : r.1.conn ≡ r.0

free-IsOutcome : (d : Client) → IsFree d → IsOutcome (false, d)
free-IsOutcome d f = record {
  tidy = record {
    together = ground (arith, f);
    connections = ground (arith, f);
    options = ground (arith, f);
  };
  success = f.0;
}

module _ (d : Client) (f : IsFree d) where
  give_up-IsOutcome : IsOutcome (give_up (made_options d))
  unfolding give_up made_options
  give_up-IsOutcome = free-IsOutcome _ (f.0, refl, f.2, ground (arith, f))

  open_connection-IsOutcome : (st : Statuses) → IsOutcome (open_connection st (made_options d))
  unfolding open_connection made_options give_up
  open_connection-IsOutcome st = elim (Bool-cases st.connect) [
    | inl e ↦ rw e (record {
      tidy = record {
        together = refl;
        connections = ground (arith, f);
        options = ground (arith, f);
      };
      success = refl;
    })
    | inr e ↦ rw e give_up-IsOutcome
  ]

module _ (st : Statuses) (url : Text) (c : Client) (t : IsTidy c) where
  connect-IsOutcome : IsOutcome (connect st url c)
  unfolding connect
  connect-IsOutcome =
      let f = create_options-IsFree c t url in
      elim (Bool-cases st.create) [
        | inl e ↦ rw e (open_connection-IsOutcome _ f st)
        | inr e ↦ rw e (free-IsOutcome _ f)
      ]

  connect_tls-IsOutcome : (tls : NatsTlsConfig) → IsOutcome (connect_tls st url tls c)
  unfolding connect_tls
  connect_tls-IsOutcome tls =
      let f = create_options-IsFree c t url in
      elim (Bool-cases st.create) [
        | inl e ↦ elim (Bool-cases (secure_options st tls)) [
          | inl s ↦ rw (e, s) (open_connection-IsOutcome _ f st)
          | inr s ↦ rw (e, s) (give_up-IsOutcome _ f)
        ]
        | inr e ↦ rw e (free-IsOutcome _ f)
      ]

Reachable-IsTidy : {c : Client} → Reachable c → IsTidy c
unfolding new_client
Reachable-IsTidy start = record { together = refl; connections = refl; options = refl }
Reachable-IsTidy (connected st url {c} r) = (connect-IsOutcome st url c (Reachable-IsTidy r)).tidy
Reachable-IsTidy (connected_tls st url tls {c} r) =
    (connect_tls-IsOutcome st url c (Reachable-IsTidy r) tls).tidy
Reachable-IsTidy (disconnected {c} r) = (disconnect-IsTidy c (Reachable-IsTidy r)).0

-- However a client is connected, connected again and disconnected, and whatever the library answers: it
-- has given out one connection and one set of options while the client is connected, and none of either
-- otherwise; connect returns true exactly when the client is connected behind it; and disconnect, which
-- the destructor calls, gives everything back.
pub Reachable-handles :
    {c : Client}
    → Reachable c
    → (c.live_connections ≡ count c.conn)
      × (c.live_options ≡ count c.conn)
      × ((st : Statuses) (url : Text) → (connect st url c).1.conn ≡ (connect st url c).0)
      × ((st : Statuses) (url : Text) (tls : NatsTlsConfig)
          → (connect_tls st url tls c).1.conn ≡ (connect_tls st url tls c).0)
      × IsFree (disconnect c)
Reachable-handles {c} r =
    let t = Reachable-IsTidy r in
    (
      t.connections,
      ground (arith, t.options, t.together),
      λ st url. (connect-IsOutcome st url c t).success,
      λ st url tls. (connect_tls-IsOutcome st url c t tls).success,
      disconnect-IsFree c t,
    )

-- A connect with TLS that returns true has switched TLS on, and set the certificate of the authority and
-- the one of the client as far as their paths are given.
pub connect_tls_secure :
    (st : Statuses) (url : Text) (tls : NatsTlsConfig) (c : Client)
    → (connect_tls st url tls c).0 ≡ true
    → (st.set_secure ≡ true)
      × (is_empty tls.ca_cert_path ≡ false → st.set_ca ≡ true)
      × (is_empty tls.cert_path ≡ false
          → is_empty tls.key_path ≡ false
          → st.set_certificates ≡ true)
unfolding connect_tls secure_options give_up open_connection
connect_tls_secure st url tls c h = (ground arith, λ e. ground arith, λ e k. ground arith)

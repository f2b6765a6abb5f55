-- ===== src/Tests/Nats.antt =====
-- The engine's NATS client, bus and parties: theorems at concrete inputs.
use eye_d.Base.{
  ℕ, ◌^◌, ◌<◌, ◌≡◌, refl, true, false, List, [], ◌∷◌, none, some, String, arith, codes, All, length,
}
use eye_d.Engine.Reader.{Result, value, failed}
use eye_d.Engine.Codec.{ShamirShare, ShamirMatchJob, ShamirMatchResponse}
use eye_d.Engine.Codec.RoundTrip.{IsShare, IsRow}
use eye_d.Engine.Nats.{Text, Statuses, NatsTlsConfig, new_client, connect, connect_tls, disconnect}
use eye_d.Engine.Nats.Handles.{count, IsFree, start, connected, Reachable-handles}
use eye_d.Engine.Party.{Participant2, on_match2, run_party, run_party2}
use eye_d.Engine.Party
use eye_d.Engine.Party.Lifetimes.{run_party_tls}
use eye_d.Engine.Bus.{NatsClient, request_match}
use eye_d.Engine.Bus.Exchange.{IsRouted, request_match-on_match}

abbrev all_ok : Statuses
all_ok = record {
  create = true;
  set_secure = true;
  set_ca = true;
  set_certificates = true;
  connect = true;
}

Reachable-handles_example :
    let c = (connect all_ok (codes "nats://a") new_client).1 in
    (c.live_connections ≡ count c.conn)
    × (c.live_options ≡ count c.conn)
    × ((st : Statuses) (url : Text) → (connect st url c).1.conn ≡ (connect st url c).0)
    × ((st : Statuses) (url : Text) (tls : NatsTlsConfig)
        → (connect_tls st url tls c).1.conn ≡ (connect_tls st url tls c).0)
    × IsFree (disconnect c)
Reachable-handles_example = Reachable-handles (connected all_ok (codes "nats://a") start)

-- A TLS call that fails.
abbrev tls_fails : Party.Statuses
tls_fails = record {
  create = true;
  set_secure = true;
  set_ca = false;
  set_certificates = true;
  connect = true;
  subscribe_share_sync = true;
  subscribe_match = true;
  subscribe_batch = true;
}

run_party_tls_example :
    ((run_party (codes "/certs") tls_fails).connected ≡ true
      → (true ≡ true) × (false ≡ true) × (true ≡ true))
    × (true ≡ true → (run_party2 (codes "/certs") tls_fails).connected ≡ true)
run_party_tls_example = run_party_tls (codes "/certs") tls_fails refl

-- A party that answers every job with no rows, and a NATS that passes messages on to it.
abbrev words : ℕ
words = 1

abbrev silent_party : Participant2 ℕ
silent_party = record {
  handle_share_sync = λ job s. (value tt, s);
  handle_match = λ job s. (value (record { participant_id = 2; rows = [] }), s);
}

abbrev inbox : List ℕ
inbox = codes "inbox"

abbrev answer_of : Party.Publication → Result (List ℕ)
answer_of p = elim p [ none ↦ failed "NATS request failed" | some (subject, bytes) ↦ value bytes ]

abbrev bus : NatsClient
bus = record {
  publish = λ subject payload. value tt;
  request = λ subject payload. answer_of (on_match2 words silent_party payload (some inbox) 0).0;
}

bus-IsRouted : IsRouted words bus (codes "smpc2") silent_party 105 (codes "nbox") 0 2
bus-IsRouted = record {
  answered = λ payload bytes e. rw e refl;
  silent = λ payload e. ("NATS request failed", rw e refl);
}

abbrev share : ShamirShare
share = record { party_id = 2; x_coord = 3; code_share = 5 ∷ []; mask_share = 6 ∷ [] }

abbrev job : ShamirMatchJob
job = record { participant_id = 2; probe_share = share }

share-IsShare : IsShare words share
share-IsShare = record {
  x_word = omega arith;
  code_words = ground arith;
  mask_words = ground arith;
  code_size = refl;
  mask_size = refl;
}

request_match-on_match_example :
    ((response : ShamirMatchResponse) (s : ℕ)
      → silent_party.handle_match job 0 ≡ (value response, s)
      → All (IsRow words) response.rows
      → length response.rows < 2 ^ 32
      → request_match words bus (codes "smpc2") job ≡ value response)
    × ((e : String) (s : ℕ)
        → silent_party.handle_match job 0 ≡ (failed e, s)
        → (e' : String) × (request_match words bus (codes "smpc2") job ≡ failed e'))
request_match-on_match_example =
    request_match-on_match words bus (codes "smpc2") silent_party 105 (codes "nbox") 0 job
      bus-IsRouted share-IsShare

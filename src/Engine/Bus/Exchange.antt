-- ===== src/Engine/Bus/Exchange.antt =====
-- A match request from the coordinator (iris-engine2/src/nats_smpc2_bus.cpp) to a party
-- (iris-engine2/smpc2-party/main.cpp) and back.
use eye_d.Base.{
  ℕ, ◌^◌, ◌<◌, ◌≡◌, refl, subst, List, [], ◌∷◌, append-nil, none, some, length, All, codes, String,
}
use eye_d.Engine.Reader.{value, failed}
use eye_d.Engine.Codec.{
  ShamirMatchJob, ShamirMatchResponse, encode_shamir_match_job, encode_shamir_match_response,
  decode_shamir_match_job, decode_shamir_match_response,
}
use eye_d.Engine.Codec.RoundTrip.{
  IsShare, IsRow, decode_shamir_match_job-encode_shamir_match_job,
  decode_shamir_match_response-encode_shamir_match_response,
}
use eye_d.Engine.Bus.{Text, NatsClient, party_subject, request_match}
use eye_d.Engine.Party.{Participant2, reply, send_encoded, send_response, answer_job, on_match2}

module _ {S : Type 0} (words : ℕ) (client : NatsClient) (prefix : Text) (p : Participant2 S) (c : ℕ)
    (cs : List ℕ) (s : S) where
  -- NATS takes a request on the party's subject to the party, with the inbox `c ∷ cs` for the reply, and
  -- gives back what the party publishes there; a party that stays silent is an error.
  pub record IsRouted (id : ℕ) : Type 0 where
    pub answered :
        (payload bytes : List ℕ)
        → (on_match2 words p payload (some (c ∷ cs)) s).0 ≡ some (c ∷ cs, bytes)
        → client.request (party_subject prefix id (codes ".match")) payload ≡ value bytes
    pub silent :
        (payload : List ℕ)
        → (on_match2 words p payload (some (c ∷ cs)) s).0 ≡ none
        → (e : String) × (client.request (party_subject prefix id (codes ".match")) payload
            ≡ failed e)

  on_match2-encode :
      (job : ShamirMatchJob)
      → IsShare words job.probe_share
      → on_match2 words p (encode_shamir_match_job job) (some (c ∷ cs)) s
        ≡ send_response p.handle_match
            (λ r. value (encode_shamir_match_response r))
            (some (c ∷ cs))
            (p.handle_match job s)
  unfolding on_match2 answer_job
  on_match2-encode job k =
      rw
        (subst (λ bs. decode_shamir_match_job words bs ≡ value job)
          (append-nil (encode_shamir_match_job job))
          (decode_shamir_match_job-encode_shamir_match_job words job [] k))
        refl

  -- Over a NATS that routes the job's subject to the party, a request for a job with a share of the fixed
  -- size brings back the response that the party's service gives to that very job, if the
  -- response has fewer than 2 ^ 32 rows, each of sizes that fit; and it is an error where the service
  -- fails.
  pub request_match-on_match :
      (job : ShamirMatchJob)
      → IsRouted job.participant_id
      → IsShare words job.probe_share
      → ((response : ShamirMatchResponse) (s' : S)
          → p.handle_match job s ≡ (value response, s')
          → All (IsRow words) response.rows
          → length response.rows < 2 ^ 32
          → request_match words client prefix job ≡ value response)
        × ((e : String) (s' : S)
            → p.handle_match job s ≡ (failed e, s')
            → (e' : String) × (request_match words client prefix job ≡ failed e'))
  unfolding request_match send_response send_encoded reply
  request_match-on_match job routed k =
      let sent = encode_shamir_match_job job in
      let arrives = on_match2-encode job k in
      (
        λ response s' handled rows few.
            let out : (on_match2 words p sent (some (c ∷ cs)) s).0
                ≡ some (c ∷ cs, encode_shamir_match_response response) =
              rw (arrives, handled) refl in
            let back : decode_shamir_match_response words (encode_shamir_match_response response)
                ≡ value response =
              subst (λ bs. decode_shamir_match_response words bs ≡ value response)
                (append-nil (encode_shamir_match_response response))
                (decode_shamir_match_response-encode_shamir_match_response words response [] rows
                  few) in
            rw (routed.answered sent _ out, request_match) back,
        λ e s' failing.
            let out : (on_match2 words p sent (some (c ∷ cs)) s).0 ≡ none =
              rw (arrives, failing) refl in
            let (e', answer) = routed.silent sent out in (e', rw (answer, request_match) refl),
      )

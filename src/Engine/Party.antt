-- ===== src/Engine/Party.antt =====
-- iris-engine2/smpc-party/main.cpp and iris-engine2/smpc2-party/main.cpp: the services that hold the
-- shares. The participant services and the codec of the iris library are parameters.
pub mod Lifetimes
use eye_d.Base.{
  ℕ, Bool, true, false, ◌&&◌, not, List, [], ◌∷◌, ◌++◌, Option, none, some, if◌then◌else◌, is_empty,
}
use eye_d.Engine.Reader.{Result, value, failed}
use eye_d.Engine.Codec.{
  ShamirShareSyncJob, ShamirMatchJob, ShamirMatchResponse, decode_shamir_share_sync_job,
  decode_shamir_match_job, encode_shamir_match_response,
}

abbrev pub Text : Type 0
Text = List ℕ

-- A message that the handler publishes, with its subject.
abbrev pub Publication : Type 0
Publication = Option (Text × List ℕ)

-- A reply goes out where the message names an inbox.
unfoldable pub reply : Option Text → List ℕ → Publication
reply none bytes = none
reply (some []) bytes = none
reply (some (c ∷ cs)) bytes = some (c ∷ cs, bytes)

-- The shape of on_match and on_batch_match: decode, handle, encode, reply.
module _ {J R S : Type 0} (handle : J → S → Result R × S) (encode : R → Result (List ℕ)) where
  unfoldable pub send_encoded : Option Text → Result (List ℕ) → Publication
  unfolding reply
  send_encoded reply_to (failed e) = none
  send_encoded reply_to (value bytes) = reply reply_to bytes

  unfoldable pub send_response : Option Text → Result R × S → Publication × S
  unfolding send_encoded
  send_response reply_to (failed e, s) = (none, s)
  send_response reply_to (value response, s) = (send_encoded reply_to (encode response), s)

  unfoldable pub answer_job : Option Text → S → Result J → Publication × S
  unfolding send_response
  answer_job reply_to s (failed e) = (none, s)
  answer_job reply_to s (value job) = send_response reply_to (handle job s)

-- The result of handling a share is only logged.
unfoldable pub take_share : {J S : Type 0} → (J → S → Result (Unit {0}) × S) → S → Result J → S
take_share handle s (failed e) = s
take_share handle s (value job) = (handle job s).1

-- smpc-party: messages in the library's own codec, plain or sharded service.
pub record Participant (J M R N B S : Type 0) : Type 0 where
  pub decode_share_sync_job : List ℕ → Result J
  pub decode_match_job : List ℕ → Result M
  pub decode_batch_match_job : List ℕ → Result N
  pub handle_share_sync : J → S → Result (Unit {0}) × S
  pub handle_match : M → S → Result R × S
  pub handle_batch_match : N → S → Result B × S
  pub encode_participant_match_response : R → Result (List ℕ)
  pub encode_batch_participant_match_response : B → Result (List ℕ)

module _ {J M R N B S : Type 0} (p : Participant J M R N B S) where
  unfoldable pub on_share_sync : List ℕ → S → S
  unfolding take_share
  on_share_sync payload s = take_share p.handle_share_sync s (p.decode_share_sync_job payload)

  unfoldable pub on_match : List ℕ → Option Text → S → Publication × S
  unfolding answer_job
  on_match payload reply_to s =
      answer_job p.handle_match p.encode_participant_match_response reply_to s
        (p.decode_match_job payload)

  unfoldable pub on_batch_match : List ℕ → Option Text → S → Publication × S
  unfolding answer_job
  on_batch_match payload reply_to s =
      answer_job p.handle_batch_match p.encode_batch_participant_match_response reply_to s
        (p.decode_batch_match_job payload)

-- smpc2-party: messages in the codec of Engine.Codec.
pub record Participant2 (S : Type 0) : Type 0 where
  pub handle_share_sync : ShamirShareSyncJob → S → Result (Unit {0}) × S
  pub handle_match : ShamirMatchJob → S → Result ShamirMatchResponse × S

module _ {S : Type 0} (words : ℕ) (p : Participant2 S) where
  unfoldable pub on_share_sync2 : List ℕ → S → S
  unfolding take_share
  on_share_sync2 payload s =
      take_share p.handle_share_sync s (decode_shamir_share_sync_job words payload)

  unfoldable pub on_match2 : List ℕ → Option Text → S → Publication × S
  unfolding answer_job
  on_match2 payload reply_to s =
      answer_job p.handle_match (λ r. value (encode_shamir_match_response r)) reply_to s
        (decode_shamir_match_job words payload)

-- The NATS handles of a process.
pub data Handle : Type 0 where
  options connection share_sync match_jobs batch_jobs : Handle

-- Which calls come back with NATS_OK.
pub record Statuses : Type 0 where
  pub create : Bool
  pub set_secure : Bool
  pub set_ca : Bool
  pub set_certificates : Bool
  pub connect : Bool
  pub subscribe_share_sync : Bool
  pub subscribe_match : Bool
  pub subscribe_batch : Bool

-- How a process ended: its code, whether it had connected, and the handles that it made and destroyed,
-- the made ones last first.
pub record Ending : Type 0 where
  pub exit_code : ℕ
  pub connected : Bool
  pub made : List Handle
  pub destroyed : List Handle

-- Every return of the two mains destroys handles that it has at hand.
abbrev pub ended : ℕ → Bool → List Handle → List Handle → Ending
ended exit_code connected made destroyed = record {
  exit_code = exit_code;
  connected = connected;
  made = made;
  destroyed = destroyed;
}

-- The loop that waits for the shutdown, with the handlers at work, lies before each code 0.
unfoldable pub subscribe_batch : Statuses → List Handle → Ending
subscribe_batch st made =
    if not st.subscribe_batch
    then ended 1 true made (match_jobs ∷ share_sync ∷ connection ∷ options ∷ [])
    else ended 0 true (batch_jobs ∷ made)
        (batch_jobs ∷ match_jobs ∷ share_sync ∷ connection ∷ options ∷ [])

unfoldable pub subscribe_match : Statuses → List Handle → Ending
unfolding subscribe_batch
subscribe_match st made =
    if not st.subscribe_match
    then ended 1 true made (share_sync ∷ connection ∷ options ∷ [])
    else subscribe_batch st (match_jobs ∷ made)

unfoldable pub subscribe_all : Statuses → List Handle → Ending
unfolding subscribe_match
subscribe_all st made =
    if not st.subscribe_share_sync
    then ended 1 true made (connection ∷ options ∷ [])
    else subscribe_match st (share_sync ∷ made)

unfoldable pub connect_party : Statuses → List Handle → Ending
unfolding subscribe_all
connect_party st made =
    if not st.connect
    then ended 1 false made (options ∷ [])
    else subscribe_all st (connection ∷ made)

-- main of smpc-party from the creation of the options on.
unfoldable pub run_party : Text → Statuses → Ending
unfolding connect_party
run_party tls_cert_dir st =
    if not st.create
    then ended 1 false [] []
    else if is_empty tls_cert_dir
    then connect_party st (options ∷ [])
    else if st.set_secure && (st.set_ca && st.set_certificates)
    then connect_party st (options ∷ [])
    else ended 1 false (options ∷ []) (options ∷ [])

unfoldable pub subscribe_match2 : Statuses → List Handle → Ending
subscribe_match2 st made =
    if not st.subscribe_match
    then ended 1 true made (share_sync ∷ connection ∷ options ∷ [])
    else ended 0 true (match_jobs ∷ made) (match_jobs ∷ share_sync ∷ connection ∷ options ∷ [])

unfoldable pub subscribe_both : Statuses → List Handle → Ending
unfolding subscribe_match2
subscribe_both st made =
    if not st.subscribe_share_sync
    then ended 1 true made (connection ∷ options ∷ [])
    else subscribe_match2 st (share_sync ∷ made)

-- main of smpc2-party, once the options are made; what the TLS options return is not looked at.
unfoldable pub run_party2 : Text → Statuses → Ending
unfolding subscribe_both
run_party2 tls_dir st =
    if not st.connect
    then ended 1 false (options ∷ []) (options ∷ [])
    else subscribe_both st (connection ∷ options ∷ [])

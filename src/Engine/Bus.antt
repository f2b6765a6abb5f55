-- ===== src/Engine/Bus.antt =====
-- iris-engine2/src/nats_smpc2_bus.cpp: the coordinator's messages to the parties of the secret sharing.
-- The client's publish and request are parameters, which Engine.Nats models.
pub mod Exchange
use eye_d.Base.{ℕ, List, ◌++◌, codes}
use eye_d.Base.Decimal.{to_string}
use eye_d.Engine.Reader.{Result, value, failed}
use eye_d.Engine.Codec.{
  ShamirShareSyncJob, ShamirMatchJob, ShamirMatchResponse, encode_shamir_share_sync_job,
  encode_shamir_match_job, decode_shamir_match_response,
}

abbrev pub Text : Type 0
Text = List ℕ

pub record NatsClient : Type 0 where
  pub publish : Text → List ℕ → Result (Unit {0})
  pub request : Text → List ℕ → Result (List ℕ)

unfoldable pub party_subject : Text → ℕ → Text → Text
unfolding to_string
party_subject prefix id what = prefix ++ (codes ".party." ++ (to_string id ++ what))

module _ (words : ℕ) (client : NatsClient) (prefix : Text) where
  unfoldable pub publish_share_sync : ShamirShareSyncJob → Result (Unit {0})
  unfolding party_subject
  publish_share_sync job =
      client.publish (party_subject prefix job.participant_id (codes ".share_sync"))
        (encode_shamir_share_sync_job job)

  -- The encoders of this codec do not fail.
  unfoldable pub request_match : ShamirMatchJob → Result ShamirMatchResponse
  unfolding party_subject
  request_match job =
      elim (client.request (party_subject prefix job.participant_id (codes ".match"))
        (encode_shamir_match_job job)) [
          | failed e ↦ failed e
          | value payload ↦ decode_shamir_match_response words payload
        ]

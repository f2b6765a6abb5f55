-- ===== src/Engine/Codec.antt =====
-- iris-engine2/src/smpc2_nats_codec.h and smpc2_nats_codec.cpp: the messages between the SMPC
-- coordinator and its parties as bytes. How many words a share's arrays have is a parameter.
pub mod RoundTrip
use eye_d.Base.{
  ℕ, zero, suc, ◌+◌, ◌*◌, ◌/◌, ◌%◌, ◌^◌, List, [], ◌∷◌, ◌++◌, ltb, if◌then◌else◌, length, take,
  drop,
}
use eye_d.Engine.Reader.{Result, value, failed, Reader, and_then, pure, finish}

-- ByteWriter2: what each write appends.
unfoldable pub write_u8 : ℕ → List ℕ
write_u8 v = v ∷ []

unfoldable pub write_u32 : ℕ → List ℕ
write_u32 v = v % 256 ∷ v / 2 ^ 8 % 256 ∷ v / 2 ^ 16 % 256 ∷ v / 2 ^ 24 % 256 ∷ []

-- The bytes from the `i`-th on, `n` of them.
unfoldable pub write_bytes : ℕ → ℕ → ℕ → List ℕ
write_bytes zero i v = []
write_bytes (suc n) i v = v / 2 ^ (8 * i) % 256 ∷ write_bytes n (suc i) v

unfoldable pub write_u64 : ℕ → List ℕ
unfolding write_bytes
write_u64 v = write_bytes 8 0 v

unfoldable pub write_string : List ℕ → List ℕ
unfolding write_u32
write_string s = write_u32 (length s % 2 ^ 32) ++ s

unfoldable pub write_words : List ℕ → List ℕ
unfolding write_u64
write_words [] = []
write_words (w ∷ ws) = write_u64 w ++ write_words ws

pub record ShamirShare : Type 0 where
  pub party_id : ℕ
  pub x_coord : ℕ
  pub code_share : List ℕ
  pub mask_share : List ℕ

unfoldable pub write_share : ShamirShare → List ℕ
unfolding write_u8 write_u64 write_words
write_share sh =
    write_u8 sh.party_id
    ++ (write_u64 sh.x_coord ++ (write_words sh.code_share ++ write_words sh.mask_share))

-- ByteReader2. The loop takes `n` bytes, the first of them worth 2 ^ (8 * i); the bits do not overlap,
-- so that the `|` adds.
read_bytes : ℕ → ℕ → ℕ → List ℕ → ℕ × List ℕ
read_bytes zero i v bs = (v, bs)
read_bytes (suc n) i v [] = (v, [])
read_bytes (suc n) i v (b ∷ bs) = read_bytes n (suc i) (v + b * 2 ^ (8 * i)) bs

pub read_u8 : Reader ℕ
read_u8 [] = failed "smpc2 codec: underflow (u8)"
read_u8 (b ∷ bs) = value (b, bs)

pub read_u32 : Reader ℕ
unfolding read_bytes
read_u32 bs =
    if ltb (length bs) 4 then failed "smpc2 codec: underflow (u32)" else value (read_bytes 4 0 0 bs)

pub read_u64 : Reader ℕ
unfolding read_bytes
read_u64 bs =
    if ltb (length bs) 8 then failed "smpc2 codec: underflow (u64)" else value (read_bytes 8 0 0 bs)

read_text : ℕ → Reader (List ℕ)
read_text len bs =
    if ltb (length bs) len
    then failed "smpc2 codec: string underflow"
    else value (take len bs, drop len bs)

pub read_string : Reader (List ℕ)
unfolding read_text
read_string = and_then read_u32 read_text

pub read_words : ℕ → Reader (List ℕ)
read_words zero = pure []
read_words (suc n) = and_then read_u64 (λ w. and_then (read_words n) (λ ws. pure (w ∷ ws)))

pub record ShamirShareSyncJob : Type 0 where
  pub subject_id : List ℕ
  pub participant_id : ℕ
  pub share : ShamirShare

pub record ShamirMatchJob : Type 0 where
  pub participant_id : ℕ
  pub probe_share : ShamirShare

pub record ShamirMatchRow : Type 0 where
  pub subject_id : List ℕ
  pub xor_share : ShamirShare

pub record ShamirMatchResponse : Type 0 where
  pub participant_id : ℕ
  pub rows : List ShamirMatchRow

unfoldable pub encode_shamir_share_sync_job : ShamirShareSyncJob → List ℕ
encode_shamir_share_sync_job job =
    write_string job.subject_id ++ (write_u8 job.participant_id ++ write_share job.share)

unfoldable pub encode_shamir_match_job : ShamirMatchJob → List ℕ
encode_shamir_match_job job = write_u8 job.participant_id ++ write_share job.probe_share

unfoldable pub write_rows : List ShamirMatchRow → List ℕ
write_rows [] = []
write_rows (row ∷ rows) =
    (write_string row.subject_id ++ write_share row.xor_share) ++ write_rows rows

unfoldable pub encode_shamir_match_response : ShamirMatchResponse → List ℕ
unfolding write_rows
encode_shamir_match_response resp =
    write_u8 resp.participant_id ++ (write_u32 (length resp.rows % 2 ^ 32) ++ write_rows resp.rows)

module _ (words : ℕ) where
  pub read_share : Reader ShamirShare
  read_share = and_then read_u8 (λ id. and_then read_u64 (λ x. and_then (read_words words) (λ code.
      and_then (read_words words) (λ mask.
        pure (record { party_id = id; x_coord = x; code_share = code; mask_share = mask })))))

  pub read_sync_job : Reader ShamirShareSyncJob
  read_sync_job = and_then read_string (λ sid. and_then read_u8 (λ pid.
      and_then read_share
        (λ sh. pure (record { subject_id = sid; participant_id = pid; share = sh }))))

  pub decode_shamir_share_sync_job : List ℕ → Result ShamirShareSyncJob
  unfolding read_sync_job
  decode_shamir_share_sync_job payload = finish (read_sync_job payload)

  pub read_match_job : Reader ShamirMatchJob
  read_match_job =
      and_then read_u8 (λ pid.
        and_then read_share (λ sh. pure (record { participant_id = pid; probe_share = sh })))

  pub decode_shamir_match_job : List ℕ → Result ShamirMatchJob
  unfolding read_match_job
  decode_shamir_match_job payload = finish (read_match_job payload)

  pub read_row : Reader ShamirMatchRow
  read_row =
      and_then read_string
        (λ sid. and_then read_share (λ sh. pure (record { subject_id = sid; xor_share = sh })))

  pub read_rows : ℕ → Reader (List ShamirMatchRow)
  unfolding read_row
  read_rows zero = pure []
  read_rows (suc count) =
      and_then read_row (λ row. and_then (read_rows count) (λ rows. pure (row ∷ rows)))

  pub read_match_response : Reader ShamirMatchResponse
  unfolding read_rows
  read_match_response = and_then read_u8 (λ pid. and_then read_u32 (λ count.
      and_then (read_rows count) (λ rows. pure (record { participant_id = pid; rows = rows }))))

  pub decode_shamir_match_response : List ℕ → Result ShamirMatchResponse
  unfolding read_match_response
  decode_shamir_match_response payload = finish (read_match_response payload)

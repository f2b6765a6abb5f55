-- ===== src/Engine/Codec/RoundTrip.antt =====
-- What is written is read back, and a payload that is cut short is refused
-- (iris-engine2/src/smpc2_nats_codec.cpp).
use eye_d.Base.{
  ℕ, ◌%◌, ◌^◌, ◌<◌, ◌≡◌, refl, List, [], ◌∷◌, ◌++◌, append-nil, arith, length, length-append,
  take-append, drop-append, All, subst,
}
use eye_d.Engine.Reader.{
  value, Reader, and_then, pure, finish, Fails, Codes, and_then-Codes, pure-Codes, fixed-Codes,
}
use eye_d.Engine.Codec.{
  write_u8, write_u32, write_u64, write_string, write_words, ShamirShare, write_share, read_u8,
  read_u32, read_u64, read_text, read_string, read_words, ShamirShareSyncJob, ShamirMatchJob,
  ShamirMatchRow, ShamirMatchResponse, encode_shamir_share_sync_job, encode_shamir_match_job,
  write_rows, encode_shamir_match_response, read_share, read_sync_job, decode_shamir_share_sync_job,
  read_match_job, decode_shamir_match_job, read_row, read_rows, read_match_response,
  decode_shamir_match_response,
}

u8-Codes : (v : ℕ) → Codes read_u8 v (write_u8 v)
unfolding read_u8 write_u8
u8-Codes v = fixed-Codes _ v (v ∷ []) (λ rest. refl) short
  where
    short : (cut : List ℕ) → length cut < 1 → Fails (read_u8 cut)
    short [] h = (_, refl)
    short (b ∷ cut) h = absurd (omega arith)

u32-Codes : (v : ℕ) → v < 2 ^ 32 → Codes read_u32 v (write_u32 v)
unfolding read_u32 write_u32
u32-Codes v h =
    fixed-Codes _ v _ (λ rest. ground arith)
      (λ cut short. ("smpc2 codec: underflow (u32)", ground arith))

u64-Codes : (v : ℕ) → v < 2 ^ 64 → Codes read_u64 v (write_u64 v)
unfolding read_u64 write_u64
u64-Codes v h =
    fixed-Codes _ v _ (λ rest. ground arith)
      (λ cut short. ("smpc2 codec: underflow (u64)", ground arith))

text-Codes : (s : List ℕ) → Codes (read_text (length s)) s s
unfolding read_text
text-Codes s =
    fixed-Codes _ s s
      (λ rest. ground (arith, length-append s rest, take-append s rest, drop-append s rest))
      (λ cut short. ("smpc2 codec: string underflow", ground arith))

small : (n : ℕ) → n < 2 ^ 32 → n % 2 ^ 32 ≡ n
small n h = omega arith

string-Codes : (s : List ℕ) → length s < 2 ^ 32 → Codes read_string s (write_string s)
unfolding read_string write_string
string-Codes s h =
    rw (small (length s) h) (and_then-Codes read_text (u32-Codes (length s) h) (text-Codes s))

-- The last read of a record, and the value made of it.
last-Codes :
    {A B : Type 0} {r : Reader A} (f : A → B) {x : A} {xs : List ℕ}
    → Codes r x xs
    → Codes (and_then r (λ y. pure (f y))) (f x) xs
last-Codes {A} {B} {r} f {x} {xs} c =
    subst (λ bs. Codes (and_then r (λ y. pure (f y))) (f x) bs) (append-nil xs)
      (and_then-Codes (λ y. pure (f y)) c (pure-Codes (f x)))

abbrev pub IsWord : ℕ → Type 0
IsWord w = w < 2 ^ 64

words-Codes : (ws : List ℕ) → All IsWord ws → Codes (read_words (length ws)) ws (write_words ws)
unfolding read_words write_words
words-Codes [] h = pure-Codes []
words-Codes (w ∷ ws) h =
    and_then-Codes _ (u64-Codes w h.0) (last-Codes (λ vs. w ∷ vs) (words-Codes ws h.1))

module _ (words : ℕ) where
  -- A share as the library's type has it: every number a 64-bit word, and arrays of the fixed size.
  pub record IsShare (sh : ShamirShare) : Type 0 where
    pub x_word : IsWord sh.x_coord
    pub code_words : All IsWord sh.code_share
    pub mask_words : All IsWord sh.mask_share
    pub code_size : length sh.code_share ≡ words
    pub mask_size : length sh.mask_share ≡ words

  sized_words-Codes :
      (ws : List ℕ)
      → All IsWord ws
      → length ws ≡ words
      → Codes (read_words words) ws (write_words ws)
  sized_words-Codes ws h e = rw (← e) (words-Codes ws h)

  share-Codes : (sh : ShamirShare) → IsShare sh → Codes (read_share words) sh (write_share sh)
  unfolding read_share write_share
  share-Codes sh h = and_then-Codes _ (u8-Codes sh.party_id) (
      and_then-Codes _ (u64-Codes sh.x_coord h.x_word) (
        and_then-Codes _ (sized_words-Codes sh.code_share h.code_words h.code_size)
          (last-Codes _ (sized_words-Codes sh.mask_share h.mask_words h.mask_size))))

  -- A row or a job that the encoder's 32-bit sizes can hold.
  abbrev pub IsText : List ℕ → Type 0
  IsText s = length s < 2 ^ 32

  sync_job-Codes :
      (job : ShamirShareSyncJob)
      → IsText job.subject_id
      → IsShare job.share
      → Codes (read_sync_job words) job (encode_shamir_share_sync_job job)
  unfolding read_sync_job encode_shamir_share_sync_job
  sync_job-Codes job h k =
      and_then-Codes _ (string-Codes job.subject_id h)
        (and_then-Codes _ (u8-Codes job.participant_id) (last-Codes _ (share-Codes job.share k)))

  match_job-Codes :
      (job : ShamirMatchJob)
      → IsShare job.probe_share
      → Codes (read_match_job words) job (encode_shamir_match_job job)
  unfolding read_match_job encode_shamir_match_job
  match_job-Codes job k =
      and_then-Codes _ (u8-Codes job.participant_id) (last-Codes _ (share-Codes job.probe_share k))

  abbrev pub IsRow : ShamirMatchRow → Type 0
  IsRow row = IsText row.subject_id × IsShare row.xor_share

  row-Codes :
      (row : ShamirMatchRow)
      → IsRow row
      → Codes (read_row words) row (write_string row.subject_id ++ write_share row.xor_share)
  unfolding read_row
  row-Codes row h =
      and_then-Codes _ (string-Codes row.subject_id h.0)
        (last-Codes _ (share-Codes row.xor_share h.1))

  rows-Codes :
      (rows : List ShamirMatchRow)
      → All IsRow rows
      → Codes (read_rows words (length rows)) rows (write_rows rows)
  unfolding read_rows write_rows
  rows-Codes [] h = pure-Codes []
  rows-Codes (row ∷ rows) h =
      and_then-Codes _ (row-Codes row h.0) (last-Codes (λ rs. row ∷ rs) (rows-Codes rows h.1))

  match_response-Codes :
      (resp : ShamirMatchResponse)
      → All IsRow resp.rows
      → length resp.rows < 2 ^ 32
      → Codes (read_match_response words) resp (encode_shamir_match_response resp)
  unfolding read_match_response encode_shamir_match_response
  match_response-Codes resp h k = rw (small (length resp.rows) k) (
      and_then-Codes _ (u8-Codes resp.participant_id)
        (and_then-Codes _ (u32-Codes (length resp.rows) k) (last-Codes _ (rows-Codes resp.rows h))))

  finish_reads :
      {A : Type 0} {r : Reader A} {x : A} {bs : List ℕ}
      → Codes r x bs
      → (rest : List ℕ) → finish (r (bs ++ rest)) ≡ value x
  finish_reads c rest = rw (c.reads rest)

  finish_rejects :
      {A : Type 0} {r : Reader A} {x : A} {bs : List ℕ}
      → Codes r x bs
      → (cut : List ℕ) (b : ℕ) (more : List ℕ) → bs ≡ cut ++ (b ∷ more)
      → Fails (finish (r cut))
  finish_rejects c cut b more e = let f = c.rejects cut b more e in (f.0, rw (f.1))

  -- A job whose sizes fit its encoding is decoded to itself, whatever bytes stand behind it.
  pub decode_shamir_share_sync_job-encode_shamir_share_sync_job :
      (job : ShamirShareSyncJob) (rest : List ℕ)
      → IsText job.subject_id
      → IsShare job.share
      → decode_shamir_share_sync_job words (encode_shamir_share_sync_job job ++ rest) ≡ value job
  unfolding decode_shamir_share_sync_job
  decode_shamir_share_sync_job-encode_shamir_share_sync_job job rest h k =
      finish_reads (sync_job-Codes job h k) rest

  -- A job for matching whose share has the fixed size is decoded to itself, whatever bytes stand behind
  -- it.
  pub decode_shamir_match_job-encode_shamir_match_job :
      (job : ShamirMatchJob) (rest : List ℕ)
      → IsShare job.probe_share
      → decode_shamir_match_job words (encode_shamir_match_job job ++ rest) ≡ value job
  unfolding decode_shamir_match_job
  decode_shamir_match_job-encode_shamir_match_job job rest k =
      finish_reads (match_job-Codes job k) rest

  -- A response with fewer than 2 ^ 32 rows, each with sizes that fit, is decoded to itself, whatever bytes
  -- stand behind it.
  pub decode_shamir_match_response-encode_shamir_match_response :
      (resp : ShamirMatchResponse) (rest : List ℕ)
      → All IsRow resp.rows
      → length resp.rows < 2 ^ 32
      → decode_shamir_match_response words (encode_shamir_match_response resp ++ rest) ≡ value resp
  unfolding decode_shamir_match_response
  decode_shamir_match_response-encode_shamir_match_response resp rest h k =
      finish_reads (match_response-Codes resp h k) rest

  -- An encoded response with fewer than 2 ^ 32 rows, each with sizes that fit, is refused if it loses its
  -- end, were it a single byte.
  pub decode_shamir_match_response_cut :
      (resp : ShamirMatchResponse) (cut : List ℕ) (b : ℕ) (more : List ℕ)
      → All IsRow resp.rows
      → length resp.rows < 2 ^ 32
      → encode_shamir_match_response resp ≡ cut ++ (b ∷ more)
      → Fails (decode_shamir_match_response words cut)
  unfolding decode_shamir_match_response
  decode_shamir_match_response_cut resp cut b more h k e =
      finish_rejects (match_response-Codes resp h k) cut b more e

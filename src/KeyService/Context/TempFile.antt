-- ===== src/KeyService/Context/TempFile.antt =====
-- `DeserializeCiphertext` of key-service/src/he_context.cpp: every call passes its bytes through the one
-- file eyed_ct_tmp.bin, and each subscription of NATS has a thread of its own.
use eye_d.Base.{ℕ, ◌≡◌, ◌⊎◌, Bool, true, false, List, [], ◌∷◌, Option, none, some}

-- Where a call is: before the write, before the read, before the removal, or at its end.
pub data Phase : Type 0 where
  writing reading removing over : Phase

-- A call with its bytes and what it has read.
pub record Call : Type 0 where
  pub ct_bytes : List ℕ
  pub phase : Phase
  pub result : Option (List ℕ)

abbrev pub begin : List ℕ → Call
begin ct_bytes = record { ct_bytes = ct_bytes; phase = writing; result = none }

-- One step of a call on the file.
unfoldable pub advance_in : Phase → Call → Option (List ℕ) → Call × Option (List ℕ)
advance_in writing c file = (record c { phase = reading }, some c.ct_bytes)
advance_in reading c file = (record c { phase = removing; result = file }, file)
advance_in removing c file = (record c { phase = over }, none)
advance_in over c file = (c, file)

unfoldable pub advance : Call → Option (List ℕ) → Call × Option (List ℕ)
unfolding advance_in
advance c file = advance_in c.phase c file

-- Two calls, of which the schedule says whose turn it is.
unfoldable pub run_calls : List Bool → Call → Call → Option (List ℕ) → Call × Call × Option (List ℕ)
unfolding advance
run_calls [] a b file = (a, b, file)
run_calls (true ∷ turns) a b file = let (a', file') = advance a file in run_calls turns a' b file'
run_calls (false ∷ turns) a b file = let (b', file') = advance b file in run_calls turns a b' file'

-- What a call that has the file to itself has done, with the bytes `y`.
abbrev Own : List ℕ → Phase → Call → Option (List ℕ) → Type 0
Own y writing c file = c.ct_bytes ≡ y
Own y reading c file = (c.ct_bytes ≡ y) × (file ≡ some y)
Own y removing c file = c.result ≡ some y
Own y over c file = (c.result ≡ some y) × (file ≡ none)

-- A call that has read keeps what it read.
abbrev HasRead : Phase → Type 0
HasRead p = (p ≡ removing) ⊎ (p ≡ over)

-- Nothing, or the bytes of one of the two calls.
abbrev pub OneOf : List ℕ → List ℕ → Option (List ℕ) → Type 0
OneOf x y o = (o ≡ none) ⊎ ((o ≡ some x) ⊎ (o ≡ some y))

abbrev IsSound : List ℕ → List ℕ → Call → Type 0
IsSound x y c = OneOf x y (some c.ct_bytes) × OneOf x y c.result

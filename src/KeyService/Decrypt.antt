-- ===== src/KeyService/Decrypt.antt =====
-- key-service/src/handlers.cpp, `HandleDecryptBatch`, behind the reading of the JSON request.
-- DecryptScalar, `none` where it throws, and the arithmetic on doubles are parameters: `fraction x n` is
-- the double `x / n`.
pub mod Nearest
use eye_d.Base.{
  ℕ, zero, suc, ◌+◌, ◌*◌, ◌≡◌, Bool, true, false, ◌&&◌, List, [], ◌∷◌, Option, none, some, ltb,
  if◌then◌else◌,
}
use eye_d.KeyService.Base64.{decode}

abbrev pub Text : Type 0
Text = List ℕ

-- One pair of iris codes: the encrypted inner product in base64 and the two counts of bits.
pub record Pair (Z : Type 0) : Type 0 where
  pub enc_inner_product_b64 : Text
  pub probe_iris_popcount : Z
  pub gallery_iris_popcount : Z

pub record Entry (Z : Type 0) : Type 0 where
  pub template_id : Text
  pub identity_id : Text
  pub identity_name : Text
  pub pairs : List (Pair Z)

-- `Z` is int64_t, whose values a double holds as long as they are below 2 ^ 53; `D` is the double of a
-- distance.
pub record Numbers (Z D : Type 0) : Type 0 where
  pub nothing : Z
  pub add : Z → Z → Z
  pub sub : Z → Z → Z
  pub twice : Z → Z
  pub fraction : Z → ℕ → D
  pub one : D
  pub lt : D → D → Bool
  pub lt_irrefl : (d : D) → lt d d ≡ false
  pub lt_trans : (a b c : D) → lt a b ≡ true → lt b c ≡ true → lt a c ≡ true
  pub decrypt_scalar : Text → Option Z

-- The best candidate so far; `found` is whether there is one.
pub record MatchCandidate (D : Type 0) : Type 0 where
  pub identity_id : Text
  pub identity_name : Text
  pub hamming_distance : D
  pub found : Bool

pub record Reply (D : Type 0) : Type 0 where
  pub is_match : Bool
  pub hamming_distance : D
  pub matched_identity : Option (Text × Text)

-- kIrisCodeSlots of he_context.h: 16 × 256 × 2.
abbrev pub iris_code_slots : ℕ
iris_code_slots = 8192

module _ {Z D : Type 0} (num : Numbers Z D) where
  -- `total_xor_count` and `total_bits` over the pairs.
  unfoldable pub totals : List (Pair Z) → Z → ℕ → Option (Z × ℕ)
  totals [] total_xor_count total_bits = some (total_xor_count, total_bits)
  totals (p ∷ ps) total_xor_count total_bits =
      elim (num.decrypt_scalar (decode p.enc_inner_product_b64)) [
        | none ↦ none
        | some inner_product ↦
            totals ps
              (num.add total_xor_count (
                num.sub (num.add p.probe_iris_popcount p.gallery_iris_popcount)
                  (num.twice inner_product)))
              (total_bits + iris_code_slots)
      ]

  -- The fractional Hamming distance of an entry.
  unfoldable pub fhd : Entry Z → Option D
  unfolding totals
  fhd e = elim (totals e.pairs num.nothing 0) [
    | none ↦ none
    | some (total_xor_count, total_bits) ↦
        some (if ltb 0 total_bits then num.fraction total_xor_count total_bits else num.one)
  ]

  unfoldable pub candidate : Entry Z → D → MatchCandidate D
  candidate e d = record {
    identity_id = e.identity_id;
    identity_name = e.identity_name;
    hamming_distance = d;
    found = true;
  }

  -- The loop over the entries, which an exception leaves.
  unfoldable pub best_of : List (Entry Z) → MatchCandidate D → Option (MatchCandidate D)
  unfolding candidate
  best_of [] best = some best
  best_of (e ∷ es) best = elim (fhd e) [
    | none ↦ none
    | some d ↦ best_of es (if num.lt d best.hamming_distance then candidate e d else best)
  ]

  unfoldable pub no_candidate : MatchCandidate D
  no_candidate = record {
    identity_id = [];
    identity_name = [];
    hamming_distance = num.one;
    found = false;
  }

  unfoldable pub answer : D → MatchCandidate D → Reply D
  answer threshold best = record {
    is_match = best.found && num.lt best.hamming_distance threshold;
    hamming_distance = best.hamming_distance;
    matched_identity =
        if best.found && num.lt best.hamming_distance threshold
        then some (best.identity_id, best.identity_name)
        else none;
  }

  -- The answer is none where the handler catches an exception and answers with an error.
  unfoldable pub decrypt_batch : D → List (Entry Z) → Option (Reply D)
  unfolding best_of answer no_candidate
  decrypt_batch threshold entries = elim (best_of entries no_candidate) [
    | none ↦ none
    | some best ↦ some (answer threshold best)
  ]

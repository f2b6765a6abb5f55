-- ===== src/Tests/KeyService.antt =====
-- The key service (key-service/src): theorems at concrete inputs.
use eye_d.Base.{
  ℕ, ◌+◌, ◌-◌, ◌*◌, ◌≡◌, refl, ◌⊎◌, true, false, [], ◌∷◌, arith, All, codes, length, get_elem?,
  none, some, ltb,
}
use eye_d.Base64.{letter, encoding}
use eye_d.KeyService.Base64.{find_from, find_char, is_skipped, letters_of, decode, decode-encoding}
use eye_d.KeyService.Decrypt.{Entry, Numbers, Reply, fhd, decrypt_batch}
use eye_d.KeyService.Decrypt.Nearest.{Fails, NotNearer, decrypt_batch_lem}

broken_lines : letters_of (codes "AP\n8Q==") ≡ letters_of (encoding (0 ∷ 255 ∷ 16 ∷ []))
unfolding letters_of is_skipped find_char find_from encoding letter
broken_lines = refl

decode-encoding_example : decode (codes "AP\n8Q==") ≡ 0 ∷ 255 ∷ 16 ∷ []
decode-encoding_example =
    decode-encoding (0 ∷ 255 ∷ 16 ∷ []) (codes "AP\n8Q==") (omega arith) broken_lines

ltb_irrefl : (d : ℕ) → ltb d d ≡ false
ltb_irrefl d = ground arith

ltb_trans : (a b c : ℕ) → ltb a b ≡ true → ltb b c ≡ true → ltb a c ≡ true
ltb_trans a b c h k = ground arith

-- The inner product of a text is its length, and distances are counts of bits.
abbrev counts : Numbers ℕ ℕ
counts = record {
  nothing = 0;
  add = λ a b. a + b;
  sub = λ a b. a - b;
  twice = λ a. 2 * a;
  fraction = λ x n. x;
  one = 8192;
  lt = ltb;
  lt_irrefl = ltb_irrefl;
  lt_trans = ltb_trans;
  decrypt_scalar = λ bytes. some (length bytes);
}

abbrev an_entry : Entry ℕ
an_entry = record {
  template_id = codes "t-1";
  identity_id = codes "ann";
  identity_name = codes "Ann";
  pairs =
      record {
        enc_inner_product_b64 = codes "AAAA";
        probe_iris_popcount = 10;
        gallery_iris_popcount = 12;
      }
      ∷ [];
}

decrypt_batch_lem_example :
    (Fails counts (an_entry ∷ []) × (decrypt_batch counts 100 (an_entry ∷ []) ≡ none))
    ⊎ ((reply : Reply ℕ) × (decrypt_batch counts 100 (an_entry ∷ []) ≡ some reply)
        × All (NotNearer counts reply.hamming_distance) (an_entry ∷ [])
        × (((reply.is_match ≡ true)
              × (ltb reply.hamming_distance 100 ≡ true)
              × ((k : ℕ) × (e : Entry ℕ) × (get_elem? (an_entry ∷ []) k ≡ some e)
                  × (fhd counts e ≡ some reply.hamming_distance)
                  × (reply.matched_identity ≡ some (e.identity_id, e.identity_name))))
            ⊎ ((reply.is_match ≡ false)
                × (reply.matched_identity ≡ none)
                × ((ltb reply.hamming_distance 100 ≡ false) ⊎ (reply.hamming_distance ≡ 8192)))))
decrypt_batch_lem_example = decrypt_batch_lem counts 100 (an_entry ∷ [])

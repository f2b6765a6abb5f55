-- ===== src/Tests/Codec.antt =====
-- The codec of the SMPC messages (iris-engine2/src/smpc2_nats_codec.cpp): theorems at concrete inputs.
use eye_d.Base.{◌≡◌, refl, [], ◌∷◌, ◌++◌, arith, codes, take, drop}
use eye_d.Engine.Reader.{Fails}
use eye_d.Engine.Codec.{
  write_u8, write_u32, write_bytes, write_u64, write_string, write_words, write_share, write_rows,
  ShamirShare, ShamirMatchResponse, encode_shamir_match_response, decode_shamir_match_response,
}
use eye_d.Engine.Codec.RoundTrip.{IsShare, decode_shamir_match_response_cut}

abbrev a_share : ShamirShare
a_share = record {
  party_id = 3;
  x_coord = 65537;
  code_share = 1 ∷ 18446744073709551615 ∷ [];
  mask_share = 7 ∷ 8 ∷ [];
}

a_share-IsShare : IsShare 2 a_share
a_share-IsShare = record {
  x_word = omega arith;
  code_words = omega arith;
  mask_words = omega arith;
  code_size = refl;
  mask_size = refl;
}

abbrev response : ShamirMatchResponse
response = record {
  participant_id = 2;
  rows = record { subject_id = codes "id-1"; xor_share = a_share } ∷ [];
}

sent_parts :
    encode_shamir_match_response response
    ≡ take 9 (encode_shamir_match_response response)
      ++ (b'i' ∷ drop 10 (encode_shamir_match_response response))
unfolding encode_shamir_match_response write_u8 write_u32 write_bytes write_u64 write_string
    write_words write_share write_rows
sent_parts = refl

decode_shamir_match_response_cut_example :
    Fails (decode_shamir_match_response 2 (take 9 (encode_shamir_match_response response)))
decode_shamir_match_response_cut_example =
    decode_shamir_match_response_cut 2 response (take 9 (encode_shamir_match_response response))
      b'i' (drop 10 (encode_shamir_match_response response)) ((omega arith, a_share-IsShare), tt)
      (omega arith) sent_parts

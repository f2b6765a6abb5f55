-- ===== src/Engine/Party/Lifetimes.antt =====
-- The NATS handles and the TLS options of the two parties' mains (iris-engine2/smpc-party/main.cpp,
-- iris-engine2/smpc2-party/main.cpp).
use eye_d.Base.{◌≡◌, true, false, arith, is_empty}
use eye_d.Engine.Party.{
  Text, Statuses, subscribe_batch, subscribe_match, subscribe_all, connect_party, run_party,
  subscribe_match2, subscribe_both, run_party2,
}

-- Whatever NATS answers to the calls of a party's main, of either kind, and wherever the main returns:
-- it has destroyed the handles that it made, the last one first, and it returns 0 only after it had
-- connected.
pub run_party_lem :
    (tls_dir : Text) (st : Statuses)
    → ((run_party tls_dir st).destroyed ≡ (run_party tls_dir st).made)
      × ((run_party2 tls_dir st).destroyed ≡ (run_party2 tls_dir st).made)
      × ((run_party tls_dir st).exit_code ≡ 0 → (run_party tls_dir st).connected ≡ true)
      × ((run_party2 tls_dir st).exit_code ≡ 0 → (run_party2 tls_dir st).connected ≡ true)
unfolding subscribe_batch subscribe_match subscribe_all connect_party run_party subscribe_match2
    subscribe_both run_party2
run_party_lem tls_dir st = (ground arith, ground arith, λ h. ground arith, λ h. ground arith)

-- With a directory of certificates, smpc-party connects only after TLS was switched on and both
-- certificates were set; smpc2-party connects whatever became of those three calls.
pub run_party_tls :
    (tls_dir : Text) (st : Statuses)
    → is_empty tls_dir ≡ false
    → ((run_party tls_dir st).connected ≡ true
        → (st.set_secure ≡ true) × (st.set_ca ≡ true) × (st.set_certificates ≡ true))
      × (st.connect ≡ true → (run_party2 tls_dir st).connected ≡ true)
unfolding subscribe_batch subscribe_match subscribe_all connect_party run_party subscribe_match2
    subscribe_both run_party2
run_party_tls tls_dir st e = (λ h. (ground arith, ground arith, ground arith), λ h. ground arith)

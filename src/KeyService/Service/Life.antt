-- ===== src/KeyService/Service/Life.antt =====
-- key-service/src/nats_service.cpp and main.cpp: the attempts to connect, and the handles of a run.
use eye_d.Base.{
  ℕ, zero, suc, ◌+◌, ◌<◌, ◌≤◌, ◌≡◌, refl, ◌⊎◌, ◌↔◌, inl, inr, Bool, true, false, List, [], ◌∷◌,
  ◌++◌, map, ap, subst, sym, ◌∙◌, arith, Bool-cases,
}
use eye_d.KeyService.Service.{
  Text, Statuses, k_max_retries, subjects, connect_loop, connect_nats, subscribe_all, cleanup,
  run_with, run_main, options, connection, subscription,
}

module _ (st : Statuses) where
  one_more :
      (k i : ℕ)
      → st.connect i ≡ false
      → ((j : ℕ) → j < k → st.connect (suc i + j) ≡ false)
      → (j : ℕ) → j < suc k
      → st.connect (i + j) ≡ false
  one_more k i h before zero l = ap st.connect (omega arith) ∙ h
  one_more k i h before (suc j) l = ap st.connect (omega arith) ∙ before j (omega (arith, l))

  -- How the attempts from number `i` on turn out: the first that connects is the last one made, or all of
  -- them fail.
  pub connect_loop_cases :
      (left i : ℕ)
      → ((k : ℕ) × (k < left)
          × (st.connect (i + k) ≡ true)
          × ((j : ℕ) → j < k → st.connect (i + j) ≡ false)
          × (connect_loop st left i ≡ (suc k, true)))
        ⊎ (((j : ℕ) → j < left → st.connect (i + j) ≡ false)
            × (connect_loop st left i ≡ (left, false)))
  unfolding connect_loop
  connect_loop_cases zero i = inr (λ j h. absurd (ground arith), refl)
  connect_loop_cases (suc left) i = elim (Bool-cases (st.connect i)) [
    | inl h ↦ inl (
      0,
      omega arith,
      ap st.connect (omega arith) ∙ h,
      λ j l. absurd (omega (arith, l)),
      rw h refl,
    )
    | inr h ↦ elim (connect_loop_cases left (suc i)) [
      | inl (k, l, at, before, e) ↦ inl (
        suc k,
        omega (arith, l),
        ap st.connect (omega arith) ∙ at,
        one_more k i h before,
        rw (h, e) refl,
      )
      | inr (none_of, e) ↦ inr (one_more left i h none_of, rw (h, e) refl)
    ]
  ]

  connect_nats_cases :
      ((k : ℕ) × (k < 30)
        × (st.options_ok ≡ true)
        × (st.connect (suc k) ≡ true)
        × (connect_nats st ≡ (suc k, true)))
      ⊎ (((connect_nats st).0 ≤ 30) × ((connect_nats st).1 ≡ false))
  unfolding connect_nats k_max_retries
  connect_nats_cases = elim (Bool-cases st.options_ok) [
    | inr h ↦ inr (rw h (omega arith), rw h refl)
    | inl h ↦ elim (connect_loop_cases 30 1) [
      | inl (k, l, at, before, e) ↦ inl (k, l, h, ap st.connect (omega arith) ∙ at, rw (h, e) refl)
      | inr (none_of, e) ↦ inr (rw (h, e) (omega arith), rw (h, e) refl)
    ]
  ]

  run_with_lem :
      (tries : ℕ × Bool) (subs : List Text × Bool)
      → tries.0 ≤ 30
      → ((run_with st tries subs).attempts ≤ 30)
        × (((run_with st tries subs).exit_code ≡ 0) ↔ ((run_with st tries subs).waited ≡ true))
        × ((run_with st tries subs).waited ≡ true
            → (st.context_ok ≡ true)
              × (tries.1 ≡ true)
              × ((run_with st tries subs).attempts ≡ tries.0)
              × (subs.1 ≡ true)
              × ((run_with st tries subs).made ≡ options ∷ connection ∷ map subscription subs.0)
              × ((run_with st tries subs).destroyed
                  ≡ options ∷ (map subscription subs.0 ++ (connection ∷ []))))
  unfolding run_with cleanup
  run_with_lem (n, c) (subs, ok) l = (
    ground arith,
    (λ h. ground arith, λ h. ground arith),
    λ h. (ground arith, ground arith, ground arith, ground arith, ground arith, ground arith),
  )

  connect_nats_bound : (connect_nats st).0 ≤ 30
  connect_nats_bound = elim connect_nats_cases [
    | inl (k, l, h, at, e) ↦ rw e (omega (arith, l))
    | inr (n, c) ↦ n
  ]

  connect_nats-true :
      (connect_nats st).1 ≡ true → (st.options_ok ≡ true) × (st.connect (connect_nats st).0 ≡ true)
  connect_nats-true q = elim connect_nats_cases [
    | inl (k, l, h, at, e) ↦ (h, rw e at)
    | inr (n, c) ↦ absurd (ground (arith, c, q))
  ]

  -- The process makes at most thirty attempts to connect. It exits with 0 just when it came to wait for
  -- the shutdown, and then it had its keys, the last attempt was one that connects, every subscription was
  -- made, and every handle that it made is destroyed, the connection last.
  pub run_main_lem :
      ((run_main st).attempts ≤ 30)
      × (((run_main st).exit_code ≡ 0) ↔ ((run_main st).waited ≡ true))
      × ((run_main st).waited ≡ true
          → (st.context_ok ≡ true)
            × (st.options_ok ≡ true)
            × (st.connect (run_main st).attempts ≡ true)
            × (let (subscriptions, ok) = subscribe_all st subjects in
                (ok ≡ true)
                × ((run_main st).made ≡ options ∷ connection ∷ map subscription subscriptions)
                × ((run_main st).destroyed
                    ≡ options ∷ (map subscription subscriptions ++ (connection ∷ [])))))
  unfolding run_main
  run_main_lem =
      let (bound, exits, rest) =
        run_with_lem (connect_nats st) (subscribe_all st subjects) connect_nats_bound in
      (
        bound,
        exits,
        λ h.
            let (keys, connected, n, ok, made, destroyed) = rest h in
            let (created, last) = connect_nats-true connected in
            (keys, created, subst (λ a. st.connect a ≡ true) (sym n) last, (ok, made, destroyed)),
      )

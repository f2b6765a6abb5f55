-- ===== src/Capture/Main/Account.antt =====
-- What becomes of every frame of the capture device (capture/src/main.cpp).
use eye_d.Base.{
  ◌%◌, ◌^◌, ◌≡◌, refl, inl, inr, not, List, [], ◌∷◌, Option, none, some, arith, All, subst, sym, ap,
  ◌∙◌, take, length, Option-cases,
}
use eye_d.Capture.Client.{GrpcClient, ready}
use eye_d.Capture.Main.{
  Frame, QualityGate, GatewayConfig, Stats, Answers, Fate, Turn, handle_frame, main_loop,
}
use eye_d.Capture.Main.Counts.{
  is_low, is_delivered, is_refused, tally, IsCounted, IsSmall, same_counts, IsCounted-trans,
  handle_frame-IsTurn, verdict,
}

abbrev pub no_stats : Stats
no_stats = record { sent = 0; rejected_quality = 0; rejected_gw = 0 }

module _ {I Q : Type 0} (gate : QualityGate I Q) (cfg : GatewayConfig) where
  -- The frames that the loop takes out of the buffer, with the fates that they are meant to have.
  abbrev pub verdicts : List (Option (Frame I) × Answers) → List (Frame I × Fate)
  verdicts [] = []
  verdicts ((none, ans) ∷ later) = verdicts later
  verdicts ((some frame, ans) ∷ later) = (frame, verdict gate frame ans) ∷ verdicts later

  abbrev pub IsGated : Frame I × Fate → Type 0
  IsGated e = gate.passes (gate.score e.0.image) ≡ not (is_low e.1)

  abbrev Accounts :
      List (Option (Frame I) × Answers)
      → Stats
      → List (Frame I × Fate) × Stats × Option GrpcClient
      → Type 0
  Accounts events st r =
      let (fates, st', end) = r in
      IsCounted st st' (tally is_delivered fates) (tally is_low fates) (tally is_refused fates)
      × All IsGated fates
      × (fates ≡ take (length fates) (verdicts events))
      × ((c : GrpcClient) → end ≡ some c → (c ≡ ready) × (fates ≡ verdicts events))

  module _ (frame : Frame I) (ans : Answers) (later : List (Option (Frame I) × Answers))
      (st : Stats) (small : IsSmall st) where
    abbrev turn : Turn
    turn = handle_frame gate cfg frame ans st ready

    -- The state behind the first frame, and then behind the others.
    after :
        List (Frame I × Fate) × Stats × Option GrpcClient
        → List (Frame I × Fate) × Stats × Option GrpcClient
    after (fates, st', end) = ((frame, turn.fate) ∷ fates, st', end)

    main_loop_stops :
        turn.client ≡ none
        → main_loop gate cfg ((some frame, ans) ∷ later) st ready
          ≡ ((frame, turn.fate) ∷ [], turn.stats, none)
    unfolding main_loop
    main_loop_stops e = rw (e, main_loop) refl

    main_loop_goes :
        turn.client ≡ some ready
        → main_loop gate cfg ((some frame, ans) ∷ later) st ready
          ≡ after (main_loop gate cfg later turn.stats ready)
    unfolding main_loop after
    main_loop_goes e = rw (e, main_loop) refl

    after-Accounts :
        (r : List (Frame I × Fate) × Stats × Option GrpcClient)
        → Accounts later turn.stats r
        → Accounts ((some frame, ans) ∷ later) st (after r)
    unfolding after
    after-Accounts (fates, st', end) h =
        let t = handle_frame-IsTurn gate cfg frame ans st small in
        (
          IsCounted-trans st turn.stats st' _ _ _ _ _ _ t.counted h.0,
          (t.gated, h.1),
          ap (λ f. (frame, f) ∷ fates) t.judged ∙ ap (◌∷◌ (frame, verdict gate frame ans)) h.2,
          λ c e. (
            (h.3 c e).0,
            ap (λ f. (frame, f) ∷ fates) t.judged
                ∙ ap (◌∷◌ (frame, verdict gate frame ans)) (h.3 c e).1,
          ),
        )

    stopped-Accounts :
        Accounts ((some frame, ans) ∷ later) st ((frame, turn.fate) ∷ [], turn.stats, none)
    stopped-Accounts =
        let t = handle_frame-IsTurn gate cfg frame ans st small in
        (
          record {
            sent = omega (arith, t.counted.sent);
            rejected_quality = omega (arith, t.counted.rejected_quality);
            rejected_gw = omega (arith, t.counted.rejected_gw);
          },
          (t.gated, tt),
          ap (λ f. (frame, f) ∷ []) t.judged,
          λ c e. cc e,
        )

    turn-IsSmall : IsSmall turn.stats
    turn-IsSmall =
        let t = handle_frame-IsTurn gate cfg frame ans st small in
        (
          omega (arith, t.counted.sent),
          omega (arith, t.counted.rejected_quality),
          omega (arith, t.counted.rejected_gw),
        )

  main_loop-Accounts :
      (events : List (Option (Frame I) × Answers)) (st : Stats)
      → IsSmall st
      → Accounts events st (main_loop gate cfg events st ready)
  unfolding main_loop
  main_loop-Accounts [] st small = (same_counts st small, tt, refl, λ c h. (cc h, refl))
  main_loop-Accounts ((none, ans) ∷ later) st small = main_loop-Accounts later st small
  main_loop-Accounts ((some frame, ans) ∷ later) st small =
      let go = turn frame ans later st small in
      elim (Option-cases go.client) [
        | inl e ↦
            subst (Accounts ((some frame, ans) ∷ later) st)
              (sym (main_loop_stops frame ans later st small e))
              (stopped-Accounts frame ans later st small)
        | inr (c, e) ↦
            let on = (handle_frame-IsTurn gate cfg frame ans st small).client c e in
            subst (Accounts ((some frame, ans) ∷ later) st)
              (sym (main_loop_goes frame ans later st small (e ∙ ap some on)))
              (after-Accounts frame ans later st small _
                (main_loop-Accounts later go.stats (turn-IsSmall frame ans later st small)))
      ]

  -- From a client that is connected and counters at 0: the frames taken out of the buffer meet, in order,
  -- the fates that the gate, the encoder and the answers of gRPC give them, up to a loop to reconnect that
  -- goes on; if none does, all of them do, and the client ends connected. Modulo 2 ^ 64, sent counts the
  -- frames that were delivered, rejected_quality those that the gate did not pass, and rejected_gw those
  -- that the gateway did not accept.
  pub main_loop_lem :
      (events : List (Option (Frame I) × Answers))
      → let (fates, st, end) = main_loop gate cfg events no_stats ready in
        (st.sent ≡ tally is_delivered fates % 2 ^ 64)
        × (st.rejected_quality ≡ tally is_low fates % 2 ^ 64)
        × (st.rejected_gw ≡ tally is_refused fates % 2 ^ 64)
        × All IsGated fates
        × (fates ≡ take (length fates) (verdicts events))
        × ((c : GrpcClient) → end ≡ some c → (c ≡ ready) × (fates ≡ verdicts events))
  main_loop_lem events =
      let lem = main_loop-Accounts events no_stats (omega arith, omega arith, omega arith) in
      (
        omega (arith, lem.0.sent),
        omega (arith, lem.0.rejected_quality),
        omega (arith, lem.0.rejected_gw),
        lem.1,
        lem.2,
        lem.3,
      )

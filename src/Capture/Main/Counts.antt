-- ===== src/Capture/Main/Counts.antt =====
-- What becomes of one frame of the capture device, and what the counters say of it
-- (capture/src/main.cpp).
use eye_d.Base.{
  ℕ, ◌+◌, ◌%◌, ◌^◌, ◌<◌, ◌≡◌, refl, inl, inr, Bool, true, false, not, List, [], ◌∷◌, Option, none,
  some, arith, if◌then◌else◌, is_empty, Bool-cases,
}
use eye_d.Capture.Client.{
  Ack, lost, teardown_stream, GrpcClient, SendResult, send_frame, ready,
  reconnect_with_backoff-ready, send_frame_kept,
}
use eye_d.Capture.Main.{
  Frame, QualityGate, GatewayConfig, Stats, Answers, Fate, low_quality, no_jpeg, lost_connection,
  not_accepted, delivered, Turn, settle, handle_frame,
}

abbrev pub is_low : Fate → Bool
is_low fate = elim fate [ low_quality ↦ true | _ ↦ false ]

abbrev pub is_delivered : Fate → Bool
is_delivered fate = elim fate [ delivered ↦ true | _ ↦ false ]

abbrev pub is_refused : Fate → Bool
is_refused fate = elim fate [ not_accepted ↦ true | _ ↦ false ]

abbrev pub bit : Bool → ℕ
bit b = if b then 1 else 0

abbrev pub tally : {I : Type 0} → (Fate → Bool) → List (Frame I × Fate) → ℕ
tally test [] = 0
tally test ((f, fate) ∷ fates) = bit (test fate) + tally test fates

-- What the counters say after the fates that befell frames since `st`.
pub record IsCounted (st st' : Stats) (delivered low refused : ℕ) : Type 0 where
  pub sent : st'.sent ≡ (st.sent + delivered) % 2 ^ 64
  pub rejected_quality : st'.rejected_quality ≡ (st.rejected_quality + low) % 2 ^ 64
  pub rejected_gw : st'.rejected_gw ≡ (st.rejected_gw + refused) % 2 ^ 64

abbrev pub IsSmall : Stats → Type 0
IsSmall st = (st.sent < 2 ^ 64) × (st.rejected_quality < 2 ^ 64) × (st.rejected_gw < 2 ^ 64)

pub same_counts : (st : Stats) → IsSmall st → IsCounted st st 0 0 0
same_counts st small = record {
  sent = omega (arith, small.0);
  rejected_quality = omega (arith, small.1);
  rejected_gw = omega (arith, small.2);
}

settle-IsCounted :
    (cfg : GatewayConfig) (ans : Answers) (st : Stats) (r : SendResult × GrpcClient)
    → IsSmall st
    → let turn = settle cfg ans st r in
      IsCounted st turn.stats (bit (is_delivered turn.fate)) 0 (bit (is_refused turn.fate))
      × (is_low turn.fate ≡ false)
unfolding settle
settle-IsCounted cfg ans st (result, c) small = elim (Bool-cases result.connection_ok) [
  | inr e ↦ rw e (same_counts st small, refl)
  | inl e ↦ elim (Bool-cases result.accepted) [
    | inl a ↦
        rw (e, a)
          (
            record {
              sent = refl;
              rejected_quality = omega (arith, small.1);
              rejected_gw = omega (arith, small.2);
            },
            refl,
          )
    | inr a ↦
        rw (e, a)
          (
            record {
              sent = omega (arith, small.0);
              rejected_quality = omega (arith, small.1);
              rejected_gw = refl;
            },
            refl,
          )
  ]
]

settle-ready :
    (cfg : GatewayConfig) (ans : Answers) (st : Stats) (r : SendResult × GrpcClient)
    → (r.0.connection_ok ≡ true → r.1 ≡ ready)
    → (c : GrpcClient) → (settle cfg ans st r).client ≡ some c
    → c ≡ ready
unfolding settle
settle-ready cfg ans st (result, c₀) kept c h = elim (Bool-cases result.connection_ok) [
  | inr e ↦
      reconnect_with_backoff-ready cfg.reconnect_base_ms cfg.reconnect_max_ms ans.attempts c₀ c
        (ground arith)
  | inl e ↦ elim (Bool-cases result.accepted) [
    | inl a ↦ ground (arith, kept e)
    | inr a ↦ ground (arith, kept e)
  ]
]

pub IsCounted-trans :
    (st st₁ st₂ : Stats) (a b c x y z : ℕ)
    → IsCounted st st₁ a b c
    → IsCounted st₁ st₂ x y z
    → IsCounted st st₂ (a + x) (b + y) (c + z)
IsCounted-trans st st₁ st₂ a b c x y z k l = record {
  sent = omega (arith, k.sent, l.sent);
  rejected_quality = omega (arith, k.rejected_quality, l.rejected_quality);
  rejected_gw = omega (arith, k.rejected_gw, l.rejected_gw);
}

-- The fate that the code means for a frame, by the gate, the encoder and what gRPC answers alone.
abbrev pub on_ack : Option Ack → Fate
on_ack none = lost_connection
on_ack (some ack) = if ack.accepted then delivered else not_accepted

abbrev pub verdict : {I Q : Type 0} → QualityGate I Q → Frame I → Answers → Fate
verdict gate frame ans =
    if not (gate.passes (gate.score frame.image))
    then low_quality
    else if is_empty (gate.encode_jpeg frame.image)
    then no_jpeg
    else if not ans.writes
    then lost_connection
    else on_ack ans.ack

settle-on_ack :
    (cfg : GatewayConfig) (ans : Answers) (st : Stats) (writes : Bool) (ack : Option Ack)
    → (settle cfg ans st (send_frame writes ack ready)).fate
      ≡ (if not writes then lost_connection else on_ack ack)
unfolding settle send_frame lost teardown_stream
settle-on_ack cfg ans st false ack = refl
settle-on_ack cfg ans st true none = refl
settle-on_ack cfg ans st true (some ack) = elim (Bool-cases ack.accepted) [
  | inl e ↦ rw e refl
  | inr e ↦ rw e refl
]

module _ {I Q : Type 0} (gate : QualityGate I Q) (cfg : GatewayConfig) where
  -- One frame: the counters, the client, that the gate alone decides on the quality, and the fate.
  pub record IsTurn (frame : Frame I) (ans : Answers) (st : Stats) (turn : Turn) : Type 0 where
    pub counted :
        IsCounted st turn.stats
          (bit (is_delivered turn.fate))
          (bit (is_low turn.fate))
          (bit (is_refused turn.fate))
    pub client : (c : GrpcClient) → turn.client ≡ some c → c ≡ ready
    pub gated : gate.passes (gate.score frame.image) ≡ not (is_low turn.fate)
    pub judged : turn.fate ≡ verdict gate frame ans

  pub handle_frame-IsTurn :
      (frame : Frame I) (ans : Answers) (st : Stats)
      → IsSmall st
      → IsTurn frame ans st (handle_frame gate cfg frame ans st ready)
  unfolding handle_frame
  handle_frame-IsTurn frame ans st small =
      let out = send_frame ans.writes ans.ack ready in
      let settled = settle-IsCounted cfg ans st out small in
      elim (Bool-cases (gate.passes (gate.score frame.image))) [
        | inr g ↦ rw g (record {
          counted = record {
            sent = omega (arith, small.0);
            rejected_quality = refl;
            rejected_gw = omega (arith, small.2);
          };
          client = λ c h. cc h;
          gated = g;
          judged = rw g refl;
        })
        | inl g ↦ elim (Bool-cases (is_empty (gate.encode_jpeg frame.image))) [
          | inl b ↦
              rw (g, b)
                (record {
                  counted = same_counts st small;
                  client = λ c h. cc h;
                  gated = g;
                  judged = rw (g, b) refl;
                })
          | inr b ↦
              rw (g, b)
                (record {
                  counted = ground (arith, settled);
                  client = settle-ready cfg ans st out (send_frame_kept ans.writes ans.ack ready);
                  gated = ground (arith, settled.1);
                  judged = rw (g, b) (settle-on_ack cfg ans st ans.writes ans.ack);
                })
        ]
      ]

-- ===== src/KeyService/Decrypt/Nearest.antt =====
-- What HandleDecryptBatch (key-service/src/handlers.cpp) answers: a nearest candidate, nobody, or an error.
use eye_d.Base.{
  ℕ, zero, suc, ◌≡◌, ◌⊎◌, inl, inr, true, false, List, [], ◌∷◌, Option, none, some, if◌then◌else◌,
  get_elem?, All, Bool-cases, Option-cases, refl, ◌∙◌,
}
use eye_d.Base.Order.{not_below}
use eye_d.KeyService.Decrypt.{
  Entry, Numbers, MatchCandidate, Reply, fhd, candidate, best_of, no_candidate, answer,
  decrypt_batch,
}

module _ {Z D : Type 0} (num : Numbers Z D) where
  -- The entry decrypts, and is not nearer than `d`.
  abbrev pub NotNearer : D → Entry Z → Type 0
  NotNearer d e = (x : D) × (fhd num e ≡ some x) × (num.lt x d ≡ false)

  -- One of the entries does not decrypt.
  abbrev pub Fails : List (Entry Z) → Type 0
  Fails es = (k : ℕ) × (e : Entry Z) × (get_elem? es k ≡ some e) × (fhd num e ≡ none)

  -- The candidate is one of the entries, at its own distance.
  abbrev From : List (Entry Z) → MatchCandidate D → Type 0
  From es b =
      (k : ℕ) × (e : Entry Z) × (d : D) × (get_elem? es k ≡ some e)
      × (fhd num e ≡ some d)
      × (b ≡ candidate num e d)

  record IsBest (es : List (Entry Z)) (best b : MatchCandidate D) : Type 0 where
    none_nearer : All (NotNearer b.hamming_distance) es
    keeps : (d : D) → num.lt d best.hamming_distance ≡ false → num.lt d b.hamming_distance ≡ false
    from : (b ≡ best) ⊎ From es b

  abbrev Outcome : List (Entry Z) → MatchCandidate D → Option (MatchCandidate D) → Type 0
  Outcome es best o =
      (Fails es × (o ≡ none)) ⊎ ((b : MatchCandidate D) × (o ≡ some b) × IsBest es best b)

  abbrev better : Entry Z → D → MatchCandidate D → MatchCandidate D
  better e d best = if num.lt d best.hamming_distance then candidate num e d else best

  record IsBetter (e : Entry Z) (d : D) (best b : MatchCandidate D) : Type 0 where
    near : num.lt d b.hamming_distance ≡ false
    keeps : (x : D) → num.lt x best.hamming_distance ≡ false → num.lt x b.hamming_distance ≡ false
    from : (b ≡ best) ⊎ (b ≡ candidate num e d)

  better-IsBetter :
      (e : Entry Z) (d : D) (best : MatchCandidate D) → IsBetter e d best (better e d best)
  unfolding candidate
  better-IsBetter e d best = elim (Bool-cases (num.lt d best.hamming_distance)) [
    | inl l ↦ rw l (record {
      near = num.lt_irrefl d;
      keeps = λ x k. not_below num.lt num.lt_trans x d best.hamming_distance l k;
      from = inr refl;
    })
    | inr l ↦ rw l (record { near = l; keeps = λ x k. k; from = inl refl })
  ]

  step-IsBest :
      (e : Entry Z) (es : List (Entry Z)) (d : D) (best b₁ b : MatchCandidate D)
      → fhd num e ≡ some d
      → IsBetter e d best b₁
      → IsBest es b₁ b
      → IsBest (e ∷ es) best b
  step-IsBest e es d best b₁ b h better i = record {
    none_nearer = ((d, h, i.keeps d better.near), i.none_nearer);
    keeps = λ x k. i.keeps x (better.keeps x k);
    from = elim i.from [
      | inr (k, x, y, q, f, c) ↦ inr (suc k, x, y, q, f, c)
      | inl c ↦ elim better.from [
        | inl c₁ ↦ inl (c ∙ c₁)
        | inr c₁ ↦ inr (zero, e, d, refl, h, c ∙ c₁)
      ]
    ];
  }

  best_of_cases :
      (es : List (Entry Z)) (best : MatchCandidate D) → Outcome es best (best_of num es best)
  unfolding best_of candidate
  best_of_cases [] best =
      inr (best, refl, record { none_nearer = tt; keeps = λ d h. h; from = inl refl })
  best_of_cases (e ∷ es) best = elim (Option-cases (fhd num e)) [
    | inl h ↦ inl ((0, e, refl, h), rw (h, best_of) refl)
    | inr (d, h) ↦ elim (best_of_cases es (better e d best)) [
      | inl ((k, x, q, f), o) ↦ inl ((suc k, x, q, f), rw (h, best_of) o)
      | inr (b, o, i) ↦
          inr (b, rw (h, best_of) o, step-IsBest e es d best _ b h (better-IsBetter e d best) i)
    ]
  ]

  -- Either an entry does not decrypt and the answer is an error; or every entry decrypts, none is nearer
  -- than the distance in the answer, and: the answer is a match, its distance is below the threshold, and
  -- it names an entry of the batch whose distance it is; or it names nobody and is no match, and its
  -- distance is not below the threshold, or it is 1.0 and no entry is below that.
  pub decrypt_batch_lem :
      (threshold : D) (entries : List (Entry Z))
      → (Fails entries × (decrypt_batch num threshold entries ≡ none))
        ⊎ ((reply : Reply D) × (decrypt_batch num threshold entries ≡ some reply)
            × All (NotNearer reply.hamming_distance) entries
            × (((reply.is_match ≡ true)
                  × (num.lt reply.hamming_distance threshold ≡ true)
                  × ((k : ℕ) × (e : Entry Z) × (get_elem? entries k ≡ some e)
                      × (fhd num e ≡ some reply.hamming_distance)
                      × (reply.matched_identity ≡ some (e.identity_id, e.identity_name))))
                ⊎ ((reply.is_match ≡ false)
                    × (reply.matched_identity ≡ none)
                    × ((num.lt reply.hamming_distance threshold ≡ false)
                        ⊎ (reply.hamming_distance ≡ num.one)))))
  unfolding decrypt_batch answer no_candidate candidate
  decrypt_batch_lem threshold entries = elim (best_of_cases entries (no_candidate num)) [
    | inl (fails, o) ↦ inl (fails, rw (decrypt_batch, o) refl)
    | inr (b, o, i) ↦ inr (
      answer num threshold b,
      rw (decrypt_batch, o) refl,
      i.none_nearer,
      elim i.from [
        | inl c ↦ rw c (inr (refl, refl, inr refl))
        | inr (k, e, d, q, f, c) ↦ rw c (elim (Bool-cases (num.lt d threshold)) [
          | inl l ↦ rw l (inl (refl, refl, (k, e, q, f, refl)))
          | inr l ↦ rw l (inr (refl, refl, inl refl))
        ])
      ],
    )
  ]

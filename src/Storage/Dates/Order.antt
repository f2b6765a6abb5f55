-- ===== src/Storage/Dates/Order.antt =====
-- Dates as texts and as numbers (storage/src/retention_purger.cpp): formatting undoes parsing, and the
-- order of the texts is the order of the dates.
use eye_d.Base.{
  ℕ, ◌+◌, ◌≤◌, ◌<◌, ◌≡◌, refl, ◌↔◌, ◌⊎◌, Bool, true, false, List, [], ◌∷◌, some, arith, ltb,
  if◌then◌else◌,
}
use eye_d.Base.Texts.{lex_lt}
use eye_d.Storage.Dates.{
  Tm, IsDate, Reads, is_digit_range, parse_date, parse_date_inv, parse_date_size, format_date,
  stoi_from,
}

module _ (c0 c1 c2 c3 c4 c5 c6 c7 c8 c9 : ℕ) (tm : Tm) where
  parsed :
      parse_date (c0 ∷ c1 ∷ c2 ∷ c3 ∷ c4 ∷ c5 ∷ c6 ∷ c7 ∷ c8 ∷ c9 ∷ []) ≡ some tm
      → format_date tm ≡ c0 ∷ c1 ∷ c2 ∷ c3 ∷ c4 ∷ c5 ∷ c6 ∷ c7 ∷ c8 ∷ c9 ∷ []
  unfolding format_date
  parsed e =
      let (d, r) = parse_date_inv c0 c1 c2 c3 c4 c5 c6 c7 c8 c9 tm e in
      let r0 = is_digit_range c0 d.d0 in
      let r1 = is_digit_range c1 d.d1 in
      let r2 = is_digit_range c2 d.d2 in
      let r3 = is_digit_range c3 d.d3 in
      let r5 = is_digit_range c5 d.d5 in
      let r6 = is_digit_range c6 d.d6 in
      let r8 = is_digit_range c8 d.d8 in let r9 = is_digit_range c9 d.d9 in ground arith

-- Formatting a parsed date gives the text back.
pub format_date-parse_date : (s : List ℕ) (tm : Tm) → parse_date s ≡ some tm → format_date tm ≡ s
format_date-parse_date (c0 ∷ c1 ∷ c2 ∷ c3 ∷ c4 ∷ c5 ∷ c6 ∷ c7 ∷ c8 ∷ c9 ∷ []) tm e =
    parsed c0 c1 c2 c3 c4 c5 c6 c7 c8 c9 tm e
format_date-parse_date s tm e = absurd (omega (arith, parse_date_size s tm e))

abbrev IsDigit : ℕ → Type 0
IsDigit c = (48 ≤ c) × (c ≤ 57)

-- What is left to compare once the numbers `a` and `b` were.
abbrev then_lt : ℕ → ℕ → Bool → Bool
then_lt a b rest = if ltb a b then true else if ltb b a then false else rest

lex_lt_two :
    (a b a' b' : ℕ) (xs ys : List ℕ)
    → IsDigit a
    → IsDigit b
    → IsDigit a'
    → IsDigit b'
    → lex_lt (a ∷ b ∷ xs) (a' ∷ b' ∷ ys)
      ≡ then_lt (stoi_from 0 (a ∷ b ∷ [])) (stoi_from 0 (a' ∷ b' ∷ [])) (lex_lt xs ys)
unfolding lex_lt
lex_lt_two a b a' b' xs ys h0 h1 k0 k1 = ground arith

lex_lt_four :
    (a b c d a' b' c' d' : ℕ) (xs ys : List ℕ)
    → IsDigit a
    → IsDigit b
    → IsDigit c
    → IsDigit d
    → IsDigit a'
    → IsDigit b'
    → IsDigit c'
    → IsDigit d'
    → lex_lt (a ∷ b ∷ c ∷ d ∷ xs) (a' ∷ b' ∷ c' ∷ d' ∷ ys)
      ≡ then_lt
          (stoi_from 0 (a ∷ b ∷ c ∷ d ∷ []))
          (stoi_from 0 (a' ∷ b' ∷ c' ∷ d' ∷ []))
          (lex_lt xs ys)
lex_lt_four a b c d a' b' c' d' xs ys h0 h1 h2 h3 k0 k1 k2 k3 =
    ground (arith, lex_lt_two a b a' b' (c ∷ d ∷ xs) (c' ∷ d' ∷ ys), lex_lt_two c d c' d' xs ys)

lex_lt_dash : (xs ys : List ℕ) → lex_lt (b'-' ∷ xs) (b'-' ∷ ys) ≡ lex_lt xs ys
unfolding lex_lt
lex_lt_dash xs ys = refl

lex_lt_end : lex_lt [] [] ≡ false
unfolding lex_lt
lex_lt_end = refl

-- The calendar order.
abbrev pub Before : Tm → Tm → Type 0
Before t u =
    (t.tm_year < u.tm_year)
    ⊎ ((t.tm_year ≡ u.tm_year)
        × ((t.tm_mon < u.tm_mon) ⊎ ((t.tm_mon ≡ u.tm_mon) × (t.tm_mday < u.tm_mday))))

module _ (a0 a1 a2 a3 a4 a5 a6 a7 a8 a9 b0 b1 b2 b3 b4 b5 b6 b7 b8 b9 : ℕ) (t u : Tm)
    (d : IsDate a0 a1 a2 a3 a4 a5 a6 a7 a8 a9) (d' : IsDate b0 b1 b2 b3 b4 b5 b6 b7 b8 b9)
    (r : Reads
      (stoi_from 0 (a0 ∷ a1 ∷ a2 ∷ a3 ∷ []))
      (stoi_from 0 (a5 ∷ a6 ∷ []))
      (stoi_from 0 (a8 ∷ a9 ∷ []))
      t)
    (r' : Reads
      (stoi_from 0 (b0 ∷ b1 ∷ b2 ∷ b3 ∷ []))
      (stoi_from 0 (b5 ∷ b6 ∷ []))
      (stoi_from 0 (b8 ∷ b9 ∷ []))
      u) where
  abbrev text : List ℕ
  text = a0 ∷ a1 ∷ a2 ∷ a3 ∷ a4 ∷ a5 ∷ a6 ∷ a7 ∷ a8 ∷ a9 ∷ []

  abbrev other : List ℕ
  other = b0 ∷ b1 ∷ b2 ∷ b3 ∷ b4 ∷ b5 ∷ b6 ∷ b7 ∷ b8 ∷ b9 ∷ []

  lex_lt_fields :
      lex_lt text other
      ≡ then_lt
          (t.tm_year + 1900)
          (u.tm_year + 1900)
          (then_lt (t.tm_mon + 1) (u.tm_mon + 1) (then_lt t.tm_mday u.tm_mday false))
  lex_lt_fields = rw (
    r.year,
    r'.year,
    r.month,
    r'.month,
    r.day,
    r'.day,
    d.dash4,
    d'.dash4,
    d.dash7,
    d'.dash7,
    lex_lt_four a0 a1 a2 a3 b0 b1 b2 b3 _ _ (is_digit_range a0 d.d0) (is_digit_range a1 d.d1)
        (is_digit_range a2 d.d2) (is_digit_range a3 d.d3) (is_digit_range b0 d'.d0)
        (is_digit_range b1 d'.d1) (is_digit_range b2 d'.d2) (is_digit_range b3 d'.d3),
    lex_lt_dash,
    lex_lt_two a5 a6 b5 b6 _ _ (is_digit_range a5 d.d5) (is_digit_range a6 d.d6)
        (is_digit_range b5 d'.d5) (is_digit_range b6 d'.d6),
    lex_lt_dash,
    lex_lt_two a8 a9 b8 b9 _ _ (is_digit_range a8 d.d8) (is_digit_range a9 d.d9)
        (is_digit_range b8 d'.d8) (is_digit_range b9 d'.d9),
    lex_lt_end,
  )

  lex_lt_iff : (lex_lt text other ≡ true) ↔ Before t u
  lex_lt_iff = (λ h. ground (arith, lex_lt_fields), λ h. ground (arith, lex_lt_fields))

-- Of two texts that parse, one is less than the other as a string exactly when its date is before the
-- other's in the calendar.
pub lex_lt-Before :
    (s c : List ℕ) (t u : Tm)
    → parse_date s ≡ some t
    → parse_date c ≡ some u
    → (lex_lt s c ≡ true) ↔ Before t u
lex_lt-Before (a0 ∷ a1 ∷ a2 ∷ a3 ∷ a4 ∷ a5 ∷ a6 ∷ a7 ∷ a8 ∷ a9 ∷ [])
      (b0 ∷ b1 ∷ b2 ∷ b3 ∷ b4 ∷ b5 ∷ b6 ∷ b7 ∷ b8 ∷ b9 ∷ []) t u p q =
    let (d, r) = parse_date_inv a0 a1 a2 a3 a4 a5 a6 a7 a8 a9 t p in
    let (d', r') = parse_date_inv b0 b1 b2 b3 b4 b5 b6 b7 b8 b9 u q in
    lex_lt_iff a0 a1 a2 a3 a4 a5 a6 a7 a8 a9 b0 b1 b2 b3 b4 b5 b6 b7 b8 b9 t u d d' r r'
lex_lt-Before s c t u p q = absurd (omega (arith, parse_date_size s t p, parse_date_size c u q))

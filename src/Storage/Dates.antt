-- ===== src/Storage/Dates.antt =====
-- The dates of storage/src: `extract_date` of archive_handler.cpp, and `parse_date` and `format_date`
-- of retention_purger.cpp. A std::string is the list of its bytes.
pub mod Order
use eye_d.Base.{
  ℕ, zero, suc, ◌+◌, ◌-◌, ◌*◌, ◌/◌, ◌%◌, ◌≤◌, ◌<◌, ◌≡◌, refl, Bool, true, false, ◌&&◌, List, [],
  ◌∷◌, Option, none, some, arith, leb, ltb, ◌==◌, if◌then◌else◌, get_or, take, drop, length,
  Bool-cases, inl, inr,
}

-- The fields of std::tm that the code sets.
pub record Tm : Type 0 where
  pub tm_year : ℕ
  pub tm_mon : ℕ
  pub tm_mday : ℕ

unfoldable pub is_digit : ℕ → Bool
is_digit c = leb b'0' c && leb c b'9'

-- `s[i]`; the callers check the size first.
abbrev pub at : List ℕ → ℕ → ℕ
at s i = get_or s i 0

-- The ten tests on the first ten bytes.
unfoldable pub shape_of : ℕ → ℕ → ℕ → ℕ → ℕ → ℕ → ℕ → ℕ → ℕ → ℕ → Bool
shape_of c0 c1 c2 c3 c4 c5 c6 c7 c8 c9 =
    is_digit c0
    && (is_digit c1
        && (is_digit c2
            && (is_digit c3
                && (c4 == b'-'
                    && (is_digit c5
                        && (is_digit c6 && (c7 == b'-' && (is_digit c8 && is_digit c9))))))))

unfoldable pub has_date_shape : List ℕ → Bool
has_date_shape s =
    shape_of (at s 0) (at s 1) (at s 2) (at s 3) (at s 4) (at s 5) (at s 6) (at s 7) (at s 8)
      (at s 9)

-- std::stoi on digits.
abbrev pub stoi_from : ℕ → List ℕ → ℕ
stoi_from acc [] = acc
stoi_from acc (c ∷ cs) = stoi_from (acc * 10 + (c - b'0')) cs

-- `std::stoi(s.substr(from, len))`.
abbrev pub field : List ℕ → ℕ → ℕ → ℕ
field s from len = stoi_from 0 (take len (drop from s))

unfoldable pub in_range : ℕ → ℕ → ℕ → Bool
in_range year month day =
    leb 1970 year && (leb year 9999 && (leb 1 month && (leb month 12 && (leb 1 day && leb day 31))))

unfoldable pub parse_date : List ℕ → Option Tm
parse_date s =
    if length s == 10 && (has_date_shape s && in_range (field s 0 4) (field s 5 2) (field s 8 2))
    then some
        (record { tm_year = field s 0 4 - 1900; tm_mon = field s 5 2 - 1; tm_mday = field s 8 2 })
    else none

-- `today` is what the fallback reads off the clock.
unfoldable pub extract_date : List ℕ → List ℕ → List ℕ
extract_date iso8601 today =
    if leb 10 (length iso8601)
      && (has_date_shape iso8601
          && in_range (field iso8601 0 4) (field iso8601 5 2) (field iso8601 8 2))
    then take 10 iso8601
    else today

abbrev pub digit : ℕ → ℕ
digit n = b'0' + n % 10

-- strftime with "%Y-%m-%d", for a year of four digits.
pub format_date : Tm → List ℕ
format_date tm =
    let y = tm.tm_year + 1900 in
    let m = tm.tm_mon + 1 in
    digit (y / 1000)
    ∷ digit (y / 100)
    ∷ digit (y / 10)
    ∷ digit y
    ∷ b'-'
    ∷ digit (m / 10)
    ∷ digit m
    ∷ b'-'
    ∷ digit (tm.tm_mday / 10)
    ∷ digit tm.tm_mday
    ∷ []

ten_le : (n : ℕ) → leb 10 (suc (suc (suc (suc (suc (suc (suc (suc (suc (suc n)))))))))) ≡ true
ten_le n = ground arith

-- The archive's date check agrees with the purger's parser: a timestamp whose first ten bytes parse
-- is filed under just those bytes, and any other under today's date.
pub extract_date-parse_date :
    (s today : List ℕ)
    → ((tm : Tm) → parse_date (take 10 s) ≡ some tm → extract_date s today ≡ take 10 s)
      × (parse_date (take 10 s) ≡ none → extract_date s today ≡ today)
unfolding parse_date extract_date has_date_shape
extract_date-parse_date (c0 ∷ c1 ∷ c2 ∷ c3 ∷ c4 ∷ c5 ∷ c6 ∷ c7 ∷ c8 ∷ c9 ∷ s) today =
    (λ tm e. ground (arith, ten_le (length s)), λ e. ground (arith, ten_le (length s)))
extract_date-parse_date s today = (λ tm e. ground arith, λ e. ground arith)

-- What a date that parses looks like, byte by byte.
pub record IsDate (c0 c1 c2 c3 c4 c5 c6 c7 c8 c9 : ℕ) : Type 0 where
  pub d0 : is_digit c0 ≡ true
  pub d1 : is_digit c1 ≡ true
  pub d2 : is_digit c2 ≡ true
  pub d3 : is_digit c3 ≡ true
  pub dash4 : c4 ≡ b'-'
  pub d5 : is_digit c5 ≡ true
  pub d6 : is_digit c6 ≡ true
  pub dash7 : c7 ≡ b'-'
  pub d8 : is_digit c8 ≡ true
  pub d9 : is_digit c9 ≡ true

pub is_digit_range : (c : ℕ) → is_digit c ≡ true → (48 ≤ c) × (c ≤ 57)
unfolding is_digit
is_digit_range c h = ground arith

shape_of-IsDate :
    (c0 c1 c2 c3 c4 c5 c6 c7 c8 c9 : ℕ)
    → shape_of c0 c1 c2 c3 c4 c5 c6 c7 c8 c9 ≡ true
    → IsDate c0 c1 c2 c3 c4 c5 c6 c7 c8 c9
unfolding shape_of
shape_of-IsDate c0 c1 c2 c3 c4 c5 c6 c7 c8 c9 e = ground arith

-- The fields of a date that parses are its digits, and they lie in the accepted ranges.
pub record Reads (y m d : ℕ) (tm : Tm) : Type 0 where
  pub year : tm.tm_year + 1900 ≡ y
  pub month : tm.tm_mon + 1 ≡ m
  pub day : tm.tm_mday ≡ d
  pub year_range : (1970 ≤ y) × (y ≤ 9999)
  pub month_range : (1 ≤ m) × (m ≤ 12)
  pub day_range : (1 ≤ d) × (d ≤ 31)

in_range-Reads :
    (y m d : ℕ) (tm : Tm)
    → in_range y m d ≡ true
    → tm ≡ record { tm_year = y - 1900; tm_mon = m - 1; tm_mday = d }
    → Reads y m d tm
unfolding in_range
in_range-Reads y m d tm h e = ground arith

pub parse_date_inv :
    (c0 c1 c2 c3 c4 c5 c6 c7 c8 c9 : ℕ) (tm : Tm)
    → parse_date (c0 ∷ c1 ∷ c2 ∷ c3 ∷ c4 ∷ c5 ∷ c6 ∷ c7 ∷ c8 ∷ c9 ∷ []) ≡ some tm
    → IsDate c0 c1 c2 c3 c4 c5 c6 c7 c8 c9
      × Reads
          (stoi_from 0 (c0 ∷ c1 ∷ c2 ∷ c3 ∷ []))
          (stoi_from 0 (c5 ∷ c6 ∷ []))
          (stoi_from 0 (c8 ∷ c9 ∷ []))
          tm
unfolding parse_date has_date_shape
parse_date_inv c0 c1 c2 c3 c4 c5 c6 c7 c8 c9 tm e = (
  shape_of-IsDate c0 c1 c2 c3 c4 c5 c6 c7 c8 c9 (ground arith),
  in_range-Reads _ _ _ tm (ground arith) (ground arith),
)

-- A text that parses has ten bytes.
pub parse_date_size : (s : List ℕ) (tm : Tm) → parse_date s ≡ some tm → length s ≡ 10
unfolding parse_date
parse_date_size s tm e = ground arith

-- ===== src/Storage/Purger.antt =====
-- storage/src/retention_purger.cpp, `dir_size` and `purge_once`. The directory raw/ is the list of its
-- entries in the order of the iteration, and the cutoff is the text that `cutoff_date` returns.
use eye_d.Base.{
  ℕ, suc, ◌+◌, ◌≡◌, refl, ◌⊎◌, inl, inr, Bool, true, false, not, ◌&&◌, List, [], ◌∷◌, Option, none,
  some, arith, if◌then◌else◌, length, Option-cases, Bool-cases,
}
use eye_d.Base.Int.{ℤ, pos, is_positive}
use eye_d.Storage.Store.{Bytes}
use eye_d.Base.Texts.{lex_lt}
use eye_d.Storage.Dates.{Tm, parse_date}
use eye_d.Storage.Dates.Order.{Before, lex_lt-Before}

-- What the recursive iteration meets; the size is `none` where reading it fails.
pub record TreeEntry : Type 0 where
  pub is_directory : Bool
  pub file_size : Option ℕ

add_size : TreeEntry → ℕ → ℕ
add_size e total =
    if e.is_directory then total else elim e.file_size [ none ↦ total | some sz ↦ total + sz ]

dir_size_loop : List TreeEntry → ℕ → ℕ
unfolding add_size
dir_size_loop [] total = total
dir_size_loop (e ∷ es) total = dir_size_loop es (add_size e total)

pub dir_size : List TreeEntry → ℕ
unfolding dir_size_loop
dir_size es = dir_size_loop es 0

-- An entry of raw/. `removable` says whether `remove_all` succeeds on it.
pub record Entry : Type 0 where
  pub name : Bytes
  pub is_directory : Bool
  pub tree : List TreeEntry
  pub removable : Bool

pub record PurgeResult : Type 0 where
  pub dirs_removed : ℕ
  pub bytes_freed : ℕ

-- The loop: the result so far, and what is left of the directory, in reverse.
is_doomed : Bytes → Entry → Bool
is_doomed cutoff e =
    e.is_directory && elim (parse_date e.name) [ none ↦ false | some tm ↦ lex_lt e.name cutoff ]

count_removed : PurgeResult → Entry → PurgeResult
count_removed r e = record {
  dirs_removed = r.dirs_removed + 1;
  bytes_freed = r.bytes_freed + dir_size e.tree;
}

purge_loop : Bytes → List Entry → PurgeResult → PurgeResult × List Entry
unfolding is_doomed count_removed
purge_loop cutoff [] r = (r, [])
purge_loop cutoff (e ∷ es) r =
    let gone = purge_loop cutoff es (count_removed r e) in
    let kept = purge_loop cutoff es r in
    if is_doomed cutoff e && e.removable then gone else (kept.0, e ∷ kept.1)

pub purge_once : ℤ → Bytes → Bool → List Entry → PurgeResult × List Entry
unfolding purge_loop
purge_once raw_days cutoff raw_exists entries =
    let nothing : PurgeResult = record { dirs_removed = 0; bytes_freed = 0 } in
    if not (is_positive raw_days)
    then (nothing, entries)
    else if not raw_exists
    then (nothing, entries)
    else purge_loop cutoff entries nothing

-- A directory that is named for a day before the cutoff.
abbrev pub Expired : Tm → Entry → Type 0
Expired cut e =
    (e.is_directory ≡ true) × ((tm : Tm) × (parse_date e.name ≡ some tm) × Before tm cut)

-- `Purges cut before after gone`: of the entries before, just those in `gone` are not there after; each
-- of them is expired and can be removed, and each that stays is not expired or cannot be removed.
pub data Purges (cut : Tm) : List Entry → List Entry → List Entry → Type 0 where
  none_left : Purges cut [] [] []
  keeps :
      {e : Entry} {es kept gone : List Entry}
      → (¬ Expired cut e) ⊎ (e.removable ≡ false)
      → Purges cut es kept gone
      → Purges cut (e ∷ es) (e ∷ kept) gone
  drops :
      {e : Entry} {es kept gone : List Entry}
      → Expired cut e
      → e.removable ≡ true
      → Purges cut es kept gone
      → Purges cut (e ∷ es) kept (e ∷ gone)

abbrev pub total_size : List Entry → ℕ
total_size [] = 0
total_size (e ∷ es) = dir_size e.tree + total_size es

is_doomed-Expired :
    (cutoff : Bytes) (cut : Tm) (e : Entry)
    → parse_date cutoff ≡ some cut
    → ((is_doomed cutoff e ≡ true) → Expired cut e) × (Expired cut e → is_doomed cutoff e ≡ true)
unfolding is_doomed
is_doomed-Expired cutoff cut e p = elim (Option-cases (parse_date e.name)) [
  | inl q ↦ (λ h. ground arith, λ h. cc (q, h.1.1))
  | inr (tm, q) ↦ (
    λ h. (ground arith, (tm, q, (lex_lt-Before e.name cutoff tm cut q p).0 (ground arith))),
    λ h. let l = (lex_lt-Before e.name cutoff h.1.0 cut h.1.1 p).1 h.1.2 in ground arith,
  )
]

purge_loop-Purges :
    (cutoff : Bytes) (cut : Tm)
    → parse_date cutoff ≡ some cut
    → (es : List Entry) (r : PurgeResult)
    → (gone : List Entry) × Purges cut es (purge_loop cutoff es r).1 gone
      × ((purge_loop cutoff es r).0.dirs_removed ≡ r.dirs_removed + length gone)
      × ((purge_loop cutoff es r).0.bytes_freed ≡ r.bytes_freed + total_size gone)
unfolding purge_loop
purge_loop-Purges cutoff cut p [] r = ([], none_left, omega arith, omega arith)
purge_loop-Purges cutoff cut p (e ∷ es) r =
    let d = is_doomed-Expired cutoff cut e p in
    let (gone, gs, gd, gb) = purge_loop-Purges cutoff cut p es (count_removed r e) in
    let (gone', ks, kd, kb) = purge_loop-Purges cutoff cut p es r in
    elim (Bool-cases (is_doomed cutoff e && e.removable)) [
      | inl h ↦
          rw h (e ∷ gone, drops (d.0 (ground arith)) (ground arith) gs, omega arith, omega arith)
      | inr h ↦ rw h (gone', keeps (stays h d.1 (is_doomed cutoff e) refl) ks, kd, kb)
    ]
  where
    stays :
        (is_doomed cutoff e && e.removable) ≡ false
        → (Expired cut e → is_doomed cutoff e ≡ true)
        → (b : Bool) → is_doomed cutoff e ≡ b
        → (¬ Expired cut e) ⊎ (e.removable ≡ false)
    stays h d true q = inr (ground arith)
    stays h d false q = inl (λ x. cc (q, d x))

-- With the cutoff text a date: one run with a positive number of days removes exactly the expired
-- directories that can be removed, and its figures are their number and the sum of their sizes.
pub purge_once-Purges :
    (days : ℕ) (cutoff : Bytes) (cut : Tm) (entries : List Entry)
    → parse_date cutoff ≡ some cut
    → (gone : List Entry) × Purges cut entries
        (purge_once (pos (suc days)) cutoff true entries).1
        gone
      × ((purge_once (pos (suc days)) cutoff true entries).0
          ≡ record { dirs_removed = length gone; bytes_freed = total_size gone })
unfolding purge_once
purge_once-Purges days cutoff cut entries p =
    let (gone, purges, dirs, bytes) =
      purge_loop-Purges cutoff cut p entries (record { dirs_removed = 0; bytes_freed = 0 }) in
    (gone, purges, ground arith)

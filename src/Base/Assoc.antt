-- ===== src/Base/Assoc.antt =====
-- A map as an association list, for std::map and the file system. `insert` overwrites in place.
use mathlib.Core.Path.{◌≡◌, refl}
use mathlib.Core.Logic.{◌≢◌, ◌⊎◌, inl, inr}
use mathlib.Core.Option.{Option, none, some}
use mathlib.Core.List.{List, [], ◌∷◌}
use native.Mathlib.Omega.{arith}
use eye_d.Base.Tests.{if◌then◌else◌, Bool-cases}
use eye_d.Base.Eq.{Eq, same_self, same_ne}

module _ {ℓ κ} {K : Type ℓ} {V : Type κ} ⦃e : Eq K⦄ where
  unfoldable pub lookup : K → List (K × V) → Option V
  lookup k [] = none
  lookup k ((j, v) ∷ m) = if e.same j k then some v else lookup k m

  unfoldable pub insert : K → V → List (K × V) → List (K × V)
  insert k v [] = (k, v) ∷ []
  insert k v ((j, w) ∷ m) = if e.same j k then (k, v) ∷ m else (j, w) ∷ insert k v m

  unfoldable pub erase : K → List (K × V) → List (K × V)
  erase k [] = []
  erase k ((j, w) ∷ m) = if e.same j k then erase k m else (j, w) ∷ erase k m

  pub lookup-insert :
      (k j : K) (v : V) (m : List (K × V))
      → lookup j (insert k v m) ≡ (if e.same k j then some v else lookup j m)
  unfolding lookup insert
  lookup-insert k j v [] = refl
  lookup-insert k j v ((i, w) ∷ m) =
      ground (arith, e.same_iff k j, e.same_iff i k, e.same_iff i j, lookup-insert k j v m)

  pub lookup-erase :
      (k j : K) (m : List (K × V))
      → lookup j (erase k m) ≡ (if e.same k j then none else lookup j m)
  unfolding lookup erase
  lookup-erase k j [] = elim (Bool-cases (e.same k j)) [ inl h ↦ rw h | inr h ↦ rw h ]
  lookup-erase k j ((i, w) ∷ m) =
      ground (arith, e.same_iff k j, e.same_iff i k, e.same_iff i j, lookup-erase k j m)

module _ {ℓ κ} {K : Type ℓ} {V : Type κ} ⦃e : Eq K⦄ where
  pub lookup-insert_self : (k : K) (v : V) (m : List (K × V)) → lookup k (insert k v m) ≡ some v
  lookup-insert_self k v m = rw (lookup-insert k k v m, same_self k)

  pub lookup-insert_ne :
      (k j : K) (v : V) (m : List (K × V)) → k ≢ j → lookup j (insert k v m) ≡ lookup j m
  lookup-insert_ne k j v m h = rw (lookup-insert k j v m, same_ne k j h)

  pub lookup-erase_ne : (k j : K) (m : List (K × V)) → k ≢ j → lookup j (erase k m) ≡ lookup j m
  lookup-erase_ne k j m h = rw (lookup-erase k j m, same_ne k j h)

  -- Where a found entry comes from.
  pub lookup-insert_inv :
      (k j : K) (v x : V) (m : List (K × V))
      → lookup j (insert k v m) ≡ some x
      → ((k ≡ j) × (v ≡ x)) ⊎ ((k ≢ j) × (lookup j m ≡ some x))
  lookup-insert_inv k j v x m h = elim (Bool-cases (e.same k j)) [
    | inl s ↦ inl ((e.same_iff k j).0 s, ground (arith, lookup-insert k j v m))
    | inr s ↦ inr (λ q. cc (s, (e.same_iff k j).1 q), ground (arith, lookup-insert k j v m))
  ]

  pub lookup-erase_inv :
      (k j : K) (x : V) (m : List (K × V))
      → lookup j (erase k m) ≡ some x
      → (k ≢ j) × (lookup j m ≡ some x)
  lookup-erase_inv k j x m h = elim (Bool-cases (e.same k j)) [
    | inl s ↦ absurd (ground (arith, lookup-erase k j m))
    | inr s ↦ (λ q. cc (s, (e.same_iff k j).1 q), ground (arith, lookup-erase k j m))
  ]

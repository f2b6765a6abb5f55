-- ===== src/Capture/Ring/Sound.antt =====
-- What holds of the ring buffer (capture/src/ring_buffer.h) between any two accesses of its threads.
use eye_d.Base.{
  ℕ, suc, ◌<◌, ◌≡◌, refl, ◌≢◌, true, List, [], ◌∷◌, ◌++◌, some, arith, get_elem?, length,
}
use eye_d.Capture.Ring.{
  Ring, Producer, resting, granted, stored, Consumer, waiting, claimed, fetched, System, next,
  has_room, has_element, load_slot,
}
use eye_d.Capture.Ring.Segments.{next_lem, Holds, distance}

abbrev pub ProducerFits : {A : Type 0} → ℕ → Ring A → List A → Producer A → Type 0
ProducerFits size r inside resting = Unit {0}
ProducerFits size r inside (granted v) = suc (length inside) < size
ProducerFits size r inside (stored v) =
    (suc (length inside) < size) × (get_elem? r.slots r.head ≡ some v)

abbrev pub ConsumerFits : {A : Type 0} → List A → Consumer A → Type 0
ConsumerFits inside waiting = Unit {0}
ConsumerFits inside claimed = inside ≢ []
ConsumerFits {A} inside (fetched v) = (rest : List A) × (inside ≡ v ∷ rest)

-- The values inside the ring are those pushed and not yet popped, in their order, and fewer than the
-- ring has slots; and what each thread found still holds.
pub record IsSound {A : Type 0} (size : ℕ) (s : System A) (inside : List A) : Type 0 where
  pub head_in : s.ring.head < size
  pub tail_in : s.ring.tail < size
  pub slot_count : length s.ring.slots ≡ size
  pub holds : Holds size s.ring.slots s.ring.tail inside s.ring.head
  pub short : length inside < size
  pub ordered : s.pushed ≡ s.popped ++ inside
  pub producer_fits : ProducerFits size s.ring inside s.producer
  pub consumer_fits : ConsumerFits inside s.consumer

module _ {A : Type 0} (size : ℕ) (s : System A) (inside : List A) (ok : IsSound size s inside) where
  pub room_left : has_room size s.ring ≡ true → suc (length inside) < size
  unfolding has_room
  room_left e =
      let far =
        distance size s.ring.slots s.ring.tail inside s.ring.head ok.tail_in ok.holds ok.short in
      ground (arith, next_lem size s.ring.head ok.head_in, ok.short, far, ok.head_in, ok.tail_in)

  pub some_inside : has_element size s.ring ≡ true → inside ≢ []
  unfolding has_element Holds
  some_inside e nil = let h = rw nil at ok.holds in ground (arith, h)

  pub first_inside :
      (xs : List A)
      → inside ≡ xs
      → xs ≢ []
      → (v : A) → load_slot size s.ring ≡ some v
      → (rest : List A) × (inside ≡ v ∷ rest)
  unfolding load_slot Holds
  first_inside [] e ne v load = absurd (ne refl)
  first_inside (x ∷ xs) e ne v load = let h = rw e at ok.holds in (xs, cc (e, h.0, load))

  pub tail_moves :
      (v : A) (rest : List A)
      → inside ≡ v ∷ rest
      → Holds size s.ring.slots (next size s.ring.tail) rest s.ring.head
  unfolding Holds
  tail_moves v rest e = let h = rw e at ok.holds in h.1

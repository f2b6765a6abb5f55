-- ===== src/Capture/Ring/Calls.antt =====
-- The two calls of the ring buffer (capture/src/ring_buffer.h) with nothing in between.
use eye_d.Base.{
  ℕ, suc, ◌+◌, ◌<◌, ◌≡◌, ◌↔◌, ◌⊎◌, true, false, List, [], ◌∷◌, Option, none, some, arith, ◌==◌,
  if◌then◌else◌, get_elem?, length,
}
use eye_d.Capture.Ring.{System, next, has_room, has_element, load_slot, try_push, try_pop}
use eye_d.Capture.Ring.Segments.{next_lem, Holds, distance}
use eye_d.Capture.Ring.Sound.{IsSound, room_left}

abbrev pub oldest : {A : Type 0} → List A → Option A
oldest [] = none
oldest (x ∷ xs) = some x

popped_of :
    {A : Type 0} (size : ℕ) (slots : List A) (tail head : ℕ) (xs : List A)
    → Holds size slots tail xs head
    → (tail + length xs ≡ head) ⊎ (tail + length xs ≡ head + size)
    → tail < size
    → length xs < size
    → (if (if tail == head then false else true) then get_elem? slots tail else none) ≡ oldest xs
unfolding Holds
popped_of size slots tail head [] h far lt short = ground arith
popped_of size slots tail head (x ∷ xs) h far lt short = let h' = h.0 in ground arith

has_room_left :
    (size head tail n : ℕ)
    → (tail + n ≡ head) ⊎ (tail + n ≡ head + size)
    → head < size
    → tail < size
    → suc n < size
    → (if next size head == tail then false else true) ≡ true
has_room_left size head tail n far lt lt' h = ground (arith, next_lem size head lt)

-- In every state of the two threads in which the ring is sound: `try_push` finds room exactly when the
-- values inside leave more than one slot free, and `try_pop` answers with the oldest value inside, or
-- with none if there is none.
pub try_push-try_pop_lem :
    {A : Type 0} (size : ℕ) (s : System A) (inside : List A) (v : A)
    → IsSound size s inside
    → (((try_push size v s.ring).0 ≡ true) ↔ (suc (length inside) < size))
      × ((try_pop size s.ring).0 ≡ oldest inside)
unfolding try_push try_pop has_room has_element load_slot
try_push-try_pop_lem size s inside v ok =
    let far =
      distance size s.ring.slots s.ring.tail inside s.ring.head ok.tail_in ok.holds ok.short in
    let room =
      has_room_left size s.ring.head s.ring.tail (length inside) far ok.head_in ok.tail_in in
    let popped =
      popped_of size s.ring.slots s.ring.tail s.ring.head inside ok.holds far ok.tail_in ok.short in
    ((λ e. room_left size s inside ok (ground arith), λ h. ground (arith, room h)), ground arith)

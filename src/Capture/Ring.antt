-- ===== src/Capture/Ring.antt =====
-- capture/src/ring_buffer.h, the class RingBuffer: one producer and one consumer, each in the middle of
-- its call or between calls. The atomics are taken as sequentially consistent; N is a power of two,
-- so that `& MASK` is the remainder by N.
pub mod Segments
pub mod Sound
pub mod Calls
pub mod Fifo
use eye_d.Base.{
  ℕ, ◌+◌, ◌-◌, ◌%◌, Bool, true, false, List, [], ◌∷◌, ◌++◌, Option, none, some, ◌==◌, if◌then◌else◌,
  get_elem?, set,
}

pub record Ring (A : Type 0) : Type 0 where
  pub slots : List A
  pub head : ℕ
  pub tail : ℕ

-- Where `try_push` is: outside, behind the check for room, or behind the write to the slot.
pub data Producer (A : Type 0) : Type 0 where
  resting : Producer A
  granted stored : A → Producer A

-- Where `try_pop` is: outside, behind the check for an element, or behind the read of the slot.
pub data Consumer (A : Type 0) : Type 0 where
  waiting claimed : Consumer A
  fetched : A → Consumer A

-- `(h + 1) & MASK`
unfoldable pub next : ℕ → ℕ → ℕ
next size h = (h + 1) % size

module _ {A : Type 0} (size : ℕ) where
  unfoldable pub has_room : Ring A → Bool
  unfolding next
  has_room r = if next size r.head == r.tail then false else true

  pub store_slot : A → Ring A → Ring A
  store_slot v r = record r { slots = set r.slots r.head v }

  pub store_head : Ring A → Ring A
  unfolding next
  store_head r = record r { head = next size r.head }

  -- The call with nothing in between: the answer, and the ring.
  pub try_push : A → Ring A → Bool × Ring A
  unfolding has_room store_slot store_head
  try_push v r = if has_room r then (true, store_head (store_slot v r)) else (false, r)

  pub has_element : Ring A → Bool
  has_element r = if r.tail == r.head then false else true

  pub load_slot : Ring A → Option A
  load_slot r = get_elem? r.slots r.tail

  pub store_tail : Ring A → Ring A
  unfolding next
  store_tail r = record r { tail = next size r.tail }

  pub try_pop : Ring A → Option A × Ring A
  unfolding has_element load_slot store_tail
  try_pop r = if has_element r then (load_slot r, store_tail r) else (none, r)

-- Both threads over one ring, with what was pushed and popped so far.
pub record System (A : Type 0) : Type 0 where
  pub ring : Ring A
  pub producer : Producer A
  pub consumer : Consumer A
  pub pushed : List A
  pub popped : List A

-- ===== src/Capture/Ring/Fifo.antt =====
-- Every interleaving of the producer with the consumer hands the values on in their order
-- (capture/src/ring_buffer.h).
use eye_d.Base.{
  ℕ, suc, ◌<◌, ◌≡◌, refl, sym, ◌∙◌, ◌≢◌, true, List, [], ◌∷◌, ◌++◌, append_assoc, some, arith,
  get_elem?, length, length-append, ap, get_elem?-set, length-set,
}
use eye_d.Capture.Ring.{
  Ring, Producer, resting, granted, stored, Consumer, waiting, claimed, fetched, System, next,
  has_room, store_slot, store_head, has_element, load_slot, store_tail,
}
use eye_d.Capture.Ring.Segments.{next_lt, Holds, Holds-set, Holds-snoc}
use eye_d.Capture.Ring.Sound.{
  ProducerFits, ConsumerFits, IsSound, room_left, some_inside, first_inside, tail_moves,
}

-- One access of one of the threads to the shared memory, with what it does of its own around it.
pub data Step {A : Type 0} (size : ℕ) (s : System A) : System A → Type 0 where
  grants :
      (v : A)
      → s.producer ≡ resting
      → has_room size s.ring ≡ true
      → Step size s (record s { producer = granted v })
  stores :
      (v : A)
      → s.producer ≡ granted v
      → Step size s (record s { ring = store_slot size v s.ring; producer = stored v })
  publishes :
      (v : A)
      → s.producer ≡ stored v
      → Step size s (record s {
        ring = store_head size s.ring;
        producer = resting;
        pushed = s.pushed ++ (v ∷ []);
      })
  claims :
      s.consumer ≡ waiting
      → has_element size s.ring ≡ true
      → Step size s (record s { consumer = claimed })
  fetches :
      (v : A)
      → s.consumer ≡ claimed
      → load_slot size s.ring ≡ some v
      → Step size s (record s { consumer = fetched v })
  releases :
      (v : A)
      → s.consumer ≡ fetched v
      → Step size s (record s {
        ring = store_tail size s.ring;
        consumer = waiting;
        popped = s.popped ++ (v ∷ []);
      })

pub data Runs {A : Type 0} (size : ℕ) (s : System A) : System A → Type 0 where
  stays : Runs size s s
  then_steps : {t u : System A} → Runs size s t → Step size t u → Runs size s u

grown_fits :
    {A : Type 0} (inside : List A) (v : A) (c : Consumer A)
    → ConsumerFits inside c
    → ConsumerFits (inside ++ (v ∷ [])) c
grown_fits inside v waiting fits = tt
grown_fits [] v claimed fits = λ e. fits refl
grown_fits (x ∷ inside) v claimed fits = λ e. cc
grown_fits inside v (fetched w) (rest, e) = (rest ++ (v ∷ []), rw e)

shorter_fits :
    {A : Type 0} (size : ℕ) (r : Ring A) (inside rest : List A) (v : A) (t : ℕ) (p : Producer A)
    → inside ≡ v ∷ rest
    → ProducerFits size r inside p
    → ProducerFits size (record r { tail = t }) rest p
shorter_fits size r inside rest v t resting e fits = tt
shorter_fits size r inside rest v t (granted w) e fits =
    let e' = ap length e in omega (arith, e', fits)
shorter_fits size r inside rest v t (stored w) e fits =
    let e' = ap length e in (omega (arith, e', fits.0), fits.1)

module _ {A : Type 0} (size : ℕ) where
  -- Only the threads' own places change.
  thread_moves :
      (s : System A) (inside : List A) (p : Producer A) (c : Consumer A)
      → IsSound size s inside
      → ProducerFits size s.ring inside p
      → ConsumerFits inside c
      → IsSound size (record s { producer = p; consumer = c }) inside
  thread_moves s inside p c ok fits fits' = record {
    head_in = ok.head_in;
    tail_in = ok.tail_in;
    slot_count = ok.slot_count;
    holds = ok.holds;
    short = ok.short;
    ordered = ok.ordered;
    producer_fits = fits;
    consumer_fits = fits';
  }

  Step-IsSound :
      {s s' : System A} {inside : List A}
      → Step size s s'
      → IsSound size s inside
      → (inside' : List A) × IsSound size s' inside'
  unfolding store_slot store_head store_tail
  Step-IsSound {s} {s'} {inside} (grants v p room) ok = (
    inside,
    thread_moves s inside (granted v) s.consumer ok (room_left size s inside ok room)
        ok.consumer_fits,
  )
  Step-IsSound {s} {s'} {inside} (stores v p) ok =
      let fits : suc (length inside) < size = rw p at ok.producer_fits in
      (
        inside,
        record {
          head_in = ok.head_in;
          tail_in = ok.tail_in;
          slot_count = length-set s.ring.slots s.ring.head v ∙ ok.slot_count;
          holds =
              Holds-set size s.ring.slots s.ring.tail inside s.ring.head v ok.tail_in ok.holds
                ok.short;
          short = ok.short;
          ordered = ok.ordered;
          producer_fits = (
            fits,
            get_elem?-set s.ring.slots s.ring.head v (omega (arith, ok.slot_count, ok.head_in)),
          );
          consumer_fits = ok.consumer_fits;
        },
      )
  Step-IsSound {s} {s'} {inside} (publishes v p) ok =
      let fits : (suc (length inside) < size) × (get_elem? s.ring.slots s.ring.head ≡ some v) =
        rw p at ok.producer_fits in
      (
        inside ++ (v ∷ []),
        record {
          head_in = next_lt size s.ring.head ok.head_in;
          tail_in = ok.tail_in;
          slot_count = ok.slot_count;
          holds = Holds-snoc size s.ring.slots s.ring.tail inside s.ring.head v ok.holds fits.1;
          short = omega (arith, length-append inside (v ∷ []), fits.0);
          ordered = rw (ok.ordered) (append_assoc s.popped inside (v ∷ []));
          producer_fits = tt;
          consumer_fits = grown_fits inside v s.consumer ok.consumer_fits;
        },
      )
  Step-IsSound {s} {s'} {inside} (claims c here) ok = (
    inside,
    thread_moves s inside s.producer claimed ok ok.producer_fits
        (some_inside size s inside ok here),
  )
  Step-IsSound {s} {s'} {inside} (fetches v c load) ok =
      let fits : inside ≢ [] = rw c at ok.consumer_fits in
      (
        inside,
        thread_moves s inside s.producer (fetched v) ok ok.producer_fits
            (first_inside size s inside ok inside refl fits v load),
      )
  Step-IsSound {s} {s'} {inside} (releases v c) ok =
      let fits : (rest : List A) × (inside ≡ v ∷ rest) = rw c at ok.consumer_fits in
      let e' = ap length fits.1 in
      (
        fits.0,
        record {
          head_in = ok.head_in;
          tail_in = next_lt size s.ring.tail ok.tail_in;
          slot_count = ok.slot_count;
          holds = tail_moves size s inside ok v fits.0 fits.1;
          short = omega (arith, e', ok.short);
          ordered =
              ok.ordered
              ∙ ap (λ xs. s.popped ++ xs) fits.1
              ∙ sym (append_assoc s.popped (v ∷ []) fits.0);
          producer_fits =
              shorter_fits size s.ring inside fits.0 v (next size s.ring.tail) s.producer fits.1
                ok.producer_fits;
          consumer_fits = tt;
        },
      )

  Runs-IsSound :
      {s s' : System A} {inside : List A}
      → Runs size s s'
      → IsSound size s inside
      → (inside' : List A) × IsSound size s' inside'
  Runs-IsSound {s} {s'} {inside} stays ok = (inside, ok)
  Runs-IsSound {s} {s'} {inside} (then_steps run step) ok =
      let (mid, sound) = Runs-IsSound run ok in Step-IsSound step sound

  -- An empty ring before either thread has begun, whatever its slots hold.
  abbrev pub fresh : List A → System A
  fresh slots = record {
    ring = record { slots = slots; head = 0; tail = 0 };
    producer = resting;
    consumer = waiting;
    pushed = [];
    popped = [];
  }

  pub fresh-IsSound :
      (slots : List A) → length slots ≡ size → 0 < size → IsSound size (fresh slots) []
  unfolding Holds
  fresh-IsSound slots e h = record {
    head_in = h;
    tail_in = h;
    slot_count = e;
    holds = refl;
    short = h;
    ordered = refl;
    producer_fits = tt;
    consumer_fits = tt;
  }

  -- However the single accesses of the producer and of the consumer interleave from a fresh ring of
  -- `size` slots on: what was popped is a first part of what was pushed, in the same order, and fewer
  -- than `size` values are pushed and not yet popped. No value is lost, doubled or overtaken.
  pub Runs-fresh :
      (slots : List A) {s : System A}
      → length slots ≡ size
      → 0 < size
      → Runs size (fresh slots) s
      → (inside : List A) × (s.pushed ≡ s.popped ++ inside) × (length inside < size)
  Runs-fresh slots e h run =
      let (inside, ok) = Runs-IsSound run (fresh-IsSound slots e h) in
      (inside, ok.ordered, ok.short)

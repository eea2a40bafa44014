-- ===== src/Core/Ring/Threads.antt =====
-- include/sensorforge/core/spsc_ring.hpp: `try_push` and `try_pop` on two threads. Each turn is one
-- access to the memory that the threads share. The turns come in any order; the release stores and
-- acquire loads of the two indices are taken to make the accesses behind them visible in that order.
use mathlib.Core.Path.{subst}
use native.Mathlib.Decide.{dec_lt}
use av_hil_validation_platfo.Base.Lists.{length, get_or, set}
use av_hil_validation_platfo.Base.Tests.{==_self, ==_of_ne, ◌==◌, if◌then◌else◌}
use av_hil_validation_platfo.Core.Ring.{SpscRing, empty_ring, next}
use av_hil_validation_platfo.Core.Ring.Slots.{
  Queues, empty_ring-Queues, write_slot, publish_slot, drop_oldest, length_below, next-ne-tail,
  next-tail,
}
use av_hil_validation_platfo.Base.{
  ℕ, suc, ◌-◌, ◌≤◌, ◌<◌, ◌≡◌, ◌≢◌, refl, sym, ap, ◌∙◌, true, List, [], ◌∷◌, ◌++◌, append_assoc,
  arith,
}

-- Where the producer is in `try_push`: it has found a free slot, or has also written it.
pub data Producer {ℓ} (A : Type ℓ) : Type ℓ where
  producer_idle : Producer A
  slot_free : A → Producer A
  slot_written : A → Producer A

-- Where the consumer is in `try_pop`: it has seen that there is an item, or has also read it.
pub data Consumer {ℓ} (A : Type ℓ) : Type ℓ where
  consumer_idle : Consumer A
  item_there : Consumer A
  item_read : A → Consumer A

-- A producer that is idle starts on the item; another ignores it.
pub data Turn {ℓ} (A : Type ℓ) : Type ℓ where
  producer_turn : A → Turn A
  consumer_turn : Turn A

module _ {ℓ} {A : Type ℓ} (size : ℕ) (slot : A) where
  -- `pushed` are the items whose push returned true, `popped` those that pops gave out.
  pub record Threads : Type ℓ where
    pub ring : SpscRing size slot
    pub producer : Producer A
    pub consumer : Consumer A
    pub pushed : List A
    pub popped : List A

  abbrev pub no_calls : Threads
  no_calls = record {
    ring = empty_ring size slot;
    producer = producer_idle;
    consumer = consumer_idle;
    pushed = [];
    popped = [];
  }

  pub push_turn : Threads → A → Producer A → Threads
  push_turn s item producer_idle =
      if next size s.ring.head == s.ring.tail then s else record s { producer = slot_free item }
  push_turn s item (slot_free x) = record s {
    ring = record (s.ring) { buffer = set s.ring.buffer s.ring.head x };
    producer = slot_written x;
  }
  push_turn s item (slot_written x) = record s {
    ring = record (s.ring) { head = next size s.ring.head };
    producer = producer_idle;
    pushed = s.pushed ++ (x ∷ []);
  }

  pub pop_turn : Threads → Consumer A → Threads
  pop_turn s consumer_idle =
      if s.ring.tail == s.ring.head then s else record s { consumer = item_there }
  pop_turn s item_there = record s { consumer = item_read (get_or s.ring.buffer s.ring.tail slot) }
  pop_turn s (item_read x) = record s {
    ring = record (s.ring) { tail = next size s.ring.tail };
    consumer = consumer_idle;
    popped = s.popped ++ (x ∷ []);
  }

  pub take_turn : Threads → Turn A → Threads
  unfolding push_turn pop_turn
  take_turn s (producer_turn item) = push_turn s item s.producer
  take_turn s consumer_turn = pop_turn s s.consumer

  pub take_turns : Threads → List (Turn A) → Threads
  unfolding take_turn
  take_turns s [] = s
  take_turns s (t ∷ turns) = take_turns (take_turn s t) turns

  -- What each thread knows of the queue in the middle of a call.
  abbrev ProducerKnows : SpscRing size slot → List A → Producer A → Type ℓ
  ProducerKnows r q producer_idle = Unit
  ProducerKnows r q (slot_free x) = (suc (length q) < size) × Unit
  ProducerKnows r q (slot_written x) = (suc (length q) < size) × (get_or r.buffer r.head slot ≡ x)

  abbrev ConsumerKnows : List A → Consumer A → Type ℓ
  ConsumerKnows q consumer_idle = Unit
  ConsumerKnows q item_there = (x : A) × (rest : List A) × (q ≡ x ∷ rest)
  ConsumerKnows q (item_read x) = (rest : List A) × (q ≡ x ∷ rest)

  pub record InOrder (s : Threads) : Type ℓ where
    pub queue : List A
    pub queues : Queues size slot s.ring queue
    pub history : s.pushed ≡ s.popped ++ queue
    pub producer_knows : ProducerKnows s.ring queue s.producer
    pub consumer_knows : ConsumerKnows queue s.consumer

  ConsumerKnows-snoc :
      (q : List A) (x : A) (c : Consumer A) → ConsumerKnows q c → ConsumerKnows (q ++ (x ∷ [])) c
  ConsumerKnows-snoc q x consumer_idle k = tt
  ConsumerKnows-snoc q x item_there (y, rest, e) =
      (y, rest ++ (x ∷ []), ap (λ (l : List A). l ++ (x ∷ [])) e)
  ConsumerKnows-snoc q x (item_read y) (rest, e) =
      (rest ++ (x ∷ []), ap (λ (l : List A). l ++ (x ∷ [])) e)

  ProducerKnows-fewer :
      (r r' : SpscRing size slot) (x : A) (q : List A) (p : Producer A)
      → r'.buffer ≡ r.buffer
      → r'.head ≡ r.head
      → ProducerKnows r (x ∷ q) p
      → ProducerKnows r' q p
  ProducerKnows-fewer r r' x q producer_idle b e k = tt
  ProducerKnows-fewer r r' x q (slot_free y) b e k = (omega (arith, k.0), tt)
  ProducerKnows-fewer r r' x q (slot_written y) b e k = (omega (arith, k.0), rw (b, e) k.1)

  push_turn-InOrder :
      (s : Threads) (item : A) (p : Producer A) (h : InOrder s)
      → ProducerKnows s.ring h.queue p
      → InOrder (push_turn s item p)
  unfolding push_turn
  push_turn-InOrder s item producer_idle h k = elim (dec_lt (suc (length h.queue)) size) [
    | yes room ↦
        rw
          (==_of_ne (next size s.ring.head) s.ring.tail
            (next-ne-tail size slot s.ring h.queue h.queues room))
          (record {
            queue = h.queue;
            queues = h.queues;
            history = h.history;
            producer_knows = (room, tt);
            consumer_knows = h.consumer_knows;
          })
    | no full ↦
        rw
          ((let e : (next size s.ring.head == s.ring.tail) ≡ true =
              ap (λ (k : ℕ). k == s.ring.tail)
                (next-tail size slot s.ring h.queue h.queues (omega arith))
              ∙ ==_self s.ring.tail in
            e))
          h
  ]
  push_turn-InOrder s item (slot_free x) h k =
      let written = write_slot size slot s.ring h.queue x h.queues in
      record {
        queue = h.queue;
        queues = written.0;
        history = h.history;
        producer_knows = (k.0, written.1);
        consumer_knows = h.consumer_knows;
      }
  push_turn-InOrder s item (slot_written x) h k = record {
    queue = h.queue ++ (x ∷ []);
    queues = publish_slot size slot s.ring h.queue x h.queues k.0 k.1;
    history = ap (λ (l : List A). l ++ (x ∷ [])) h.history ∙ append_assoc s.popped h.queue (x ∷ []);
    producer_knows = tt;
    consumer_knows = ConsumerKnows-snoc h.queue x s.consumer h.consumer_knows;
  }

  first_item :
      (r : SpscRing size slot) (q : List A) (x : A) (rest : List A)
      → Queues size slot r q
      → q ≡ x ∷ rest
      → get_or r.buffer r.tail slot ≡ x
  first_item r q x rest h e =
      let g : Queues size slot r (x ∷ rest) = subst (Queues size slot r) e h in g.items.0

  pop_idle :
      (s : Threads) (q : List A)
      → Queues size slot s.ring q
      → s.pushed ≡ s.popped ++ q
      → ProducerKnows s.ring q s.producer
      → ConsumerKnows q s.consumer
      → InOrder (pop_turn s consumer_idle)
  unfolding pop_turn
  pop_idle s [] h e p c =
      let k = h.count in
      let a = h.head_inside in
      let b = h.tail_inside in
      let stop : (s.ring.tail == s.ring.head) ≡ true = ground (arith, k) in
      rw stop
        (record { queue = []; queues = h; history = e; producer_knows = p; consumer_knows = c })
  pop_idle s (x ∷ q) h e p c =
      let k = h.count in
      let apart : s.ring.tail ≢ s.ring.head = λ d. ground (arith, d, k) in
      rw (==_of_ne s.ring.tail s.ring.head apart) (record {
        queue = x ∷ q;
        queues = h;
        history = e;
        producer_knows = p;
        consumer_knows = (x, q, refl);
      })

  pop_turn-InOrder :
      (s : Threads) (c : Consumer A) (h : InOrder s)
      → ConsumerKnows h.queue c
      → InOrder (pop_turn s c)
  unfolding pop_turn
  pop_turn-InOrder s consumer_idle h k =
      pop_idle s h.queue h.queues h.history h.producer_knows h.consumer_knows
  pop_turn-InOrder s item_there h (x, rest, e) = record {
    queue = h.queue;
    queues = h.queues;
    history = h.history;
    producer_knows = h.producer_knows;
    consumer_knows =
        (rest, e ∙ ap (λ (y : A). y ∷ rest) (sym (first_item s.ring h.queue x rest h.queues e)));
  }
  pop_turn-InOrder s (item_read x) h (rest, e) = record {
    queue = rest;
    queues = drop_oldest size slot s.ring x rest (subst (Queues size slot s.ring) e h.queues);
    history =
        h.history
        ∙ ap (λ (l : List A). s.popped ++ l) e
        ∙ sym (append_assoc s.popped (x ∷ []) rest);
    producer_knows =
        ProducerKnows-fewer s.ring (record (s.ring) { tail = next size s.ring.tail }) x rest
          s.producer refl refl
          (subst (λ (l : List A). ProducerKnows s.ring l s.producer) e h.producer_knows);
    consumer_knows = tt;
  }

  take_turns-InOrder :
      (turns : List (Turn A)) (s : Threads) → InOrder s → InOrder (take_turns s turns)
  unfolding take_turns
  take_turns-InOrder [] s h = h
  take_turns-InOrder (producer_turn x ∷ turns) s h =
      take_turns-InOrder turns _ (push_turn-InOrder s x s.producer h h.producer_knows)
  take_turns-InOrder (consumer_turn ∷ turns) s h =
      take_turns-InOrder turns _ (pop_turn-InOrder s s.consumer h h.consumer_knows)

  -- On a new ring with any number of slots, whatever the order in which a producer's `try_push` calls
  -- and a consumer's `try_pop` calls take their turns: at every moment the items pushed are those
  -- popped, in order, followed by the queue that the ring holds, and a full ring holds at most
  -- `size - 1` items.
  pub take_turns_fifo :
      (turns : List (Turn A))
      → 0 < size
      → let s = take_turns no_calls turns in
        (q : List A) × Queues size slot s.ring q
        × (s.pushed ≡ s.popped ++ q)
        × (length q ≤ size - 1)
  take_turns_fifo turns some_slots =
      let h = take_turns-InOrder turns no_calls (record {
        queue = [];
        queues = empty_ring-Queues size slot some_slots;
        history = refl;
        producer_knows = tt;
        consumer_knows = tt;
      }) in
      (
        h.queue,
        h.queues,
        h.history,
        (let b = length_below size slot _ h.queue h.queues in omega (arith, b)),
      )

-- ===== src/Core/Ring/Slots.antt =====
-- Where the items of a queue stand in the slots of a ring.
use native.Mathlib.Decide.{dec_lt}
use native.Mathlib.Nat.{mod_self, mod-eq_of_lt}
use av_hil_validation_platfo.Base.Lists.{
  length, get_or, set, length-append, length-set, length-replicate, get_or-set_ne, get_or-set,
}
use av_hil_validation_platfo.Base.Tests.{leb, if◌then◌else◌}
use av_hil_validation_platfo.Core.Ring.{SpscRing, empty_ring, next}
use av_hil_validation_platfo.Base.{
  ℕ, suc, ◌+◌, ◌-◌, ◌%◌, ◌≤◌, ◌<◌, ◌≡◌, ◌≢◌, ◌⊎◌, inl, inr, refl, ap, ◌∙◌, List, [], ◌∷◌, ◌++◌,
  arith,
}

-- How many slots lie from `tail` up to `head`, around the end.
abbrev pub distance : ℕ → ℕ → ℕ → ℕ
distance size tail head = if leb tail head then head - tail else head + size - tail

-- One step around.
next_cases :
    (size i : ℕ)
    → i < size
    → ((i + 1 < size) × (next size i ≡ i + 1)) ⊎ ((i + 1 ≡ size) × (next size i ≡ 0))
next_cases size i h = elim (dec_lt (i + 1) size) [
  | yes p ↦ inl (p, mod-eq_of_lt p)
  | no p ↦ let e : i + 1 ≡ size = omega arith in inr (e, ap (λ (k : ℕ). k % size) e ∙ mod_self size)
]

module _ {ℓ} {A : Type ℓ} (size : ℕ) (slot : A) where
  -- The items of a queue stand in the slots from `i` on.
  abbrev pub Holds : List A → ℕ → List A → Type ℓ
  Holds buffer i [] = Unit
  Holds buffer i (x ∷ q) = (get_or buffer i slot ≡ x) × Holds buffer (next size i) q

  -- The ring stands for a queue.
  pub record Queues (r : SpscRing size slot) (q : List A) : Type ℓ where
    pub slots : length r.buffer ≡ size
    pub head_inside : r.head < size
    pub tail_inside : r.tail < size
    pub count : length q ≡ distance size r.tail r.head
    pub items : Holds r.buffer r.tail q

  pub length_below : (r : SpscRing size slot) (q : List A) → Queues r q → length q < size
  length_below r q h =
      let a = h.head_inside in let b = h.tail_inside in let c = h.count in ground (arith, c)

  Holds-set :
      (buffer : List A) (head i : ℕ) (q : List A) (x : A)
      → i < size
      → head < size
      → length q ≤ distance size i head
      → Holds buffer i q
      → Holds (set buffer head x) i q
  Holds-set buffer head i [] x a b c h = tt
  Holds-set buffer head i (y ∷ q) x a b c h =
      let apart : i ≢ head = λ e. ground (arith, e) in
      (
        get_or-set_ne buffer head i x slot apart ∙ h.0,
        elim (next_cases size i a) [
          | inl (p, e) ↦
              Holds-set buffer head (next size i) q x (omega (arith, e)) b (ground (arith, e)) h.1
          | inr (p, e) ↦
              Holds-set buffer head (next size i) q x (omega (arith, e)) b (ground (arith, e)) h.1
        ],
      )

  pub Holds-snoc :
      (buffer : List A) (head i : ℕ) (q : List A) (x : A)
      → get_or buffer head slot ≡ x
      → i < size
      → head < size
      → length q ≡ distance size i head
      → Holds buffer i q
      → Holds buffer i (q ++ (x ∷ []))
  Holds-snoc buffer head i [] x g a b c h = let e : i ≡ head = ground arith in (rw e g, tt)
  Holds-snoc buffer head i (y ∷ q) x g a b c h =
      let apart : i ≢ head = λ e. ground (arith, e) in
      (
        h.0,
        elim (next_cases size i a) [
          | inl (p, e) ↦
              Holds-snoc buffer head (next size i) q x g (omega (arith, e)) b (ground (arith, e))
                h.1
          | inr (p, e) ↦
              Holds-snoc buffer head (next size i) q x g (omega (arith, e)) b (ground (arith, e))
                h.1
        ],
      )

  -- The two halves of a push: the slot is written, and the index is moved past it.
  pub write_slot :
      (r : SpscRing size slot) (q : List A) (x : A)
      → Queues r q
      → Queues (record r { buffer = set r.buffer r.head x }) q
        × (get_or (set r.buffer r.head x) r.head slot ≡ x)
  write_slot r q x h =
      let slots = h.slots in
      let a = h.head_inside in
      let b = h.tail_inside in
      let c = h.count in
      (
        record {
          slots = length-set r.buffer r.head x ∙ slots;
          head_inside = a;
          tail_inside = b;
          count = c;
          items = Holds-set r.buffer r.head r.tail q x b a (omega (arith, c)) h.items;
        },
        get_or-set r.buffer r.head x slot (omega arith),
      )

  pub publish_slot :
      (r : SpscRing size slot) (q : List A) (x : A)
      → Queues r q
      → suc (length q) < size
      → get_or r.buffer r.head slot ≡ x
      → Queues (record r { head = next size r.head }) (q ++ (x ∷ []))
  publish_slot r q x h room g =
      let a = h.head_inside in
      let b = h.tail_inside in
      let c = h.count in
      record {
        slots = h.slots;
        head_inside = elim (next_cases size r.head a) [
          | inl (p, f) ↦ omega (arith, f)
          | inr (p, f) ↦ omega (arith, f)
        ];
        tail_inside = b;
        count = elim (next_cases size r.head a) [
          | inl (p, f) ↦ ground (arith, f, length-append q (x ∷ []))
          | inr (p, f) ↦ ground (arith, f, length-append q (x ∷ []))
        ];
        items = Holds-snoc r.buffer r.head r.tail q x g b a c h.items;
      }

  -- The test for a full ring.
  pub next-ne-tail :
      (r : SpscRing size slot) (q : List A)
      → Queues r q
      → suc (length q) < size
      → next size r.head ≢ r.tail
  next-ne-tail r q h room e =
      let a = h.head_inside in
      let b = h.tail_inside in
      let c = h.count in
      elim (next_cases size r.head a) [
        | inl (p, f) ↦ ground (arith, e, f, c)
        | inr (p, f) ↦ ground (arith, e, f, c)
      ]

  pub next-tail :
      (r : SpscRing size slot) (q : List A)
      → Queues r q
      → size ≤ suc (length q)
      → next size r.head ≡ r.tail
  next-tail r q h full =
      let a = h.head_inside in
      let b = h.tail_inside in
      let c = h.count in
      elim (next_cases size r.head a) [
        | inl (p, f) ↦ ground (arith, f, c)
        | inr (p, f) ↦ ground (arith, f, c)
      ]

  -- Dropping the oldest item, as `try_pop` and `force_push_overwrite` do.
  pub drop_oldest :
      (r : SpscRing size slot) (x : A) (q : List A)
      → Queues r (x ∷ q)
      → Queues (record r { tail = next size r.tail }) q
  drop_oldest r x q h =
      let a = h.head_inside in
      let b = h.tail_inside in
      let c = h.count in
      record {
        slots = h.slots;
        head_inside = a;
        tail_inside = elim (next_cases size r.tail b) [
          | inl (p, f) ↦ omega (arith, f)
          | inr (p, f) ↦ omega (arith, f)
        ];
        count = elim (next_cases size r.tail b) [
          | inl (p, f) ↦ ground (arith, f, c)
          | inr (p, f) ↦ ground (arith, f, c)
        ];
        items = h.items.1;
      }

  -- A new ring stands for the empty queue.
  pub empty_ring-Queues : 0 < size → Queues (empty_ring size slot) []
  empty_ring-Queues h = record {
    slots = length-replicate size slot;
    head_inside = h;
    tail_inside = h;
    count = refl;
    items = tt;
  }

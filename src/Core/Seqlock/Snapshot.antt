-- ===== src/Core/Seqlock/Snapshot.antt =====
-- include/sensorforge/core/seqlock.hpp: what `load` returns, whatever the order of the turns.
use mathlib.Core.Path.{subst}
use native.Mathlib.Decide.{dec_lt}
use av_hil_validation_platfo.Base.Lists.{
  length, get_or, set, length-append, length-set, get_or-set, get_or-set_ne, get_or-append_left,
  get_or-append_right,
}
use av_hil_validation_platfo.Base.Tests.{Bool-cases, ◌==◌}
use av_hil_validation_platfo.Core.Seqlock.{
  Writer, writer_idle, sequence_read, writing, Reader, reader_idle, reading, Turn, writer_turn,
  reader_turn, Seqlock, new_seqlock, store_turn, load_turn, take_turn, take_turns,
}
use av_hil_validation_platfo.Base.{
  ℕ, suc, ◌+◌, ◌%◌, ◌^◌, ◌≤◌, ◌<◌, ◌≡◌, ◌≢◌, ◌⊎◌, inl, inr, refl, ap, ap₂, sym, ◌∙◌, true, List, [],
  ◌∷◌, ◌++◌, arith,
}

abbrev pub Among : List ℕ → List (List ℕ) → Type 0
Among v [] = ⊥
Among v (x ∷ xs) = (v ≡ x) ⊎ Among v xs

abbrev pub AllAmong : List (List ℕ) → List (List ℕ) → Type 0
AllAmong [] vs = Unit
AllAmong (r ∷ rs) vs = Among r vs × AllAmong rs vs

-- Every value that is stored has the size of the type.
abbrev pub AllSized : ℕ → List Turn → Type 0
AllSized size [] = Unit
AllSized size (writer_turn v ∷ turns) = (length v ≡ size) × AllSized size turns
AllSized size (reader_turn ∷ turns) = AllSized size turns

AllAmong-publish : (v : List ℕ) (rs vs : List (List ℕ)) → AllAmong rs vs → AllAmong rs (v ∷ vs)
AllAmong-publish v [] vs h = h
AllAmong-publish v (r ∷ rs) vs h = (inr h.0, AllAmong-publish v rs vs h.1)

AllAmong-snoc :
    (r : List ℕ) (rs vs : List (List ℕ))
    → AllAmong rs vs
    → Among r vs
    → AllAmong (rs ++ (r ∷ [])) vs
AllAmong-snoc r [] vs h k = (k, _)
AllAmong-snoc r (x ∷ rs) vs h k = (h.0, AllAmong-snoc r rs vs h.1 k)

-- Lists of one length that agree at every index are equal.
pub same_bytes :
    (a b : List ℕ)
    → length a ≡ length b
    → ((j : ℕ) → j < length a → get_or a j 0 ≡ get_or b j 0)
    → a ≡ b
same_bytes [] [] e h = refl
same_bytes [] (y ∷ b) e h = absurd (omega (arith, e))
same_bytes (x ∷ a) [] e h = absurd (omega (arith, e))
same_bytes (x ∷ a) (y ∷ b) e h =
    ap₂ ◌∷◌ (h 0 (omega arith))
      (same_bytes a b (omega (arith, e)) (λ j p. h (suc j) (omega (arith, p))))

-- The first bytes of two lists agree.
abbrev pub Agree : ℕ → List ℕ → List ℕ → Type 0
Agree n a b = (j : ℕ) → j < n → get_or a j 0 ≡ get_or b j 0

module _ (size : ℕ) where
  -- What the writer knows: between two stores the bytes are the value last published, and the sequence
  -- number is even.
  abbrev WriterKnows : ℕ → List ℕ → List (List ℕ) → Writer → Type 0
  WriterKnows seq bytes published writer_idle = (seq % 2 ≡ 0) × Among bytes published
  WriterKnows seq bytes published (sequence_read v q) =
      (seq % 2 ≡ 0) × Among bytes published × (q ≡ seq) × (length v ≡ size)
  WriterKnows seq bytes published (writing v q i) =
      (q % 2 ≡ 0) × (seq ≡ q + 1) × (length v ≡ size) × (i ≤ size) × Agree i bytes v

  abbrev ReaderKnows : ℕ → List ℕ → Reader → Type 0
  ReaderKnows seq bytes reader_idle = Unit
  ReaderKnows seq bytes (reading seq0 out) =
      (seq0 % 2 ≡ 0)
      × (seq0 ≤ seq)
      × (length out ≤ size)
      × (seq0 ≡ seq → Agree (length out) out bytes)

  -- `n` turns can come before the sequence number wraps.
  record IsConsistent (n : ℕ) (s : Seqlock) : Type 0 where
    pub sized : length s.bytes ≡ size
    pub room : s.seq + n + 2 < 2 ^ 64
    pub writer_knows : WriterKnows s.seq s.bytes s.published s.writer
    pub reader_knows : ReaderKnows s.seq s.bytes s.reader
    pub untorn : AllAmong s.returned s.published

  even_odd : (a b : ℕ) → a % 2 ≡ 0 → b % 2 ≡ 0 → a ≡ b + 1 → ⊥
  even_odd a b p q e = omega (arith, p, q, e)

  -- A reader that saw an earlier sequence number knows no less when the number grows.
  reader_later :
      (seq seq' : ℕ) (bytes bytes' : List ℕ) (r : Reader)
      → ReaderKnows seq bytes r
      → seq < seq'
      → ReaderKnows seq' bytes' r
  reader_later seq seq' bytes bytes' reader_idle k h = k
  reader_later seq seq' bytes bytes' (reading seq0 out) k h =
      (k.0, omega (arith, k.1, h), k.2, λ e. absurd (omega (arith, k.1, h, e)))

  -- While the sequence number is odd a write changes nothing that a reader relies on.
  reader_odd :
      (seq q : ℕ) (bytes bytes' : List ℕ) (r : Reader)
      → ReaderKnows seq bytes r
      → q % 2 ≡ 0
      → seq ≡ q + 1
      → ReaderKnows seq bytes' r
  reader_odd seq q bytes bytes' reader_idle k h e = k
  reader_odd seq q bytes bytes' (reading seq0 out) k h e =
      (k.0, k.1, k.2, λ f. absurd (omega (arith, k.0, h, e, f)))

  store_turn-IsConsistent :
      (n : ℕ) (s : Seqlock) (desired : List ℕ) (w : Writer)
      → length desired ≡ size
      → IsConsistent (suc n) s
      → WriterKnows s.seq s.bytes s.published w
      → IsConsistent n (store_turn size s desired w)
  unfolding store_turn
  store_turn-IsConsistent n s desired writer_idle fit h k = record {
    sized = h.sized;
    room = omega (arith, h.room);
    writer_knows = (k.0, k.1, refl, fit);
    reader_knows = h.reader_knows;
    untorn = h.untorn;
  }
  store_turn-IsConsistent n s desired (sequence_read v q) fit h k =
      let up : (q + 1) % 2 ^ 64 ≡ s.seq + 1 = omega (arith, h.room, k.2) in
      rw (up) (record {
        sized = h.sized;
        room = omega (arith, h.room);
        writer_knows = (
          omega (arith, k.0, k.2),
          omega (arith, k.2),
          k.3,
          omega arith,
          λ j p. absurd (omega (arith, p)),
        );
        reader_knows =
            reader_later s.seq (s.seq + 1) s.bytes s.bytes s.reader h.reader_knows (omega arith);
        untorn = h.untorn;
      })
  store_turn-IsConsistent n s desired (writing v q i) fit h k = elim (Bool-cases (i == size)) [
    | inl e ↦
        let at_end : i ≡ size = ground (arith, e) in
        let up : (q + 2) % 2 ^ 64 ≡ s.seq + 1 = omega (arith, h.room, k.1) in
        let whole : s.bytes ≡ v =
          same_bytes s.bytes v (h.sized ∙ sym k.2)
            (λ j p. k.4 j (omega (arith, p, h.sized, at_end))) in
        rw (e, up)
          (record {
            sized = h.sized;
            room = omega (arith, h.room);
            writer_knows = (omega (arith, k.0, k.1), inl whole);
            reader_knows =
                reader_later s.seq (s.seq + 1) s.bytes s.bytes s.reader h.reader_knows
                  (omega arith);
            untorn = AllAmong-publish v s.returned s.published h.untorn;
          })
    | inr e ↦
        let more : i ≢ size = ground (arith, e) in
        let bytes = set s.bytes i (get_or v i 0) in
        rw (e) (record {
          sized = length-set s.bytes i (get_or v i 0) ∙ h.sized;
          room = omega (arith, h.room);
          writer_knows = (
            k.0,
            k.1,
            k.2,
            omega (arith, k.3, more),
            λ j p. elim (dec_lt j i) [
              | yes b ↦ get_or-set_ne s.bytes i j (get_or v i 0) 0 (omega (arith, b)) ∙ k.4 j b
              | no b ↦
                  let here : j ≡ i = omega (arith, b, p) in
                  ap (λ (x : ℕ). get_or bytes x 0) here
                  ∙ get_or-set s.bytes i (get_or v i 0) 0 (omega (arith, h.sized, k.3, more))
                  ∙ ap (λ (x : ℕ). get_or v x 0) (sym here)
            ],
          );
          reader_knows = reader_odd s.seq q s.bytes bytes s.reader h.reader_knows k.0 k.1;
          untorn = h.untorn;
        })
  ]

  -- At an even sequence number the bytes are a published value.
  stable :
      (seq : ℕ) (bytes : List ℕ) (published : List (List ℕ)) (w : Writer)
      → WriterKnows seq bytes published w
      → seq % 2 ≡ 0
      → Among bytes published
  stable seq bytes published writer_idle k h = k.1
  stable seq bytes published (sequence_read v q) k h = k.1
  stable seq bytes published (writing v q i) k h = absurd (omega (arith, k.0, k.1, h))

  pub one_more :
      (out bytes : List ℕ)
      → Agree (length out) out bytes
      → let out' = out ++ (get_or bytes (length out) 0 ∷ []) in Agree (length out') out' bytes
  one_more out bytes a j p = elim (dec_lt j (length out)) [
    | yes b ↦ get_or-append_left out (get_or bytes (length out) 0 ∷ []) j 0 b ∙ a j b
    | no b ↦
        let here : j ≡ length out =
          omega (arith, b, p, length-append out (get_or bytes (length out) 0 ∷ [])) in
        get_or-append_right out (get_or bytes (length out) 0 ∷ []) 0 j 0 (omega (arith, here))
        ∙ ap (λ (x : ℕ). get_or bytes x 0) (sym here)
  ]

  load_turn-IsConsistent :
      (n : ℕ) (s : Seqlock) (r : Reader)
      → IsConsistent (suc n) s
      → ReaderKnows s.seq s.bytes r
      → IsConsistent n (load_turn size s r)
  unfolding load_turn
  load_turn-IsConsistent n s reader_idle h k = elim (Bool-cases (s.seq % 2 == 1)) [
    | inl e ↦ rw (e) (record {
      sized = h.sized;
      room = omega (arith, h.room);
      writer_knows = h.writer_knows;
      reader_knows = h.reader_knows;
      untorn = h.untorn;
    })
    | inr e ↦ rw (e) (record {
      sized = h.sized;
      room = omega (arith, h.room);
      writer_knows = h.writer_knows;
      reader_knows =
          (ground (arith, e), omega arith, omega arith, λ p j q. absurd (omega (arith, q)));
      untorn = h.untorn;
    })
  ]
  load_turn-IsConsistent n s (reading seq0 out) h k =
      let complete : length out == size ≡ true → seq0 == s.seq ≡ true → out ≡ s.bytes =
        λ e f. same_bytes out s.bytes (ground (arith, e, h.sized)) (k.3 (ground (arith, f))) in
      let even : seq0 == s.seq ≡ true → s.seq % 2 ≡ 0 = λ f. ground (arith, k.0, f) in
      elim (Bool-cases (length out == size)) [
        | inl e ↦ elim (Bool-cases (seq0 == s.seq)) [
          | inl f ↦
              rw (e, f)
                (record {
                  sized = h.sized;
                  room = omega (arith, h.room);
                  writer_knows = h.writer_knows;
                  reader_knows = _;
                  untorn = AllAmong-snoc out s.returned s.published h.untorn (
                      subst (λ (l : List ℕ). Among l s.published) (sym (complete e f))
                        (stable s.seq s.bytes s.published s.writer h.writer_knows (even f)));
                })
          | inr f ↦
              rw (e, f)
                (record {
                  sized = h.sized;
                  room = omega (arith, h.room);
                  writer_knows = h.writer_knows;
                  reader_knows = _;
                  untorn = h.untorn;
                })
        ]
        | inr e ↦ rw (e) (record {
          sized = h.sized;
          room = omega (arith, h.room);
          writer_knows = h.writer_knows;
          reader_knows = (
            k.0,
            k.1,
            (let d : length out ≢ size = ground (arith, e) in
                omega (arith, d, k.2, length-append out (get_or s.bytes (length out) 0 ∷ []))),
            λ same. one_more out s.bytes (k.3 same),
          );
          untorn = h.untorn;
        })
      ]

  take_turns-IsConsistent :
      (turns : List Turn) (s : Seqlock)
      → AllSized size turns
      → IsConsistent (length turns) s
      → IsConsistent 0 (take_turns size s turns)
  unfolding take_turns take_turn
  take_turns-IsConsistent [] s fit h = h
  take_turns-IsConsistent (writer_turn v ∷ turns) s fit h =
      take_turns-IsConsistent turns (store_turn size s v s.writer) fit.1
        (store_turn-IsConsistent (length turns) s v s.writer fit.0 h h.writer_knows)
  take_turns-IsConsistent (reader_turn ∷ turns) s fit h =
      take_turns-IsConsistent turns (load_turn size s s.reader) fit
        (load_turn-IsConsistent (length turns) s s.reader h h.reader_knows)

  -- From a new seqlock, under any interleaving of the accesses of one writer and one reader, of which
  -- there are fewer than would let the sequence number wrap: every value that `load` returns is, byte
  -- for byte, the initial one or one whose `store` was complete. No torn value is returned.
  pub take_turns_untorn :
      (initial : List ℕ) (turns : List Turn)
      → length initial ≡ size
      → AllSized size turns
      → length turns + 2 < 2 ^ 64
      → let s = take_turns size (new_seqlock initial) turns in AllAmong s.returned s.published
  take_turns_untorn initial turns sized fit room =
      (take_turns-IsConsistent turns (new_seqlock initial) fit (record {
        sized = sized;
        room = omega (arith, room);
        writer_knows = (omega arith, inl refl);
        reader_knows = _;
        untorn = _;
      })).untorn

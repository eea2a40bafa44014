-- ===== src/Core/Seqlock/Alone.antt =====
-- include/sensorforge/core/seqlock.hpp: a `load` that no `store` disturbs.
use av_hil_validation_platfo.Base.Lists.{length, get_or, replicate, length-append}
use av_hil_validation_platfo.Base.Tests.{==_self, ==_of_ne}
use av_hil_validation_platfo.Core.Seqlock.{
  reader_idle, reading, reader_turn, Seqlock, load_turn, take_turn, take_turns,
}
use av_hil_validation_platfo.Core.Seqlock.Snapshot.{Agree, same_bytes, one_more}
use av_hil_validation_platfo.Base.{
  ℕ, zero, suc, ◌+◌, ◌%◌, ◌≡◌, ◌≢◌, refl, ap, sym, ◌∙◌, List, [], ◌∷◌, ◌++◌, arith,
}

module _ (size : ℕ) where
  next_turn :
      (s : Seqlock) (out : List ℕ)
      → length out ≢ size
      → load_turn size (record s { reader = reading s.seq out }) (reading s.seq out)
        ≡ record s { reader = reading s.seq (out ++ (get_or s.bytes (length out) 0 ∷ [])) }
  unfolding load_turn
  next_turn s out h = rw (==_of_ne (length out) size h) refl

  last_turn :
      (s : Seqlock) (out : List ℕ)
      → length out ≡ size
      → load_turn size (record s { reader = reading s.seq out }) (reading s.seq out)
        ≡ record s { reader = reader_idle; returned = s.returned ++ (out ∷ []) }
  unfolding load_turn
  last_turn s out h = rw (h, ==_self size, ==_self s.seq) refl

  first_turn :
      (s : Seqlock)
      → s.seq % 2 ≡ 0
      → load_turn size s reader_idle ≡ record s { reader = reading s.seq [] }
  unfolding load_turn
  first_turn s even = rw (==_of_ne (s.seq % 2) 1 (omega (arith, even))) refl

  reading_lem :
      (k : ℕ) (s : Seqlock) (out : List ℕ)
      → length out + k ≡ size
      → length s.bytes ≡ size
      → Agree (length out) out s.bytes
      → (take_turns size
          (record s { reader = reading s.seq out })
          (replicate (suc k) reader_turn)).returned
        ≡ s.returned ++ (s.bytes ∷ [])
  unfolding take_turns take_turn
  reading_lem zero s out e sized a =
      let full : length out ≡ size = omega (arith, e) in
      ap (λ (x : Seqlock). x.returned) (last_turn s out full)
      ∙ ap (λ (l : List ℕ). s.returned ++ (l ∷ [])) (same_bytes out s.bytes (full ∙ sym sized) a)
  reading_lem (suc k) s out e sized a =
      ap (λ (x : Seqlock). (take_turns size x (replicate (suc k) reader_turn)).returned)
        (next_turn s out (omega (arith, e)))
      ∙ reading_lem k s (out ++ (get_or s.bytes (length out) 0 ∷ []))
          (omega (arith, e, length-append out (get_or s.bytes (length out) 0 ∷ []))) sized
          (one_more size out s.bytes a)

  -- A `load` that starts at an even sequence number and is not disturbed returns the bytes that are
  -- there, in one turn for each byte and two more.
  pub load_alone :
      (s : Seqlock)
      → length s.bytes ≡ size
      → s.seq % 2 ≡ 0
      → s.reader ≡ reader_idle
      → (take_turns size s (replicate (suc (suc size)) reader_turn)).returned
        ≡ s.returned ++ (s.bytes ∷ [])
  unfolding take_turns take_turn
  load_alone s sized even idle =
      ap (λ (x : Seqlock). (take_turns size x (replicate (suc size) reader_turn)).returned)
        (ap (load_turn size s) idle ∙ first_turn s even)
      ∙ reading_lem size s [] (omega arith) sized (λ j p. absurd (omega (arith, p)))

-- ===== src/Core/Seqlock.antt =====
-- include/sensorforge/core/seqlock.hpp: `store` and `load` on two threads. Each turn is one access to the
-- memory that the threads share. The turns come in any order; the fences are taken to keep the accesses
-- of each thread in the order of the source.
pub mod Snapshot
pub mod Alone
use av_hil_validation_platfo.Base.Lists.{length, get_or, set}
use av_hil_validation_platfo.Base.Tests.{◌==◌, if◌then◌else◌}
use av_hil_validation_platfo.Base.{ℕ, ◌+◌, ◌%◌, ◌^◌, List, [], ◌∷◌, ◌++◌}

-- Where the writer is in `store`: it has read the sequence number, or has made it odd and written the
-- bytes before an index.
pub data Writer : Type 0 where
  writer_idle : Writer
  sequence_read : List ℕ → ℕ → Writer
  writing : List ℕ → ℕ → ℕ → Writer

-- Where the reader is in `load`: between two attempts, or with the bytes that it has read since it saw an
-- even sequence number.
pub data Reader : Type 0 where
  reader_idle : Reader
  reading : ℕ → List ℕ → Reader

-- A writer that is idle starts on the value; another ignores it.
pub data Turn : Type 0 where
  writer_turn : List ℕ → Turn
  reader_turn : Turn

-- A value is the bytes of its representation. `published` are the initial value and those whose `store`
-- is complete, the last one first, and `returned` what calls of `load` gave.
pub record Seqlock : Type 0 where
  pub seq : ℕ
  pub bytes : List ℕ
  pub writer : Writer
  pub reader : Reader
  pub published : List (List ℕ)
  pub returned : List (List ℕ)

abbrev pub new_seqlock : List ℕ → Seqlock
new_seqlock initial = record {
  seq = 0;
  bytes = initial;
  writer = writer_idle;
  reader = reader_idle;
  published = initial ∷ [];
  returned = [];
}

-- `size` is `sizeof(T)`.
module _ (size : ℕ) where
  pub store_turn : Seqlock → List ℕ → Writer → Seqlock
  store_turn s desired writer_idle = record s { writer = sequence_read desired s.seq }
  store_turn s desired (sequence_read v seq) = record s {
    seq = (seq + 1) % 2 ^ 64;
    writer = writing v seq 0;
  }
  store_turn s desired (writing v seq i) =
      if i == size
      then record s { seq = (seq + 2) % 2 ^ 64; writer = writer_idle; published = v ∷ s.published }
      else record s { bytes = set s.bytes i (get_or v i 0); writer = writing v seq (i + 1) }

  pub load_turn : Seqlock → Reader → Seqlock
  load_turn s reader_idle = if s.seq % 2 == 1 then s else record s { reader = reading s.seq [] }
  load_turn s (reading seq0 out) =
      if length out == size
      then (if seq0 == s.seq
          then record s { reader = reader_idle; returned = s.returned ++ (out ∷ []) }
          else record s { reader = reader_idle })
      else record s { reader = reading seq0 (out ++ (get_or s.bytes (length out) 0 ∷ [])) }

  pub take_turn : Seqlock → Turn → Seqlock
  unfolding store_turn load_turn
  take_turn s (writer_turn desired) = store_turn s desired s.writer
  take_turn s reader_turn = load_turn s s.reader

  pub take_turns : Seqlock → List Turn → Seqlock
  unfolding take_turn
  take_turns s [] = s
  take_turns s (t ∷ turns) = take_turns (take_turn s t) turns

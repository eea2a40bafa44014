-- ===== src/Core/Tests.antt =====
-- Runs of the ring and of the policies at four slots.
use av_hil_validation_platfo.Base.Lists.{length, replicate}
use av_hil_validation_platfo.Base.Tests.{ltb, if◌then◌else◌}
use av_hil_validation_platfo.Core.Ring.{empty_ring}
use av_hil_validation_platfo.Core.Ring.Slots.{Queues, empty_ring-Queues}
use av_hil_validation_platfo.Core.Ring.Trace.{
  Call, push, pop, overwrite, ask_size, answers, promised, answers-empty_ring,
}
use av_hil_validation_platfo.Core.Ring.Threads.{
  Turn, producer_turn, consumer_turn, no_calls, take_turns, take_turns_fifo,
}
use av_hil_validation_platfo.Core.Backpressure.{enqueued, never_drop_block, apply_policy}
use av_hil_validation_platfo.Core.Backpressure.Lossless.{Comes, result_when_full, apply_policy_lem}
use av_hil_validation_platfo.Core.Seqlock
use av_hil_validation_platfo.Core.Seqlock.Snapshot.{AllAmong, take_turns_untorn}
use av_hil_validation_platfo.Core.Seqlock.Alone.{load_alone}
use av_hil_validation_platfo.Base.{ℕ, ◌-◌, ◌^◌, ◌≤◌, ◌≡◌, refl, some, List, [], ◌∷◌, ◌++◌, arith}

abbrev calls : List (Call ℕ)
calls =
    push 1
    ∷ push 2
    ∷ ask_size
    ∷ push 3
    ∷ push 4
    ∷ overwrite 5
    ∷ pop
    ∷ ask_size
    ∷ pop
    ∷ pop
    ∷ pop
    ∷ []

answers-empty_ring_example : answers 4 0 (empty_ring 4 0) calls ≡ promised 4 0 [] calls
answers-empty_ring_example = answers-empty_ring 4 0 (2 ^ 62 - 1) (omega arith) (omega arith) calls

abbrev turns : List (Turn ℕ)
turns =
    producer_turn 1
    ∷ consumer_turn
    ∷ producer_turn 1
    ∷ producer_turn 1
    ∷ consumer_turn
    ∷ producer_turn 2
    ∷ consumer_turn
    ∷ producer_turn 2
    ∷ consumer_turn
    ∷ []

take_turns_fifo_example :
    let s = take_turns 4 0 (no_calls 4 0) turns in
    (q : List ℕ) × Queues 4 0 s.ring q × (s.pushed ≡ s.popped ++ q) × (length q ≤ 3)
take_turns_fifo_example = take_turns_fifo 4 0 turns (omega arith)

apply_policy_lem_example :
    Comes {A = ℕ} 2 0 [] 7
      (if ltb (length {A = ℕ} []) 1
        then some enqueued
        else result_when_full never_drop_block (1 ∷ []))
      (apply_policy 2 0 (empty_ring 2 0) 7 never_drop_block (1 ∷ []))
apply_policy_lem_example =
    apply_policy_lem 2 0 never_drop_block (1 ∷ []) (empty_ring 2 0) [] 7 (omega arith)
      (empty_ring-Queues 2 0 (omega arith))

-- A value of two bytes is stored while it is read, and read again.
abbrev accesses : List Seqlock.Turn
accesses =
    Seqlock.reader_turn
    ∷ Seqlock.reader_turn
    ∷ Seqlock.writer_turn (3 ∷ 4 ∷ [])
    ∷ Seqlock.writer_turn (3 ∷ 4 ∷ [])
    ∷ Seqlock.writer_turn (3 ∷ 4 ∷ [])
    ∷ Seqlock.reader_turn
    ∷ Seqlock.writer_turn (3 ∷ 4 ∷ [])
    ∷ Seqlock.reader_turn
    ∷ Seqlock.writer_turn (3 ∷ 4 ∷ [])
    ∷ Seqlock.reader_turn
    ∷ Seqlock.reader_turn
    ∷ Seqlock.reader_turn
    ∷ Seqlock.reader_turn
    ∷ []

take_turns_untorn_example :
    let s = Seqlock.take_turns 2 (Seqlock.new_seqlock (1 ∷ 2 ∷ [])) accesses in
    AllAmong s.returned s.published
take_turns_untorn_example =
    take_turns_untorn 2 (1 ∷ 2 ∷ []) accesses refl (refl, (refl, (refl, (refl, (refl, _)))))
      (omega arith)

load_alone_example :
    (Seqlock.take_turns 2
      (Seqlock.new_seqlock (1 ∷ 2 ∷ []))
      (replicate 4 Seqlock.reader_turn)).returned
    ≡ (1 ∷ 2 ∷ []) ∷ []
load_alone_example = load_alone 2 (Seqlock.new_seqlock (1 ∷ 2 ∷ [])) refl (omega arith) refl

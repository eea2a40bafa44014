-- ===== src/Transport/Tcp/Pieces.antt =====
-- src/network_interfaces/tcp_interface.cpp: payloads that arrive in pieces, between any turns of the thread.
pub mod Owes
pub mod Turn
use mathlib.Core.Path.{subst}
use native.Mathlib.Decide.{dec_lt}
use av_hil_validation_platfo.Base.Lists.{length, take, drop, length-append}
use av_hil_validation_platfo.Base.Tests.{◌==◌, ==_self, ==_of_ne, if◌then◌else◌}
use av_hil_validation_platfo.Transport.Stream.{
  ReadState, filled, waiting, read_loop, read_bytes, resume, woken, number_of,
}
use av_hil_validation_platfo.Transport.Tcp.{
  Host, memory_of, htonl, TcpInterface, Place, at_test, at_read, in_read, ended, lost, wanted,
  receive, after_read, continue, turn, turn_at, turns, write,
}
use av_hil_validation_platfo.Transport.Tcp.Link.{
  wire, wires, AllFit, htonl-memory_of, read_loop-append, write_all, write_all-sent,
}
use av_hil_validation_platfo.Base.{
  ℕ, zero, suc, ◌+◌, ◌-◌, ◌*◌, ◌%◌, ◌^◌, ◌<◌, ◌≤◌, ◌≡◌, ◌≢◌, ◌⊎◌, inl, inr, refl, ap, ap₂, sym, ◌∙◌,
  Bool, true, false, List, [], ◌∷◌, ◌++◌, append-nil, append_assoc, arith,
}
use av_hil_validation_platfo.Transport.Tcp.Pieces.Owes.{at_start, st}
use av_hil_validation_platfo.Transport.Tcp.Pieces.Turn.{
  Inv, arrive-Inv, less, turn-Inv, turns-Inv, Inv-weak, Inv-done,
}

-- The socket has bytes, or the receiving thread has a turn.
pub data Event : Type 0 where
  arrives : List ℕ → Event
  thread_turn : Event

abbrev pub run : Host → List Event → TcpInterface → TcpInterface
run host [] i = i
run host (arrives bytes ∷ events) i = run host events (receive bytes i)
run host (thread_turn ∷ events) i = run host events (turn host i)

abbrev pub arrived : List Event → List ℕ
arrived [] = []
arrived (arrives bytes ∷ events) = bytes ++ arrived events
arrived (thread_turn ∷ events) = arrived events

-- What a call of `receive` gets: at least a byte, and no more than its buffer holds.
abbrev pub ArePieces : List Event → Type 0
ArePieces [] = Unit
ArePieces (arrives bytes ∷ events) =
    (0 < length bytes) × ((length bytes ≤ 65536) × ArePieces events)
ArePieces (thread_turn ∷ events) = ArePieces events

less_below : (f : List ℕ) (c : ℕ) (base : TcpInterface) → less base f c ≤ c
less_below [] c base = omega arith
less_below (x ∷ f) c base = omega arith

run-Inv :
    (base : TcpInterface) (host : Host) (all : List (List ℕ)) (c : ℕ) (events : List Event)
    (i : TcpInterface)
    → ArePieces events
    → Inv base host all (arrived events) c i
    → Inv base host all [] c (run host events i)
run-Inv base host all c [] i pieces h = h
run-Inv base host all c (arrives bytes ∷ events) i (some_bytes, (few, pieces)) h =
    run-Inv base host all c events (receive bytes i) pieces
      (arrive-Inv base host all bytes (arrived events) c i some_bytes h)
run-Inv base host all c (thread_turn ∷ events) i pieces h =
    run-Inv base host all c events (turn host i) pieces (
      Inv-weak base host all (arrived events) (less base (arrived events) c) c _
        (less_below (arrived events) c base) (turn-Inv base host all (arrived events) c i h))

-- Payloads of fewer than 2^32 bytes that one interface writes, and that arrive at another one on a host
-- with the same order of bytes, whose thread is at the test of its loop with nothing received, in
-- pieces of 1 to 65536 bytes each, with any turns of the thread before, between and after them: eight more
-- turns for each payload, and all are delivered, in order and unchanged.
pub run-write_all :
    (host : Host) (payloads : List (List ℕ)) (events : List Event) (sender receiver : TcpInterface)
    → AllFit payloads
    → sender.sent ≡ []
    → arrived events ≡ (write_all host payloads sender).sent
    → ArePieces events
    → receiver.place ≡ at_test
    → receiver.state ≡ 0
    → receiver.stream.finish ≡ false
    → receiver.stream.queue ≡ []
    → (turns host (8 * length payloads) (run host events receiver)).delivered
      ≡ receiver.delivered ++ payloads
run-write_all host payloads events sender receiver fit fresh whole pieces p s f q =
    let all = receiver.delivered ++ payloads in
    let start : Inv receiver host all (arrived events) (8 * length payloads) receiver = record {
      p = at_test;
      q = [];
      n = receiver.stream.notified;
      state = 0;
      size = receiver.payload_size;
      d = receiver.delivered;
      s = wires host payloads;
      ps = payloads;
      k = 4 * length payloads;
      is = here;
      owes = at_start payloads fit;
      reading = sym (
          whole
          ∙ write_all-sent host payloads sender
          ∙ ap (λ (l : List ℕ). l ++ wires host payloads) fresh);
      total = refl;
      within = omega arith;
    } in
    let ran = run-Inv receiver host all (8 * length payloads) events receiver pieces start in
    let after = turns-Inv receiver host all (8 * length payloads) (8 * length payloads) _ ran in
    Inv-done receiver host all _ (
      Inv-weak receiver host all [] (8 * length payloads - 8 * length payloads) 0 _ (omega arith)
        after)
  where
    here : receiver ≡ record receiver {
      stream = record { finish = false; queue = []; notified = receiver.stream.notified };
      place = at_test;
      state = 0;
    }
    here = λ t. record receiver {
      stream = record { finish = f t; queue = q t; notified = receiver.stream.notified };
      place = p t;
      state = s t;
    }

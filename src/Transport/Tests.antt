-- ===== src/Transport/Tests.antt =====
-- Runs of the reassembler.
use av_hil_validation_platfo.Transport.Reassembler.{new_reassembler, feed}
use av_hil_validation_platfo.Transport.Reassembler.Sound.{
  IsSound, feed-IsSound, new_reassembler-IsSound,
}
use av_hil_validation_platfo.Transport.Reassembler.RoundTrip.{
  IsBetween, stream, payloads, feed-stream,
}
use av_hil_validation_platfo.Transport.Stream.{new_stream}
use av_hil_validation_platfo.Transport.Tcp
use av_hil_validation_platfo.Transport.Tcp.{
  TcpInterface, little_endian, big_endian, at_test, at_read, in_read, close, receive, turns,
}
use av_hil_validation_platfo.Transport.Tcp.Pieces
use av_hil_validation_platfo.Transport.Tcp.Shutdown.{close_misses_reader}
use mathlib.Core.List.{Perm}
use av_hil_validation_platfo.Transport.IoUring.{
  opened, contents, write, acquire_send_slot, complete_receive, arm_recv, request_ends,
}
use av_hil_validation_platfo.Transport.IoUring.Pool.{
  Event, written, received, ended, handle_all, handle_all_sent,
}
use av_hil_validation_platfo.Transport.Udp.Arrivals
use av_hil_validation_platfo.Base.{true, false, ℕ, ◌≡◌, refl, List, [], ◌∷◌, ◌++◌, map, arith}

-- A length over the limit, after a broken start.
abbrev hostile : List ℕ
hostile = 0xAB ∷ 7 ∷ 0xAB ∷ 0xAB ∷ 0xCD ∷ 255 ∷ 255 ∷ 255 ∷ 255 ∷ 1 ∷ 2 ∷ []

feed-IsSound_example : IsSound (feed (new_reassembler 16) hostile)
feed-IsSound_example = feed-IsSound (new_reassembler 16) hostile (new_reassembler-IsSound 16)

resyncs_counted : (feed (new_reassembler 16) hostile).resyncs ≡ 2
unfolding feed
resyncs_counted = refl

abbrev frames : List (List ℕ × List ℕ)
frames = (9 ∷ [], 1 ∷ 2 ∷ 3 ∷ []) ∷ ([], []) ∷ (0xCD ∷ [], 0xAB ∷ 0xCD ∷ []) ∷ []

feed-stream_example :
    let r' = feed (new_reassembler 16) (stream frames) in
    (r'.delivered ≡ payloads frames) × (r'.resyncs ≡ 0) × IsBetween r'
feed-stream_example =
    feed-stream frames (new_reassembler 16) (record { at_start = refl; array = refl }) (omega arith)
      (
        ((λ e. absurd (omega (arith, e))), tt),
        omega arith,
        (tt, omega arith, (((λ e. absurd (omega (arith, e))), tt), omega arith, tt)),
      )

abbrev idle : TcpInterface
idle = record {
  ready = true;
  interface_failed = false;
  shutting_down = false;
  stream = new_stream;
  place = at_test;
  state = 0;
  payload_size = 0;
  delivered = [];
  sent = [];
}

-- The frame of a payload in four pieces, with turns of the thread that wait between them.
abbrev piece_events : List Pieces.Event
piece_events =
    Pieces.thread_turn
    ∷ Pieces.thread_turn
    ∷ Pieces.arrives (0xAB ∷ [])
    ∷ Pieces.thread_turn
    ∷ Pieces.arrives (0xCD ∷ 2 ∷ 0 ∷ [])
    ∷ Pieces.thread_turn
    ∷ Pieces.thread_turn
    ∷ Pieces.thread_turn
    ∷ Pieces.thread_turn
    ∷ Pieces.arrives (0 ∷ 0 ∷ 1 ∷ [])
    ∷ Pieces.thread_turn
    ∷ Pieces.arrives (2 ∷ [])
    ∷ []

run-write_all_example :
    (turns little_endian 8 (Pieces.run little_endian piece_events idle)).delivered
    ≡ (1 ∷ 2 ∷ []) ∷ []
unfolding Tcp.write
run-write_all_example =
    Pieces.run-write_all little_endian ((1 ∷ 2 ∷ []) ∷ []) piece_events idle idle (omega arith, tt)
      refl refl
      (
        omega arith,
        (
          omega arith,
          (
            omega arith,
            (omega arith, (omega arith, (omega arith, (omega arith, (omega arith, tt))))),
          ),
        ),
      )
      refl refl refl refl

close_misses_reader_example :
    (turns big_endian 1000 (close (record idle { place = at_read }))).place ≡ in_read [] 1
close_misses_reader_example =
    close_misses_reader big_endian (record idle { place = at_read }) 999 refl (omega arith)

-- The second datagram is sent before the first, and a third is in flight.
abbrev pool_events : List Event
pool_events =
    written (1 ∷ 2 ∷ [])
    ∷ written (3 ∷ [])
    ∷ received true 3 (7 ∷ [])
    ∷ ended true 1
    ∷ ended true 0
    ∷ written (9 ∷ [])
    ∷ []

handle_all_sent_example :
    let i = handle_all pool_events opened in
    Perm
      ((i.sent ++ i.unsent) ++ map (contents i.send_slots) i.in_flight)
      ((1 ∷ 2 ∷ []) ∷ (3 ∷ []) ∷ (9 ∷ []) ∷ [])
unfolding write acquire_send_slot complete_receive arm_recv request_ends
handle_all_sent_example = handle_all_sent pool_events (
  omega arith,
  (tt, (omega arith, (((λ e. absurd (omega (arith, e))), tt), (omega arith, (tt, tt))))),
)

-- The third datagram comes after an error with bytes and is lost.
abbrev udp_events : List Arrivals.Event
udp_events =
    Arrivals.arrived false (1 ∷ [])
    ∷ Arrivals.arrived true []
    ∷ Arrivals.written false (5 ∷ [])
    ∷ Arrivals.arrived true (2 ∷ [])
    ∷ Arrivals.arrived false (3 ∷ [])
    ∷ []

handle_all_lem_example :
    let u = Arrivals.handle_all udp_events Arrivals.set_up in
    (u.delivered ≡ (1 ∷ []) ∷ []) × ((u.receiving ≡ false) × (u.sent ≡ (5 ∷ []) ∷ []))
handle_all_lem_example = Arrivals.handle_all_lem udp_events

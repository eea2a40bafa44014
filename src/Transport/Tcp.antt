-- ===== src/Transport/Tcp.antt =====
-- src/network_interfaces/tcp_interface.cpp: the bytes that `write` sends, and the thread that receives.
pub mod Shutdown
pub mod Link
pub mod Pieces
use av_hil_validation_platfo.Base.Lists.{length}
use av_hil_validation_platfo.Base.Memory.{byte_at}
use av_hil_validation_platfo.Base.Tests.{◌==◌, if◌then◌else◌}
use av_hil_validation_platfo.Transport.Stream
use av_hil_validation_platfo.Transport.Stream.{
  QueueStream, ReadState, filled, waiting, failed, undefined, new_stream, push_bytes, read_bytes,
  resume, number_of,
}
use av_hil_validation_platfo.Base.{
  ℕ, ◌+◌, ◌*◌, ◌%◌, ◌^◌, Bool, true, false, not, ◌&&◌, List, [], ◌∷◌, ◌++◌,
}

-- The order of the bytes of a number in the memory of a host.
pub data Host : Type 0 where
  little_endian big_endian : Host

abbrev pub memory_of : Host → ℕ → List ℕ
memory_of little_endian v = byte_at v 0 ∷ byte_at v 1 ∷ byte_at v 2 ∷ byte_at v 3 ∷ []
memory_of big_endian v = byte_at v 3 ∷ byte_at v 2 ∷ byte_at v 1 ∷ byte_at v 0 ∷ []

-- `htonl`
abbrev pub htonl : Host → ℕ → ℕ
htonl little_endian v =
    byte_at v 0 * 2 ^ 24 + byte_at v 1 * 2 ^ 16 + byte_at v 2 * 2 ^ 8 + byte_at v 3
htonl big_endian v = v

-- Where the receiving thread is: at the test of its loop, past it, inside a read that waits, or gone.
-- It is lost once a read was undefined.
pub data Place : Type 0 where
  at_test at_read : Place
  in_read : List ℕ → ℕ → Place
  ended lost : Place

-- `delivered` are the calls of `recv_cb_`, and `sent` the bytes given to the socket.
pub record TcpInterface : Type 0 where
  pub ready : Bool
  pub interface_failed : Bool
  pub shutting_down : Bool
  pub stream : QueueStream
  pub place : Place
  pub state : ℕ
  pub payload_size : ℕ
  pub delivered : List (List ℕ)
  pub sent : List ℕ

abbrev pub is_ready : TcpInterface → Bool
is_ready i = i.ready && not i.interface_failed

-- `open`, up to the start of the threads. The connection is made later.
abbrev pub start : TcpInterface → TcpInterface
start i = record i {
  shutting_down = false;
  interface_failed = false;
  ready = false;
  stream = Stream.reset i.stream;
  place = at_test;
  state = 0;
  payload_size = 0;
}

-- `close`, up to the joining of the threads.
abbrev pub close : TcpInterface → TcpInterface
close i = record i { shutting_down = true; stream = Stream.shutdown i.stream }

-- The handler of the socket, for bytes that came in.
abbrev pub receive : List ℕ → TcpInterface → TcpInterface
receive l i = record i { stream = push_bytes i.stream l }

-- The handler of the socket, for an error.
abbrev pub receive_error : TcpInterface → TcpInterface
receive_error i = record i { interface_failed = true }

-- The size is cut to 32 bits. `accepts` tells whether the socket takes the bytes.
unfoldable pub write : Host → Bool → List ℕ → TcpInterface → TcpInterface
write host accepts l i =
    if accepts
    then record i { sent = i.sent ++ (0xAB ∷ 0xCD ∷ (memory_of host (length l % 2 ^ 32) ++ l)) }
    else record i { interface_failed = true }

-- The bytes that the read of a state asks for.
abbrev pub wanted : TcpInterface → ℕ
wanted i =
    if i.state == 0
    then 1
    else if i.state == 1
    then 1
    else if i.state == 2
    then 4
    else if i.state == 3
    then i.payload_size
    else 0

-- The rest of a round, once the read of its state gave the bytes.
unfoldable pub after_read : Host → List ℕ → TcpInterface → TcpInterface
after_read host bytes i =
    if i.state == 0
    then (if number_of 8 bytes == 0xAB then record i { state = 1 } else i)
    else if i.state == 1
    then (if number_of 8 bytes == 0xCD
        then record i { state = 2 }
        else if number_of 8 bytes == 0xAB
        then record i { state = 1 }
        else record i { state = 0 })
    else if i.state == 2
    then record i { payload_size = htonl host (number_of 32 bytes); state = 3 }
    else if i.state == 3
    then record i { delivered = i.delivered ++ (bytes ∷ []); state = 0 }
    else record i { state = 0 }

-- A read that gave nothing.
abbrev pub after_failure : TcpInterface → TcpInterface
after_failure i = record i { state = 0 }

unfoldable pub continue : Host → ReadState × QueueStream → TcpInterface → TcpInterface
unfolding after_read
continue host (filled bytes, s) i = record (after_read host bytes (record i { stream = s })) {
  place = at_test;
}
continue host (waiting bytes missing, s) i = record i { stream = s; place = in_read bytes missing }
continue host (failed, s) i = record (after_failure (record i { stream = s })) { place = at_test }
continue host (undefined, s) i = record i { stream = s; place = lost }

abbrev pub turn_at : Host → Place → TcpInterface → TcpInterface
turn_at host at_test i =
    if i.stream.finish then record i { place = ended } else record i { place = at_read }
turn_at host at_read i = continue host (read_bytes i.stream (wanted i)) i
turn_at host (in_read bytes missing) i = continue host (resume i.stream bytes missing) i
turn_at host ended i = i
turn_at host lost i = i

-- A turn of the receiving thread: the test of its loop, a read up to its end or its wait, or what it
-- does once it is woken up. `rclcpp::ok()` is taken to hold.
unfoldable pub turn : Host → TcpInterface → TcpInterface
unfolding continue
turn host i = turn_at host i.place i

unfoldable pub turns : Host → ℕ → TcpInterface → TcpInterface
unfolding turn
turns host ℕ.zero i = i
turns host (ℕ.suc n) i = turns host n (turn host i)

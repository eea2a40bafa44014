-- ===== src/Transport/Stream.antt =====
-- include/network_bridge/thrift_stream_queue.hpp and thrift_stream.hpp: the queue of bytes between the
-- thread of the socket and the thread that reads.
pub mod Numbers
use av_hil_validation_platfo.Base.Lists.{length, take, drop}
use av_hil_validation_platfo.Base.Memory.{byte_at}
use av_hil_validation_platfo.Base.Tests.{ltb, ◌==◌, if◌then◌else◌}
use av_hil_validation_platfo.Base.Text.{Text}
use av_hil_validation_platfo.Base.{
  ℕ, zero, suc, ◌*◌, ◌%◌, ◌^◌, bit_or, Bool, true, false, List, [], ◌∷◌, ◌++◌,
}

-- `notified`: a thread that waits at the condition was woken up.
pub record QueueStream : Type 0 where
  pub finish : Bool
  pub queue : List ℕ
  pub notified : Bool

abbrev pub new_stream : QueueStream
new_stream = record { finish = false; queue = []; notified = false }

abbrev pub available : QueueStream → ℕ
available s = length s.queue

-- Only a thread that already waits is woken up.
abbrev pub reset : QueueStream → QueueStream
reset s = record s { queue = []; finish = false }

abbrev pub shutdown : QueueStream → QueueStream
shutdown s = record s { finish = true; notified = true; queue = [] }

abbrev pub push_bytes : QueueStream → List ℕ → QueueStream
push_bytes s l = record s { queue = s.queue ++ l; notified = true }

abbrev pub push_uint8 : QueueStream → ℕ → QueueStream
push_uint8 s v = push_bytes s (v ∷ [])

abbrev pub push_uint16 : QueueStream → ℕ → QueueStream
push_uint16 s v = push_bytes s (byte_at v 1 ∷ byte_at v 0 ∷ [])

abbrev pub push_uint32 : QueueStream → ℕ → QueueStream
push_uint32 s v = push_bytes s (byte_at v 3 ∷ byte_at v 2 ∷ byte_at v 1 ∷ byte_at v 0 ∷ [])

abbrev pub push_uint64 : QueueStream → ℕ → QueueStream
push_uint64 s v = push_bytes s (
    byte_at v 7
    ∷ byte_at v 6
    ∷ byte_at v 5
    ∷ byte_at v 4
    ∷ byte_at v 3
    ∷ byte_at v 2
    ∷ byte_at v 1
    ∷ byte_at v 0
    ∷ [])

abbrev pub push_string : QueueStream → Text → QueueStream
push_string s v = push_bytes s v

-- Where `readBytes` stands: done, or waiting with some bytes, the lock given back, for so many more.
-- It is undefined once it was woken up to an empty queue.
pub data ReadState : Type 0 where
  filled : List ℕ → ReadState
  waiting : List ℕ → ℕ → ReadState
  failed undefined : ReadState

-- The loop with the lock, for the bytes that are missing.
unfoldable pub read_loop : ℕ → List ℕ → List ℕ → ReadState × List ℕ
read_loop zero bytes queue = (filled bytes, queue)
read_loop (suc n) bytes [] = (waiting bytes (suc n), [])
read_loop (suc n) bytes (x ∷ queue) = read_loop n (bytes ++ (x ∷ [])) queue

-- From its start; a stream that is shut down is not noticed here.
unfoldable pub read_bytes : QueueStream → ℕ → ReadState × QueueStream
unfolding read_loop
read_bytes s len =
    let (state, queue) = read_loop len [] s.queue in
    (state, record s { queue = queue; notified = false })

abbrev pub woken : ℕ → List ℕ → List ℕ → ReadState × List ℕ
woken missing bytes [] = (undefined, [])
woken missing bytes (x ∷ queue) = read_loop missing bytes (x ∷ queue)

-- From its wait, if it was woken up.
unfoldable pub resume : QueueStream → List ℕ → ℕ → ReadState × QueueStream
resume s bytes missing =
    if s.notified
    then (if s.finish
        then (failed, record s { notified = false })
        else (let (state, queue) = woken missing bytes s.queue in
            (state, record s { queue = queue; notified = false })))
    else (waiting bytes missing, s)

-- `bytes` is the vector before the call.
pub read_some : QueueStream → List ℕ → ℕ → ℕ × List ℕ × QueueStream
read_some s bytes maxlen =
    let len = if maxlen == 0 then length s.queue else maxlen in
    let got = take len s.queue in (length got, bytes ++ got, record s { queue = drop len s.queue })

-- `(b << 8) | x` in `w` bits
abbrev pub shift_in : ℕ → ℕ → ℕ → ℕ
shift_in w b x = bit_or (b * 2 ^ 8 % 2 ^ w) x

abbrev pub shift_all : ℕ → ℕ → List ℕ → ℕ
shift_all w b [] = b
shift_all w b (x ∷ bytes) = shift_all w (shift_in w b x) bytes

-- What `readUint8` to `readUint64` make of the bytes that they read.
abbrev pub number_of : ℕ → List ℕ → ℕ
number_of w [] = 0
number_of w (x ∷ bytes) = shift_all w x bytes

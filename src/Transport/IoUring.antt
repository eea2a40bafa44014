-- ===== src/Transport/IoUring.antt =====
-- src/network_interfaces/iouring_interface.cpp: the pool of send buffers, and what the kernel sends and gives
-- back. The sockets, the ring and the kernel are left out; the kernel reads a buffer when it sends it.
pub mod Pool
use av_hil_validation_platfo.Base.Lists.{length, get_or, set, take, drop, replicate}
use av_hil_validation_platfo.Base.Tests.{ltb, if◌then◌else◌}
use av_hil_validation_platfo.Base.{
  ℕ, zero, suc, Option, none, some, ◌+◌, ◌%◌, ◌^◌, Bool, true, false, not, ◌&&◌, ◌||◌, List, [],
  ◌∷◌, ◌++◌,
}

abbrev pub num_recv_buffers : ℕ
num_recv_buffers = 64

abbrev pub num_send_buffers : ℕ
num_send_buffers = 64

abbrev pub buffer_size : ℕ
buffer_size = 65536

-- `in_flight` are the send requests that the kernel has not done yet, each a slot and the length of its
-- `iov`; `sent` are the datagrams it has sent and `unsent` those of requests that failed, `delivered` the calls of `recv_cb_`, and `armed` the
-- receive slots that are armed again.
pub record IoUringInterface : Type 0 where
  pub ready : Bool
  pub interface_failed : Bool
  pub running : Bool
  pub next_send_slot : ℕ
  pub send_slots : List (List ℕ)
  pub in_flight : List (ℕ × ℕ)
  pub sent : List (List ℕ)
  pub unsent : List (List ℕ)
  pub delivered : List (List ℕ)
  pub armed : List ℕ

-- `open`, when the sockets and the ring are made.
abbrev pub opened : IoUringInterface
opened = record {
  ready = true;
  interface_failed = false;
  running = true;
  next_send_slot = 0;
  send_slots = replicate num_send_buffers (replicate buffer_size 0);
  in_flight = [];
  sent = [];
  unsent = [];
  delivered = [];
  armed = [];
}

-- `memcpy` to the front of a buffer.
abbrev pub copy_into : List ℕ → List ℕ → List ℕ
copy_into bytes buf = bytes ++ drop (length bytes) buf

unfoldable pub acquire_send_slot : IoUringInterface → ℕ × IoUringInterface
acquire_send_slot i = (
  i.next_send_slot % num_send_buffers,
  record i { next_send_slot = (i.next_send_slot + 1) % 2 ^ 32 },
)

-- The flag tells whether the submission queue has room.
unfoldable pub write : Bool → List ℕ → IoUringInterface → IoUringInterface
write has_room bytes i =
    if not i.ready || i.interface_failed
    then i
    else if ltb buffer_size (length bytes)
    then i
    else let (slot, i) = acquire_send_slot i in
      let i : IoUringInterface = record i {
        send_slots = set i.send_slots slot (copy_into bytes (get_or i.send_slots slot []));
      } in
      if not has_room
      then i
      else record i { in_flight = i.in_flight ++ ((slot, length bytes) ∷ []) }

-- The flag tells whether the submission queue has room.
unfoldable pub arm_recv : Bool → ℕ → IoUringInterface → IoUringInterface
arm_recv has_room slot i = if not has_room then i else record i { armed = i.armed ++ (slot ∷ []) }

-- A turn of `completion_loop`: the kernel gives back a receive slot with its bytes, none of them for
-- an error or an empty datagram.
unfoldable pub complete_receive : Bool → ℕ → List ℕ → IoUringInterface → IoUringInterface
complete_receive has_room slot [] i = arm_recv has_room slot i
complete_receive has_room slot (b ∷ bytes) i =
    arm_recv has_room slot (record i { delivered = i.delivered ++ ((b ∷ bytes) ∷ []) })

-- What a request sends is in its slot when the kernel does it.
abbrev pub contents : List (List ℕ) → ℕ × ℕ → List ℕ
contents slots (slot, len) = take len (get_or slots slot [])

-- The request at a position, and the others.
abbrev pub take_out : ℕ → List (ℕ × ℕ) → Option ((ℕ × ℕ) × List (ℕ × ℕ))
take_out n [] = none
take_out zero (r ∷ rest) = some (r, rest)
take_out (suc n) (r ∷ rest) = elim (take_out n rest) [
  | none ↦ none
  | some (found, others) ↦ some (found, r ∷ others)
]

-- The kernel ends one of the requests in flight, in any order, with its bytes sent or not.
unfoldable pub request_ends : Bool → ℕ → IoUringInterface → IoUringInterface
request_ends is_sent n i = elim (take_out n i.in_flight) [
  | none ↦ i
  | some (request, others) ↦
      let bytes = contents i.send_slots request in
      if is_sent
      then record i { in_flight = others; sent = i.sent ++ (bytes ∷ []) }
      else record i { in_flight = others; unsent = i.unsent ++ (bytes ∷ []) }
]

abbrev pub close : IoUringInterface → IoUringInterface
close i = record i { running = false; ready = false }

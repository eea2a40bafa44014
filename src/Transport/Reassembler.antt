-- ===== src/Transport/Reassembler.antt =====
-- include/sensorforge/transport/tcp_reassembler.hpp: the state machine that is fed byte by byte.
pub mod Sound
pub mod RoundTrip
use av_hil_validation_platfo.Base.Lists.{length, get_or, set}
use av_hil_validation_platfo.Base.Tests.{ltb, ◌==◌, if◌then◌else◌}
use av_hil_validation_platfo.Base.{ℕ, ◌+◌, ◌*◌, ◌%◌, ◌^◌, bit_or, List, [], ◌∷◌, ◌++◌}

-- `delivered` are the payloads handed to the callback, in order.
pub record TcpReassembler : Type 0 where
  pub max_payload : ℕ
  pub state : ℕ
  pub size_bytes : List ℕ
  pub size_idx : ℕ
  pub payload_size : ℕ
  pub payload : List ℕ
  pub payloads_emitted : ℕ
  pub resyncs : ℕ
  pub delivered : List (List ℕ)

abbrev pub new_reassembler : ℕ → TcpReassembler
new_reassembler max_payload = record {
  max_payload = max_payload;
  state = 0;
  size_bytes = 0 ∷ 0 ∷ 0 ∷ 0 ∷ [];
  size_idx = 0;
  payload_size = 0;
  payload = [];
  payloads_emitted = 0;
  resyncs = 0;
  delivered = [];
}

pub reset : TcpReassembler → TcpReassembler
reset r = record r { state = 0; size_idx = 0; payload_size = 0; payload = [] }

-- `++x` on a 64-bit counter.
abbrev pub count_up : ℕ → ℕ
count_up x = (x + 1) % 2 ^ 64

-- The call of the callback.
abbrev pub emit : TcpReassembler → List ℕ → TcpReassembler
emit r bytes = record r {
  payloads_emitted = count_up r.payloads_emitted;
  delivered = r.delivered ++ (bytes ∷ []);
}

abbrev pub big_endian : List ℕ → ℕ
big_endian b =
    bit_or (bit_or (bit_or (get_or b 0 0 * 2 ^ 24) (get_or b 1 0 * 2 ^ 16)) (get_or b 2 0 * 2 ^ 8))
      (get_or b 3 0)

pub expect_start : TcpReassembler → ℕ → TcpReassembler
expect_start r b = if b == 0xAB then record r { state = 1 } else r

pub expect_second : TcpReassembler → ℕ → TcpReassembler
expect_second r b =
    if b == 0xCD
    then record r { state = 2; size_idx = 0 }
    else if b == 0xAB
    then record r { state = 1 }
    else record r { state = 0; resyncs = count_up r.resyncs }

-- The fourth byte of the length was stored.
pub size_complete : TcpReassembler → TcpReassembler
size_complete r =
    let r : TcpReassembler = record r { size_idx = 0; payload_size = big_endian r.size_bytes } in
    if ltb r.max_payload r.payload_size
    then record r { state = 0; payload_size = 0; resyncs = count_up r.resyncs }
    else if r.payload_size == 0
    then record (emit r []) { state = 0 }
    else record r { payload = []; state = 3 }

unfoldable pub size_byte : TcpReassembler → ℕ → TcpReassembler
unfolding size_complete
size_byte r b =
    let r : TcpReassembler = record r {
      size_bytes = set r.size_bytes r.size_idx b;
      size_idx = (r.size_idx + 1) % 2 ^ 8;
    } in
    if r.size_idx == 4 then size_complete r else r

pub payload_byte : TcpReassembler → ℕ → TcpReassembler
payload_byte r b =
    let r : TcpReassembler = record r { payload = r.payload ++ (b ∷ []) } in
    if length r.payload == r.payload_size
    then record (emit r r.payload) { payload = []; state = 0 }
    else r

unfoldable pub feed_byte : TcpReassembler → ℕ → TcpReassembler
unfolding expect_start expect_second size_byte payload_byte
feed_byte r b =
    if r.state == 0
    then expect_start r b
    else if r.state == 1
    then expect_second r b
    else if r.state == 2
    then size_byte r b
    else if r.state == 3
    then payload_byte r b
    else record r { state = 0 }

unfoldable pub feed : TcpReassembler → List ℕ → TcpReassembler
unfolding feed_byte
feed r [] = r
feed r (b ∷ bytes) = feed (feed_byte r b) bytes

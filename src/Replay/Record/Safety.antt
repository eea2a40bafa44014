-- ===== src/Replay/Record/Safety.antt =====
-- What `decode_record` reads, and what exactly it accepts.
use native.Mathlib.Decide.{dec_lt}
use av_hil_validation_platfo.Base.Memory.{Memory, advance}
use av_hil_validation_platfo.Protocol.Crc.{crc32c}
use av_hil_validation_platfo.Protocol.Crc.Detect.{crc32c-agree}
use av_hil_validation_platfo.Protocol.Frame.{sensor_of_code}
use av_hil_validation_platfo.Protocol.Codec.{get_u16, get_u32, get_u64}
use av_hil_validation_platfo.Protocol.Codec.Layout.{if_zero}
use av_hil_validation_platfo.Protocol.Codec.Safety.{get_u16-agree, get_u32-agree, get_u64-agree}
use av_hil_validation_platfo.Replay.Record.{
  RecordHeader, ok, decode_record, check_record, max_record_payload, record_overhead,
}
use av_hil_validation_platfo.Base.{ℕ, ◌+◌, ◌≤◌, ◌<◌, ◌≡◌, ◌↔◌, some, arith}

-- The header that the first 30 bytes hold.
abbrev pub read_record : Memory → RecordHeader
read_record m = record {
  record_length = get_u32 (advance m 0);
  timestamp_ns = get_u64 (advance m 4);
  sensor_type = sensor_of_code (get_u16 (advance m 12));
  sequence = get_u64 (advance m 14);
  payload_size = get_u32 (advance m 22);
  payload_crc32c = get_u32 (advance m 26);
}

-- A record stands at the start of the `size` bytes.
pub record IsRecord (m : Memory) (size : ℕ) : Type 0 where
  pub bounded : (read_record m).payload_size ≤ max_record_payload
  pub matches : (read_record m).record_length ≡ record_overhead + (read_record m).payload_size
  pub enough : (read_record m).record_length ≤ size
  pub payload_crc :
      crc32c (advance m 30) (read_record m).payload_size ≡ (read_record m).payload_crc32c
  pub record_crc :
      crc32c m (30 + (read_record m).payload_size)
      ≡ get_u32 (advance m (30 + (read_record m).payload_size))

-- `decode_record` accepts a buffer if and only if a record stands at its start.
pub decode_record-IsRecord :
    (m : Memory) (size : ℕ) (out : RecordHeader)
    → ((decode_record (some m) size out).0 ≡ ok) ↔ IsRecord m size
unfolding decode_record
decode_record-IsRecord m size out = (
  (λ h. record {
    bounded = ground arith;
    matches = ground arith;
    enough = ground arith;
    payload_crc = ground (arith, if_zero (λ n. crc32c (advance m 30) n) (get_u32 (advance m 22)));
    record_crc = ground arith;
  }),
  (λ h. ground (
    arith,
    h.bounded,
    h.matches,
    h.enough,
    h.payload_crc,
    h.record_crc,
    if_zero (λ n. crc32c (advance m 30) n) (get_u32 (advance m 22)),
  )),
)

pub decode_record-read_record :
    (m : Memory) (size : ℕ) (out : RecordHeader)
    → (decode_record (some m) size out).0 ≡ ok
    → (decode_record (some m) size out).1 ≡ read_record m
unfolding decode_record
decode_record-read_record m size out h = ground arith

pub read_record-agree :
    (a b : Memory) → ((j : ℕ) → j < 30 → a j ≡ b j) → read_record a ≡ read_record b
read_record-agree a b same = ground (
  arith,
  get_u32-agree a b 0 (λ j p. same j (omega arith)),
  get_u64-agree a b 4 (λ j p. same j (omega arith)),
  get_u16-agree a b 12 (λ j p. same j (omega arith)),
  get_u64-agree a b 14 (λ j p. same j (omega arith)),
  get_u32-agree a b 22 (λ j p. same j (omega arith)),
  get_u32-agree a b 26 (λ j p. same j (omega arith)),
)

module _ (a b : Memory) (size : ℕ) (same : (j : ℕ) → j < size → a j ≡ b j) where
  check_record-agree :
      (out : RecordHeader) → 30 ≤ size → check_record a size out ≡ check_record b size out
  unfolding check_record
  check_record-agree out h = ground (
    arith,
    if_zero (λ n. crc32c (advance a 30) n) out.payload_size,
    if_zero (λ n. crc32c (advance b 30) n) out.payload_size,
    λ (p : 34 + out.payload_size ≤ size).
        crc32c-agree (advance a 30) (advance b 30) out.payload_size
          (λ j q. same (30 + j) (omega arith)),
    λ (p : 34 + out.payload_size ≤ size).
        crc32c-agree a b (30 + out.payload_size) (λ j q. same j (omega arith)),
    λ (p : 34 + out.payload_size ≤ size).
        get_u32-agree a b (30 + out.payload_size) (λ j q. same j (omega arith)),
  )

  -- On any bytes, `decode_record` reads nothing outside its buffer: two memories that agree on the
  -- `size` bytes give the same verdict and the same output, on every path.
  pub decode_record-agree :
      (out : RecordHeader) → decode_record (some a) size out ≡ decode_record (some b) size out
  unfolding decode_record
  decode_record-agree out = elim (dec_lt size 30) [
    | yes p ↦ ground arith
    | no p ↦ ground (
      arith,
      read_record-agree a b (λ j q. same j (omega arith)),
      check_record-agree (read_record a) (omega arith),
    )
  ]

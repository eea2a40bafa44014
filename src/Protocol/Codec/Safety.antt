-- ===== src/Protocol/Codec/Safety.antt =====
-- What `decode_header` reads, and what exactly it accepts.
use native.Mathlib.Decide.{dec_lt}
use av_hil_validation_platfo.Base.Memory.{Memory, advance}
use av_hil_validation_platfo.Protocol.Crc.{crc32c}
use av_hil_validation_platfo.Protocol.Crc.Detect.{crc32c-agree}
use av_hil_validation_platfo.Protocol.Frame
use av_hil_validation_platfo.Protocol.Frame.{
  FrameHeader, FrameError, ok, length_overflow, sensor_of_code,
}
use av_hil_validation_platfo.Protocol.Codec.{decode_header, check_body, get_u16, get_u32, get_u64}
use av_hil_validation_platfo.Protocol.Codec.Layout.{if_zero}
use av_hil_validation_platfo.Base.{ℕ, ◌+◌, ◌≤◌, ◌<◌, ◌≡◌, ◌≢◌, ◌↔◌, some, arith}

-- The header that the first 36 bytes hold.
abbrev pub read_header : Memory → FrameHeader
read_header m = record {
  magic = get_u32 (advance m 0);
  version = get_u16 (advance m 4);
  sensor_type = sensor_of_code (get_u16 (advance m 6));
  flags = get_u16 (advance m 8);
  header_size = get_u16 (advance m 10);
  sequence = get_u64 (advance m 12);
  timestamp_ns = get_u64 (advance m 20);
  payload_size = get_u32 (advance m 28);
  payload_crc32c = get_u32 (advance m 32);
}

-- A frame stands at the start of the `size` bytes: its format is known, it lies within them, and
-- both checksums are those of the bytes that they cover.
pub record IsFrame (m : Memory) (size : ℕ) : Type 0 where
  pub magic : (read_header m).magic ≡ Frame.magic
  pub version : (read_header m).version ≤ Frame.version
  pub header_size : (read_header m).header_size ≡ Frame.header_size
  pub bounded : (read_header m).payload_size ≤ Frame.max_payload
  pub enough : 40 + (read_header m).payload_size ≤ size
  pub header_crc : crc32c m 36 ≡ get_u32 (advance m 36)
  pub payload_crc :
      crc32c (advance m 40) (read_header m).payload_size ≡ (read_header m).payload_crc32c

-- `decode_header` accepts a buffer if and only if a frame stands at its start.
pub decode_header-IsFrame :
    (m : Memory) (size : ℕ) (out : FrameHeader)
    → ((decode_header (some m) size out).0 ≡ ok) ↔ IsFrame m size
unfolding decode_header
decode_header-IsFrame m size out = (
  (λ h. record {
    magic = ground arith;
    version = ground arith;
    header_size = ground arith;
    bounded = ground arith;
    enough = ground arith;
    header_crc = ground arith;
    payload_crc = ground (arith, if_zero (λ n. crc32c (advance m 40) n) (get_u32 (advance m 28)));
  }),
  (λ h. ground (
    arith,
    h.magic,
    h.version,
    h.header_size,
    h.bounded,
    h.enough,
    h.header_crc,
    h.payload_crc,
    if_zero (λ n. crc32c (advance m 40) n) (get_u32 (advance m 28)),
  )),
)

-- An accepted buffer's fields are those that its bytes hold.
pub decode_header-read_header :
    (m : Memory) (size : ℕ) (out : FrameHeader)
    → (decode_header (some m) size out).0 ≡ ok
    → (decode_header (some m) size out).1 ≡ read_header m
unfolding decode_header
decode_header-read_header m size out h = ground arith

-- The verdict `length_overflow` is never given: the limit on the payload rules the overflow out.
pub decode_header-ne-length_overflow :
    (m : Memory) (size : ℕ) (out : FrameHeader)
    → (decode_header (some m) size out).0 ≢ length_overflow
unfolding decode_header
decode_header-ne-length_overflow m size out = ground arith

module _ (a b : Memory) (k : ℕ) (same : (j : ℕ) → j < k + 4 → a j ≡ b j) where
  pub get_u16-agree : get_u16 (advance a k) ≡ get_u16 (advance b k)
  unfolding get_u16
  get_u16-agree = ground (arith, same (k + 0) (omega arith), same (k + 1) (omega arith))

  pub get_u32-agree : get_u32 (advance a k) ≡ get_u32 (advance b k)
  unfolding get_u32
  get_u32-agree = ground (
    arith,
    same (k + 0) (omega arith),
    same (k + 1) (omega arith),
    same (k + 2) (omega arith),
    same (k + 3) (omega arith),
  )

pub get_u64-agree :
    (a b : Memory) (k : ℕ)
    → ((j : ℕ) → j < k + 8 → a j ≡ b j)
    → get_u64 (advance a k) ≡ get_u64 (advance b k)
unfolding get_u64
get_u64-agree a b k same = ground (
  arith,
  same (k + 0) (omega arith),
  same (k + 1) (omega arith),
  same (k + 2) (omega arith),
  same (k + 3) (omega arith),
  same (k + 4) (omega arith),
  same (k + 5) (omega arith),
  same (k + 6) (omega arith),
  same (k + 7) (omega arith),
)

-- The header depends on nothing behind its 36 bytes.
pub read_header-agree :
    (a b : Memory) → ((j : ℕ) → j < 36 → a j ≡ b j) → read_header a ≡ read_header b
read_header-agree a b same = ground (
  arith,
  get_u32-agree a b 0 (λ j p. same j (omega arith)),
  get_u16-agree a b 4 (λ j p. same j (omega arith)),
  get_u16-agree a b 6 (λ j p. same j (omega arith)),
  get_u16-agree a b 8 (λ j p. same j (omega arith)),
  get_u16-agree a b 10 (λ j p. same j (omega arith)),
  get_u64-agree a b 12 (λ j p. same j (omega arith)),
  get_u64-agree a b 20 (λ j p. same j (omega arith)),
  get_u32-agree a b 28 (λ j p. same j (omega arith)),
  get_u32-agree a b 32 (λ j p. same j (omega arith)),
)

module _ (a b : Memory) (size : ℕ) (same : (j : ℕ) → j < size → a j ≡ b j) where
  check_body-agree : (out : FrameHeader) → 40 ≤ size → check_body a size out ≡ check_body b size out
  unfolding check_body
  check_body-agree out h = ground (
    arith,
    crc32c-agree a b 36 (λ j p. same j (omega arith)),
    get_u32-agree a b 36 (λ j p. same j (omega arith)),
    if_zero (λ n. crc32c (advance a 40) n) out.payload_size,
    if_zero (λ n. crc32c (advance b 40) n) out.payload_size,
    λ (p : 40 + out.payload_size ≤ size).
        crc32c-agree (advance a 40) (advance b 40) out.payload_size
          (λ j q. same (40 + j) (omega arith)),
  )

  -- On any bytes, `decode_header` reads nothing outside its buffer: two memories that agree on the
  -- `size` bytes give the same verdict and the same output, on every path.
  pub decode_header-agree :
      (out : FrameHeader) → decode_header (some a) size out ≡ decode_header (some b) size out
  unfolding decode_header
  decode_header-agree out = elim (dec_lt size 40) [
    | yes p ↦ ground arith
    | no p ↦ ground (
      arith,
      read_header-agree a b (λ j q. same j (omega arith)),
      check_body-agree (read_header a) (omega arith),
    )
  ]

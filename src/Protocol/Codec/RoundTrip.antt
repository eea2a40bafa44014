-- ===== src/Protocol/Codec/RoundTrip.antt =====
-- src/protocol/frame_codec.cpp: `decode_header` on what `encode_frame` writes.
use av_hil_validation_platfo.Base.Lists.{length, length-append, get_or-append_right}
use av_hil_validation_platfo.Base.Memory.{
  Memory, load, advance, bytes_from, length-bytes_from, load-bytes_from,
}
use av_hil_validation_platfo.Protocol.Crc.{crc32c}
use av_hil_validation_platfo.Protocol.Crc.Detect.{crc32c-agree, crc32c-lt}
use av_hil_validation_platfo.Protocol.Frame
use av_hil_validation_platfo.Protocol.Frame.{
  SensorType, sensor_code, sensor_of_code, IsSensorType, FrameHeader, ok, unknown, lidar, camera,
  imu, gps, can, control, unnamed,
}
use av_hil_validation_platfo.Protocol.Codec.{
  encode_frame, decode_header, check_body, get_u16, get_u32, get_u64,
}
use av_hil_validation_platfo.Protocol.Codec.Wire.{get_u16-bytes, get_u32-bytes, get_u64-bytes}
use av_hil_validation_platfo.Protocol.Codec.Layout.{
  fields, frame, le4, header_crc, if_zero, encode_frame_lem,
}
use av_hil_validation_platfo.Base.{
  ℕ, ◌+◌, ◌%◌, ◌^◌, ◌≤◌, ◌<◌, ◌≡◌, refl, ap, sym, ◌∙◌, some, List, ◌++◌, arith,
}

pub sensor_of_code-sensor_code :
    (t : SensorType) → IsSensorType t → sensor_of_code (sensor_code t) ≡ t
unfolding sensor_of_code
sensor_of_code-sensor_code unknown h = refl
sensor_of_code-sensor_code lidar h = refl
sensor_of_code-sensor_code camera h = refl
sensor_of_code-sensor_code imu h = refl
sensor_of_code-sensor_code gps h = refl
sensor_of_code-sensor_code can h = refl
sensor_of_code-sensor_code control h = refl
sensor_of_code-sensor_code (unnamed n) h = ground arith

pub sensor_code-lt : (t : SensorType) → IsSensorType t → sensor_code t < 2 ^ 16
sensor_code-lt unknown h = omega arith
sensor_code-lt lidar h = omega arith
sensor_code-lt camera h = omega arith
sensor_code-lt imu h = omega arith
sensor_code-lt gps h = omega arith
sensor_code-lt can h = omega arith
sensor_code-lt control h = omega arith
sensor_code-lt (unnamed n) h = h.1

-- What the sender of a frame supplies, within the ranges of the parameters' types and the limit.
pub record IsSendable (t : SensorType) (sequence timestamp_ns flags len : ℕ) : Type 0 where
  pub sensor : IsSensorType t
  pub sequence_fits : sequence < 2 ^ 64
  pub timestamp_fits : timestamp_ns < 2 ^ 64
  pub flags_fit : flags < 2 ^ 16
  pub within_limit : len ≤ Frame.max_payload

module _ (t : SensorType) (sequence timestamp_ns flags : ℕ) (payload : Memory) (len : ℕ) where
  -- The header that a receiver is meant to see.
  abbrev pub sent_header : FrameHeader
  sent_header = record {
    magic = Frame.magic;
    version = Frame.version;
    sensor_type = t;
    flags = flags;
    header_size = Frame.header_size;
    sequence = sequence;
    timestamp_ns = timestamp_ns;
    payload_size = len;
    payload_crc32c = crc32c payload len;
  }

  abbrev sent : List ℕ
  sent = frame t sequence timestamp_ns flags payload len

  module _ (rest : List ℕ) (h : IsSendable t sequence timestamp_ns flags len) where
    abbrev m : Memory
    m = load (sent ++ rest)

    size_lem : length (sent ++ rest) ≡ 40 + len + length rest
    size_lem =
        omega
          (arith, length-append (bytes_from payload 0 len) rest, length-bytes_from payload 0 len)

    payload_agrees : (j : ℕ) → j < len → advance m 40 j ≡ payload j
    payload_agrees j p =
        get_or-append_right header (bytes_from payload 0 len ++ rest) j (40 + j) 0 refl
        ∙ load-bytes_from payload 0 len j rest p
        ∙ ap payload (omega arith)
      where
        header : List ℕ
        header =
            fields t sequence timestamp_ns flags payload len
            ++ le4 (crc32c (load (fields t sequence timestamp_ns flags payload len)) 36)

    read_crc : get_u32 (advance m 36) ≡ crc32c m 36
    read_crc =
        get_u32-bytes (advance m 36) (crc32c (load own) 36) (crc32c-lt (load own) 36) refl refl refl
          refl
        ∙ sym (header_crc t sequence timestamp_ns flags payload len following)
      where
        own : List ℕ
        own = fields t sequence timestamp_ns flags payload len

        following : List ℕ
        following = le4 (crc32c (load own) 36) ++ (bytes_from payload 0 len ++ rest)

    read_payload_crc : crc32c (advance m 40) len ≡ crc32c payload len
    read_payload_crc = crc32c-agree (advance m 40) payload len payload_agrees

    check_body_lem : check_body m (length (sent ++ rest)) sent_header ≡ ok
    unfolding check_body
    check_body_lem = ground (
      arith,
      size_lem,
      h.within_limit,
      read_crc,
      read_payload_crc,
      if_zero (λ n. crc32c (advance m 40) n) len,
    )

    read_magic : get_u32 (advance m 0) ≡ Frame.magic
    read_magic = get_u32-bytes (advance m 0) Frame.magic (omega arith) refl refl refl refl

    read_version : get_u16 (advance m 4) ≡ Frame.version
    read_version = get_u16-bytes (advance m 4) Frame.version (omega arith) refl refl

    read_sensor_type : sensor_of_code (get_u16 (advance m 6)) ≡ t
    read_sensor_type =
        ap sensor_of_code
          (get_u16-bytes (advance m 6) (sensor_code t) (sensor_code-lt t h.sensor) refl refl)
        ∙ sensor_of_code-sensor_code t h.sensor

    read_flags : get_u16 (advance m 8) ≡ flags
    read_flags = get_u16-bytes (advance m 8) flags h.flags_fit refl refl

    read_header_size : get_u16 (advance m 10) ≡ Frame.header_size
    read_header_size = get_u16-bytes (advance m 10) Frame.header_size (omega arith) refl refl

    read_sequence : get_u64 (advance m 12) ≡ sequence
    read_sequence =
        get_u64-bytes (advance m 12) sequence h.sequence_fits refl refl refl refl refl refl refl
          refl

    read_timestamp : get_u64 (advance m 20) ≡ timestamp_ns
    read_timestamp =
        get_u64-bytes (advance m 20) timestamp_ns h.timestamp_fits refl refl refl refl refl refl
          refl refl

    read_payload_size : get_u32 (advance m 28) ≡ len
    read_payload_size =
        get_u32-bytes (advance m 28) (len % 2 ^ 32) (omega arith) refl refl refl refl
        ∙ omega (arith, h.within_limit)

    read_stored_crc : get_u32 (advance m 32) ≡ crc32c payload len
    read_stored_crc =
        get_u32-bytes (advance m 32) (crc32c payload len) (crc32c-lt payload len) refl refl refl
          refl

    pub decode_sent :
        (out : FrameHeader) → decode_header (some m) (length (sent ++ rest)) out ≡ (ok, sent_header)
    unfolding decode_header
    decode_sent out = ground (
      arith, size_lem, read_magic, read_version, read_sensor_type, read_flags, read_header_size,
      read_sequence, read_timestamp, read_payload_size, read_stored_crc, check_body_lem,
    )

-- Of sendable fields and a payload within the limit, `encode_frame` makes a frame, and
-- `decode_header` accepts that frame with any bytes behind it and gives the fields back, whatever
-- its output parameter held before.
pub decode_header-encode_frame :
    (t : SensorType) (sequence timestamp_ns flags : ℕ) (payload : Memory) (len : ℕ)
    → IsSendable t sequence timestamp_ns flags len
    → (f : List ℕ) × (encode_frame t sequence timestamp_ns flags payload len ≡ some f)
      × ((rest : List ℕ) (out : FrameHeader)
          → decode_header (some (load (f ++ rest))) (length (f ++ rest)) out
            ≡ (ok, sent_header t sequence timestamp_ns flags payload len))
decode_header-encode_frame t sequence timestamp_ns flags payload len h = (
  frame t sequence timestamp_ns flags payload len,
  encode_frame_lem t sequence timestamp_ns flags payload len h.within_limit,
  λ rest out. decode_sent t sequence timestamp_ns flags payload len rest h out,
)

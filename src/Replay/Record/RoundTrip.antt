-- ===== src/Replay/Record/RoundTrip.antt =====
-- include/sensorforge/replay/record.hpp: `decode_record` on what `encode_record` writes.
use av_hil_validation_platfo.Base.Lists.{length, get_or-append_left, get_or-append_right}
use av_hil_validation_platfo.Base.Memory.{Memory, load, advance, bytes_from, load-bytes_from}
use av_hil_validation_platfo.Protocol.Crc.{crc32c}
use av_hil_validation_platfo.Protocol.Crc.Detect.{crc32c-agree, crc32c-lt}
use av_hil_validation_platfo.Protocol.Frame.{SensorType, sensor_code, sensor_of_code, IsSensorType}
use av_hil_validation_platfo.Protocol.Codec.{get_u16, get_u32, get_u64}
use av_hil_validation_platfo.Protocol.Codec.Wire.{get_u16-bytes, get_u32-bytes, get_u64-bytes}
use av_hil_validation_platfo.Protocol.Codec.Layout.{le4, if_zero}
use av_hil_validation_platfo.Protocol.Codec.RoundTrip.{sensor_of_code-sensor_code, sensor_code-lt}
use av_hil_validation_platfo.Replay.Record.{
  RecordHeader, ok, encode_record, decode_record, check_record, max_record_payload,
}
use av_hil_validation_platfo.Replay.Record.Layout.{
  record_fields, record_body, record_crc, record_bytes, encode_record_lem, length-record_body,
  length-record_bytes,
}
use av_hil_validation_platfo.Base.{
  ℕ, ◌+◌, ◌%◌, ◌^◌, ◌≤◌, ◌<◌, ◌≡◌, refl, ap, sym, ◌∙◌, some, List, [], append-nil, arith,
}

-- What is appended to the log, within the ranges of the parameters' types and the limit.
pub record IsRecordable (timestamp_ns : ℕ) (t : SensorType) (sequence len : ℕ) : Type 0 where
  pub sensor : IsSensorType t
  pub sequence_fits : sequence < 2 ^ 64
  pub timestamp_fits : timestamp_ns < 2 ^ 64
  pub within_limit : len ≤ max_record_payload

module _ (timestamp_ns : ℕ) (t : SensorType) (sequence : ℕ) (payload : Memory) (len : ℕ) where
  abbrev pub recorded_header : RecordHeader
  recorded_header = record {
    record_length = 34 + len;
    timestamp_ns = timestamp_ns;
    sensor_type = t;
    sequence = sequence;
    payload_size = len;
    payload_crc32c = crc32c payload len;
  }

  abbrev own : List ℕ
  own = record_fields timestamp_ns t sequence payload len

  abbrev body : List ℕ
  body = record_body timestamp_ns t sequence payload len

  abbrev crc : ℕ
  crc = record_crc timestamp_ns t sequence payload len

  -- Any memory that holds the record: its fields and payload, and then its checksum.
  module _ (m : Memory) (h : IsRecordable timestamp_ns t sequence len)
      (holds : (j : ℕ)
        → j < 34 + len
        → m j ≡ load (record_bytes timestamp_ns t sequence payload len) j) where
    body_byte : (j : ℕ) → j < 30 + len → m j ≡ load body j
    body_byte j p =
        holds j (omega arith)
        ∙ get_or-append_left body (le4 crc) j 0
            (omega (arith, length-record_body timestamp_ns t sequence payload len))

    field_byte : (j : ℕ) → j < 30 → m j ≡ load own j
    field_byte j p =
        body_byte j (omega arith) ∙ get_or-append_left own (bytes_from payload 0 len) j 0 p

    payload_byte : (j : ℕ) → j < len → advance m 30 j ≡ payload j
    payload_byte j p =
        body_byte (30 + j) (omega arith)
        ∙ get_or-append_right own (bytes_from payload 0 len) j (30 + j) 0 refl
        ∙ ap (λ (l : List ℕ). load l j) (sym (append-nil (bytes_from payload 0 len)))
        ∙ load-bytes_from payload 0 len j [] p
        ∙ ap payload (omega arith)

    crc_byte : (j : ℕ) → j < 4 → advance m (30 + len) j ≡ load (le4 crc) j
    crc_byte j p =
        holds (30 + len + j) (omega arith)
        ∙ get_or-append_right body (le4 crc) j (30 + len + j) 0
            (omega (arith, length-record_body timestamp_ns t sequence payload len))

    at_field : (k i : ℕ) → k + i < 30 → advance m k i ≡ load own (k + i)
    at_field k i p = field_byte (k + i) p

    read_length : get_u32 (advance m 0) ≡ 34 + len
    read_length =
        get_u32-bytes (advance m 0) ((34 + len) % 2 ^ 32) (omega arith) (at_field 0 0 (omega arith))
          (at_field 0 1 (omega arith)) (at_field 0 2 (omega arith)) (at_field 0 3 (omega arith))
        ∙ omega (arith, h.within_limit)

    read_timestamp : get_u64 (advance m 4) ≡ timestamp_ns
    read_timestamp =
        get_u64-bytes (advance m 4) timestamp_ns h.timestamp_fits (at_field 4 0 (omega arith))
          (at_field 4 1 (omega arith)) (at_field 4 2 (omega arith)) (at_field 4 3 (omega arith))
          (at_field 4 4 (omega arith)) (at_field 4 5 (omega arith)) (at_field 4 6 (omega arith))
          (at_field 4 7 (omega arith))

    read_sensor_type : sensor_of_code (get_u16 (advance m 12)) ≡ t
    read_sensor_type =
        ap sensor_of_code (
          get_u16-bytes (advance m 12) (sensor_code t) (sensor_code-lt t h.sensor)
            (at_field 12 0 (omega arith)) (at_field 12 1 (omega arith)))
        ∙ sensor_of_code-sensor_code t h.sensor

    read_sequence : get_u64 (advance m 14) ≡ sequence
    read_sequence =
        get_u64-bytes (advance m 14) sequence h.sequence_fits (at_field 14 0 (omega arith))
          (at_field 14 1 (omega arith)) (at_field 14 2 (omega arith)) (at_field 14 3 (omega arith))
          (at_field 14 4 (omega arith)) (at_field 14 5 (omega arith)) (at_field 14 6 (omega arith))
          (at_field 14 7 (omega arith))

    read_payload_size : get_u32 (advance m 22) ≡ len
    read_payload_size =
        get_u32-bytes (advance m 22) (len % 2 ^ 32) (omega arith) (at_field 22 0 (omega arith))
          (at_field 22 1 (omega arith)) (at_field 22 2 (omega arith)) (at_field 22 3 (omega arith))
        ∙ omega (arith, h.within_limit)

    read_payload_crc : get_u32 (advance m 26) ≡ crc32c payload len
    read_payload_crc =
        get_u32-bytes (advance m 26) (crc32c payload len) (crc32c-lt payload len)
          (at_field 26 0 (omega arith)) (at_field 26 1 (omega arith)) (at_field 26 2 (omega arith))
          (at_field 26 3 (omega arith))

    read_record_crc : get_u32 (advance m (30 + len)) ≡ crc
    read_record_crc =
        get_u32-bytes (advance m (30 + len)) crc (crc32c-lt (load body) (30 + len))
          (crc_byte 0 (omega arith)) (crc_byte 1 (omega arith)) (crc_byte 2 (omega arith))
          (crc_byte 3 (omega arith))

    check_record_lem : (size : ℕ) → 34 + len ≤ size → check_record m size recorded_header ≡ ok
    unfolding check_record
    check_record_lem size p = ground (
      arith,
      h.within_limit,
      if_zero (λ n. crc32c (advance m 30) n) len,
      crc32c-agree (advance m 30) payload len payload_byte,
      crc32c-agree m (load body) (30 + len) body_byte,
      read_record_crc,
    )

    pub decode_record_lem :
        (size : ℕ) (out : RecordHeader)
        → 34 + len ≤ size
        → decode_record (some m) size out ≡ (ok, recorded_header)
    unfolding decode_record
    decode_record_lem size out p = ground (
      arith,
      read_length,
      read_timestamp,
      read_sensor_type,
      read_sequence,
      read_payload_size,
      read_payload_crc,
      check_record_lem size p,
    )

-- Of a recordable frame, `decode_record` accepts the bytes that `encode_record` makes of it wherever
-- they stand in memory and whatever follows them, and gives the fields back; they are 34 more than
-- the payload.
pub decode_record-encode_record :
    (timestamp_ns : ℕ) (t : SensorType) (sequence : ℕ) (payload : Memory) (len : ℕ) (m : Memory)
    (size : ℕ) (out : RecordHeader)
    → IsRecordable timestamp_ns t sequence len
    → ((j : ℕ) → j < 34 + len → m j ≡ load (encode_record timestamp_ns t sequence payload len) j)
    → 34 + len ≤ size
    → (decode_record (some m) size out ≡ (ok, recorded_header timestamp_ns t sequence payload len))
      × (length (encode_record timestamp_ns t sequence payload len) ≡ 34 + len)
decode_record-encode_record timestamp_ns t sequence payload len m size out h holds fits =
    let e : encode_record timestamp_ns t sequence payload len
        ≡ record_bytes timestamp_ns t sequence payload len =
      encode_record_lem timestamp_ns t sequence payload len in
    (
      decode_record_lem timestamp_ns t sequence payload len m h
          (λ j p. holds j p ∙ ap (λ (l : List ℕ). load l j) e) size out fits,
      ap length e ∙ length-record_bytes timestamp_ns t sequence payload len,
    )

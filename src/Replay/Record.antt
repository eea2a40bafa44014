-- ===== src/Replay/Record.antt =====
-- include/sensorforge/replay/record.hpp: one record of the log, written and validated. Its
-- `detail::get_u16`, `get_u32` and `get_u64` are those of frame_codec.cpp, and are taken from there.
pub mod Layout
pub mod RoundTrip
pub mod Safety
pub mod Corruption
use Prim.Native.String.{String}
use av_hil_validation_platfo.Base.Lists.{length}
use av_hil_validation_platfo.Base.Memory.{Memory, advance, load, bytes_from, byte_at}
use av_hil_validation_platfo.Base.Tests.{ltb, ◌==◌, if◌then◌else◌}
use av_hil_validation_platfo.Protocol.Crc.{crc32c}
use av_hil_validation_platfo.Protocol.Frame.{SensorType, sensor_code, sensor_of_code}
use av_hil_validation_platfo.Protocol.Codec.{get_u16, get_u32, get_u64}
use av_hil_validation_platfo.Base.{
  ℕ, zero, suc, ◌+◌, ◌*◌, ◌%◌, ◌^◌, Bool, not, ◌||◌, Option, none, some, List, [], ◌∷◌, ◌++◌,
}

abbrev pub record_header_size : ℕ
record_header_size = 30

abbrev pub record_trailer_size : ℕ
record_trailer_size = 4

abbrev pub record_overhead : ℕ
record_overhead = record_header_size + record_trailer_size

abbrev pub max_record_payload : ℕ
max_record_payload = 4 * 1024 * 1024

abbrev pub max_record_length : ℕ
max_record_length = record_overhead + max_record_payload

pub record RecordHeader : Type 0 where
  pub record_length : ℕ
  pub timestamp_ns : ℕ
  pub sensor_type : SensorType
  pub sequence : ℕ
  pub payload_size : ℕ
  pub payload_crc32c : ℕ

abbrev pub default_record : RecordHeader
default_record = record {
  record_length = 0;
  timestamp_ns = 0;
  sensor_type = SensorType.unknown;
  sequence = 0;
  payload_size = 0;
  payload_crc32c = 0;
}

pub data RecordError : Type 0 where
  ok truncated_header bad_length length_mismatch payload_too_large truncated_record : RecordError
  payload_crc_mismatch record_crc_mismatch : RecordError

unfoldable pub error_to_string : RecordError → String
error_to_string ok = "ok"
error_to_string truncated_header = "truncated_header"
error_to_string bad_length = "bad_length"
error_to_string length_mismatch = "length_mismatch"
error_to_string payload_too_large = "payload_too_large"
error_to_string truncated_record = "truncated_record"
error_to_string payload_crc_mismatch = "payload_crc_mismatch"
error_to_string record_crc_mismatch = "record_crc_mismatch"

-- The `push_back`s of `detail::put_u16`, `put_u32` and `put_u64` from byte `i` on.
abbrev pub push_loop : List ℕ → ℕ → ℕ → ℕ → List ℕ
push_loop v x i zero = v
push_loop v x i (suc n) = push_loop (v ++ (byte_at x i ∷ [])) x (i + 1) n

abbrev pub push_u16 : List ℕ → ℕ → List ℕ
push_u16 v x = push_loop v x 0 2

abbrev pub push_u32 : List ℕ → ℕ → List ℕ
push_u32 v x = push_loop v x 0 4

abbrev pub push_u64 : List ℕ → ℕ → List ℕ
push_u64 v x = push_loop v x 0 8

-- The header's 30 bytes.
pub push_fields : ℕ → SensorType → ℕ → Memory → ℕ → List ℕ
push_fields timestamp_ns sensor_type sequence payload len =
    let out = push_u32 [] ((record_overhead + len) % 2 ^ 32) in
    let out = push_u64 out timestamp_ns in
    let out = push_u16 out (sensor_code sensor_type) in
    let out = push_u64 out sequence in
    let out = push_u32 out (len % 2 ^ 32) in
    push_u32 out (if len == 0 then crc32c payload 0 else crc32c payload len)

unfoldable pub encode_record : ℕ → SensorType → ℕ → Memory → ℕ → List ℕ
unfolding push_fields
encode_record timestamp_ns sensor_type sequence payload len =
    let out = push_fields timestamp_ns sensor_type sequence payload len in
    let out = if len == 0 then out else out ++ bytes_from payload 0 len in
    push_u32 out (crc32c (load out) (length out))

-- The tests of `decode_record`, once the fields stand in `out`.
pub check_record : Memory → ℕ → RecordHeader → RecordError
check_record m size out =
    if ltb out.record_length record_overhead || ltb max_record_length out.record_length
    then bad_length
    else if ltb max_record_payload out.payload_size
    then payload_too_large
    else if not (out.record_length == record_overhead + out.payload_size)
    then length_mismatch
    else if ltb size out.record_length
    then truncated_record
    else if not (
        (if out.payload_size == 0
          then crc32c (advance m record_header_size) 0
          else crc32c (advance m record_header_size) out.payload_size)
        == out.payload_crc32c)
    then payload_crc_mismatch
    else let crc_off = record_header_size + out.payload_size in
      if not (crc32c m crc_off == get_u32 (advance m crc_off)) then record_crc_mismatch else ok

-- The verdict, and `out` as far as it was filled. `none` is a null pointer.
unfoldable pub decode_record : Option Memory → ℕ → RecordHeader → RecordError × RecordHeader
unfolding check_record
decode_record none size out = (truncated_header, out)
decode_record (some m) size out =
    if ltb size record_header_size
    then (truncated_header, out)
    else let out : RecordHeader = record {
      record_length = get_u32 (advance m 0);
      timestamp_ns = get_u64 (advance m 4);
      sensor_type = sensor_of_code (get_u16 (advance m 12));
      sequence = get_u64 (advance m 14);
      payload_size = get_u32 (advance m 22);
      payload_crc32c = get_u32 (advance m 26);
    } in
      (check_record m size out, out)

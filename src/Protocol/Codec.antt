-- ===== src/Protocol/Codec.antt =====
-- src/protocol/frame_codec.cpp: writing a frame into a vector, and validating one in memory.
pub mod Wire
pub mod Layout
pub mod RoundTrip
pub mod Safety
pub mod Corruption
use av_hil_validation_platfo.Base.Lists.{length, set, take, drop, replicate}
use av_hil_validation_platfo.Base.Memory.{Memory, advance, load, bytes_from, byte_at}
use av_hil_validation_platfo.Base.Tests.{ltb, ◌==◌, if◌then◌else◌}
use av_hil_validation_platfo.Protocol.Crc.{crc32c}
use av_hil_validation_platfo.Protocol.Frame
use av_hil_validation_platfo.Protocol.Frame.{
  SensorType, sensor_code, sensor_of_code, FrameHeader, FrameError, ok, truncated_header, bad_magic,
  unsupported_version, bad_header_size, payload_too_large, length_overflow, truncated_payload,
  header_crc_mismatch, payload_crc_mismatch, frame_overhead, max_payload,
}
use av_hil_validation_platfo.Base.{
  ℕ, zero, suc, ◌+◌, ◌*◌, ◌%◌, ◌^◌, bit_or, Bool, not, Option, none, some, List, ◌++◌,
}

-- `p` is the vector; a pointer into it is the vector and an index.
abbrev pub put_u16 : List ℕ → ℕ → ℕ → List ℕ
put_u16 p off v = set (set p off (byte_at v 0)) (off + 1) (byte_at v 1)

abbrev pub put_u32 : List ℕ → ℕ → ℕ → List ℕ
put_u32 p off v =
    set (set (set (set p off (byte_at v 0)) (off + 1) (byte_at v 1)) (off + 2) (byte_at v 2))
      (off + 3) (byte_at v 3)

-- The loop of `put_u64` from round `i`, for the rounds that are left.
abbrev pub put_loop : List ℕ → ℕ → ℕ → ℕ → ℕ → List ℕ
put_loop p off v i zero = p
put_loop p off v i (suc n) = put_loop (set p (off + i) (byte_at v i)) off v (i + 1) n

abbrev pub put_u64 : List ℕ → ℕ → ℕ → List ℕ
put_u64 p off v = put_loop p off v 0 8

unfoldable pub get_u16 : Memory → ℕ
get_u16 p = bit_or (p 0) (p 1 * 2 ^ 8)

unfoldable pub get_u32 : Memory → ℕ
get_u32 p = bit_or (bit_or (bit_or (p 0) (p 1 * 2 ^ 8)) (p 2 * 2 ^ 16)) (p 3 * 2 ^ 24)

-- The loop of `get_u64` from round `i`, for the rounds that are left.
abbrev pub get_loop : Memory → ℕ → ℕ → ℕ → ℕ
get_loop p i zero v = v
get_loop p i (suc n) v = get_loop p (i + 1) n (bit_or v (p i * 2 ^ (8 * i)))

unfoldable pub get_u64 : Memory → ℕ
get_u64 p = get_loop p 0 8 0

-- `memcpy(p + off, src, n)`
abbrev pub copy_to : List ℕ → ℕ → Memory → ℕ → List ℕ
copy_to p off src n = take off p ++ (bytes_from src 0 n ++ drop n (drop off p))

abbrev pub off_magic : ℕ
off_magic = 0

abbrev pub off_version : ℕ
off_version = 4

abbrev pub off_sensor_type : ℕ
off_sensor_type = 6

abbrev pub off_flags : ℕ
off_flags = 8

abbrev pub off_header_size : ℕ
off_header_size = 10

abbrev pub off_sequence : ℕ
off_sequence = 12

abbrev pub off_timestamp : ℕ
off_timestamp = 20

abbrev pub off_payload_size : ℕ
off_payload_size = 28

abbrev pub off_payload_crc : ℕ
off_payload_crc = 32

abbrev pub off_header_crc : ℕ
off_header_crc = 36

-- The fields of the header, written into `p`, with the payload's checksum.
pub put_fields : List ℕ → SensorType → ℕ → ℕ → ℕ → Memory → ℕ → List ℕ
put_fields p sensor_type sequence timestamp_ns flags payload len =
    let p = put_u32 p off_magic Frame.magic in
    let p = put_u16 p off_version Frame.version in
    let p = put_u16 p off_sensor_type (sensor_code sensor_type) in
    let p = put_u16 p off_flags flags in
    let p = put_u16 p off_header_size Frame.header_size in
    let p = put_u64 p off_sequence sequence in
    let p = put_u64 p off_timestamp timestamp_ns in
    let p = put_u32 p off_payload_size (len % 2 ^ 32) in
    put_u32 p off_payload_crc (if len == 0 then crc32c payload 0 else crc32c payload len)

-- `none` is the `std::length_error`.
unfoldable pub encode_frame : SensorType → ℕ → ℕ → ℕ → Memory → ℕ → Option (List ℕ)
unfolding put_fields
encode_frame sensor_type sequence timestamp_ns flags payload len =
    if ltb max_payload len
    then none
    else some (
        let zeros = replicate (frame_overhead + len) 0 in
        let p = put_fields zeros sensor_type sequence timestamp_ns flags payload len in
        let p = put_u32 p off_header_crc (crc32c (load p) Frame.header_size) in
        if len == 0 then p else copy_to p frame_overhead payload len)

-- The length and checksum tests of `decode_header`, once the fields stand in `out`.
pub check_body : Memory → ℕ → FrameHeader → FrameError
check_body m size out =
    if ltb max_payload out.payload_size
    then payload_too_large
    else let need = (frame_overhead + out.payload_size) % 2 ^ 64 in
      if ltb need frame_overhead
      then length_overflow
      else if ltb size need
      then truncated_payload
      else if not (crc32c m Frame.header_size == get_u32 (advance m off_header_crc))
      then header_crc_mismatch
      else if not (
          (if out.payload_size == 0
            then crc32c (advance m frame_overhead) 0
            else crc32c (advance m frame_overhead) out.payload_size)
          == out.payload_crc32c)
      then payload_crc_mismatch
      else ok

-- The verdict, and `out` as far as it was filled. `none` is a null pointer.
unfoldable pub decode_header : Option Memory → ℕ → FrameHeader → FrameError × FrameHeader
unfolding check_body get_u16 get_u32 get_u64
decode_header none size out = (truncated_header, out)
decode_header (some m) size out =
    if ltb size frame_overhead
    then (truncated_header, out)
    else let out = record out { magic = get_u32 (advance m off_magic) } in
      if not (out.magic == Frame.magic)
      then (bad_magic, out)
      else let out = record out { version = get_u16 (advance m off_version) } in
        if ltb Frame.version out.version
        then (unsupported_version, out)
        else let out = record out {
          sensor_type = sensor_of_code (get_u16 (advance m off_sensor_type));
          flags = get_u16 (advance m off_flags);
          header_size = get_u16 (advance m off_header_size);
        } in
          if not (out.header_size == Frame.header_size)
          then (bad_header_size, out)
          else let out = record out {
            sequence = get_u64 (advance m off_sequence);
            timestamp_ns = get_u64 (advance m off_timestamp);
            payload_size = get_u32 (advance m off_payload_size);
            payload_crc32c = get_u32 (advance m off_payload_crc);
          } in
            (check_body m size out, out)

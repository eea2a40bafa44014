-- ===== src/Protocol/Frame.antt =====
-- include/sensorforge/protocol/frame.hpp: constants, the header's fields and the verdicts.
use Prim.Native.String.{String}
use av_hil_validation_platfo.Base.{ℕ, ◌*◌, ◌≤◌, ◌<◌, ◌^◌}
use av_hil_validation_platfo.Base.Tests.{◌==◌, if◌then◌else◌}

abbrev pub magic : ℕ
magic = 0x53464844

abbrev pub version : ℕ
version = 1

abbrev pub header_size : ℕ
header_size = 36

-- with the header's own checksum
abbrev pub frame_overhead : ℕ
frame_overhead = 40

abbrev pub max_payload : ℕ
max_payload = 4 * 1024 * 1024

abbrev pub flag_compressed : ℕ
flag_compressed = 2

-- An `enum class` over `uint16_t` also holds the values that have no name.
pub data SensorType : Type 0 where
  unknown lidar camera imu gps can control : SensorType
  unnamed : ℕ → SensorType

-- `static_cast<uint16_t>(t)`
abbrev pub sensor_code : SensorType → ℕ
sensor_code unknown = 0
sensor_code lidar = 1
sensor_code camera = 2
sensor_code imu = 3
sensor_code gps = 4
sensor_code can = 5
sensor_code control = 6
sensor_code (unnamed n) = n

-- `static_cast<SensorType>(n)`
unfoldable pub sensor_of_code : ℕ → SensorType
sensor_of_code n =
    if n == 0
    then unknown
    else if n == 1
    then lidar
    else if n == 2
    then camera
    else if n == 3
    then imu
    else if n == 4
    then gps
    else if n == 5
    then can
    else if n == 6
    then control
    else unnamed n

-- A value of the enumeration: one without a name is none of the named ones, and fits 16 bits.
abbrev pub IsSensorType : SensorType → Type 0
IsSensorType (unnamed n) = (7 ≤ n) × (n < 2 ^ 16)
IsSensorType _ = Unit

pub record FrameHeader : Type 0 where
  pub magic : ℕ
  pub version : ℕ
  pub sensor_type : SensorType
  pub flags : ℕ
  pub header_size : ℕ
  pub sequence : ℕ
  pub timestamp_ns : ℕ
  pub payload_size : ℕ
  pub payload_crc32c : ℕ

-- What a `FrameHeader` variable holds before anything is written to it.
abbrev pub default_header : FrameHeader
default_header = record {
  magic = magic;
  version = version;
  sensor_type = unknown;
  flags = 0;
  header_size = header_size;
  sequence = 0;
  timestamp_ns = 0;
  payload_size = 0;
  payload_crc32c = 0;
}

pub data FrameError : Type 0 where
  ok truncated_header bad_magic unsupported_version bad_header_size payload_too_large : FrameError
  length_overflow truncated_payload header_crc_mismatch payload_crc_mismatch : FrameError
  sequence_regression timestamp_regression : FrameError

unfoldable pub error_to_string : FrameError → String
error_to_string ok = "ok"
error_to_string truncated_header = "truncated_header"
error_to_string bad_magic = "bad_magic"
error_to_string unsupported_version = "unsupported_version"
error_to_string bad_header_size = "bad_header_size"
error_to_string payload_too_large = "payload_too_large"
error_to_string length_overflow = "length_overflow"
error_to_string truncated_payload = "truncated_payload"
error_to_string header_crc_mismatch = "header_crc_mismatch"
error_to_string payload_crc_mismatch = "payload_crc_mismatch"
error_to_string sequence_regression = "sequence_regression"
error_to_string timestamp_regression = "timestamp_regression"

unfoldable pub sensor_to_string : SensorType → String
sensor_to_string lidar = "lidar"
sensor_to_string camera = "camera"
sensor_to_string imu = "imu"
sensor_to_string gps = "gps"
sensor_to_string can = "can"
sensor_to_string control = "ctrl"
sensor_to_string _ = "unknown"

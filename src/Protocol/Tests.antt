-- ===== src/Protocol/Tests.antt =====
-- Runs of the protocol layer at concrete bytes.
use av_hil_validation_platfo.Base.Lists.{length, set, get_or-set_ne}
use av_hil_validation_platfo.Base.Memory.{Memory, load, bytes_from, load_byte}
use av_hil_validation_platfo.Protocol.Crc.{Cpu, software_loop, crc32c, crc32c_on}
use av_hil_validation_platfo.Protocol.Crc.Reference.{serial, serial_bits, software_loop-serial}
use av_hil_validation_platfo.Protocol.Crc.Detect.{DiffersAt}
use av_hil_validation_platfo.Protocol.Crc.Hardware.{crc32c_on_lem}
use av_hil_validation_platfo.Protocol.Frame.{
  camera, sensor_of_code, FrameHeader, ok, default_header,
}
use av_hil_validation_platfo.Protocol.Codec.{encode_frame, decode_header}
use av_hil_validation_platfo.Protocol.Codec.RoundTrip.{sent_header, decode_header-encode_frame}
use av_hil_validation_platfo.Protocol.Codec.Safety.{IsFrame, decode_header-IsFrame}
use av_hil_validation_platfo.Protocol.Codec.Corruption.{decode_header_one_byte}
use av_hil_validation_platfo.Protocol.Decoder.{initial}
use av_hil_validation_platfo.Protocol.Decoder.Monotonic.{
  Arrival, InOrder, accepted_by, accepted_by-InOrder,
}
use av_hil_validation_platfo.Base.{
  ℕ, ◌<◌, ◌≡◌, ◌≢◌, ◌↔◌, refl, sym, ap, true, some, List, [], ◌∷◌, ◌++◌, arith,
}

-- "123456789"
abbrev digits : List ℕ
digits = 49 ∷ 50 ∷ 51 ∷ 52 ∷ 53 ∷ 54 ∷ 55 ∷ 56 ∷ 57 ∷ []

abbrev digits_bytes : (j : ℕ) → load digits j < 256
digits_bytes j = load_byte digits j (omega arith)

-- The published vector.
published_vector : crc32c (load digits) 9 ≡ 0xE3069283
unfolding crc32c
published_vector = refl

software_loop-serial_example :
    software_loop (load digits) 0 9 0xFFFFFFFF ≡ serial 0xFFFFFFFF (bytes_from (load digits) 0 9)
software_loop-serial_example = software_loop-serial (load digits) 0 9 0xFFFFFFFF digits_bytes

-- A processor that does what the manual says.
abbrev skylake : Cpu
skylake = record {
  has_sse42 = true;
  crc32_u8 = λ crc b. serial_bits 8 b crc;
  crc32_u64 = λ crc v. serial_bits 64 v crc;
}

crc32c_on_lem_example : crc32c_on skylake (load digits) 9 ≡ crc32c (load digits) 9
crc32c_on_lem_example =
    crc32c_on_lem (load digits) digits_bytes skylake
      (record { u8_lem = λ c b p q. refl; u64_lem = λ c v p q. refl }) 9

abbrev one_changed : List ℕ
one_changed = set digits 4 0

digits_differ : DiffersAt (load digits) (load one_changed) 9 4
digits_differ = record {
  bytes_left = digits_bytes;
  bytes_right = λ j. load_byte one_changed j (omega arith);
  inside = omega arith;
  changed = omega arith;
  same = λ j p q. sym (get_or-set_ne digits 4 j 0 0 q);
}

decode_header-encode_frame_example :
    (f : List ℕ) × (encode_frame camera 7 1000 2 (load digits) 9 ≡ some f)
    × ((rest : List ℕ) (out : FrameHeader)
        → decode_header (some (load (f ++ rest))) (length (f ++ rest)) out
          ≡ (ok, sent_header camera 7 1000 2 (load digits) 9))
decode_header-encode_frame_example =
    decode_header-encode_frame camera 7 1000 2 (load digits) 9 (record {
      sensor = tt;
      sequence_fits = omega arith;
      timestamp_fits = omega arith;
      flags_fit = omega arith;
      within_limit = omega arith;
    })

-- A frame of the digits, as a list of its 49 bytes.
abbrev digits_frame : List ℕ
digits_frame =
    0x44
    ∷ 0x48
    ∷ 0x46
    ∷ 0x53
    ∷ 1
    ∷ 0
    ∷ 2
    ∷ 0
    ∷ 2
    ∷ 0
    ∷ 36
    ∷ 0
    ∷ 7
    ∷ 0
    ∷ 0
    ∷ 0
    ∷ 0
    ∷ 0
    ∷ 0
    ∷ 0
    ∷ 0xE8
    ∷ 3
    ∷ 0
    ∷ 0
    ∷ 0
    ∷ 0
    ∷ 0
    ∷ 0
    ∷ 9
    ∷ 0
    ∷ 0
    ∷ 0
    ∷ 0x83
    ∷ 0x92
    ∷ 0x06
    ∷ 0xE3
    ∷ (56 ∷ 76 ∷ 234 ∷ 115 ∷ digits)

encode_digits : encode_frame camera 7 1000 2 (load digits) 9 ≡ some digits_frame
unfolding encode_frame crc32c
encode_digits = refl

abbrev received : Memory
received = load digits_frame

decode_digits :
    decode_header (some received) 49 default_header
    ≡ (ok, sent_header camera 7 1000 2 (load digits) 9)
unfolding decode_header crc32c sensor_of_code
decode_digits = refl

decode_header-IsFrame_example :
    ((decode_header (some received) 49 default_header).0 ≡ ok) ↔ IsFrame received 49
decode_header-IsFrame_example = decode_header-IsFrame received 49 default_header

-- Byte 45, a digit, was damaged on the way.
abbrev damaged : List ℕ
damaged = set digits_frame 45 0

frames_differ : DiffersAt received (load damaged) 49 45
frames_differ = record {
  bytes_left = λ j. load_byte digits_frame j (omega arith);
  bytes_right = λ j. load_byte damaged j (omega arith);
  inside = omega arith;
  changed = omega arith;
  same = λ j p q. sym (get_or-set_ne digits_frame 45 j 0 0 q);
}

decode_header_one_byte_example : (decode_header (some (load damaged)) 49 default_header).0 ≢ ok
decode_header_one_byte_example =
    decode_header_one_byte received (load damaged) 49 45 default_header frames_differ
      (ap (λ r. r.0) decode_digits) (rw decode_digits (omega arith))

abbrev arrivals : List Arrival
arrivals =
    record { bytes = some received; size = 49; key = 0 }
    ∷ record { bytes = some (load damaged); size = 49; key = 0 }
    ∷ record { bytes = some received; size = 49; key = 1 }
    ∷ []

accepted_by-InOrder_example : InOrder (accepted_by initial arrivals)
accepted_by-InOrder_example = accepted_by-InOrder initial arrivals

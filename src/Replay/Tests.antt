-- ===== src/Replay/Tests.antt =====
-- Runs of the write-ahead log at concrete bytes.
use mathlib.Core.List.{Perm}
use av_hil_validation_platfo.Base.Lists.{length, set, get_or-set_ne}
use av_hil_validation_platfo.Base.Memory.{Memory, load, load_byte}
use av_hil_validation_platfo.Protocol.Crc.{crc32c}
use av_hil_validation_platfo.Protocol.Crc.Detect.{DiffersAt}
use av_hil_validation_platfo.Protocol.Frame.{camera, lidar, sensor_of_code}
use av_hil_validation_platfo.Protocol.Codec.{get_u16, get_u32, get_u64}
use av_hil_validation_platfo.Replay.Record.{ok, default_record, encode_record, decode_record}
use av_hil_validation_platfo.Replay.Record.RoundTrip.{recorded_header}
use av_hil_validation_platfo.Replay.Record.Corruption.{decode_record_one_byte}
use av_hil_validation_platfo.Replay.Reader.{Scan, empty_reader, load_segment}
use av_hil_validation_platfo.Replay.Reader.Accounting.{accounted, accounted-load_segment}
use av_hil_validation_platfo.Replay.Reader.Recovery.{Entry, recorded}
use av_hil_validation_platfo.Replay.Reader.{load_segments}
use av_hil_validation_platfo.Replay.Reader.Recovery.{AllLoggable}
use av_hil_validation_platfo.Replay.Writer.{Directory, new_writer, close}
use av_hil_validation_platfo.Replay.Writer.Logged.{healthy, append_all, all_true}
use av_hil_validation_platfo.Replay.Writer.Recovered.{append_all_recovered}
use av_hil_validation_platfo.Base.Text.{codes}
use av_hil_validation_platfo.Base.Double.{Double}
use av_hil_validation_platfo.Base.Tests.{ltb, leb, ◌==◌}
use av_hil_validation_platfo.Replay.Reader.{load_all, segments_of}
use av_hil_validation_platfo.Replay.Reader.Playback.{
  real_time, replay, deliveries, at_or_after, InOrder, replay-load_all,
}
use av_hil_validation_platfo.Replay.Segment.{
  decimal_loop, segment_filename, segment_id_from_filename,
}
use av_hil_validation_platfo.Base.{
  ℕ, ◌+◌, ◌-◌, ◌*◌, ◌/◌, ◌%◌, ◌^◌, ◌≡◌, ◌≢◌, refl, sym, ap, false, some, List, [], ◌∷◌, ◌++◌, map,
  arith,
}

abbrev hello : List ℕ
hello = 104 ∷ 105 ∷ []

abbrev hello_record : List ℕ
hello_record =
    36 ∷ 0 ∷ 0 ∷ 0 ∷ 232 ∷ 3 ∷ 0 ∷ 0 ∷ 0 ∷ 0 ∷ 0 ∷ 0 ∷ 2 ∷ 0 ∷ 7 ∷ 0 ∷ 0 ∷ 0 ∷ 0 ∷ 0 ∷ 0 ∷ 0 ∷ 2 ∷ 0
    ∷ 0 ∷ 0 ∷ 194 ∷ 217 ∷ 157 ∷ 245 ∷ 104 ∷ 105 ∷ 197 ∷ 175 ∷ 111 ∷ 56 ∷ []

record_bytes : encode_record 1000 camera 7 (load hello) 2 ≡ hello_record
unfolding encode_record crc32c
record_bytes = refl

abbrev logged : Memory
logged = load hello_record

decode_hello :
    decode_record (some logged) 36 default_record
    ≡ (ok, recorded_header 1000 camera 7 (load hello) 2)
unfolding decode_record crc32c sensor_of_code get_u32 get_u64 get_u16
decode_hello = refl

-- Byte 1, of the length, was damaged on the disk.
abbrev damaged : List ℕ
damaged = set hello_record 1 8

records_differ : DiffersAt logged (load damaged) 36 1
records_differ = record {
  bytes_left = λ j. load_byte hello_record j (omega arith);
  bytes_right = λ j. load_byte damaged j (omega arith);
  inside = omega arith;
  changed = omega arith;
  same = λ j p q. sym (get_or-set_ne hello_record 1 j 8 0 q);
}

decode_record_one_byte_example : (decode_record (some (load damaged)) 36 default_record).0 ≢ ok
decode_record_one_byte_example =
    decode_record_one_byte logged (load damaged) 36 1 default_record records_differ
      (ap (λ r. r.0) decode_hello) (rw decode_hello (omega arith))

abbrev at_start : Scan
at_start = record { reader = empty_reader; pos = 0; in_skip_run = false }

accounted-load_segment_example :
    accounted (load_segment empty_reader 0 (damaged ++ hello_record)) ≡ accounted empty_reader + 72
accounted-load_segment_example = accounted-load_segment empty_reader 0 (damaged ++ hello_record)

abbrev drive : List Entry
drive =
    record { timestamp_ns = 1000; sensor_type = camera; sequence = 7; payload = hello }
    ∷ record { timestamp_ns = 900; sensor_type = lidar; sequence = 1; payload = [] }
    ∷ []

drive_loggable : AllLoggable drive
drive_loggable = (
  record {
    sensor = tt;
    sequence_fits = omega arith;
    timestamp_fits = omega arith;
    within_limit = omega arith;
  },
  (
    record {
      sensor = tt;
      sequence_fits = omega arith;
      timestamp_fits = omega arith;
      within_limit = omega arith;
    },
    tt,
  ),
)

-- A limit of 40 bytes puts the two records into two segments, beside a file that is of no segment.
abbrev notes : Directory
notes = (codes "notes.txt", 7 ∷ []) ∷ []

append_all_recovered_example :
    let r = append_all (healthy notes) drive (new_writer 40 (healthy notes)) in
    let reader = load_all (close r.1).files in
    (r.0 ≡ all_true drive)
    × Perm reader.records (map recorded drive)
    × InOrder reader.records
    × (reader.stats.records_corrupt_skipped ≡ 0)
unfolding segment_id_from_filename
append_all_recovered_example =
    append_all_recovered 40 notes drive (refl, tt) (omega arith) drive_loggable

filename_of_seven : segment_filename 7 ≡ codes "segment-000007.sflog"
unfolding segment_filename decimal_loop
filename_of_seven = refl

instance abbrev whole : Double ℕ
whole = record {
  of_nat = λ n. n;
  lt = ltb;
  le = leb;
  eq = ◌==◌;
  add = ◌+◌;
  sub = ◌-◌;
  mul = ◌*◌;
  div = ◌/◌;
}

abbrev hello_files : Directory
hello_files = (codes "segment-000001.sflog", hello_record ++ hello_record) ∷ []

replay-load_all_example :
    let (returned, calls) = replay (λ n. n) real_time 1 500 (load_all hello_files) in
    Perm
      (deliveries calls)
      (at_or_after 500 (load_segments empty_reader (segments_of hello_files)).records)
    × (returned % 2 ^ 64 ≡ length (deliveries calls) % 2 ^ 64)
    × InOrder (deliveries calls)
replay-load_all_example = replay-load_all (λ n. n) real_time 1 500 hello_files

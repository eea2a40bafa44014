-- ===== src/Replay/Writer.antt =====
-- src/replay/wal_writer.cpp: appending records to the segments of a log.
pub mod Logged
pub mod Recovered
use av_hil_validation_platfo.Base.Lists.{length}
use av_hil_validation_platfo.Base.Memory.{Memory}
use av_hil_validation_platfo.Base.Tests.{ltb, ◌==◌, if◌then◌else◌}
use av_hil_validation_platfo.Base.Text.{Text, same}
use av_hil_validation_platfo.Replay.Segment.{segment_filename}
use av_hil_validation_platfo.Protocol.Frame.{SensorType}
use av_hil_validation_platfo.Replay.Record.{encode_record, max_record_payload}
use av_hil_validation_platfo.Replay.Index.{ReplayIndex, empty_index, add}
use av_hil_validation_platfo.Base.{
  ℕ, ◌+◌, ◌*◌, ◌%◌, ◌^◌, Bool, true, false, not, ◌&&◌, List, [], ◌∷◌, ◌++◌,
}

abbrev pub default_segment_bytes : ℕ
default_segment_bytes = 64 * 1024 * 1024

-- The files of a directory, by their names and with their bytes.
abbrev pub Directory : Type 0
Directory = List (Text × List ℕ)

-- What `std::ios::trunc` leaves of a file: it is empty, and there if it was not.
unfoldable pub truncate : Text → Directory → Directory
truncate name [] = (name, []) ∷ []
truncate name ((n, bytes) ∷ files) =
    let rest = truncate name files in if same n name then (n, []) ∷ files else (n, bytes) ∷ rest

-- Bytes at the end of a file.
unfoldable pub write_to : Text → List ℕ → Directory → Directory
write_to name more [] = []
write_to name more ((n, bytes) ∷ files) =
    let rest = write_to name more files in
    if same n name then (n, bytes ++ more) ∷ files else (n, bytes) ∷ rest

-- The stream `out_` is `is_open` and `good`, and its file is that of the current segment in `files`, the
-- directory of the log.
pub record WalWriter : Type 0 where
  pub segment_bytes : ℕ
  pub is_open : Bool
  pub good : Bool
  pub files : Directory
  pub current_segment_id : ℕ
  pub current_segment_offset : ℕ
  pub records_written : ℕ
  pub index : ReplayIndex

-- What the file system does: whether a file opens, whether a write succeeds, what a write that does not
-- leaves in the file, and what is in the directory when the writer is made.
pub record Disk : Type 0 where
  pub opens : Bool
  pub writes : Bool
  pub partial_write : List ℕ
  pub found : Directory

-- A file that does not open is as it was.
pub open_new_segment : WalWriter → Disk → WalWriter
open_new_segment w disk =
    let id = (w.current_segment_id + 1) % 2 ^ 32 in
    record w {
      files = if disk.opens then truncate (segment_filename id) w.files else w.files;
      is_open = disk.opens;
      good = disk.opens;
      current_segment_id = id;
      current_segment_offset = 0;
    }

pub new_writer : ℕ → Disk → WalWriter
unfolding open_new_segment
new_writer segment_bytes disk =
    open_new_segment
      (record {
        segment_bytes = if segment_bytes == 0 then default_segment_bytes else segment_bytes;
        is_open = false;
        good = true;
        files = disk.found;
        current_segment_id = 0;
        current_segment_offset = 0;
        records_written = 0;
        index = empty_index;
      })
      disk

-- The part of `append` that writes the record.
pub write_record : WalWriter → ℕ → List ℕ → Disk → Bool × WalWriter
write_record w timestamp_ns rec disk =
    if not w.is_open
    then (false, w)
    else if not w.good
    then (false, w)
    else if not disk.writes
    then (
      false,
      record w {
        good = false;
        files = write_to (segment_filename w.current_segment_id) disk.partial_write w.files;
      },
    )
    else (
      true,
      record w {
        files = write_to (segment_filename w.current_segment_id) rec w.files;
        index =
            add w.index timestamp_ns w.current_segment_id w.current_segment_offset
              (length rec % 2 ^ 32);
        current_segment_offset = w.current_segment_offset + length rec;
        records_written = w.records_written + 1;
      },
    )

pub append : WalWriter → ℕ → SensorType → ℕ → Memory → ℕ → Disk → Bool × WalWriter
unfolding write_record
append w timestamp_ns sensor_type sequence payload payload_len disk =
    if ltb max_record_payload payload_len
    then (false, w)
    else let rec = encode_record timestamp_ns sensor_type sequence payload payload_len in
      let w1 : WalWriter =
        if ltb 0 w.current_segment_offset
          && ltb w.segment_bytes (w.current_segment_offset + length rec)
        then open_new_segment w disk
        else w in
      write_record w1 timestamp_ns rec disk

pub close : WalWriter → WalWriter
close w = record w { is_open = false }

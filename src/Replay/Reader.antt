-- ===== src/Replay/Reader.antt =====
-- src/replay/wal_reader.cpp: scanning segments with recovery, and ordering the records.
pub mod Accounting
pub mod Recovery
pub mod Playback
use av_hil_validation_platfo.Base.Lists.{length}
use av_hil_validation_platfo.Base.Memory.{Memory, advance, load, bytes_from}
use av_hil_validation_platfo.Base.Sort.{stable_sort}
use av_hil_validation_platfo.Base.Tests.{ltb, leb, ◌==◌, if◌then◌else◌}
use av_hil_validation_platfo.Base.Map.{before}
use av_hil_validation_platfo.Base.Text.{Text}
use av_hil_validation_platfo.Replay.Segment.{segment_id_from_filename}
use av_hil_validation_platfo.Replay.Record.{
  RecordHeader, RecordError, ok, default_record, decode_record, record_header_size,
}
use av_hil_validation_platfo.Replay.Index.{ReplayIndex, empty_index, add, finalize}
use av_hil_validation_platfo.Base.{
  ℕ, zero, suc, ◌+◌, ◌-◌, Bool, true, false, not, some, List, [], ◌∷◌, ◌++◌, map,
}

pub record ReplayRecord : Type 0 where
  pub header : RecordHeader
  pub payload : List ℕ

pub record ReplayStats : Type 0 where
  pub records_ok : ℕ
  pub records_corrupt_skipped : ℕ
  pub bytes_skipped : ℕ
  pub segments_read : ℕ

abbrev pub no_stats : ReplayStats
no_stats = record {
  records_ok = 0;
  records_corrupt_skipped = 0;
  bytes_skipped = 0;
  segments_read = 0;
}

pub record WalReader : Type 0 where
  pub records : List ReplayRecord
  pub index : ReplayIndex
  pub stats : ReplayStats

abbrev pub empty_reader : WalReader
empty_reader = record { records = []; index = empty_index; stats = no_stats }

-- The reader with the two variables of the scan of one segment.
pub record Scan : Type 0 where
  pub reader : WalReader
  pub pos : ℕ
  pub in_skip_run : Bool

-- A good record at `pos`: it is kept, indexed and stepped over.
pub take_record : Memory → ℕ → RecordHeader → Scan → Scan
take_record m seg_id hdr s =
    let w = s.reader in
    let rr : ReplayRecord = record {
      header = hdr;
      payload = bytes_from m (s.pos + record_header_size) hdr.payload_size;
    } in
    record {
      reader = record {
        records = w.records ++ (rr ∷ []);
        index = add w.index hdr.timestamp_ns seg_id s.pos hdr.record_length;
        stats = record (w.stats) { records_ok = w.stats.records_ok + 1 };
      };
      pos = s.pos + hdr.record_length;
      in_skip_run = false;
    }

-- Anything else at `pos`: one byte is skipped; a run of such bytes counts once.
pub skip_byte : Scan → Scan
skip_byte s =
    let w = s.reader in
    record {
      reader = record w {
        stats = record (w.stats) {
          records_corrupt_skipped =
              if s.in_skip_run
              then w.stats.records_corrupt_skipped
              else w.stats.records_corrupt_skipped + 1;
          bytes_skipped = w.stats.bytes_skipped + 1;
        };
      };
      pos = s.pos + 1;
      in_skip_run = true;
    }

abbrev pub on_verdict : RecordError → Scan → Scan → Scan
on_verdict ok taken skipped = taken
on_verdict _ taken skipped = skipped

-- The body of the loop of `load`. The segment is `m`, of `size` bytes.
pub scan_step : Memory → ℕ → ℕ → Scan → Scan
unfolding take_record skip_byte
scan_step m size seg_id s =
    let (err, hdr) = decode_record (some (advance m s.pos)) (size - s.pos) default_record in
    on_verdict err (take_record m seg_id hdr s) (skip_byte s)

-- The loop, with a bound on its rounds.
pub scan : ℕ → Memory → ℕ → ℕ → Scan → Scan
scan zero m size seg_id s = s
scan (suc fuel) m size seg_id s = elim (leb (s.pos + record_header_size) size) [
  | true ↦ scan fuel m size seg_id (scan_step m size seg_id s)
  | false ↦ s
]

-- What is left at the end is an incomplete write.
pub skip_tail : ℕ → Scan → WalReader
skip_tail size s =
    let w = s.reader in
    if ltb s.pos size
    then record w {
      stats = record (w.stats) {
        records_corrupt_skipped =
            if s.in_skip_run
            then w.stats.records_corrupt_skipped
            else w.stats.records_corrupt_skipped + 1;
        bytes_skipped = w.stats.bytes_skipped + (size - s.pos);
      };
    }
    else w

-- One readable segment, as the bytes that were read from its file.
pub load_segment : WalReader → ℕ → List ℕ → WalReader
unfolding skip_tail
load_segment w seg_id buf =
    let size = length buf in
    let w' : WalReader = record w {
      stats = record (w.stats) { segments_read = w.stats.segments_read + 1 };
    } in
    if size == 0
    then w'
    else skip_tail size
        (scan size (load buf) size seg_id (record { reader = w'; pos = 0; in_skip_run = false }))

unfoldable pub load_segments : WalReader → List (ℕ × List ℕ) → WalReader
load_segments w [] = w
load_segments w ((seg_id, buf) ∷ rest) = load_segments (load_segment w seg_id buf) rest

-- By time, and by sequence number at equal times.
abbrev pub earlier : ReplayRecord → ReplayRecord → Bool
earlier a b =
    if not (a.header.timestamp_ns == b.header.timestamp_ns)
    then ltb a.header.timestamp_ns b.header.timestamp_ns
    else ltb a.header.sequence b.header.sequence

-- The files of a directory with an id of a segment in their names.
unfoldable pub collect : List (Text × List ℕ) → List (ℕ × (Text × List ℕ))
collect [] = []
collect ((name, buf) ∷ files) =
    let rest = collect files in
    let id = segment_id_from_filename name in if id == 0 then rest else (id, (name, buf)) ∷ rest

-- `<` of two pairs of an id and a path.
abbrev pub lower : ℕ × (Text × List ℕ) → ℕ × (Text × List ℕ) → Bool
lower a b = if a.0 == b.0 then before a.1.0 b.1.0 else ltb a.0 b.0

abbrev pub segments_of : List (Text × List ℕ) → List (ℕ × List ℕ)
segments_of files = map (λ s. (s.0, s.1.1)) (stable_sort lower (collect files))

-- `load`, of the files of the directory, in whatever order they are listed. Each can be read.
unfoldable pub load_all : List (Text × List ℕ) → WalReader
load_all files =
    let w = load_segments empty_reader (segments_of files) in
    record w { records = stable_sort earlier w.records; index = finalize w.index }

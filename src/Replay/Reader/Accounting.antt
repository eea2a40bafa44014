-- ===== src/Replay/Reader/Accounting.antt =====
-- src/replay/wal_reader.cpp: how the scan accounts for the bytes of a segment.
use av_hil_validation_platfo.Base.Lists.{length}
use av_hil_validation_platfo.Base.Memory.{Memory, advance, load, bytes_from}
use av_hil_validation_platfo.Base.Tests.{leb, Bool-cases}
use av_hil_validation_platfo.Replay.Record.{
  RecordHeader, RecordError, ok, default_record, decode_record, record_header_size,
}
use av_hil_validation_platfo.Replay.Record.Safety.{
  IsRecord, decode_record-IsRecord, decode_record-read_record,
}
use av_hil_validation_platfo.Replay.Reader.{
  ReplayRecord, WalReader, Scan, take_record, skip_byte, on_verdict, scan_step, scan, load_segment,
}
use av_hil_validation_platfo.Base.{
  ℕ, zero, suc, ◌+◌, ◌-◌, ◌≤◌, ◌<◌, ◌≡◌, refl, inl, inr, false, some, List, [], ◌∷◌, ◌++◌, arith,
}

-- The bytes of the records that were kept.
pub kept_bytes : List ReplayRecord → ℕ
kept_bytes [] = 0
kept_bytes (r ∷ rs) = r.header.record_length + kept_bytes rs

kept_bytes-snoc :
    (rs : List ReplayRecord) (r : ReplayRecord)
    → kept_bytes (rs ++ (r ∷ [])) ≡ kept_bytes rs + r.header.record_length
unfolding kept_bytes
kept_bytes-snoc [] r = omega arith
kept_bytes-snoc (x ∷ xs) r = omega (arith, kept_bytes-snoc xs r)

abbrev pub accounted : WalReader → ℕ
accounted w = kept_bytes w.records + w.stats.bytes_skipped

-- A step forward that accounts for the bytes it passes.
record Advances (size : ℕ) (s t : Scan) : Type 0 where
  forward : s.pos < t.pos
  inside : t.pos ≤ size
  exact : accounted t.reader + s.pos ≡ accounted s.reader + t.pos

module _ (m : Memory) (size seg_id : ℕ) (s : Scan) (room : s.pos + 30 ≤ size) where
  abbrev verdict : RecordError × RecordHeader
  verdict = decode_record (some (advance m s.pos)) (size - s.pos) default_record

  record_fits :
      verdict.0 ≡ ok → (34 ≤ verdict.1.record_length) × (s.pos + verdict.1.record_length ≤ size)
  record_fits h =
      let r : IsRecord (advance m s.pos) (size - s.pos) =
        (decode_record-IsRecord (advance m s.pos) (size - s.pos) default_record).0 h in
      rw (decode_record-read_record (advance m s.pos) (size - s.pos) default_record h)
        (omega (arith, r.matches, r.enough))

  take_record-Advances : verdict.0 ≡ ok → Advances size s (take_record m seg_id verdict.1 s)
  unfolding take_record
  take_record-Advances h =
      let fits = record_fits h in
      let rr : ReplayRecord = record {
        header = verdict.1;
        payload = bytes_from m (s.pos + record_header_size) verdict.1.payload_size;
      } in
      record {
        forward = omega arith;
        inside = omega arith;
        exact = omega (arith, kept_bytes-snoc s.reader.records rr);
      }

  skip_byte-Advances : Advances size s (skip_byte s)
  unfolding skip_byte
  skip_byte-Advances = record { forward = omega arith; inside = omega arith; exact = omega arith }

  on_verdict-Advances :
      (e : RecordError)
      → verdict.0 ≡ e
      → Advances size s (on_verdict e (take_record m seg_id verdict.1 s) (skip_byte s))
  on_verdict-Advances ok h = take_record-Advances h
  on_verdict-Advances _ h = skip_byte-Advances

  scan_step-Advances : Advances size s (scan_step m size seg_id s)
  unfolding scan_step
  scan_step-Advances = on_verdict-Advances verdict.0 refl

-- The loop has ended by its test, inside the segment, with every byte it passed accounted for.
pub record Ended (size : ℕ) (s t : Scan) : Type 0 where
  pub inside : t.pos ≤ size
  pub finished : size < t.pos + 30
  pub exact : accounted t.reader + s.pos ≡ accounted s.reader + t.pos

-- With one round of fuel for each byte that is left, the loop of `load` ends by its own test: fewer
-- than 30 bytes remain, it never passed the end, and the bytes of the records it kept and those it
-- counted as skipped are the bytes it passed.
pub scan-Ended :
    (fuel : ℕ) (m : Memory) (size seg_id : ℕ) (s : Scan)
    → s.pos ≤ size
    → size ≤ s.pos + fuel
    → Ended size s (scan fuel m size seg_id s)
unfolding scan
scan-Ended zero m size seg_id s p q = record {
  inside = omega arith;
  finished = omega arith;
  exact = omega arith;
}
scan-Ended (suc fuel) m size seg_id s p q = elim (Bool-cases (leb (s.pos + 30) size)) [
  | inl go ↦
      let room : s.pos + 30 ≤ size = ground arith in
      let step : Advances size s (scan_step m size seg_id s) =
        scan_step-Advances m size seg_id s room in
      let rest : Ended size (scan_step m size seg_id s)
          (scan fuel m size seg_id (scan_step m size seg_id s)) =
        scan-Ended fuel m size seg_id (scan_step m size seg_id s) step.inside
          (omega (arith, step.forward)) in
      rw (go, scan)
        (record {
          inside = rest.inside;
          finished = rest.finished;
          exact = omega (arith, step.exact, rest.exact);
        })
  | inr stop ↦ rw (stop, scan) (record { inside = p; finished = ground arith; exact = omega arith })
]

-- Of a segment of any bytes, the bytes of the records that loading it adds and those that it counts
-- as skipped make up the segment exactly.
pub accounted-load_segment :
    (w : WalReader) (seg_id : ℕ) (buf : List ℕ)
    → accounted (load_segment w seg_id buf) ≡ accounted w + length buf
unfolding load_segment
accounted-load_segment w seg_id buf =
    let start : Scan = record {
      reader = record w { stats = record (w.stats) { segments_read = w.stats.segments_read + 1 } };
      pos = 0;
      in_skip_run = false;
    } in
    let e : Ended (length buf) start (scan (length buf) (load buf) (length buf) seg_id start) =
      scan-Ended (length buf) (load buf) (length buf) seg_id start (omega arith) (omega arith) in
    ground (arith, e.inside, e.exact)

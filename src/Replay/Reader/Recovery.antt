-- ===== src/Replay/Reader/Recovery.antt =====
-- src/replay/wal_reader.cpp: the scan of segments that hold intact records.
use mathlib.Core.List.{map-append}
use mathlib.Core.Path.{subst}
use av_hil_validation_platfo.Base.Lists.{
  length, length-append, get_or-append_left, get_or-append_right,
}
use av_hil_validation_platfo.Base.Memory.{Memory, advance, load, bytes_from, bytes_from-load}
use av_hil_validation_platfo.Base.Tests.{leb_of_le, leb_of_lt, ==_of_ne}
use av_hil_validation_platfo.Protocol.Frame.{SensorType}
use av_hil_validation_platfo.Replay.Record.{ok, default_record, encode_record, decode_record}
use av_hil_validation_platfo.Protocol.Codec.Layout.{le4}
use av_hil_validation_platfo.Replay.Record.Layout.{record_fields, record_crc, encode_record_lem}
use av_hil_validation_platfo.Replay.Record.RoundTrip.{
  IsRecordable, recorded_header, decode_record-encode_record,
}
use av_hil_validation_platfo.Replay.Reader.{
  ReplayRecord, WalReader, Scan, scan_step, scan, skip_tail, load_segment,
}
use av_hil_validation_platfo.Base.{
  ℕ, zero, suc, ◌+◌, ◌-◌, ◌≤◌, ◌<◌, ◌≡◌, refl, ap, sym, ◌∙◌, false, some, List, [], ◌∷◌, ◌++◌, map,
  append-nil, append_assoc, arith,
}

-- The arguments of one call of `append`.
pub record Entry : Type 0 where
  pub timestamp_ns : ℕ
  pub sensor_type : SensorType
  pub sequence : ℕ
  pub payload : List ℕ

abbrev pub IsLoggable : Entry → Type 0
IsLoggable e = IsRecordable e.timestamp_ns e.sensor_type e.sequence (length e.payload)

abbrev pub encoded : Entry → List ℕ
encoded e =
    encode_record e.timestamp_ns e.sensor_type e.sequence (load e.payload) (length e.payload)

-- The record that the reader is meant to give back.
abbrev pub recorded : Entry → ReplayRecord
recorded e = record {
  header =
      recorded_header e.timestamp_ns e.sensor_type e.sequence (load e.payload) (length e.payload);
  payload = e.payload;
}

abbrev pub AllLoggable : List Entry → Type 0
AllLoggable [] = Unit
AllLoggable (e ∷ es) = IsLoggable e × AllLoggable es

abbrev pub encoded_all : List Entry → List ℕ
encoded_all [] = []
encoded_all (e ∷ es) = encoded e ++ encoded_all es

-- The parts of the reader that do not depend on where the records stand.
abbrev pub WithRecords : WalReader → List Entry → WalReader → Type 0
WithRecords w es w' =
    (w'.records ≡ w.records ++ map recorded es)
    × (w'.stats.records_ok ≡ w.stats.records_ok + length es)
    × (w'.stats.records_corrupt_skipped ≡ w.stats.records_corrupt_skipped)
    × (w'.stats.bytes_skipped ≡ w.stats.bytes_skipped)
    × (w'.stats.segments_read ≡ w.stats.segments_read)

module _ (before : List ℕ) (e : Entry) (after : List ℕ) (h : IsLoggable e) where
  abbrev buf : List ℕ
  buf = before ++ (encoded e ++ after)

  abbrev at_record : Memory
  at_record = advance (load buf) (length before)

  length-encoded : length (encoded e) ≡ 34 + length e.payload
  length-encoded =
      (decode_record-encode_record e.timestamp_ns e.sensor_type e.sequence (load e.payload)
        (length e.payload) (load (encoded e)) (34 + length e.payload) default_record h (λ j p. refl)
        (omega arith)).1

  length-buf : length buf ≡ length before + (34 + length e.payload + length after)
  length-buf = omega (
    arith,
    length-append before (encoded e ++ after),
    length-append (encoded e) after,
    length-encoded,
  )

  decode_there :
      decode_record (some at_record) (length buf - length before) default_record
      ≡ (ok, (recorded e).header)
  decode_there =
      (decode_record-encode_record e.timestamp_ns e.sensor_type e.sequence (load e.payload)
        (length e.payload) at_record (length buf - length before) default_record h there
        (omega (arith, length-buf))).0
    where
      there : (j : ℕ) → j < 34 + length e.payload → at_record j ≡ load (encoded e) j
      there j p =
          get_or-append_right before (encoded e ++ after) j (length before + j) 0 refl
          ∙ get_or-append_left (encoded e) after j 0 (omega (arith, length-encoded))

  payload_there : bytes_from (load buf) (length before + 30) (length e.payload) ≡ e.payload
  payload_there =
      ap (λ (l : List ℕ). bytes_from (load l) (length before + 30) (length e.payload)) spelled_out
      ∙ bytes_from-load (before ++ own) e.payload (trailer ++ after) (length before + 30)
          (omega (arith, length-append before own))
    where
      own : List ℕ
      own =
          record_fields e.timestamp_ns e.sensor_type e.sequence (load e.payload) (length e.payload)

      trailer : List ℕ
      trailer =
          le4
            (record_crc e.timestamp_ns e.sensor_type e.sequence (load e.payload) (length e.payload))

      whole : bytes_from (load e.payload) 0 (length e.payload) ≡ e.payload
      whole =
          ap (λ (l : List ℕ). bytes_from (load l) 0 (length e.payload)) (sym (append-nil e.payload))
          ∙ bytes_from-load [] e.payload [] 0 refl

      regroup : (a b c d t : List ℕ) → a ++ (((b ++ c) ++ d) ++ t) ≡ (a ++ b) ++ (c ++ (d ++ t))
      regroup a b c d t = simp append_assoc

      spelled_out : buf ≡ (before ++ own) ++ (e.payload ++ (trailer ++ after))
      spelled_out =
          ap (λ (l : List ℕ). before ++ (l ++ after))
            (encode_record_lem e.timestamp_ns e.sensor_type e.sequence (load e.payload)
              (length e.payload))
          ∙ ap (λ (l : List ℕ). before ++ (((own ++ l) ++ trailer) ++ after)) whole
          ∙ regroup before own e.payload trailer after

  scan_step-encoded :
      (s : Scan) (seg_id : ℕ)
      → s.pos ≡ length before
      → let t = scan_step (load buf) (length buf) seg_id s in
        WithRecords s.reader (e ∷ []) t.reader
        × (t.pos ≡ length (before ++ encoded e))
        × (t.in_skip_run ≡ false)
  unfolding scan_step
  scan_step-encoded s seg_id p = rw p (
      rw decode_there (
        (
          ap
              (λ (l : List ℕ).
                s.reader.records ++ (record { header = (recorded e).header; payload = l } ∷ []))
              payload_there,
          refl,
          refl,
          refl,
          refl,
        ),
        omega (arith, length-append before (encoded e), length-encoded),
        refl,
      ))

WithRecords-trans :
    (es fs : List Entry) (u v w : WalReader)
    → WithRecords u es v
    → WithRecords v fs w
    → WithRecords u (es ++ fs) w
WithRecords-trans es fs u v w a b = (
  b.0
      ∙ ap (λ (l : List ReplayRecord). l ++ map recorded fs) a.0
      ∙ append_assoc u.records (map recorded es) (map recorded fs)
      ∙ ap (λ (l : List ReplayRecord). u.records ++ l) (sym (map-append recorded es fs)),
  omega (arith, a.1, b.1, length-append es fs),
  b.2 ∙ a.2,
  b.3 ∙ a.3,
  b.4 ∙ a.4,
)

-- Where the scan stands once it has been through the entries.
record Through (s : Scan) (before : List ℕ) (es : List Entry) (t : Scan) : Type 0 where
  added : WithRecords s.reader es t.reader
  at_end : t.pos ≡ length (before ++ encoded_all es)
  not_skipping : t.in_skip_run ≡ false

module _ (seg_id : ℕ) (after : List ℕ) where
  scan-encoded_all :
      (es : List Entry) (before : List ℕ) (s : Scan) (rounds fuel : ℕ) (bytes : List ℕ)
      → rounds ≡ length es + fuel
      → bytes ≡ before ++ (encoded_all es ++ after)
      → AllLoggable es
      → s.pos ≡ length before
      → s.in_skip_run ≡ false
      → (t : Scan) × Through s before es t
        × (scan rounds (load bytes) (length bytes) seg_id s
            ≡ scan fuel (load bytes) (length bytes) seg_id t)
  unfolding scan
  scan-encoded_all [] before s rounds fuel bytes eq eb h p q = (
    s,
    record {
      added = (sym (append-nil s.reader.records), omega arith, refl, refl, refl);
      at_end = p ∙ ap length (sym (append-nil before));
      not_skipping = q;
    },
    ap (λ (k : ℕ). scan k (load bytes) (length bytes) seg_id s)
        (let r : rounds ≡ fuel = omega arith in r),
  )
  scan-encoded_all (e ∷ es) before s zero fuel bytes eq eb h p q = absurd (omega arith)
  scan-encoded_all (e ∷ es) before s (suc rounds) fuel bytes eq eb h p q =
      let s' : Scan = scan_step (load bytes) (length bytes) seg_id s in
      let eb' : bytes ≡ before ++ (encoded e ++ (encoded_all es ++ after)) =
        eb ∙ ap (λ (l : List ℕ). before ++ l) (append_assoc (encoded e) (encoded_all es) after) in
      let step : WithRecords s.reader (e ∷ []) s'.reader
          × (s'.pos ≡ length (before ++ encoded e))
          × (s'.in_skip_run ≡ false) =
        subst
          (λ (b : List ℕ).
            let t = scan_step (load b) (length b) seg_id s in
            WithRecords s.reader (e ∷ []) t.reader
            × (t.pos ≡ length (before ++ encoded e))
            × (t.in_skip_run ≡ false))
          (sym eb') (scan_step-encoded before e (encoded_all es ++ after) h.0 s seg_id p) in
      let room : s.pos + 30 ≤ length bytes =
        omega (arith, ap length eb', length-buf before e (encoded_all es ++ after) h.0) in
      let (t, th, run) =
        scan-encoded_all es (before ++ encoded e) s' rounds fuel bytes (omega arith)
          (eb' ∙ sym (append_assoc before (encoded e) (encoded_all es ++ after))) h.1 step.1
          step.2 in
      (
        t,
        record {
          added = WithRecords-trans (e ∷ []) es s.reader s'.reader t.reader step.0 th.added;
          at_end = th.at_end ∙ ap length (append_assoc before (encoded e) (encoded_all es));
          not_skipping = th.not_skipping;
        },
        rw (leb_of_le (s.pos + 30) (length bytes) room, scan) run,
      )

length-encoded_all : (es : List Entry) → AllLoggable es → length es ≤ length (encoded_all es)
length-encoded_all [] h = omega arith
length-encoded_all (e ∷ es) h = omega (
  arith,
  length-encoded [] e [] h.0,
  length-append (encoded e) (encoded_all es),
  length-encoded_all es h.1,
)

-- The loop stops where less than a header is left.
scan_at_end :
    (fuel : ℕ) (m : Memory) (size seg_id : ℕ) (s : Scan)
    → size < s.pos + 30
    → scan fuel m size seg_id s ≡ s
unfolding scan
scan_at_end zero m size seg_id s h = refl
scan_at_end (suc fuel) m size seg_id s h = rw (leb_of_lt (s.pos + 30) size h, scan)

abbrev started : WalReader → Scan
started w = record {
  reader = record w { stats = record (w.stats) { segments_read = w.stats.segments_read + 1 } };
  pos = 0;
  in_skip_run = false;
}

-- A scan that went through the whole of a segment leaves no tail.
skip_tail_at_end : (size : ℕ) (s : Scan) → s.pos ≡ size → skip_tail size s ≡ s.reader
unfolding skip_tail
skip_tail_at_end size s h = ground (arith, h)

abbrev loaded : WalReader → ℕ → List ℕ → WalReader
loaded w seg_id bytes =
    skip_tail (length bytes) (scan (length bytes) (load bytes) (length bytes) seg_id (started w))

load_segment_nonempty :
    (w : WalReader) (seg_id : ℕ) (bytes : List ℕ)
    → 0 < length bytes
    → load_segment w seg_id bytes ≡ loaded w seg_id bytes
unfolding load_segment
load_segment_nonempty w seg_id bytes h = rw (==_of_ne (length bytes) 0 (omega arith)) refl

-- A segment that consists of encoded records gives back exactly those, in order and unchanged, with
-- nothing counted as skipped or corrupt.
pub load_segment-encoded_all :
    (w : WalReader) (seg_id : ℕ) (es : List Entry)
    → AllLoggable es
    → let w' = load_segment w seg_id (encoded_all es) in
      (w'.records ≡ w.records ++ map recorded es)
      × (w'.stats ≡ record {
        records_ok = w.stats.records_ok + length es;
        records_corrupt_skipped = w.stats.records_corrupt_skipped;
        bytes_skipped = w.stats.bytes_skipped;
        segments_read = w.stats.segments_read + 1;
      })
unfolding load_segment
load_segment-encoded_all w seg_id [] h = (
  sym (append-nil w.records),
  ap (λ (k : ℕ). record (w.stats) { records_ok = k; segments_read = w.stats.segments_read + 1 })
      (let r : w.stats.records_ok ≡ w.stats.records_ok + 0 = omega arith in r),
)
load_segment-encoded_all w seg_id (e ∷ es) h =
    let bytes = encoded_all (e ∷ es) in
    let (t, th, run) =
      scan-encoded_all seg_id [] (e ∷ es) [] (started w) (length bytes)
        (length bytes - length (e ∷ es)) bytes (omega (arith, length-encoded_all (e ∷ es) h))
        (sym (append-nil bytes)) h refl refl in
    let ended : scan (length bytes) (load bytes) (length bytes) seg_id (started w) ≡ t =
      run
      ∙ scan_at_end (length bytes - length (e ∷ es)) (load bytes) (length bytes) seg_id t
          (omega (arith, th.at_end)) in
    let result : load_segment w seg_id bytes ≡ t.reader =
      load_segment_nonempty w seg_id bytes (omega (arith, length-encoded_all (e ∷ es) h))
      ∙ ap (skip_tail (length bytes)) ended
      ∙ skip_tail_at_end (length bytes) t th.at_end in
    (
      ap (λ (r : WalReader). r.records) result ∙ th.added.0,
      ap (λ (r : WalReader). r.stats) result ∙ cc (th.added.1, th.added.2, th.added.3, th.added.4),
    )

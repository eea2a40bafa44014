-- ===== src/Replay/Writer/Recovered.antt =====
-- src/replay/wal_writer.cpp and wal_reader.cpp: writing a log and reading it back.
use mathlib.Core.Path.{subst}
use mathlib.Core.List.{append-nil, append_assoc, map-append}
use av_hil_validation_platfo.Base.Text.{Text}
use av_hil_validation_platfo.Replay.Segment.{segment_filename}
use av_hil_validation_platfo.Replay.Segment.RoundTrip.{segment_id_from_filename-segment_filename}
use av_hil_validation_platfo.Base.Lists.{All-append, length, length-append}
use av_hil_validation_platfo.Base.Tests.{ltb}
use av_hil_validation_platfo.Replay.Reader.{
  ReplayRecord, WalReader, empty_reader, load_segment, load_segments,
}
use av_hil_validation_platfo.Replay.Reader.Recovery.{
  Entry, AllLoggable, encoded_all, recorded, load_segment-encoded_all,
}
use av_hil_validation_platfo.Replay.Writer.{Directory, WalWriter, new_writer, close}
use av_hil_validation_platfo.Base.{
  ℕ, suc, ◌+◌, ◌^◌, ◌≤◌, ◌<◌, arith, ◌≡◌, refl, ap, sym, ◌∙◌, false, List, [], ◌∷◌, ◌++◌, map,
}
use av_hil_validation_platfo.Replay.Writer.Logged.{
  healthy, append_all, all_true, HasNoSegment, segments_from, named, flatten, EachLoggable, Logs,
  flatten-snoc, named-snoc, append_all_lem, new_writer-Logs,
}
use av_hil_validation_platfo.Base.Sort.{insert_sorted, stable_sort, stable_sort-perm}
use av_hil_validation_platfo.Base.Tests.{◌==◌}
use av_hil_validation_platfo.Replay.Reader.{collect, lower, segments_of, load_all, earlier}
use av_hil_validation_platfo.Replay.Reader.Playback.{InOrder, load_all-InOrder}
use mathlib.Core.List.{Perm}

-- Files of a log that hold the entries, in order.
abbrev pub Holds : List (ℕ × List ℕ) → List Entry → Type 0
Holds [] es = es ≡ []
Holds ((id, bytes) ∷ files) es =
    (here : List Entry) × (rest : List Entry) × (bytes ≡ encoded_all here)
    × AllLoggable here
    × (es ≡ here ++ rest)
    × Holds files rest

Holds-snoc :
    (files : List (ℕ × List ℕ)) (es : List Entry) (id : ℕ) (bytes : List ℕ) (here : List Entry)
    → Holds files es
    → bytes ≡ encoded_all here
    → AllLoggable here
    → Holds (files ++ ((id, bytes) ∷ [])) (es ++ here)
Holds-snoc [] es id bytes here h e l =
    (here, [], e, l, ap (λ (t : List Entry). t ++ here) h ∙ sym (append-nil here), refl)
Holds-snoc ((i, b) ∷ files) es id bytes here (first, rest, eb, l1, split, h) e l = (
  first,
  rest ++ here,
  eb,
  l1,
  ap (λ (t : List Entry). t ++ here) split ∙ append_assoc first rest here,
  Holds-snoc files rest id bytes here h e l,
)

load_segments-Holds :
    (files : List (ℕ × List ℕ)) (es : List Entry) (w : WalReader)
    → Holds files es
    → let w' = load_segments w files in
      (w'.records ≡ w.records ++ map recorded es)
      × (w'.stats.records_corrupt_skipped ≡ w.stats.records_corrupt_skipped)
unfolding load_segments
load_segments-Holds [] es w h = (
  sym (append-nil w.records) ∙ ap (λ (t : List Entry). w.records ++ map recorded t) (sym h),
  refl,
)
load_segments-Holds ((id, bytes) ∷ files) es w (here, rest, eb, l, split, h) =
    let first =
      subst
        (λ (b : List ℕ).
          let w' = load_segment w id b in
          (w'.records ≡ w.records ++ map recorded here)
          × (w'.stats.records_corrupt_skipped ≡ w.stats.records_corrupt_skipped))
        (sym eb)
        (
          (load_segment-encoded_all w id here l).0,
          ap (λ t. t.records_corrupt_skipped) (load_segment-encoded_all w id here l).1,
        ) in
    let others = load_segments-Holds files rest (load_segment w id bytes) h in
    (
      others.0
          ∙ ap (λ (t : List ReplayRecord). t ++ map recorded rest) first.0
          ∙ append_assoc w.records (map recorded here) (map recorded rest)
          ∙ ap (λ (t : List ReplayRecord). w.records ++ t) (sym (map-append recorded here rest))
          ∙ ap (λ (t : List Entry). w.records ++ map recorded t) (sym split),
      others.1 ∙ first.1,
    )

Holds-segments_from :
    (id : ℕ) (groups : List (List Entry))
    → EachLoggable groups
    → Holds (segments_from id groups) (flatten groups)
Holds-segments_from id [] l = refl
Holds-segments_from id (here ∷ rest) (l, ls) =
    (here, flatten rest, refl, l, refl, Holds-segments_from (suc id) rest ls)

-- Files that are of no segment are left out.
collect-append :
    (found files : Directory) → HasNoSegment found → collect (found ++ files) ≡ collect files
unfolding collect
collect-append [] files h = refl
collect-append ((name, bytes) ∷ found) files (e, h) = rw e (collect-append found files h)

-- The segments with the names of their files.
abbrev tagged : List (ℕ × List ℕ) → List (ℕ × (Text × List ℕ))
tagged [] = []
tagged ((id, bytes) ∷ segments) = (id, (segment_filename id, bytes)) ∷ tagged segments

collect-named :
    (id : ℕ) (groups : List (List Entry))
    → 0 < id
    → id + length groups ≤ 2 ^ 32
    → collect (named (segments_from id groups)) ≡ tagged (segments_from id groups)
unfolding collect
collect-named id [] h b = refl
collect-named id (here ∷ rest) h b =
    let positive : (id == 0) ≡ false = ground (arith, h) in
    rw (segment_id_from_filename-segment_filename id (omega (arith, b)), positive)
      (ap (λ (l : List (ℕ × (Text × List ℕ))). (id, (segment_filename id, encoded_all here)) ∷ l)
        (collect-named (suc id) rest (omega arith) (omega (arith, b))))

insert_sorted-lowest :
    (id : ℕ) (file : Text × List ℕ) (groups : List (List Entry))
    → insert_sorted lower (id, file) (tagged (segments_from (suc id) groups))
      ≡ (id, file) ∷ tagged (segments_from (suc id) groups)
unfolding insert_sorted
insert_sorted-lowest id file [] = refl
insert_sorted-lowest id file (here ∷ rest) =
    let other : (suc id == id) ≡ false = ground arith in
    let above : ltb (suc id) id ≡ false = ground arith in rw (other, above) refl

stable_sort-tagged :
    (id : ℕ) (groups : List (List Entry))
    → stable_sort lower (tagged (segments_from id groups)) ≡ tagged (segments_from id groups)
unfolding stable_sort
stable_sort-tagged id [] = refl
stable_sort-tagged id (here ∷ rest) =
    let file : Text × List ℕ = (segment_filename id, encoded_all here) in
    ap (insert_sorted lower (id, file)) (stable_sort-tagged (suc id) rest)
    ∙ insert_sorted-lowest id file rest

map-tagged :
    (id : ℕ) (groups : List (List Entry))
    → map (λ s. (s.0, s.1.1)) (tagged (segments_from id groups)) ≡ segments_from id groups
map-tagged id [] = refl
map-tagged id (here ∷ rest) =
    ap (λ (l : List (ℕ × List ℕ)). (id, encoded_all here) ∷ l) (map-tagged (suc id) rest)

segments_of-named :
    (found : Directory) (groups : List (List Entry))
    → HasNoSegment found
    → length groups < 2 ^ 32
    → segments_of (found ++ named (segments_from 1 groups)) ≡ segments_from 1 groups
segments_of-named found groups none_there b =
    ap (λ (l : List (ℕ × (Text × List ℕ))). map (λ s. (s.0, s.1.1)) (stable_sort lower l))
      (collect-append found (named (segments_from 1 groups)) none_there
        ∙ collect-named 1 groups (omega arith) (omega (arith, b)))
    ∙ ap (map (λ s. (s.0, s.1.1))) (stable_sort-tagged 1 groups)
    ∙ map-tagged 1 groups

load_all-Logs :
    (found : Directory) (n : ℕ) (w : WalWriter) (es : List Entry)
    → HasNoSegment found
    → n + 1 < 2 ^ 32
    → Logs found n w es
    → let reader = load_all (close w).files in
      Perm reader.records (map recorded es) × (reader.stats.records_corrupt_skipped ≡ 0)
unfolding load_all close
load_all-Logs found n w es none_there b h =
    let groups = h.groups ++ h.here ∷ [] in
    let few = h.few in
    let segments : segments_of w.files ≡ segments_from 1 groups =
      ap segments_of (h.in_files ∙ named-snoc found h.groups h.here)
      ∙ segments_of-named found groups none_there
          (omega (arith, few, b, length-append h.groups (h.here ∷ []))) in
    let loaded = load_segments-Holds (segments_from 1 groups) (flatten groups) empty_reader (
      Holds-segments_from 1 groups
        (All-append AllLoggable h.groups (h.here ∷ []) h.before_loggable (h.loggable, tt))) in
    let records : (load_segments empty_reader (segments_of w.files)).records ≡ map recorded es =
      ap (λ (l : List (ℕ × List ℕ)). (load_segments empty_reader l).records) segments
      ∙ loaded.0
      ∙ ap (map recorded) (flatten-snoc h.groups h.here ∙ sym h.split) in
    (
      subst (λ (l : List ReplayRecord). Perm (stable_sort earlier l) (map recorded es))
          (sym records) (stable_sort-perm earlier (map recorded es)),
      ap (λ (l : List (ℕ × List ℕ)). (load_segments empty_reader l).stats.records_corrupt_skipped)
            segments
          ∙ loaded.1,
    )

-- In a directory in which no name is of a segment, on a disk on which every operation succeeds, for any
-- limit of the segments and for fewer than 2^32 - 1 entries within the limits of a record: every
-- `append` returns true, and after `close` a reader that loads the directory has exactly the records of
-- the entries, each once and unchanged, in the order of time and at equal times of sequence numbers,
-- and nothing counted as corrupt.
pub append_all_recovered :
    (segment_bytes : ℕ) (found : Directory) (es : List Entry)
    → HasNoSegment found
    → length es + 1 < 2 ^ 32
    → AllLoggable es
    → let r = append_all (healthy found) es (new_writer segment_bytes (healthy found)) in
      let reader = load_all (close r.1).files in
      (r.0 ≡ all_true es)
      × Perm reader.records (map recorded es)
      × InOrder reader.records
      × (reader.stats.records_corrupt_skipped ≡ 0)
append_all_recovered segment_bytes found es none_there few l =
    let w = new_writer segment_bytes (healthy found) in
    let written =
      append_all_lem found none_there es 0 w [] (omega (arith, few))
        (new_writer-Logs found none_there segment_bytes) l in
    let ended = (append_all (healthy found) es w).1 in
    let loaded =
      load_all-Logs found (0 + length es) ended es none_there (omega (arith, few)) written.1 in
    (written.0, loaded.0, load_all-InOrder (close ended).files, loaded.1)

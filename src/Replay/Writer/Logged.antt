-- ===== src/Replay/Writer/Logged.antt =====
-- src/replay/wal_writer.cpp: what is in the directory of a log after records were appended.
use mathlib.Core.Path.{subst}
use mathlib.Core.List.{append-nil, append_assoc}
use av_hil_validation_platfo.Base.Text.{Text, same, same_self, eq_of_same}
use av_hil_validation_platfo.Replay.Segment.{segment_filename, segment_id_from_filename}
use av_hil_validation_platfo.Replay.Segment.RoundTrip.{segment_id_from_filename-segment_filename}
use av_hil_validation_platfo.Base.Lists.{All, All-append, length, length-append}
use av_hil_validation_platfo.Base.Memory.{load}
use av_hil_validation_platfo.Base.Tests.{ltb, ltb_of_le, Bool-cases}
use av_hil_validation_platfo.Replay.Record.{max_record_payload}
use av_hil_validation_platfo.Replay.Reader.Recovery.{
  Entry, IsLoggable, AllLoggable, encoded, encoded_all,
}
use av_hil_validation_platfo.Replay.Writer.{
  Directory, WalWriter, Disk, truncate, write_to, new_writer, open_new_segment, write_record,
  append,
}
use av_hil_validation_platfo.Base.{
  ℕ, suc, ◌+◌, ◌%◌, ◌^◌, ◌≤◌, ◌<◌, ◌≢◌, arith, ◌≡◌, refl, ap, ap₂, sym, ◌∙◌, inl, inr, Bool, true,
  false, ◌&&◌, List, [], ◌∷◌, ◌++◌,
}

-- A disk on which every operation succeeds.
abbrev pub healthy : Directory → Disk
healthy found = record { opens = true; writes = true; partial_write = []; found = found }

-- The calls of `append`, whether each returned true, and the writer after them.
abbrev pub append_all : Disk → List Entry → WalWriter → List Bool × WalWriter
append_all disk [] w = ([], w)
append_all disk (e ∷ es) w =
    let (ok, w1) =
      append w e.timestamp_ns e.sensor_type e.sequence (load e.payload) (length e.payload) disk in
    let rest = append_all disk es w1 in (ok ∷ rest.0, rest.1)

abbrev pub all_true : List Entry → List Bool
all_true [] = []
all_true (e ∷ es) = true ∷ all_true es

-- The names of a directory are of no segment.
abbrev pub HasNoSegment : Directory → Type 0
HasNoSegment found = All (λ f. segment_id_from_filename f.0 ≡ 0) found

-- The segments with the ids from `id` on.
abbrev pub segments_from : ℕ → List (List Entry) → List (ℕ × List ℕ)
segments_from id [] = []
segments_from id (here ∷ rest) = (id, encoded_all here) ∷ segments_from (suc id) rest

abbrev pub named : List (ℕ × List ℕ) → Directory
named [] = []
named ((id, bytes) ∷ segments) = (segment_filename id, bytes) ∷ named segments

named-append : (l k : List (ℕ × List ℕ)) → named (l ++ k) ≡ named l ++ named k
named-append [] k = refl
named-append ((id, bytes) ∷ l) k =
    ap (λ (fs : Directory). (segment_filename id, bytes) ∷ fs) (named-append l k)

abbrev Others : ℕ → Directory → Type 0
Others id files = All (λ f. segment_id_from_filename f.0 ≢ id) files

other_name :
    (name : Text) (id : ℕ)
    → id < 2 ^ 32
    → segment_id_from_filename name ≢ id
    → same name (segment_filename id) ≡ false
other_name name id h other = elim (Bool-cases (same name (segment_filename id))) [
  | inr e ↦ e
  | inl e ↦ absurd (
      other (
        ap segment_id_from_filename (eq_of_same name (segment_filename id) e)
        ∙ segment_id_from_filename-segment_filename id h))
]

truncate-Others :
    (id : ℕ) (files : Directory)
    → id < 2 ^ 32
    → Others id files
    → truncate (segment_filename id) files ≡ files ++ (segment_filename id, []) ∷ []
unfolding truncate
truncate-Others id [] h o = refl
truncate-Others id ((n, bytes) ∷ files) h (ne, o) =
    rw (other_name n id h ne)
      (ap (λ (fs : Directory). (n, bytes) ∷ fs) (truncate-Others id files h o))

write_to-Others :
    (id : ℕ) (bytes more : List ℕ) (files : Directory)
    → id < 2 ^ 32
    → Others id files
    → write_to (segment_filename id) more (files ++ (segment_filename id, bytes) ∷ [])
      ≡ files ++ (segment_filename id, bytes ++ more) ∷ []
unfolding write_to
write_to-Others id bytes more [] h o = rw (same_self (segment_filename id)) refl
write_to-Others id bytes more ((n, b) ∷ files) h (ne, o) =
    rw (other_name n id h ne)
      (ap (λ (fs : Directory). (n, b) ∷ fs) (write_to-Others id bytes more files h o))

segments_from-Others :
    (first : ℕ) (groups : List (List Entry)) (id : ℕ)
    → first + length groups ≤ id
    → id < 2 ^ 32
    → Others id (named (segments_from first groups))
segments_from-Others first [] id le h = tt
segments_from-Others first (here ∷ rest) id le h = (
  λ e. absurd (
      omega (
        arith,
        le,
        h,
        sym (segment_id_from_filename-segment_filename first (omega (arith, le, h))) ∙ e,
      )),
  segments_from-Others (suc first) rest id (omega (arith, le)) h,
)

HasNoSegment-Others : (found : Directory) (id : ℕ) → 0 < id → HasNoSegment found → Others id found
HasNoSegment-Others [] id h none_there = tt
HasNoSegment-Others (f ∷ found) id h (e, none_there) =
    ((λ g. absurd (omega (arith, h, sym e ∙ g))), HasNoSegment-Others found id h none_there)

abbrev pub flatten : List (List Entry) → List Entry
flatten [] = []
flatten (here ∷ rest) = here ++ flatten rest

abbrev pub EachLoggable : List (List Entry) → Type 0
EachLoggable groups = All AllLoggable groups

-- The directory holds what was found, and after it the entries: those of the segments before, and those
-- of the open one. At most `n` segments were opened before it.
pub record Logs (found : Directory) (n : ℕ) (w : WalWriter) (es : List Entry) : Type 0 where
  pub opened : w.is_open ≡ true
  pub fine : w.good ≡ true
  pub groups : List (List Entry)
  pub here : List Entry
  pub id_is : w.current_segment_id ≡ suc (length groups)
  pub few : length groups ≤ n
  pub in_files :
      w.files
      ≡ (found ++ named (segments_from 1 groups))
        ++ (segment_filename (suc (length groups)), encoded_all here) ∷ []
  pub before_loggable : EachLoggable groups
  pub loggable : AllLoggable here
  pub split : es ≡ flatten groups ++ here

encoded_all-snoc :
    (es : List Entry) (e : Entry) → encoded_all (es ++ (e ∷ [])) ≡ encoded_all es ++ encoded e
encoded_all-snoc [] e = append-nil (encoded e)
encoded_all-snoc (x ∷ es) e =
    ap (λ (t : List ℕ). encoded x ++ t) (encoded_all-snoc es e)
    ∙ sym (append_assoc (encoded x) (encoded_all es) (encoded e))

AllLoggable-snoc :
    (es : List Entry) (e : Entry) → AllLoggable es → IsLoggable e → AllLoggable (es ++ (e ∷ []))
AllLoggable-snoc [] e l h = (h, tt)
AllLoggable-snoc (x ∷ es) e l h = (l.0, AllLoggable-snoc es e l.1 h)

pub flatten-snoc :
    (groups : List (List Entry)) (here : List Entry)
    → flatten (groups ++ here ∷ []) ≡ flatten groups ++ here
flatten-snoc [] here = append-nil here
flatten-snoc (g ∷ groups) here =
    ap (λ (t : List Entry). g ++ t) (flatten-snoc groups here)
    ∙ sym (append_assoc g (flatten groups) here)

segments_from-snoc :
    (first : ℕ) (groups : List (List Entry)) (here : List Entry)
    → segments_from first (groups ++ here ∷ [])
      ≡ segments_from first groups ++ (first + length groups, encoded_all here) ∷ []
segments_from-snoc first [] here =
    ap (λ (id : ℕ). (id, encoded_all here) ∷ []) (let z : first ≡ first + 0 = omega arith in z)
segments_from-snoc first (g ∷ groups) here =
    ap (λ (t : List (ℕ × List ℕ)). (first, encoded_all g) ∷ t)
      (segments_from-snoc (suc first) groups here
        ∙ ap (λ (id : ℕ). segments_from (suc first) groups ++ (id, encoded_all here) ∷ [])
            (let z : suc first + length groups ≡ first + length (g ∷ groups) = omega arith in z))

-- The files with the open one are those of all segments.
pub named-snoc :
    (found : Directory) (groups : List (List Entry)) (here : List Entry)
    → (found ++ named (segments_from 1 groups))
        ++ (segment_filename (suc (length groups)), encoded_all here) ∷ []
      ≡ found ++ named (segments_from 1 (groups ++ here ∷ []))
named-snoc found groups here =
    let k = suc (length groups) in
    append_assoc found (named (segments_from 1 groups))
      ((segment_filename k, encoded_all here) ∷ [])
    ∙ ap (λ (fs : Directory). found ++ fs)
        (sym (named-append (segments_from 1 groups) ((k, encoded_all here) ∷ [])))
    ∙ ap (λ (id : ℕ). found ++ named (segments_from 1 groups ++ (id, encoded_all here) ∷ []))
        (let z : k ≡ 1 + length groups = omega arith in z)
    ∙ ap (λ (l : List (ℕ × List ℕ)). found ++ named l) (sym (segments_from-snoc 1 groups here))

module _ (found : Directory) (none_there : HasNoSegment found) where
  all-Others :
      (groups : List (List Entry)) (id : ℕ)
      → 1 + length groups ≤ id
      → id < 2 ^ 32
      → Others id (found ++ named (segments_from 1 groups))
  all-Others groups id le h =
      All-append (λ f. segment_id_from_filename f.0 ≢ id) found (named (segments_from 1 groups))
        (HasNoSegment-Others found id (omega (arith, le)) none_there)
        (segments_from-Others 1 groups id le h)

  Logs-open_new_segment :
      (n : ℕ) (w : WalWriter) (es : List Entry)
      → n + 2 < 2 ^ 32
      → Logs found n w es
      → Logs found (suc n) (open_new_segment w (healthy found)) es
  unfolding open_new_segment
  Logs-open_new_segment n w es bound h =
      let groups = h.groups ++ h.here ∷ [] in
      let count : length groups ≡ suc (length h.groups) =
        omega (arith, length-append h.groups (h.here ∷ [])) in
      let few = h.few in
      let id : (w.current_segment_id + 1) % 2 ^ 32 ≡ suc (length groups) =
        omega (arith, h.id_is, few, bound, count) in
      let files : w.files ≡ found ++ named (segments_from 1 groups) =
        h.in_files ∙ named-snoc found h.groups h.here in
      record {
        opened = refl;
        fine = refl;
        groups = groups;
        here = [];
        id_is = id;
        few = omega (arith, few, count);
        in_files =
            ap₂ (λ (i : ℕ) (fs : Directory). truncate (segment_filename i) fs) id files
            ∙ truncate-Others (suc (length groups)) (found ++ named (segments_from 1 groups))
                (omega (arith, few, bound, count))
                (all-Others groups (suc (length groups)) (omega arith)
                  (omega (arith, few, bound, count)));
        before_loggable =
            All-append AllLoggable h.groups (h.here ∷ []) h.before_loggable (h.loggable, tt);
        loggable = tt;
        split = h.split ∙ sym (flatten-snoc h.groups h.here) ∙ sym (append-nil (flatten groups));
      }

  write_record_lem :
      (n : ℕ) (w : WalWriter) (es : List Entry) (e : Entry)
      → n + 1 < 2 ^ 32
      → Logs found n w es
      → IsLoggable e
      → let r = write_record w e.timestamp_ns (encoded e) (healthy found) in
        (r.0 ≡ true) × Logs found n r.1 (es ++ (e ∷ []))
  unfolding write_record
  write_record_lem n w es e bound h l =
      let few = h.few in
      let k = suc (length h.groups) in
      rw (h.opened, h.fine)
        (
          refl,
          record {
            opened = refl;
            fine = refl;
            groups = h.groups;
            here = h.here ++ (e ∷ []);
            id_is = h.id_is;
            few = few;
            in_files =
                ap₂ (λ (i : ℕ) (fs : Directory). write_to (segment_filename i) (encoded e) fs)
                  h.id_is h.in_files
                ∙ write_to-Others k (encoded_all h.here) (encoded e)
                    (found ++ named (segments_from 1 h.groups)) (omega (arith, few, bound))
                    (all-Others h.groups k (omega arith) (omega (arith, few, bound)))
                ∙ ap
                    (λ (b : List ℕ).
                      (found ++ named (segments_from 1 h.groups)) ++ (segment_filename k, b) ∷ [])
                    (sym (encoded_all-snoc h.here e));
            before_loggable = h.before_loggable;
            loggable = AllLoggable-snoc h.here e h.loggable l;
            split =
                ap (λ (t : List Entry). t ++ (e ∷ [])) h.split
                ∙ append_assoc (flatten h.groups) h.here (e ∷ []);
          },
        )

  Logs-more :
      (n : ℕ) (w : WalWriter) (es : List Entry) → Logs found n w es → Logs found (suc n) w es
  Logs-more n w es h =
      let few = h.few in
      record {
        opened = h.opened;
        fine = h.fine;
        groups = h.groups;
        here = h.here;
        id_is = h.id_is;
        few = omega (arith, few);
        in_files = h.in_files;
        before_loggable = h.before_loggable;
        loggable = h.loggable;
        split = h.split;
      }

  append_lem :
      (n : ℕ) (w : WalWriter) (es : List Entry) (e : Entry)
      → n + 2 < 2 ^ 32
      → Logs found n w es
      → IsLoggable e
      → let r =
          append w e.timestamp_ns e.sensor_type e.sequence
            (load e.payload)
            (length e.payload)
            (healthy found) in
        (r.0 ≡ true) × Logs found (suc n) r.1 (es ++ (e ∷ []))
  unfolding append
  append_lem n w es e bound h l =
      rw (ltb_of_le max_record_payload (length e.payload) l.within_limit)
        (elim (Bool-cases (
          ltb 0 w.current_segment_offset
          && ltb w.segment_bytes (w.current_segment_offset + length (encoded e)))) [
            | inl roll ↦ rw roll (
                write_record_lem (suc n) (open_new_segment w (healthy found)) es e
                  (omega (arith, bound)) (Logs-open_new_segment n w es bound h) l)
            | inr stay ↦
                rw stay
                  (write_record_lem (suc n) w es e (omega (arith, bound)) (Logs-more n w es h) l)
          ])

  pub append_all_lem :
      (more : List Entry) (n : ℕ) (w : WalWriter) (es : List Entry)
      → n + length more + 1 < 2 ^ 32
      → Logs found n w es
      → AllLoggable more
      → let r = append_all (healthy found) more w in
        (r.0 ≡ all_true more) × Logs found (n + length more) r.1 (es ++ more)
  append_all_lem [] n w es bound h l = (
    refl,
    subst (λ (k : ℕ). Logs found k w (es ++ [])) (let z : n ≡ n + 0 = omega arith in z)
        (subst (Logs found n w) (sym (append-nil es)) h),
  )
  append_all_lem (e ∷ more) n w es bound h l =
      let w1 =
        (append w e.timestamp_ns e.sensor_type e.sequence (load e.payload) (length e.payload)
          (healthy found)).1 in
      let step = append_lem n w es e (omega (arith, bound)) h l.0 in
      let rest =
        append_all_lem more (suc n) w1 (es ++ (e ∷ [])) (omega (arith, bound)) step.1 l.1 in
      let r = (append_all (healthy found) more w1).1 in
      (
        ap₂ (λ (b : Bool) (bs : List Bool). b ∷ bs) step.0 rest.0,
        subst (λ (k : ℕ). Logs found k r (es ++ e ∷ more))
            (let z : suc n + length more ≡ n + length (e ∷ more) = omega arith in z)
            (subst (Logs found (suc n + length more) r) (append_assoc es (e ∷ []) more) rest.1),
      )

  pub new_writer-Logs :
      (segment_bytes : ℕ) → Logs found 0 (new_writer segment_bytes (healthy found)) []
  unfolding new_writer open_new_segment
  new_writer-Logs segment_bytes = record {
    opened = refl;
    fine = refl;
    groups = [];
    here = [];
    id_is = refl;
    few = omega arith;
    in_files =
        truncate-Others 1 found (omega arith) (HasNoSegment-Others found 1 (omega arith) none_there)
        ∙ ap (λ (fs : Directory). fs ++ (segment_filename 1, []) ∷ []) (sym (append-nil found));
    before_loggable = tt;
    loggable = tt;
    split = refl;
  }

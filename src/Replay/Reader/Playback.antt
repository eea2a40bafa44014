-- ===== src/Replay/Reader/Playback.antt =====
-- src/replay/wal_reader.cpp: `replay`, which hands the records of a log to a callback.
use mathlib.Core.Path.{subst}
use mathlib.Core.List.{Perm}
use mathlib.Core.List.Perm
use av_hil_validation_platfo.Base.Double.{Double}
use av_hil_validation_platfo.Base.Lists.{All, length}
use av_hil_validation_platfo.Base.Sort.{
  IsNotBelow, IsSorted, stable_sort, stable_sort-IsSorted, insert_sorted,
}
use av_hil_validation_platfo.Base.Tests.{ltb, leb, if◌then◌else◌, Bool-cases}
use av_hil_validation_platfo.Base.Text.{Text}
use av_hil_validation_platfo.Replay.Reader.{
  ReplayRecord, WalReader, earlier, load_all, segments_of, load_segments, empty_reader,
}
use av_hil_validation_platfo.Base.{
  ℕ, ◌+◌, ◌-◌, ◌%◌, ◌^◌, ◌<◌, ◌≤◌, ◌⊎◌, ◌≡◌, refl, sym, ap, ◌∙◌, inl, inr, true, false, Option,
  none, some, List, [], append-nil, ◌∷◌, ◌++◌, map, arith,
}

pub data ReplayMode : Type 0 where
  deterministic real_time fast : ReplayMode

-- A call of the callback, and how many nanoseconds after the start of the replay it was put off to.
pub record Delivery : Type 0 where
  pub delivered : ReplayRecord
  pub wait_ns : Option ℕ

-- `std::lower_bound` on the sorted records: those from the first that is not before `start_ns`.
unfoldable pub records_from : List ReplayRecord → ℕ → List ReplayRecord
records_from [] start_ns = []
records_from (r ∷ rs) start_ns =
    let rest = records_from rs start_ns in
    if ltb r.header.timestamp_ns start_ns then rest else r ∷ rs

abbrev pub base_timestamp : List ReplayRecord → ℕ
base_timestamp [] = 0
base_timestamp (r ∷ rs) = r.header.timestamp_ns

-- The cast of a number of nanoseconds is a parameter.
module _ {D : Type 0} ⦃d : Double D⦄ (to_ns : D → ℕ) where
  abbrev pub wait_for : ReplayMode → D → ℕ → ReplayRecord → Option ℕ
  wait_for deterministic speed base_ts r = none
  wait_for _ speed base_ts r =
      some (to_ns (d.div (d.of_nat ((r.header.timestamp_ns + (2 ^ 64 - base_ts)) % 2 ^ 64)) speed))

  unfoldable pub replay_loop :
      ReplayMode → D → ℕ → List ReplayRecord → ℕ → List Delivery → ℕ × List Delivery
  replay_loop mode speed base_ts [] count calls = (count, calls)
  replay_loop mode speed base_ts (r ∷ rest) count calls =
      replay_loop mode speed base_ts rest ((count + 1) % 2 ^ 64)
        (calls ++ (record { delivered = r; wait_ns = wait_for mode speed base_ts r } ∷ []))

  -- The number that is returned, and the calls of the callback.
  unfoldable pub replay : ReplayMode → D → ℕ → WalReader → ℕ × List Delivery
  replay mode speed start_ns w = elim w.records [
    | [] ↦ (0, [])
    | r ∷ rs ↦
        let first = records_from (r ∷ rs) start_ns in
        replay_loop mode (if d.le speed (d.of_nat 0) then d.of_nat 1 else speed)
          (base_timestamp first) first 0 []
  ]

-- The records at or after a time.
abbrev pub at_or_after : ℕ → List ReplayRecord → List ReplayRecord
at_or_after start_ns [] = []
at_or_after start_ns (r ∷ rs) =
    let rest = at_or_after start_ns rs in
    if leb start_ns r.header.timestamp_ns then r ∷ rest else rest

earlier_asym : (a b : ReplayRecord) → earlier a b ≡ true → earlier b a ≡ false
earlier_asym a b h = ground (arith, h)

earlier_trans :
    (a b c : ReplayRecord)
    → IsNotBelow earlier a b
    → IsNotBelow earlier b c
    → IsNotBelow earlier a c
earlier_trans a b c h g = ground (arith, h, g)

at_or_after_late :
    (start_ns : ℕ) (r : ReplayRecord) (rs : List ReplayRecord)
    → start_ns ≤ r.header.timestamp_ns
    → All (IsNotBelow earlier r) rs
    → at_or_after start_ns rs ≡ rs
at_or_after_late start_ns r [] late h = refl
at_or_after_late start_ns r (x ∷ rs) late (g, h) =
    let late_x : leb start_ns x.header.timestamp_ns ≡ true = ground (arith, late, g) in
    rw late_x (ap (λ (l : List ReplayRecord). x ∷ l) (at_or_after_late start_ns r rs late h))

records_from-IsSorted :
    (rs : List ReplayRecord) (start_ns : ℕ)
    → IsSorted earlier rs
    → records_from rs start_ns ≡ at_or_after start_ns rs
unfolding records_from
records_from-IsSorted [] start_ns h = refl
records_from-IsSorted (r ∷ rs) start_ns (a, h) =
    elim (Bool-cases (ltb r.header.timestamp_ns start_ns)) [
      | inl early ↦
          let not_late : leb start_ns r.header.timestamp_ns ≡ false = ground (arith, early) in
          rw (early, not_late) (records_from-IsSorted rs start_ns h)
      | inr late ↦
          let late2 : leb start_ns r.header.timestamp_ns ≡ true = ground (arith, late) in
          rw (late, late2)
            (ap (λ (l : List ReplayRecord). r ∷ l)
              (sym (at_or_after_late start_ns r rs (ground (arith, late)) a)))
    ]

-- No record comes after one with a later time, or with the same time and a higher sequence number.
abbrev pub Precedes : ReplayRecord → ReplayRecord → Type 0
Precedes a b =
    (a.header.timestamp_ns < b.header.timestamp_ns)
    ⊎ ((a.header.timestamp_ns ≡ b.header.timestamp_ns) × (a.header.sequence ≤ b.header.sequence))

abbrev pub InOrder : List ReplayRecord → Type 0
InOrder [] = Unit
InOrder (r ∷ rs) = All (Precedes r) rs × InOrder rs

Precedes-of_not_below : (a b : ReplayRecord) → IsNotBelow earlier a b → Precedes a b
Precedes-of_not_below a b h = ground (arith, h)

at_or_after-All :
    (start_ns : ℕ) (r : ReplayRecord) (rs : List ReplayRecord)
    → All (IsNotBelow earlier r) rs
    → All (Precedes r) (at_or_after start_ns rs)
at_or_after-All start_ns r [] h = tt
at_or_after-All start_ns r (x ∷ rs) (g, h) =
    elim (Bool-cases (leb start_ns x.header.timestamp_ns)) [
      | inl e ↦ rw e (Precedes-of_not_below r x g, at_or_after-All start_ns r rs h)
      | inr e ↦ rw e (at_or_after-All start_ns r rs h)
    ]

at_or_after-InOrder :
    (start_ns : ℕ) (rs : List ReplayRecord)
    → IsSorted earlier rs
    → InOrder (at_or_after start_ns rs)
at_or_after-InOrder start_ns [] h = tt
at_or_after-InOrder start_ns (x ∷ rs) (g, h) =
    elim (Bool-cases (leb start_ns x.header.timestamp_ns)) [
      | inl e ↦ rw e (at_or_after-All start_ns x rs g, at_or_after-InOrder start_ns rs h)
      | inr e ↦ rw e (at_or_after-InOrder start_ns rs h)
    ]

All-Precedes :
    (r : ReplayRecord) (rs : List ReplayRecord)
    → All (IsNotBelow earlier r) rs
    → All (Precedes r) rs
All-Precedes r [] h = tt
All-Precedes r (x ∷ rs) (g, h) = (Precedes-of_not_below r x g, All-Precedes r rs h)

IsSorted-InOrder : (rs : List ReplayRecord) → IsSorted earlier rs → InOrder rs
IsSorted-InOrder [] h = tt
IsSorted-InOrder (x ∷ rs) (g, h) = (All-Precedes x rs g, IsSorted-InOrder rs h)

-- What was loaded is in order.
pub load_all-InOrder : (files : List (Text × List ℕ)) → InOrder (load_all files).records
unfolding load_all
load_all-InOrder files =
    let rs = (load_segments empty_reader (segments_of files)).records in
    IsSorted-InOrder (stable_sort earlier rs)
      (stable_sort-IsSorted earlier earlier_asym earlier_trans rs)

at_or_after-insert_sorted :
    (start_ns : ℕ) (x : ReplayRecord) (ys : List ReplayRecord)
    → Perm (at_or_after start_ns (insert_sorted earlier x ys)) (at_or_after start_ns (x ∷ ys))
unfolding insert_sorted
at_or_after-insert_sorted start_ns x [] = Perm.refl _
at_or_after-insert_sorted start_ns x (y ∷ ys) =
    let rest = at_or_after-insert_sorted start_ns x ys in
    elim (Bool-cases (earlier y x)) [
      | inr e ↦ rw e (Perm.refl _)
      | inl e ↦ elim (Bool-cases (leb start_ns x.header.timestamp_ns)) [
        | inr k ↦ elim (Bool-cases (leb start_ns y.header.timestamp_ns)) [
          | inl l ↦ rw (e, k, l) (Perm.cons y (rw k at rest))
          | inr l ↦ rw (e, k, l) (rw k at rest)
        ]
        | inl k ↦ elim (Bool-cases (leb start_ns y.header.timestamp_ns)) [
          | inl l ↦ rw (e, k, l) (Perm.trans (Perm.cons y (rw k at rest)) (Perm.swap _ _ _))
          | inr l ↦ rw (e, k, l) (rw k at rest)
        ]
      ]
    ]

at_or_after-stable_sort :
    (start_ns : ℕ) (xs : List ReplayRecord)
    → Perm (at_or_after start_ns (stable_sort earlier xs)) (at_or_after start_ns xs)
unfolding stable_sort
at_or_after-stable_sort start_ns [] = Perm.refl _
at_or_after-stable_sort start_ns (x ∷ xs) =
    let rest = at_or_after-stable_sort start_ns xs in
    Perm.trans (at_or_after-insert_sorted start_ns x (stable_sort earlier xs))
      (elim (Bool-cases (leb start_ns x.header.timestamp_ns)) [
        | inl k ↦ rw k (Perm.cons x rest)
        | inr k ↦ rw k rest
      ])

abbrev pub deliveries : List Delivery → List ReplayRecord
deliveries calls = map (λ c. c.delivered) calls

deliveries-append :
    (calls : List Delivery) (c : Delivery) (rs : List ReplayRecord)
    → deliveries (calls ++ c ∷ []) ++ rs ≡ deliveries calls ++ c.delivered ∷ rs
deliveries-append [] c rs = refl
deliveries-append (x ∷ calls) c rs =
    ap (λ (l : List ReplayRecord). x.delivered ∷ l) (deliveries-append calls c rs)

module _ {D : Type 0} ⦃d : Double D⦄ (to_ns : D → ℕ) where
  replay_loop_lem :
      (mode : ReplayMode) (speed : D) (base_ts : ℕ) (rs : List ReplayRecord) (count : ℕ)
      (calls : List Delivery)
      → let (returned, out) = replay_loop to_ns mode speed base_ts rs count calls in
        (deliveries out ≡ deliveries calls ++ rs)
        × (returned % 2 ^ 64 ≡ (count + length rs) % 2 ^ 64)
  unfolding replay_loop
  replay_loop_lem mode speed base_ts [] count calls =
      (sym (append-nil (deliveries calls)), omega arith)
  replay_loop_lem mode speed base_ts (r ∷ rest) count calls =
      let (out, returned) = replay_loop_lem mode speed base_ts rest ((count + 1) % 2 ^ 64) _ in
      (out ∙ deliveries-append calls _ rest, omega (arith, returned))

  replay_records :
      (mode : ReplayMode) (speed : D) (start_ns : ℕ) (w : WalReader) (rs : List ReplayRecord)
      → w.records ≡ rs
      → IsSorted earlier rs
      → let (returned, calls) = replay to_ns mode speed start_ns w in
        (deliveries calls ≡ at_or_after start_ns rs)
        × (returned % 2 ^ 64 ≡ length (at_or_after start_ns rs) % 2 ^ 64)
  unfolding replay
  replay_records mode speed start_ns w [] e h = rw (e, replay) (refl, refl)
  replay_records mode speed start_ns w (r ∷ rs) e h =
      let kept = records_from-IsSorted (r ∷ rs) start_ns h in
      let first = records_from (r ∷ rs) start_ns in
      let (out, returned) =
        replay_loop_lem mode (if d.le speed (d.of_nat 0) then d.of_nat 1 else speed)
          (base_timestamp first) first 0 [] in
      rw (e, replay) (out ∙ kept, omega (arith, returned, ap length kept))

  -- A replay of a log calls the callback, in every mode and at every speed, once for each record that was
  -- loaded and is not before the start, in the order of time and sequence number, and returns how many
  -- they are, modulo 2^64.
  pub replay-load_all :
      (mode : ReplayMode) (speed : D) (start_ns : ℕ) (files : List (Text × List ℕ))
      → let (returned, calls) = replay to_ns mode speed start_ns (load_all files) in
        Perm
          (deliveries calls)
          (at_or_after start_ns (load_segments empty_reader (segments_of files)).records)
        × (returned % 2 ^ 64 ≡ length (deliveries calls) % 2 ^ 64)
        × InOrder (deliveries calls)
  unfolding load_all
  replay-load_all mode speed start_ns files =
      let rs = (load_segments empty_reader (segments_of files)).records in
      let sorted = stable_sort-IsSorted earlier earlier_asym earlier_trans rs in
      let (out, returned) =
        replay_records mode speed start_ns (load_all files) (stable_sort earlier rs) refl sorted in
      (
        subst (λ (l : List ReplayRecord). Perm l (at_or_after start_ns rs)) (sym out)
            (at_or_after-stable_sort start_ns rs),
        rw out returned,
        subst InOrder (sym out) (at_or_after-InOrder start_ns (stable_sort earlier rs) sorted),
      )

-- ===== src/Replay/Index.antt =====
-- include/sensorforge/replay/replay_index.hpp: the index of the log.
use av_hil_validation_platfo.Base.Lists.{length, get_or}
use av_hil_validation_platfo.Base.Sort.{stable_sort}
use av_hil_validation_platfo.Base.Tests.{ltb, if◌then◌else◌}
use av_hil_validation_platfo.Base.{ℕ, suc, ◌-◌, Bool, true, false, ◌&&◌, List, [], ◌∷◌, ◌++◌}

pub record IndexEntry : Type 0 where
  pub timestamp_ns : ℕ
  pub segment_id : ℕ
  pub offset : ℕ
  pub record_length : ℕ

pub record ReplayIndex : Type 0 where
  pub entries : List IndexEntry
  pub sorted : Bool

abbrev pub no_entry : IndexEntry
no_entry = record { timestamp_ns = 0; segment_id = 0; offset = 0; record_length = 0 }

abbrev pub empty_index : ReplayIndex
empty_index = record { entries = []; sorted = true }

unfoldable pub add : ReplayIndex → ℕ → ℕ → ℕ → ℕ → ReplayIndex
add idx timestamp_ns segment_id offset record_length =
    let entry : IndexEntry = record {
      timestamp_ns = timestamp_ns;
      segment_id = segment_id;
      offset = offset;
      record_length = record_length;
    } in
    let entries = idx.entries ++ (entry ∷ []) in
    record {
      entries = entries;
      sorted =
          if ltb 1 (length entries)
            && ltb timestamp_ns (get_or entries (length entries - 2) no_entry).timestamp_ns
          then false
          else idx.sorted;
    }

pub finalize : ReplayIndex → ReplayIndex
finalize idx = if idx.sorted then idx else record {
  entries = stable_sort (λ a b. ltb a.timestamp_ns b.timestamp_ns) idx.entries;
  sorted = true;
}

-- `std::lower_bound` on a sorted vector: how many entries lie before `start_ns`.
pub lower_bound : List IndexEntry → ℕ → ℕ
lower_bound [] start_ns = 0
lower_bound (e ∷ es) start_ns =
    if ltb e.timestamp_ns start_ns then suc (lower_bound es start_ns) else 0

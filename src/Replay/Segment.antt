-- ===== src/Replay/Segment.antt =====
-- include/sensorforge/replay/segment.hpp: the names of the files of a log.
pub mod RoundTrip
use av_hil_validation_platfo.Base.Lists.{length, take, drop, replicate}
use av_hil_validation_platfo.Base.Tests.{ltb, leb, if◌then◌else◌}
use av_hil_validation_platfo.Base.Text.{Text, same, is_empty, codes}
use av_hil_validation_platfo.Base.{
  ℕ, zero, suc, ◌+◌, ◌-◌, ◌*◌, ◌/◌, ◌%◌, ◌^◌, not, ◌||◌, Option, none, some, List, [], ◌∷◌, ◌++◌,
}

abbrev pub segment_prefix : Text
segment_prefix = codes "segment-"

abbrev pub segment_suffix : Text
segment_suffix = codes ".sflog"

-- A number in an output stream: its decimal digits, with a bound on how many.
unfoldable pub decimal_loop : ℕ → ℕ → Text
decimal_loop zero n = []
decimal_loop (suc fuel) n =
    let higher = decimal_loop fuel (n / 10) in
    if ltb n 10 then (48 + n) ∷ [] else higher ++ ((48 + n % 10) ∷ [])

abbrev pub decimal : ℕ → Text
decimal n = decimal_loop (suc n) n

-- `std::setw(width)` with `std::setfill('0')`
abbrev pub padded : ℕ → Text → Text
padded width s = replicate (width - length s) 48 ++ s

unfoldable pub segment_filename : ℕ → Text
segment_filename segment_id = segment_prefix ++ (padded 6 (decimal segment_id) ++ segment_suffix)

-- The loop over the digits. None is the return inside it.
unfoldable pub parse_digits : ℕ → Text → Option ℕ
parse_digits id [] = some id
parse_digits id (c ∷ digits) =
    let rest = parse_digits ((id * 10 % 2 ^ 32 + (c - 48)) % 2 ^ 32) digits in
    if ltb c 48 || ltb 57 c then none else rest

abbrev pub or_zero : Option ℕ → ℕ
or_zero none = 0
or_zero (some id) = id

unfoldable pub segment_id_from_filename : Text → ℕ
unfolding parse_digits
segment_id_from_filename name =
    let size = length name in
    let prefix_size = length segment_prefix in
    let suffix_size = length segment_suffix in
    if leb size (prefix_size + suffix_size)
    then 0
    else if not (same (take prefix_size name) segment_prefix)
    then 0
    else if not (same (drop (size - suffix_size) name) segment_suffix)
    then 0
    else let digits = take (size - prefix_size - suffix_size) (drop prefix_size name) in
      if is_empty digits then 0 else or_zero (parse_digits 0 digits)

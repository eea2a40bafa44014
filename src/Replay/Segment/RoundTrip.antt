-- ===== src/Replay/Segment/RoundTrip.antt =====
-- include/sensorforge/replay/segment.hpp: the id of a segment, read from the name made of it.
use av_hil_validation_platfo.Base.Lists.{
  length, take, drop, replicate, length-append, take-append, drop-append,
}
use av_hil_validation_platfo.Base.Tests.{ltb, ltb_of_le, leb_of_lt, Bool-cases}
use av_hil_validation_platfo.Base.Text.{Text, is_empty}
use av_hil_validation_platfo.Replay.Segment.{
  segment_prefix, segment_suffix, decimal_loop, decimal, padded, segment_filename, parse_digits,
  or_zero, segment_id_from_filename,
}
use av_hil_validation_platfo.Base.{
  ℕ, zero, suc, ◌+◌, ◌-◌, ◌*◌, ◌/◌, ◌%◌, ◌^◌, ◌≤◌, ◌<◌, ◌≡◌, refl, ap, sym, ◌∙◌, inl, inr, false,
  [], ◌∷◌, ◌++◌, append_assoc, append-nil, arith,
}

one_digit :
    (id d : ℕ) (rest : Text)
    → d < 10
    → id * 10 + d < 2 ^ 32
    → parse_digits id ((48 + d) ∷ rest) ≡ parse_digits (id * 10 + d) rest
unfolding parse_digits
one_digit id d rest h k =
    let value : (id * 10 % 2 ^ 32 + (48 + d - 48)) % 2 ^ 32 ≡ id * 10 + d = omega (arith, h, k) in
    rw (ltb_of_le (48 + d) 48 (omega arith), ltb_of_le 57 (48 + d) (omega (arith, h)), value) refl

zeros : (n : ℕ) (rest : Text) → parse_digits 0 (replicate n 48 ++ rest) ≡ parse_digits 0 rest
zeros zero rest = refl
zeros (suc n) rest =
    one_digit 0 0 (replicate n 48 ++ rest) (omega arith) (omega arith) ∙ zeros n rest

pub parse_digits-decimal_loop :
    (fuel n : ℕ) (rest : Text)
    → n < fuel
    → n < 2 ^ 32
    → parse_digits 0 (decimal_loop fuel n ++ rest) ≡ parse_digits n rest
unfolding decimal_loop
parse_digits-decimal_loop zero n rest h k = absurd (omega (arith, h))
parse_digits-decimal_loop (suc fuel) n rest h k = elim (Bool-cases (ltb n 10)) [
  | inl e ↦ rw (e) (
      one_digit 0 n rest (ground (arith, e)) (omega (arith, k))
      ∙ ap (λ (x : ℕ). parse_digits x rest) (let z : 0 * 10 + n ≡ n = omega arith in z))
  | inr e ↦
      let big : 10 ≤ n = ground (arith, e) in
      rw (e) (
        ap (parse_digits 0) (append_assoc (decimal_loop fuel (n / 10)) ((48 + n % 10) ∷ []) rest)
        ∙ parse_digits-decimal_loop fuel (n / 10) ((48 + n % 10) ∷ rest) (omega (arith, h, big))
            (omega (arith, k))
        ∙ one_digit (n / 10) (n % 10) rest (omega arith) (omega (arith, k))
        ∙ ap (λ (x : ℕ). parse_digits x rest) (let z : n / 10 * 10 + n % 10 ≡ n = omega arith in z))
]

-- What is left of a name between the prefix and the suffix.
middle :
    (digits : Text)
    → is_empty digits ≡ false
    → 0 < length digits
    → segment_id_from_filename (segment_prefix ++ (digits ++ segment_suffix))
      ≡ or_zero (parse_digits 0 digits)
unfolding segment_id_from_filename
middle digits full h =
    let name = segment_prefix ++ (digits ++ segment_suffix) in
    let size : length name ≡ 14 + length digits =
      omega (arith, length-append digits segment_suffix) in
    let suffix : drop (14 + length digits - 6) name ≡ segment_suffix =
      drop-append (segment_prefix ++ digits) segment_suffix (14 + length digits - 6)
        (omega (arith, length-append segment_prefix digits)) in
    let digits_back : take (14 + length digits - 8 - 6) (digits ++ segment_suffix) ≡ digits =
      ap (λ (n : ℕ). take n (digits ++ segment_suffix))
        (let z : 14 + length digits - 8 - 6 ≡ length digits = omega arith in z)
      ∙ take-append digits segment_suffix in
    rw (size, leb_of_lt (14 + length digits) 14 (omega (arith, h)), suffix, digits_back, full) refl

decimal_loop_full : (fuel n : ℕ) (s : Text) → 0 < fuel → 0 < length (s ++ decimal_loop fuel n)
unfolding decimal_loop
decimal_loop_full zero n s h = absurd (omega (arith, h))
decimal_loop_full (suc fuel) n s h = elim (Bool-cases (ltb n 10)) [
  | inl e ↦ rw (e) (omega (arith, length-append s ((48 + n) ∷ [])))
  | inr e ↦ rw (e) (
      omega (
        arith,
        length-append s (decimal_loop fuel (n / 10) ++ ((48 + n % 10) ∷ [])),
        length-append (decimal_loop fuel (n / 10)) ((48 + n % 10) ∷ []),
      ))
]

is_empty_of : (s : Text) → 0 < length s → is_empty s ≡ false
is_empty_of [] h = absurd (omega (arith, h))
is_empty_of (c ∷ s) h = refl

-- The id of a segment is read back from the name of its file, for every 32-bit id.
pub segment_id_from_filename-segment_filename :
    (segment_id : ℕ)
    → segment_id < 2 ^ 32
    → segment_id_from_filename (segment_filename segment_id) ≡ segment_id
unfolding segment_filename parse_digits
segment_id_from_filename-segment_filename segment_id h =
    let n = 6 - length (decimal segment_id) in
    let some_digits =
      decimal_loop_full (suc segment_id) segment_id (replicate n 48) (omega arith) in
    middle (padded 6 (decimal segment_id)) (is_empty_of (padded 6 (decimal segment_id)) some_digits)
      some_digits
    ∙ ap or_zero (
        zeros n (decimal segment_id)
        ∙ ap (parse_digits 0) (sym (append-nil (decimal segment_id)))
        ∙ parse_digits-decimal_loop (suc segment_id) segment_id [] (omega arith) h)

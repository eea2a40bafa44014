-- ===== src/Replay/Record/Corruption.antt =====
-- include/sensorforge/replay/record.hpp: records with one corrupted byte.
use native.Mathlib.Decide.{dec_lt}
use av_hil_validation_platfo.Base.Memory.{Memory, advance}
use av_hil_validation_platfo.Protocol.Crc.{crc32c}
use av_hil_validation_platfo.Protocol.Crc.Detect.{DiffersAt, crc32c-DiffersAt, crc32c-agree}
use av_hil_validation_platfo.Protocol.Codec.{get_u32}
use av_hil_validation_platfo.Protocol.Codec.Wire.{get_u32-four, get_u32_injective}
use av_hil_validation_platfo.Replay.Record.{RecordHeader, ok, decode_record}
use av_hil_validation_platfo.Replay.Record.Safety.{
  IsRecord, read_record, decode_record-IsRecord, decode_record-read_record,
}
use av_hil_validation_platfo.Base.{
  ℕ, ◌+◌, ◌≤◌, ◌<◌, ◌≡◌, ◌≢◌, ◌⊎◌, inl, inr, ap, sym, ◌∙◌, some, arith,
}

module _ (a b : Memory) (size k : ℕ) (d : DiffersAt a b size k) (fa : IsRecord a size)
    (fb : IsRecord b size) where
  abbrev n : ℕ
  n = (read_record a).payload_size

  -- A number of the record that the change does not touch.
  untouched :
      (i : ℕ) → i + 4 ≤ size → (k < i) ⊎ (i + 4 ≤ k) → get_u32 (advance a i) ≡ get_u32 (advance b i)
  untouched i p away =
      get_u32-four (advance a i) (advance b i) (same 0 (omega arith)) (same 1 (omega arith))
        (same 2 (omega arith)) (same 3 (omega arith))
    where
      same : (j : ℕ) → j < 4 → a (i + j) ≡ b (i + j)
      same j q = d.same (i + j) (omega arith) (omega arith)

  -- The two length fields agree with each other in both records, so they agree across them.
  same_size : n ≡ (read_record b).payload_size
  same_size = elim (dec_lt k 4) [
    | yes p ↦ untouched 22 (omega (arith, fa.enough, fa.matches)) (inl (omega arith))
    | no p ↦ omega (
      arith,
      untouched 0 (omega (arith, fa.enough, fa.matches)) (inr (omega arith)),
      fa.matches,
      fb.matches,
    )
  ]

  -- A byte of the fields or of the payload: the checksum no longer fits.
  in_body : k < 30 + n → ⊥
  in_body p =
      crc32c-DiffersAt a b (30 + n) k
        (record {
          bytes_left = d.bytes_left;
          bytes_right = d.bytes_right;
          inside = p;
          changed = d.changed;
          same = λ j q ne. d.same j (omega (arith, fa.enough, fa.matches)) ne;
        })
        (fa.record_crc
          ∙ untouched (30 + n) (omega (arith, fa.enough, fa.matches)) (inl p)
          ∙ ap (λ (t : ℕ). get_u32 (advance b (30 + t))) same_size
          ∙ sym fb.record_crc
          ∙ ap (λ (t : ℕ). crc32c b (30 + t)) (sym same_size))

  -- A byte of the checksum: it is no longer that of the bytes before it.
  in_record_crc : 30 + n ≤ k → k < 34 + n → ⊥
  in_record_crc lo hi =
      let (e0, e1, e2, e3) =
        get_u32_injective (advance a (30 + n)) (advance b (30 + n)) (λ i. d.bytes_left (30 + n + i))
          (λ i. d.bytes_right (30 + n + i)) same_crc in
      d.changed (elim one_of_four [
        | inl e ↦ rw e e0
        | inr (inl e) ↦ rw e e1
        | inr (inr (inl e)) ↦ rw e e2
        | inr (inr (inr e)) ↦ rw e e3
      ])
    where
      one_of_four : (k ≡ 30 + n + 0) ⊎ ((k ≡ 30 + n + 1) ⊎ ((k ≡ 30 + n + 2) ⊎ (k ≡ 30 + n + 3)))
      one_of_four = ground arith

      same_crc : get_u32 (advance a (30 + n)) ≡ get_u32 (advance b (30 + n))
      same_crc =
          sym fa.record_crc
          ∙ crc32c-agree a b (30 + n)
              (λ j q. d.same j (omega (arith, fa.enough, fa.matches)) (omega arith))
          ∙ ap (λ (t : ℕ). crc32c b (30 + t)) same_size
          ∙ fb.record_crc
          ∙ ap (λ (t : ℕ). get_u32 (advance b (30 + t))) (sym same_size)

-- If `decode_record` accepts a buffer, then it rejects every buffer of the same size that differs
-- from it in exactly one byte of the record: in the length fields, in another field, in the payload
-- or in the checksum.
pub decode_record_one_byte :
    (a b : Memory) (size k : ℕ) (out : RecordHeader)
    → DiffersAt a b size k
    → (decode_record (some a) size out).0 ≡ ok
    → k < (decode_record (some a) size out).1.record_length
    → (decode_record (some b) size out).0 ≢ ok
decode_record_one_byte a b size k out d accepted inside corrupted =
    let fa : IsRecord a size = (decode_record-IsRecord a size out).0 accepted in
    let fb : IsRecord b size = (decode_record-IsRecord b size out).0 corrupted in
    let e : (decode_record (some a) size out).1 ≡ read_record a =
      decode_record-read_record a size out accepted in
    let within : k < (read_record a).record_length =
      rw (ap (λ (h : RecordHeader). h.record_length) e) at inside in
    elim (dec_lt k (30 + (read_record a).payload_size)) [
      | yes p ↦ in_body a b size k d fa fb p
      | no p ↦ in_record_crc a b size k d fa fb (omega arith) (omega (arith, fa.matches))
    ]

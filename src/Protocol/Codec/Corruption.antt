-- ===== src/Protocol/Codec/Corruption.antt =====
-- src/protocol/frame_codec.cpp: frames with one corrupted byte.
use native.Mathlib.Decide.{dec_lt}
use av_hil_validation_platfo.Base.Memory.{Memory, advance}
use av_hil_validation_platfo.Protocol.Crc.{crc32c}
use av_hil_validation_platfo.Protocol.Crc.Detect.{DiffersAt, crc32c-DiffersAt, crc32c-agree}
use av_hil_validation_platfo.Protocol.Frame.{FrameHeader, ok}
use av_hil_validation_platfo.Protocol.Codec.{decode_header}
use av_hil_validation_platfo.Protocol.Codec.Wire.{get_u32-four, get_u32_injective}
use av_hil_validation_platfo.Protocol.Codec.Safety.{
  IsFrame, read_header, read_header-agree, decode_header-IsFrame, decode_header-read_header,
}
use av_hil_validation_platfo.Base.{
  ℕ, ◌+◌, ◌-◌, ◌≤◌, ◌<◌, ◌≡◌, ◌≢◌, ◌⊎◌, inl, inr, ap, sym, ◌∙◌, some, arith,
}

module _ (a b : Memory) (size k : ℕ) (d : DiffersAt a b size k) (fa : IsFrame a size) where
  -- A byte of the fields: the header's checksum no longer fits.
  in_fields : k < 36 → IsFrame b size → ⊥
  in_fields h fb =
      crc32c-DiffersAt a b 36 k
        (record {
          bytes_left = d.bytes_left;
          bytes_right = d.bytes_right;
          inside = h;
          changed = d.changed;
          same = λ j p q. d.same j (omega (arith, fa.enough)) q;
        })
        (fa.header_crc
          ∙ get_u32-four (advance a 36) (advance b 36) (unchanged 36 (omega arith) (omega arith))
              (unchanged 37 (omega arith) (omega arith)) (unchanged 38 (omega arith) (omega arith))
              (unchanged 39 (omega arith) (omega arith))
          ∙ sym fb.header_crc)
    where
      unchanged : (j : ℕ) → 36 ≤ j → j < 40 → a j ≡ b j
      unchanged j p q = d.same j (omega (arith, fa.enough)) (omega arith)

  -- A byte of the header's checksum: it is no longer that of the fields.
  in_header_crc : 36 ≤ k → k < 40 → IsFrame b size → ⊥
  in_header_crc lo hi fb =
      let same_crc : crc32c a 36 ≡ crc32c b 36 =
        crc32c-agree a b 36 (λ j p. d.same j (omega (arith, fa.enough)) (omega arith)) in
      let (e0, e1, e2, e3) =
        get_u32_injective (advance a 36) (advance b 36) (λ i. d.bytes_left (36 + i))
          (λ i. d.bytes_right (36 + i)) (sym fa.header_crc ∙ same_crc ∙ fb.header_crc) in
      d.changed (elim (one_of_four) [
        | inl e ↦ rw e e0
        | inr (inl e) ↦ rw e e1
        | inr (inr (inl e)) ↦ rw e e2
        | inr (inr (inr e)) ↦ rw e e3
      ])
    where
      one_of_four : (k ≡ 36) ⊎ ((k ≡ 37) ⊎ ((k ≡ 38) ⊎ (k ≡ 39)))
      one_of_four = ground arith

  -- A byte of the payload: its checksum no longer fits.
  in_payload : 40 ≤ k → k < 40 + (read_header a).payload_size → IsFrame b size → ⊥
  in_payload lo hi fb =
      let same_header : read_header a ≡ read_header b =
        read_header-agree a b (λ j p. d.same j (omega (arith, fa.enough)) (omega arith)) in
      crc32c-DiffersAt (advance a 40) (advance b 40) (read_header a).payload_size (k - 40)
        (record {
          bytes_left = λ j. d.bytes_left (40 + j);
          bytes_right = λ j. d.bytes_right (40 + j);
          inside = omega arith;
          changed = λ e. d.changed (rw (← back) at e);
          same = λ j p q. d.same (40 + j) (omega (arith, fa.enough)) (omega arith);
        })
        (ground (arith, fa.payload_crc, fb.payload_crc, same_header))
    where
      back : k ≡ 40 + (k - 40)
      back = omega arith

-- If `decode_header` accepts a buffer, then it rejects every buffer of the same size that differs
-- from it in exactly one byte of the frame, in the fields, in the header's checksum or in the
-- payload.
pub decode_header_one_byte :
    (a b : Memory) (size k : ℕ) (out : FrameHeader)
    → DiffersAt a b size k
    → (decode_header (some a) size out).0 ≡ ok
    → k < 40 + (decode_header (some a) size out).1.payload_size
    → (decode_header (some b) size out).0 ≢ ok
decode_header_one_byte a b size k out d accepted inside corrupted =
    let fa : IsFrame a size = (decode_header-IsFrame a size out).0 accepted in
    let fb : IsFrame b size = (decode_header-IsFrame b size out).0 corrupted in
    let e : (decode_header (some a) size out).1 ≡ read_header a =
      decode_header-read_header a size out accepted in
    elim (dec_lt k 36) [
      | yes p ↦ in_fields a b size k d fa p fb
      | no p ↦ elim (dec_lt k 40) [
        | yes q ↦ in_header_crc a b size k d fa (omega arith) q fb
        | no q ↦
            in_payload a b size k d fa (omega arith)
              (rw (ap (λ (h : FrameHeader). h.payload_size) e) at inside) fb
      ]
    ]

-- ===== src/Protocol/Decoder/Delivery.antt =====
-- src/protocol/frame_codec.cpp: `FrameDecoder::decode` on the frames of a sender that counts up.
use mathlib.Core.List.{append-nil}
use av_hil_validation_platfo.Base.Lists.{length}
use av_hil_validation_platfo.Base.Memory.{load, bytes_from, bytes_from-load}
use av_hil_validation_platfo.Base.Tests.{ltb_of_le, Bool-cases}
use av_hil_validation_platfo.Protocol.Crc.{crc32c}
use av_hil_validation_platfo.Protocol.Frame.{FrameHeader, SensorType, ok, default_header}
use av_hil_validation_platfo.Protocol.Codec.{encode_frame, decode_header}
use av_hil_validation_platfo.Protocol.Codec.Layout.{fields, frame, le4, encode_frame_lem}
use av_hil_validation_platfo.Protocol.Codec.RoundTrip.{IsSendable, sent_header, decode_sent}
use av_hil_validation_platfo.Protocol.Decoder.{FrameDecoder, update, check_stream, decode}
use av_hil_validation_platfo.Base.{
  ℕ, ◌≤◌, ◌≡◌, refl, ap, sym, ◌∙◌, inl, inr, true, some, List, [], ◌++◌,
}

-- The decoder has accepted nothing on the stream that is later than this.
abbrev pub NotAhead : FrameDecoder → ℕ → ℕ → ℕ → Type 0
NotAhead d key sequence timestamp_ns =
    (d.last key).seen ≡ true
    → ((d.last key).last_sequence ≤ sequence) × ((d.last key).last_timestamp_ns ≤ timestamp_ns)

abbrev pub after_frame : FrameDecoder → ℕ → ℕ → ℕ → FrameDecoder
after_frame d key sequence timestamp_ns = record {
  last =
      update d.last key
        (record { last_sequence = sequence; last_timestamp_ns = timestamp_ns; seen = true });
}

check_stream_lem :
    (d : FrameDecoder) (key : ℕ) (h : FrameHeader)
    → NotAhead d key h.sequence h.timestamp_ns
    → check_stream d key h ≡ (ok, after_frame d key h.sequence h.timestamp_ns)
unfolding check_stream
check_stream_lem d key h n = elim (Bool-cases (d.last key).seen) [
  | inl e ↦
      rw
        (
          e,
          ltb_of_le h.sequence (d.last key).last_sequence (n e).0,
          ltb_of_le h.timestamp_ns (d.last key).last_timestamp_ns (n e).1,
        )
        refl
  | inr e ↦ rw e refl
]

module _ (t : SensorType) (sequence timestamp_ns flags : ℕ) (payload : List ℕ) where
  abbrev f : List ℕ
  f = frame t sequence timestamp_ns flags (load payload) (length payload)

  abbrev hdr : FrameHeader
  hdr = sent_header t sequence timestamp_ns flags (load payload) (length payload)

  decode_alone :
      IsSendable t sequence timestamp_ns flags (length payload)
      → decode_header (some (load f)) (length f) default_header ≡ (ok, hdr)
  decode_alone s =
      ap (λ (l : List ℕ). decode_header (some (load l)) (length l) default_header)
        (sym (append-nil f))
      ∙ decode_sent t sequence timestamp_ns flags (load payload) (length payload) [] s
          default_header

  payload_lem : bytes_from (load f) 40 (length payload) ≡ payload
  payload_lem =
      ap (λ (l : List ℕ). bytes_from (load (before ++ l)) 40 (length payload))
        (again ∙ sym (append-nil payload))
      ∙ bytes_from-load before payload [] 40 refl
    where
      own : List ℕ
      own = fields t sequence timestamp_ns flags (load payload) (length payload)

      before : List ℕ
      before = own ++ le4 (crc32c (load own) 36)

      again : bytes_from (load payload) 0 (length payload) ≡ payload
      again =
          ap (λ (l : List ℕ). bytes_from (load l) 0 (length payload)) (sym (append-nil payload))
          ∙ bytes_from-load [] payload [] 0 refl

  -- A frame that its receiver is not ahead of is accepted whole, with its header, and is then the last
  -- one; the payload stands behind the 40 bytes of the header.
  pub decode-frame :
      (d : FrameDecoder) (key : ℕ)
      → IsSendable t sequence timestamp_ns flags (length payload)
      → NotAhead d key sequence timestamp_ns
      → (decode d (some (load f)) (length f) key default_header
          ≡ (ok, hdr, after_frame d key sequence timestamp_ns))
        × (bytes_from (load f) 40 (length payload) ≡ payload)
        × (encode_frame t sequence timestamp_ns flags (load payload) (length payload) ≡ some f)
  unfolding decode
  decode-frame d key s n = (
    rw (decode_alone s, check_stream_lem d key hdr n) refl,
    payload_lem,
    encode_frame_lem t sequence timestamp_ns flags (load payload) (length payload) s.within_limit,
  )

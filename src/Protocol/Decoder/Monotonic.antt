-- ===== src/Protocol/Decoder/Monotonic.antt =====
-- include/sensorforge/protocol/frame_codec.hpp: the order of what a decoder accepts on one stream.
use mathlib.Core.Path.{subst}
use av_hil_validation_platfo.Base.Lists.{All}
use av_hil_validation_platfo.Base.Memory.{Memory}
use av_hil_validation_platfo.Protocol.Frame.{FrameHeader, FrameError, ok, default_header}
use av_hil_validation_platfo.Protocol.Decoder.{FrameDecoder, update, decode}
use av_hil_validation_platfo.Base.{ℕ, ◌≤◌, ◌≡◌, ◌≢◌, refl, true, Option, List, [], ◌∷◌, arith}

-- A buffer that arrives on a stream.
pub record Arrival : Type 0 where
  pub bytes : Option Memory
  pub size : ℕ
  pub key : ℕ

pub record Accepted : Type 0 where
  pub key : ℕ
  pub header : FrameHeader

abbrev keep : FrameError → Accepted → List Accepted → List Accepted
keep ok a rest = a ∷ rest
keep _ a rest = rest

-- The frames accepted from a sequence of arrivals, in order.
pub accepted_by : FrameDecoder → List Arrival → List Accepted
accepted_by d [] = []
accepted_by d (a ∷ rest) =
    let (err, out, d') = decode d a.bytes a.size a.key default_header in
    keep err (record { key = a.key; header = out }) (accepted_by d' rest)

-- `h` is not before the last frame that `d` accepted on the stream.
abbrev NotBefore : FrameDecoder → Accepted → Type 0
NotBefore d a =
    (d.last a.key).seen ≡ true
    → ((d.last a.key).last_sequence ≤ a.header.sequence)
      × ((d.last a.key).last_timestamp_ns ≤ a.header.timestamp_ns)

-- Of two accepted frames of one stream the later has no smaller sequence number and no smaller time.
abbrev Follows : Accepted → Accepted → Type 0
Follows a b =
    b.key ≡ a.key
    → (a.header.sequence ≤ b.header.sequence) × (a.header.timestamp_ns ≤ b.header.timestamp_ns)

abbrev pub InOrder : List Accepted → Type 0
InOrder [] = Unit
InOrder (a ∷ rest) = All (Follows a) rest × InOrder rest

All-map {ℓ κ} :
    {A : Type ℓ} (P Q : A → Type κ) (l : List A) → ((x : A) → P x → Q x) → All P l → All Q l
All-map P Q [] f h = h
All-map P Q (x ∷ xs) f h = (f x h.0, All-map P Q xs f h.1)

module _ (d : FrameDecoder) (m : Option Memory) (size key : ℕ) (out : FrameHeader) where
  -- A rejected frame, whatever the reason, leaves the decoder as it was.
  decode-rejected : (decode d m size key out).0 ≢ ok → (decode d m size key out).2 ≡ d
  unfolding decode
  decode-rejected h = ground arith

  decode-accepted :
      (decode d m size key out).0 ≡ ok
      → let h = (decode d m size key out).1 in
        NotBefore d (record { key = key; header = h })
        × ((decode d m size key out).2 ≡ record {
          last = update d.last key (record {
            last_sequence = h.sequence;
            last_timestamp_ns = h.timestamp_ns;
            seen = true;
          });
        })
  unfolding decode
  decode-accepted h = ground arith

  -- What is not before the frame just accepted is not before the one accepted earlier.
  NotBefore-decode :
      (decode d m size key out).0 ≡ ok
      → (x : Accepted) → NotBefore (decode d m size key out).2 x
      → NotBefore d x × Follows (record { key = key; header = (decode d m size key out).1 }) x
  NotBefore-decode h x n = let (before, after) = decode-accepted h in ground arith

abbrev Fine : FrameDecoder → List Accepted → Type 0
Fine d l = All (NotBefore d) l × InOrder l

module _ (d : FrameDecoder) (m : Option Memory) (size key : ℕ) (rest : List Accepted) where
  abbrev r : FrameError × FrameHeader × FrameDecoder
  r = decode d m size key default_header

  Fine-rejected : r.0 ≢ ok → Fine r.2 rest → Fine d rest
  Fine-rejected h = subst (λ x. Fine x rest) (decode-rejected d m size key default_header h)

  Fine-keep :
      (e : FrameError)
      → r.0 ≡ e
      → Fine r.2 rest
      → Fine d (keep e (record { key = key; header = r.1 }) rest)
  Fine-keep ok h f =
      let both : (x : Accepted)
          → NotBefore r.2 x
          → NotBefore d x × Follows (record { key = key; header = r.1 }) x =
        NotBefore-decode d m size key default_header h in
      (
        (
          (decode-accepted d m size key default_header h).0,
          All-map (NotBefore r.2) (NotBefore d) rest (λ x n. (both x n).0) f.0,
        ),
        (
          All-map (NotBefore r.2) (Follows (record { key = key; header = r.1 })) rest
              (λ x n. (both x n).1) f.0,
          f.1,
        ),
      )
  Fine-keep _ h f = Fine-rejected (λ q. cc) f

accepted_by-Fine : (d : FrameDecoder) (l : List Arrival) → Fine d (accepted_by d l)
unfolding accepted_by
accepted_by-Fine d [] = (tt, tt)
accepted_by-Fine d (a ∷ rest) =
    let r : FrameError × FrameHeader × FrameDecoder =
      decode d a.bytes a.size a.key default_header in
    Fine-keep d a.bytes a.size a.key (accepted_by r.2 rest) r.0 refl (accepted_by-Fine r.2 rest)

-- For any sequence of buffers on any streams, well formed or not, the accepted frames of each stream
-- have sequence numbers and times that never decrease.
pub accepted_by-InOrder : (d : FrameDecoder) (l : List Arrival) → InOrder (accepted_by d l)
accepted_by-InOrder d l = (accepted_by-Fine d l).1

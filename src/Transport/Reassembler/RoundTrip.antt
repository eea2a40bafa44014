-- ===== src/Transport/Reassembler/RoundTrip.antt =====
-- include/sensorforge/transport/tcp_reassembler.hpp: streams in the framing of the wire.
use mathlib.Core.Path.{subst}
use mathlib.Core.List.{append-nil, append_assoc}
use av_hil_validation_platfo.Base.Bits.{or_fields, or_comm}
use av_hil_validation_platfo.Base.Lists.{length, length-append}
use av_hil_validation_platfo.Base.Memory.{byte_at}
use av_hil_validation_platfo.Base.Tests.{ltb_of_le, ==_self, ==_of_ne}
use av_hil_validation_platfo.Transport.Reassembler.{
  TcpReassembler, count_up, big_endian, size_complete, expect_start, expect_second, size_byte,
  payload_byte, feed_byte, feed,
}
use av_hil_validation_platfo.Base.{
  ℕ, ◌+◌, ◌*◌, ◌^◌, ◌≤◌, ◌<◌, ◌≡◌, ◌≢◌, bit_or, refl, ap, sym, ◌∙◌, List, [], ◌∷◌, ◌++◌, arith,
}

-- The four bytes of a length, the highest first.
abbrev pub size_field : ℕ → List ℕ
size_field n = byte_at n 3 ∷ byte_at n 2 ∷ byte_at n 1 ∷ byte_at n 0 ∷ []

-- 0xAB 0xCD | payload_size (uint32, big-endian) | payload[payload_size]
abbrev pub wire : List ℕ → List ℕ
wire p = 0xAB ∷ 0xCD ∷ (size_field (length p) ++ p)

or_above : (k x high low : ℕ) → high ≡ x * 2 ^ k → low < 2 ^ k → bit_or high low ≡ high + low
or_above k x high low e h =
    or_comm high low ∙ ap (bit_or low) e ∙ or_fields k low x h ∙ omega (arith, e)

big_endian-size_field : (n : ℕ) → n < 2 ^ 32 → big_endian (size_field n) ≡ n
big_endian-size_field n h =
    let b3 = byte_at n 3 in
    let b2 = byte_at n 2 in
    let b1 = byte_at n 1 in
    let b0 = byte_at n 0 in
    let e2 : bit_or (b3 * 2 ^ 24) (b2 * 2 ^ 16) ≡ b3 * 2 ^ 24 + b2 * 2 ^ 16 =
      or_above 24 b3 (b3 * 2 ^ 24) (b2 * 2 ^ 16) refl (omega arith) in
    let e1 : bit_or (b3 * 2 ^ 24 + b2 * 2 ^ 16) (b1 * 2 ^ 8)
        ≡ b3 * 2 ^ 24 + b2 * 2 ^ 16 + b1 * 2 ^ 8 =
      or_above 16 (b3 * 2 ^ 8 + b2) (b3 * 2 ^ 24 + b2 * 2 ^ 16) (b1 * 2 ^ 8) (omega arith)
        (omega arith) in
    let e0 : bit_or (b3 * 2 ^ 24 + b2 * 2 ^ 16 + b1 * 2 ^ 8) b0
        ≡ b3 * 2 ^ 24 + b2 * 2 ^ 16 + b1 * 2 ^ 8 + b0 =
      or_above 8 (b3 * 2 ^ 16 + b2 * 2 ^ 8 + b1) (b3 * 2 ^ 24 + b2 * 2 ^ 16 + b1 * 2 ^ 8) b0
        (omega arith) (omega arith) in
    ap (λ (t : ℕ). bit_or (bit_or t (b1 * 2 ^ 8)) b0) e2
    ∙ ap (λ (t : ℕ). bit_or t b0) e1
    ∙ e0
    ∙ omega (arith, h)

module _ (bound : ℕ) (sizes : List ℕ) (emitted resyncs : ℕ) (delivered : List (List ℕ)) where
  abbrev filling_up : ℕ → List ℕ → TcpReassembler
  filling_up size done = record {
    max_payload = bound;
    state = 3;
    size_bytes = sizes;
    size_idx = 0;
    payload_size = size;
    payload = done;
    payloads_emitted = emitted;
    resyncs = resyncs;
    delivered = delivered;
  }

  abbrev emitted_last : ℕ → List ℕ → TcpReassembler
  emitted_last size p = record {
    max_payload = bound;
    state = 0;
    size_bytes = sizes;
    size_idx = 0;
    payload_size = size;
    payload = [];
    payloads_emitted = count_up emitted;
    resyncs = resyncs;
    delivered = delivered ++ (p ∷ []);
  }

  feed-filling_up :
      (p done rest : List ℕ) (size : ℕ)
      → size ≡ length done + length p
      → 0 < length p
      → feed (filling_up size done) (p ++ rest) ≡ feed (emitted_last size (done ++ p)) rest
  unfolding feed feed_byte payload_byte
  feed-filling_up [] done rest size e h = absurd (omega arith)
  feed-filling_up (x ∷ []) done rest size e h =
      let last : length (done ++ (x ∷ [])) ≡ size = omega (arith, length-append done (x ∷ [])) in
      rw (last, ==_self size, feed) refl
  feed-filling_up (x ∷ y ∷ p) done rest size e h =
      let more : length (done ++ (x ∷ [])) ≢ size =
        λ q. absurd (omega (arith, q, length-append done (x ∷ []))) in
      rw (==_of_ne (length (done ++ (x ∷ []))) size more, feed)
        (feed-filling_up (y ∷ p) (done ++ (x ∷ [])) rest size
            (omega (arith, length-append done (x ∷ []))) (omega arith)
          ∙ ap (λ (l : List ℕ). feed (emitted_last size l) rest)
              (append_assoc done (x ∷ []) (y ∷ p)))

-- Between two frames, with bytes `a`, `b`, `c` and `d` left in the array of the length.
abbrev between : ℕ → List ℕ → ℕ → ℕ → List ℕ → ℕ → ℕ → List (List ℕ) → TcpReassembler
between bound sizes idx size held emitted resyncs delivered = record {
  max_payload = bound;
  state = 0;
  size_bytes = sizes;
  size_idx = idx;
  payload_size = size;
  payload = held;
  payloads_emitted = emitted;
  resyncs = resyncs;
  delivered = delivered;
}

module _ (bound a b c d : ℕ) (idx size : ℕ) (held : List ℕ) (emitted resyncs : ℕ)
    (delivered : List (List ℕ)) where
  abbrev here : TcpReassembler
  here = between bound (a ∷ b ∷ c ∷ d ∷ []) idx size held emitted resyncs delivered

  -- An empty payload leaves the buffer as it was.
  abbrev left_over : List ℕ → List ℕ
  left_over [] = held
  left_over (x ∷ p) = []

  abbrev afterwards : List ℕ → TcpReassembler
  afterwards p =
      between bound (size_field (length p)) 0 (length p) (left_over p) (count_up emitted) resyncs
        (delivered ++ (p ∷ []))

  -- The length has been read.
  abbrev sized : ℕ → TcpReassembler
  sized n = record {
    max_payload = bound;
    state = 2;
    size_bytes = size_field n;
    size_idx = 4;
    payload_size = size;
    payload = held;
    payloads_emitted = emitted;
    resyncs = resyncs;
    delivered = delivered;
  }

  size_complete_zero : size_complete (sized 0) ≡ afterwards []
  unfolding size_complete
  size_complete_zero = rw (ltb_of_le bound 0 (omega arith)) refl

  size_complete_more :
      (n : ℕ)
      → n ≤ bound
      → bound < 2 ^ 32
      → 0 < n
      → size_complete (sized n) ≡ filling_up bound (size_field n) emitted resyncs delivered n []
  unfolding size_complete
  size_complete_more n h k z =
      rw (big_endian-size_field n (omega arith), ltb_of_le bound n h, ==_of_ne n 0 (omega arith))
        refl

  feed-wire_core :
      (p rest : List ℕ)
      → length p ≤ bound
      → bound < 2 ^ 32
      → feed here (wire p ++ rest) ≡ feed (afterwards p) rest
  unfolding feed feed_byte expect_start expect_second size_byte
  feed-wire_core [] rest h k = ap (λ (t : TcpReassembler). feed t rest) (size_complete_zero)
  feed-wire_core (x ∷ p) rest h k =
      ap (λ (t : TcpReassembler). feed t ((x ∷ p) ++ rest))
        (size_complete_more (length (x ∷ p)) h k (omega arith))
      ∙ feed-filling_up bound (size_field (length (x ∷ p))) emitted resyncs delivered (x ∷ p) []
          rest (length (x ∷ p)) (omega arith) (omega arith)

-- A reassembler between two frames.
pub record IsBetween (r : TcpReassembler) : Type 0 where
  pub at_start : r.state ≡ 0
  pub array : length r.size_bytes ≡ 4

-- How the reassembler stands after the frame of `p` in place of before it.
pub record Received (p : List ℕ) (r r' : TcpReassembler) : Type 0 where
  pub between : IsBetween r'
  pub bound : r'.max_payload ≡ r.max_payload
  pub no_resync : r'.resyncs ≡ r.resyncs
  pub counted : r'.payloads_emitted ≡ count_up r.payloads_emitted
  pub got : r'.delivered ≡ r.delivered ++ (p ∷ [])

feed-wire_any :
    (sizes : List ℕ) (bound idx size : ℕ) (held : List ℕ) (emitted resyncs : ℕ)
    (delivered : List (List ℕ)) (p rest : List ℕ)
    → length sizes ≡ 4
    → length p ≤ bound
    → bound < 2 ^ 32
    → let r = between bound sizes idx size held emitted resyncs delivered in
      (r' : TcpReassembler) × Received p r r' × (feed r (wire p ++ rest) ≡ feed r' rest)
feed-wire_any (a ∷ b ∷ c ∷ d ∷ []) bound idx size held emitted resyncs delivered p rest l h k = (
  afterwards bound a b c d idx size held emitted resyncs delivered p,
  record {
    between = record { at_start = refl; array = refl };
    bound = refl;
    no_resync = refl;
    counted = refl;
    got = refl;
  },
  feed-wire_core bound a b c d idx size held emitted resyncs delivered p rest h k,
)
feed-wire_any _ bound idx size held emitted resyncs delivered p rest l h k =
    absurd (omega (arith, l))

-- Between two frames, the frame of a payload within the limit is delivered, with any bytes behind
-- it: the reassembler is then between two frames again, and has lost nothing.
feed-wire :
    (r : TcpReassembler) (p rest : List ℕ)
    → IsBetween r
    → length p ≤ r.max_payload
    → r.max_payload < 2 ^ 32
    → (r' : TcpReassembler) × Received p r r' × (feed r (wire p ++ rest) ≡ feed r' rest)
feed-wire r p rest w h k =
    let same : between r.max_payload r.size_bytes r.size_idx r.payload_size r.payload
          r.payloads_emitted r.resyncs r.delivered
        ≡ r =
      ap (λ (s : ℕ). record r { state = s }) (sym w.at_start) in
    subst
      (λ (t : TcpReassembler).
        (r' : TcpReassembler) × Received p t r' × (feed t (wire p ++ rest) ≡ feed r' rest))
      same
      (feed-wire_any r.size_bytes r.max_payload r.size_idx r.payload_size r.payload
        r.payloads_emitted r.resyncs r.delivered p rest w.array h k)

abbrev pub Quiet : List ℕ → Type 0
Quiet [] = Unit
Quiet (b ∷ bytes) = (b ≢ 0xAB) × Quiet bytes

-- Bytes between frames that do not begin one.
feed-noise :
    (noise rest : List ℕ) (r : TcpReassembler)
    → r.state ≡ 0
    → Quiet noise
    → feed r (noise ++ rest) ≡ feed r rest
unfolding feed feed_byte expect_start
feed-noise [] rest r e q = refl
feed-noise (b ∷ noise) rest r e q =
    ap (λ (t : TcpReassembler). feed t (noise ++ rest)) (let n = q.0 in ground (arith, e, n))
    ∙ feed-noise noise rest r e q.1

-- The frames of a list of payloads, each after some noise.
abbrev pub stream : List (List ℕ × List ℕ) → List ℕ
stream [] = []
stream ((noise, p) ∷ frames) = noise ++ (wire p ++ stream frames)

abbrev pub payloads : List (List ℕ × List ℕ) → List (List ℕ)
payloads [] = []
payloads ((noise, p) ∷ frames) = p ∷ payloads frames

abbrev pub AllFit : ℕ → List (List ℕ × List ℕ) → Type 0
AllFit bound [] = Unit
AllFit bound ((noise, p) ∷ frames) = Quiet noise × (length p ≤ bound) × AllFit bound frames

-- From between two frames, with a limit that fits the length field: of a stream of frames with
-- payloads within the limit, each after any bytes other than 0xAB, exactly the payloads are
-- delivered, in order, and no resynchronisation is counted.
pub feed-stream :
    (frames : List (List ℕ × List ℕ)) (r : TcpReassembler)
    → IsBetween r
    → r.max_payload < 2 ^ 32
    → AllFit r.max_payload frames
    → let r' = feed r (stream frames) in
      (r'.delivered ≡ r.delivered ++ payloads frames) × (r'.resyncs ≡ r.resyncs) × IsBetween r'
unfolding feed
feed-stream [] r w k h = (sym (append-nil r.delivered), refl, w)
feed-stream ((noise, p) ∷ frames) r w k h =
    let (r1, got, run) = feed-wire r p (stream frames) w h.1 k in
    let all : feed r (noise ++ (wire p ++ stream frames)) ≡ feed r1 (stream frames) =
      feed-noise noise (wire p ++ stream frames) r w.at_start h.0 ∙ run in
    let ih = feed-stream frames r1 got.between (omega (arith, got.bound)) (rw (got.bound) h.2) in
    (
      ap (λ (t : TcpReassembler). t.delivered) all
          ∙ ih.0
          ∙ ap (λ (l : List (List ℕ)). l ++ payloads frames) got.got
          ∙ append_assoc r.delivered (p ∷ []) (payloads frames),
      ap (λ (t : TcpReassembler). t.resyncs) all ∙ ih.1 ∙ got.no_resync,
      rw all ih.2,
    )

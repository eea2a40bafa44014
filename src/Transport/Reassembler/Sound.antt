-- ===== src/Transport/Reassembler/Sound.antt =====
-- What the reassembler keeps to on any bytes.
use av_hil_validation_platfo.Base.Lists.{length, set, length-append, length-set}
use av_hil_validation_platfo.Base.Tests.{ltb, ◌==◌, if◌then◌else◌}
use av_hil_validation_platfo.Transport.Reassembler.{
  TcpReassembler, new_reassembler, big_endian, expect_start, expect_second, size_complete,
  size_byte, payload_byte, feed_byte, feed,
}
use av_hil_validation_platfo.Base.{
  ℕ, Bool, true, false, ◌+◌, ◌%◌, ◌^◌, ◌≤◌, ◌<◌, ◌≡◌, refl, ◌∙◌, List, [], ◌∷◌, ◌++◌, arith,
}

abbrev pub AllWithin : ℕ → List (List ℕ) → Type 0
AllWithin bound [] = Unit
AllWithin bound (p ∷ ps) = (length p ≤ bound) × AllWithin bound ps

AllWithin-snoc :
    (bound : ℕ) (ps : List (List ℕ)) (p : List ℕ)
    → AllWithin bound ps
    → length p ≤ bound
    → AllWithin bound (ps ++ (p ∷ []))
AllWithin-snoc bound [] p h k = (k, tt)
AllWithin-snoc bound (x ∷ ps) p h k = (h.0, AllWithin-snoc bound ps p h.1 k)

-- The length bytes are written inside their array, and no more than `max_payload` bytes are held or
-- delivered at once.
pub record IsSound (r : TcpReassembler) : Type 0 where
  pub known_state : r.state ≤ 3
  pub array : length r.size_bytes ≡ 4
  pub index : r.size_idx < 4
  pub held : length r.payload ≤ r.max_payload
  pub filling : r.state ≡ 3 → (length r.payload < r.payload_size) × (r.payload_size ≤ r.max_payload)
  pub all_within : AllWithin r.max_payload r.delivered

either :
    (c : Bool) (x y : TcpReassembler)
    → (c ≡ true → IsSound x)
    → (c ≡ false → IsSound y)
    → IsSound (if c then x else y)
either true x y p q = p refl
either false x y p q = q refl

-- A state other than the last one, with the rest as before.
moved :
    (r : TcpReassembler) (state resyncs : ℕ)
    → state < 3
    → IsSound r
    → IsSound (record r { state = state; resyncs = resyncs })
moved r state resyncs p h =
    let f = h.array in
    let g = h.index in
    let k = h.held in
    record {
      known_state = omega arith;
      array = f;
      index = g;
      held = k;
      filling = λ e. absurd (omega (arith, e));
      all_within = h.all_within;
    }

expect_start-IsSound : (r : TcpReassembler) (b : ℕ) → IsSound r → IsSound (expect_start r b)
unfolding expect_start
expect_start-IsSound r b h =
    either (b == 0xAB) _ _ (λ e. moved r 1 r.resyncs (omega arith) h) (λ e. h)

expect_second-IsSound : (r : TcpReassembler) (b : ℕ) → IsSound r → IsSound (expect_second r b)
unfolding expect_second
expect_second-IsSound r b h =
    either (b == 0xCD) _ _
      (λ e. record {
        known_state = omega arith;
        array = h.array;
        index = omega arith;
        held = h.held;
        filling = λ q. absurd (omega (arith, q));
        all_within = h.all_within;
      })
      (λ e.
        either (b == 0xAB) _ _ (λ e. moved r 1 r.resyncs (omega arith) h)
          (λ e. moved r 0 _ (omega arith) h))

size_complete-IsSound :
    (r : TcpReassembler)
    → length r.size_bytes ≡ 4
    → length r.payload ≤ r.max_payload
    → AllWithin r.max_payload r.delivered
    → IsSound (size_complete r)
unfolding size_complete
size_complete-IsSound r f k w =
    either (ltb r.max_payload (big_endian r.size_bytes)) _ _
      (λ e. record {
        known_state = omega arith;
        array = f;
        index = omega arith;
        held = k;
        filling = λ q. absurd (omega (arith, q));
        all_within = w;
      })
      (λ e.
        either (big_endian r.size_bytes == 0) _ _
          (λ z. record {
            known_state = omega arith;
            array = f;
            index = omega arith;
            held = k;
            filling = λ q. absurd (omega (arith, q));
            all_within = AllWithin-snoc r.max_payload r.delivered [] w (omega arith);
          })
          (λ z. record {
            known_state = omega arith;
            array = f;
            index = omega arith;
            held = omega arith;
            filling = λ q. (ground (arith, z), ground (arith, e));
            all_within = w;
          }))

size_byte-IsSound : (r : TcpReassembler) (b : ℕ) → IsSound r → r.state ≡ 2 → IsSound (size_byte r b)
unfolding size_byte
size_byte-IsSound r b h at =
    let g = h.index in
    either ((r.size_idx + 1) % 2 ^ 8 == 4) _ _
      (λ e.
        size_complete-IsSound
          (record r {
            size_bytes = set r.size_bytes r.size_idx b;
            size_idx = (r.size_idx + 1) % 2 ^ 8;
          })
          (length-set r.size_bytes r.size_idx b ∙ h.array) h.held h.all_within)
      (λ e. record {
        known_state = omega arith;
        array = length-set r.size_bytes r.size_idx b ∙ h.array;
        index = ground (arith, e, g);
        held = h.held;
        filling = λ q. absurd (omega (arith, q));
        all_within = h.all_within;
      })

payload_byte-IsSound :
    (r : TcpReassembler) (b : ℕ) → IsSound r → r.state ≡ 3 → IsSound (payload_byte r b)
unfolding payload_byte
payload_byte-IsSound r b h at =
    let f = h.filling at in
    let one_more = length-append r.payload (b ∷ []) in
    either (length (r.payload ++ (b ∷ [])) == r.payload_size) _ _
      (λ e. record {
        known_state = omega arith;
        array = h.array;
        index = h.index;
        held = omega arith;
        filling = λ q. absurd (omega (arith, q));
        all_within =
            AllWithin-snoc r.max_payload r.delivered (r.payload ++ (b ∷ [])) h.all_within
              (omega (arith, one_more, f.0, f.1));
      })
      (λ e. record {
        known_state = omega arith;
        array = h.array;
        index = h.index;
        held = omega (arith, one_more, f.0, f.1);
        filling = λ q. (ground (arith, e, one_more, f.0), f.1);
        all_within = h.all_within;
      })

feed_byte-IsSound : (r : TcpReassembler) (b : ℕ) → IsSound r → IsSound (feed_byte r b)
unfolding feed_byte
feed_byte-IsSound r b h =
    either (r.state == 0) _ _ (λ e. expect_start-IsSound r b h)
      (λ e.
        either (r.state == 1) _ _ (λ e. expect_second-IsSound r b h)
          (λ e.
            either (r.state == 2) _ _ (λ e. size_byte-IsSound r b h (ground (arith, e)))
              (λ e.
                either (r.state == 3) _ _ (λ e. payload_byte-IsSound r b h (ground (arith, e)))
                  (λ e. moved r 0 r.resyncs (omega arith) h))))

-- Whatever bytes arrive, in whatever pieces, a sound reassembler, such as a new one, stays sound: the
-- state is one of the four, the length bytes stay inside their array, and no more than `max_payload`
-- bytes are ever held or delivered as one payload.
pub feed-IsSound : (r : TcpReassembler) (bytes : List ℕ) → IsSound r → IsSound (feed r bytes)
unfolding feed
feed-IsSound r [] h = h
feed-IsSound r (b ∷ bytes) h = feed-IsSound (feed_byte r b) bytes (feed_byte-IsSound r b h)

pub new_reassembler-IsSound : (bound : ℕ) → IsSound (new_reassembler bound)
new_reassembler-IsSound bound = record {
  known_state = omega arith;
  array = refl;
  index = omega arith;
  held = omega arith;
  filling = λ q. absurd (omega (arith, q));
  all_within = tt;
}

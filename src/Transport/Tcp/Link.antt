-- ===== src/Transport/Tcp/Link.antt =====
-- src/network_interfaces/tcp_interface.cpp: payloads that one interface writes and another receives.
use av_hil_validation_platfo.Base.Lists.{length}
use av_hil_validation_platfo.Transport.Stream.{filled, read_loop, read_bytes, number_of}
use av_hil_validation_platfo.Transport.Stream.Numbers.{number_of_4}
use av_hil_validation_platfo.Transport.Tcp.{
  Host, little_endian, big_endian, memory_of, htonl, TcpInterface, at_test, receive, write,
  after_read, continue, turn, turns,
}
use av_hil_validation_platfo.Base.{
  ℕ, zero, suc, ◌+◌, ◌*◌, ◌%◌, ◌^◌, ◌<◌, ◌≡◌, refl, ap, ap₂, sym, ◌∙◌, Bool, true, false, List, [],
  ◌∷◌, ◌++◌, append-nil, append_assoc, arith,
}

abbrev pub write_all : Host → List (List ℕ) → TcpInterface → TcpInterface
write_all host [] i = i
write_all host (l ∷ payloads) i = write_all host payloads (write host true l i)

abbrev pub wire : Host → List ℕ → List ℕ
wire host l = 0xAB ∷ 0xCD ∷ (memory_of host (length l % 2 ^ 32) ++ l)

abbrev pub wires : Host → List (List ℕ) → List ℕ
wires host [] = []
wires host (l ∷ payloads) = wire host l ++ wires host payloads

-- Each payload has a size that 32 bits hold.
abbrev pub AllFit : List (List ℕ) → Type 0
AllFit [] = Unit
AllFit (l ∷ payloads) = (length l < 2 ^ 32) × AllFit payloads

pub write_all-sent :
    (host : Host) (payloads : List (List ℕ)) (i : TcpInterface)
    → (write_all host payloads i).sent ≡ i.sent ++ wires host payloads
unfolding write
write_all-sent host [] i = sym (append-nil i.sent)
write_all-sent host (l ∷ payloads) i =
    write_all-sent host payloads (write host true l i)
    ∙ append_assoc i.sent (wire host l) (wires host payloads)

-- The number with the bytes of `v` the other way round, and its own bytes.
abbrev swapped : ℕ → ℕ
swapped v = htonl little_endian v

memory_of-swapped : (v : ℕ) → memory_of big_endian (swapped v) ≡ memory_of little_endian v
memory_of-swapped v =
    ap₂ ◌∷◌ (omega arith)
      (ap₂ ◌∷◌ (omega arith) (ap₂ ◌∷◌ (omega arith) (ap₂ ◌∷◌ (omega arith) refl)))

pub htonl-memory_of :
    (host : Host) (v : ℕ) → v < 2 ^ 32 → htonl host (number_of 32 (memory_of host v)) ≡ v
htonl-memory_of big_endian v h = number_of_4 v h
htonl-memory_of little_endian v h =
    ap (λ (l : List ℕ). htonl little_endian (number_of 32 l)) (sym (memory_of-swapped v))
    ∙ ap (htonl little_endian) (number_of_4 (swapped v) (omega arith))
    ∙ omega (arith, h)

pub read_loop-append :
    (l done rest : List ℕ) (n : ℕ)
    → n ≡ length l
    → read_loop n done (l ++ rest) ≡ (filled (done ++ l), rest)
unfolding read_loop
read_loop-append [] done rest zero e = rw (append-nil done) refl
read_loop-append [] done rest (suc n) e = absurd (omega (arith, e))
read_loop-append (x ∷ l) done rest zero e = absurd (omega (arith, e))
read_loop-append (x ∷ l) done rest (suc n) e =
    read_loop-append l (done ++ (x ∷ [])) rest n (omega (arith, e))
    ∙ ap (λ (t : List ℕ). (filled t, rest)) (append_assoc done (x ∷ []) l)

turns_add :
    (host : Host) (n a b : ℕ) (i : TcpInterface)
    → n ≡ a + b
    → turns host n i ≡ turns host b (turns host a i)
unfolding turns
turns_add host n zero b i e = ap (λ (k : ℕ). turns host k i) (let z : n ≡ b = omega (arith, e) in z)
turns_add host zero (suc a) b i e = absurd (omega (arith, e))
turns_add host (suc n) (suc a) b i e = turns_add host n a b (turn host i) (omega (arith, e))

module _ (i : TcpInterface) where
  -- The receiver at the test of its loop.
  abbrev at : List ℕ → ℕ → ℕ → List (List ℕ) → Bool → TcpInterface
  at queue state payload_size delivered notified = record i {
    stream = record { finish = false; queue = queue; notified = notified };
    place = at_test;
    state = state;
    payload_size = payload_size;
    delivered = delivered;
  }

  starts :
      (host : Host) (q : List ℕ) (size : ℕ) (d : List (List ℕ)) (n : Bool)
      → turns host 4 (at (0xAB ∷ 0xCD ∷ q) 0 size d n) ≡ at q 2 size d false
  unfolding turns turn continue read_bytes read_loop after_read
  starts host q size d n = refl

  sized :
      (host : Host) (v : ℕ) (q : List ℕ) (size : ℕ) (d : List (List ℕ)) (n : Bool)
      → v < 2 ^ 32
      → turns host 2 (at (memory_of host v ++ q) 2 size d n) ≡ at q 3 v d false
  unfolding turns turn continue read_bytes read_loop after_read
  sized little_endian v q size d n h =
      ap (λ (k : ℕ). at q 3 k d false) (htonl-memory_of little_endian v h)
  sized big_endian v q size d n h =
      ap (λ (k : ℕ). at q 3 k d false) (htonl-memory_of big_endian v h)

  taken :
      (host : Host) (l q : List ℕ) (size : ℕ) (d : List (List ℕ)) (n : Bool)
      → size ≡ length l
      → turns host 2 (at (l ++ q) 3 size d n) ≡ at q 0 size (d ++ (l ∷ [])) false
  unfolding turns turn continue read_bytes after_read
  taken host l q size d n e = rw (read_loop-append l [] q size e) refl

  frame_lem :
      (host : Host) (l q : List ℕ) (size : ℕ) (d : List (List ℕ)) (n : Bool)
      → length l < 2 ^ 32
      → turns host 8 (at (wire host l ++ q) 0 size d n) ≡ at q 0 (length l) (d ++ (l ∷ [])) false
  frame_lem host l q size d n h =
      let v = length l % 2 ^ 32 in
      turns_add host 8 4 4 (at (wire host l ++ q) 0 size d n) refl
      ∙ ap (turns host 4) (starts host ((memory_of host v ++ l) ++ q) size d n)
      ∙ turns_add host 4 2 2 (at ((memory_of host v ++ l) ++ q) 2 size d false) refl
      ∙ ap (λ (k : List ℕ). turns host 2 (turns host 2 (at k 2 size d false)))
          (append_assoc (memory_of host v) l q)
      ∙ ap (turns host 2) (sized host v (l ++ q) size d false (omega arith))
      ∙ taken host l q v d false (omega (arith, h))
      ∙ ap (λ (k : ℕ). at q 0 k (d ++ (l ∷ [])) false) (omega (arith, h))

  frames_lem :
      (host : Host) (payloads : List (List ℕ)) (size : ℕ) (d : List (List ℕ)) (n : Bool)
      → AllFit payloads
      → let r = turns host (8 * length payloads) (at (wires host payloads) 0 size d n) in
        (r.delivered ≡ d ++ payloads) × (r.stream.queue ≡ []) × (r.place ≡ at_test) × (r.state ≡ 0)
  unfolding turns
  frames_lem host [] size d n h = (sym (append-nil d), refl, refl, refl)
  frames_lem host (l ∷ payloads) size d n h =
      let first = frame_lem host l (wires host payloads) size d n h.0 in
      let split =
        turns_add host (8 * suc (length payloads)) 8 (8 * length payloads)
          (at (wire host l ++ wires host payloads) 0 size d n) (omega arith)
        ∙ ap (turns host (8 * length payloads)) first in
      let rest = frames_lem host payloads (length l) (d ++ (l ∷ [])) false h.1 in
      (
        ap (λ (r : TcpInterface). r.delivered) split ∙ rest.0 ∙ append_assoc d (l ∷ []) payloads,
        ap (λ (r : TcpInterface). r.stream.queue) split ∙ rest.1,
        ap (λ (r : TcpInterface). r.place) split ∙ rest.2,
        ap (λ (r : TcpInterface). r.state) split ∙ rest.3,
      )

-- Payloads of fewer than 2^32 bytes that one interface writes, and that arrive at another one on a host
-- with the same order of bytes, whose thread is at the test of its loop with nothing received: after
-- eight turns of that thread for each payload all are delivered, in order and unchanged, and nothing is
-- left over.
pub turns-write_all :
    (host : Host) (payloads : List (List ℕ)) (sender receiver : TcpInterface)
    → AllFit payloads
    → sender.sent ≡ []
    → receiver.place ≡ at_test
    → receiver.state ≡ 0
    → receiver.stream.finish ≡ false
    → receiver.stream.queue ≡ []
    → let r =
        turns host (8 * length payloads) (receive (write_all host payloads sender).sent receiver) in
      (r.delivered ≡ receiver.delivered ++ payloads)
      × (r.stream.queue ≡ [])
      × (r.place ≡ at_test)
      × (r.state ≡ 0)
turns-write_all host payloads sender receiver fit fresh p s f q =
    rw (write_all-sent host payloads sender, fresh, q)
      (rw (here)
        (frames_lem receiver host payloads receiver.payload_size receiver.delivered true fit))
  where
    here :
        record receiver {
          stream = record {
            finish = receiver.stream.finish;
            queue = wires host payloads;
            notified = true;
          };
        }
        ≡ at receiver (wires host payloads) 0 receiver.payload_size receiver.delivered true
    here = λ t. record receiver {
      stream = record { finish = f t; queue = wires host payloads; notified = true };
      place = p t;
      state = s t;
    }

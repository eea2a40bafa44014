-- ===== src/Transport/Tcp/Pieces/Owes.antt =====
-- src/network_interfaces/tcp_interface.cpp: what the receiving thread has still to read in each of its states.
use mathlib.Core.Path.{subst}
use av_hil_validation_platfo.Base.Lists.{length}
use av_hil_validation_platfo.Transport.Stream.{waiting, read_loop, number_of}
use av_hil_validation_platfo.Transport.Tcp.{
  Host, memory_of, htonl, TcpInterface, Place, at_test, wanted, after_read,
}
use av_hil_validation_platfo.Transport.Tcp.Link.{wires, AllFit, htonl-memory_of}
use av_hil_validation_platfo.Base.{
  ℕ, zero, suc, ◌+◌, ◌-◌, ◌*◌, ◌%◌, ◌^◌, ◌<◌, ◌≡◌, ◌⊎◌, inl, inr, refl, ap, ap₂, sym, ◌∙◌, Bool,
  false, List, [], ◌∷◌, ◌++◌, append-nil, append_assoc, arith,
}

-- A loop that does not find all the bytes takes what there is.
pub read_loop_short :
    (q done : List ℕ) (n : ℕ)
    → length q < n
    → read_loop n done q ≡ (waiting (done ++ q) (n - length q), [])
unfolding read_loop
read_loop_short q done zero h = absurd (omega (arith, h))
read_loop_short [] done (suc n) h =
    ap₂ (λ (b : List ℕ) (m : ℕ). (waiting b m, [])) (sym (append-nil done))
      (let z : suc n ≡ suc n - 0 = omega arith in z)
read_loop_short (x ∷ q) done (suc n) h =
    read_loop_short q (done ++ x ∷ []) n (omega (arith, h))
    ∙ ap₂ (λ (b : List ℕ) (m : ℕ). (waiting b m, [])) (append_assoc done (x ∷ []) q)
        (let z : n - length q ≡ suc n - suc (length q) = omega arith in z)

-- What is still to be read in each state, with the payloads that it has, and how many reads that takes.
pub data Owes (host : Host) : ℕ → ℕ → List ℕ → List (List ℕ) → ℕ → Type 0 where
  at_start :
      {size : ℕ} (ps : List (List ℕ))
      → AllFit ps
      → Owes host 0 size (wires host ps) ps (4 * length ps)
  at_second :
      {size : ℕ} (l : List ℕ) (ps : List (List ℕ))
      → AllFit (l ∷ ps)
      → Owes host 1 size
          (0xCD ∷ (memory_of host (length l % 2 ^ 32) ++ (l ++ wires host ps)))
          (l ∷ ps)
          (3 + 4 * length ps)
  at_size :
      {size : ℕ} (l : List ℕ) (ps : List (List ℕ))
      → AllFit (l ∷ ps)
      → Owes host 2 size
          (memory_of host (length l % 2 ^ 32) ++ (l ++ wires host ps))
          (l ∷ ps)
          (2 + 4 * length ps)
  at_payload :
      (l : List ℕ) (ps : List (List ℕ))
      → AllFit (l ∷ ps)
      → Owes host 3 (length l) (l ++ wires host ps) (l ∷ ps) (1 + 4 * length ps)

four : (host : Host) (v : ℕ) → length (memory_of host v) ≡ 4
four Host.little_endian v = refl
four Host.big_endian v = refl

module _ (base : TcpInterface) where
  -- The receiver that is not shut down.
  abbrev pub st : Place → List ℕ → Bool → ℕ → ℕ → List (List ℕ) → TcpInterface
  st place queue notified state size delivered = record base {
    stream = record { finish = false; queue = queue; notified = notified };
    place = place;
    state = state;
    payload_size = size;
    delivered = delivered;
  }

  -- A read of the next bytes, and the rest of its round.
  pub record Step (host : Host) (p : Place) (d : List (List ℕ)) (state size : ℕ) (s : List ℕ)
      (ps : List (List ℕ)) (k : ℕ) : Type 0 where
    pub chunk : List ℕ
    pub rest : List ℕ
    pub split : s ≡ chunk ++ rest
    pub fits : length chunk ≡ wanted (st p [] false state size d)
    pub left : List (List ℕ)
    pub fewer : ℕ
    pub one_less : k ≡ suc fewer
    pub next_state : ℕ
    pub next_size : ℕ
    pub next_delivered : List (List ℕ)
    pub next :
        (q : List ℕ) (n : Bool)
        → record (after_read host chunk (st p q n state size d)) { place = at_test }
          ≡ st at_test q n next_state next_size next_delivered
    pub owes : Owes host next_state next_size rest left fewer
    pub keeps : next_delivered ++ left ≡ d ++ ps

  pub step_lem :
      (host : Host) (p : Place) (d : List (List ℕ)) (state size : ℕ) {s : List ℕ}
      {ps : List (List ℕ)} {k : ℕ}
      → Owes host state size s ps k
      → ((ps ≡ []) × (s ≡ []) × (k ≡ 0) × (state ≡ 0)) ⊎ Step host p d state size s ps k
  unfolding after_read
  step_lem host p d state size (at_start [] fit) = inl (refl, refl, refl, refl)
  step_lem host p d state size (at_start (l ∷ ps) fit) = inr (record {
    chunk = 0xAB ∷ [];
    rest = 0xCD ∷ (memory_of host (length l % 2 ^ 32) ++ (l ++ wires host ps));
    split =
        ap (λ (t : List ℕ). 0xAB ∷ 0xCD ∷ t)
          (append_assoc (memory_of host (length l % 2 ^ 32)) l (wires host ps));
    fits = refl;
    left = l ∷ ps;
    fewer = 3 + 4 * length ps;
    one_less = omega arith;
    next_state = 1;
    next_size = size;
    next_delivered = d;
    next = λ q n. refl;
    owes = at_second l ps fit;
    keeps = refl;
  })
  step_lem host p d state size (at_second l ps fit) = inr (record {
    chunk = 0xCD ∷ [];
    rest = memory_of host (length l % 2 ^ 32) ++ (l ++ wires host ps);
    split = refl;
    fits = refl;
    left = l ∷ ps;
    fewer = 2 + 4 * length ps;
    one_less = omega arith;
    next_state = 2;
    next_size = size;
    next_delivered = d;
    next = λ q n. refl;
    owes = at_size l ps fit;
    keeps = refl;
  })
  step_lem host p d state size (at_size l ps fit) =
      let v = length l % 2 ^ 32 in
      let whole : htonl host (number_of 32 (memory_of host v)) ≡ length l =
        htonl-memory_of host v (omega arith) ∙ (let z : v ≡ length l = omega (arith, fit.0) in z) in
      inr (record {
        chunk = memory_of host v;
        rest = l ++ wires host ps;
        split = refl;
        fits = four host v;
        left = l ∷ ps;
        fewer = 1 + 4 * length ps;
        one_less = omega arith;
        next_state = 3;
        next_size = htonl host (number_of 32 (memory_of host v));
        next_delivered = d;
        next = λ q n. refl;
        owes =
            subst (λ (z : ℕ). Owes host 3 z (l ++ wires host ps) (l ∷ ps) (1 + 4 * length ps))
              (sym whole) (at_payload l ps fit);
        keeps = refl;
      })
  step_lem host p d state size (at_payload l ps fit) = inr (record {
    chunk = l;
    rest = wires host ps;
    split = refl;
    fits = refl;
    left = ps;
    fewer = 4 * length ps;
    one_less = omega arith;
    next_state = 0;
    next_size = length l;
    next_delivered = d ++ l ∷ [];
    next = λ q n. refl;
    owes = at_start ps fit.1;
    keeps = append_assoc d (l ∷ []) ps;
  })

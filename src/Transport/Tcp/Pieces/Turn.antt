-- ===== src/Transport/Tcp/Pieces/Turn.antt =====
-- src/network_interfaces/tcp_interface.cpp: a turn of the receiving thread while bytes are still to arrive.
use mathlib.Core.Path.{subst}
use native.Mathlib.Decide.{dec_lt}
use av_hil_validation_platfo.Base.Lists.{length, length-append}
use av_hil_validation_platfo.Transport.Stream.{filled, read_loop, read_bytes, resume, woken}
use av_hil_validation_platfo.Transport.Tcp.{
  Host, TcpInterface, Place, at_test, at_read, in_read, ended, lost, wanted, receive, continue,
  turn, turns,
}
use av_hil_validation_platfo.Transport.Tcp.Link.{read_loop-append}
use av_hil_validation_platfo.Base.{
  ℕ, zero, suc, ◌+◌, ◌-◌, ◌*◌, ◌<◌, ◌≤◌, ◌≡◌, ◌⊎◌, inl, inr, refl, ap, ap₂, sym, ◌∙◌, Bool, true,
  false, List, [], ◌∷◌, ◌++◌, append-nil, append_assoc, arith,
}
use av_hil_validation_platfo.Transport.Tcp.Pieces.Owes.{
  Owes, at_start, at_second, at_size, at_payload, st, step_lem, read_loop_short,
}

module _ (base : TcpInterface) where
  -- What is to be read is what the read has, what is in the queue, and what is still to arrive. A thread that
  -- waits is woken up exactly when there is something.
  abbrev pub Reading : Place → List ℕ → Bool → ℕ → List ℕ → List ℕ → Type 0
  Reading at_test q n w s f = s ≡ q ++ f
  Reading at_read q n w s f = s ≡ q ++ f
  Reading (in_read b m) q n w s f =
      (s ≡ b ++ (q ++ f))
      × (length b + m ≡ w)
      × (0 < m)
      × (((q ≡ []) × (n ≡ false)) ⊎ ((0 < length q) × (n ≡ true)))
  Reading ended q n w s f = ⊥
  Reading lost q n w s f = ⊥

  abbrev pub cost : Place → ℕ → ℕ
  cost at_test k = 2 * k
  cost _ k = 2 * k - 1

  pub record Inv (host : Host) (all : List (List ℕ)) (f : List ℕ) (c : ℕ) (i : TcpInterface)
      : Type 0 where
    pub p : Place
    pub q : List ℕ
    pub n : Bool
    pub state : ℕ
    pub size : ℕ
    pub d : List (List ℕ)
    pub s : List ℕ
    pub ps : List (List ℕ)
    pub k : ℕ
    pub is : i ≡ st base p q n state size d
    pub owes : Owes host state size s ps k
    pub reading : Reading p q n (wanted (st base p q n state size d)) s f
    pub total : d ++ ps ≡ all
    pub within : cost p k ≤ c

  split_append :
      (q f chunk rest : List ℕ)
      → q ++ f ≡ chunk ++ rest
      → length chunk ≤ length q
      → (q2 : List ℕ) × (q ≡ chunk ++ q2) × (rest ≡ q2 ++ f)
  split_append q f [] rest e h = (q, refl, sym e)
  split_append [] f (c ∷ chunk) rest e h = absurd (omega (arith, h))
  split_append (x ∷ q) f (c ∷ chunk) rest e h =
      let head : x ≡ c = cc in
      let tail : q ++ f ≡ chunk ++ rest = cc in
      let (q2, e1, e2) = split_append q f chunk rest tail (omega (arith, h)) in
      (q2, ap₂ (λ (y : ℕ) (l : List ℕ). y ∷ l) head e1, e2)

  pub arrive-Inv :
      (host : Host) (all : List (List ℕ)) (bytes f : List ℕ) (c : ℕ) (i : TcpInterface)
      → 0 < length bytes
      → Inv host all (bytes ++ f) c i
      → Inv host all f c (receive bytes i)
  arrive-Inv host all bytes f c i some_bytes h = record {
    p = h.p;
    q = h.q ++ bytes;
    n = true;
    state = h.state;
    size = h.size;
    d = h.d;
    s = h.s;
    ps = h.ps;
    k = h.k;
    is = ap (receive bytes) h.is;
    owes = h.owes;
    reading = later h.p h.reading;
    total = h.total;
    within = h.within;
  }
    where
      later :
          (p : Place)
          → Reading p h.q h.n (wanted (st base h.p h.q h.n h.state h.size h.d)) h.s (bytes ++ f)
          → Reading p (h.q ++ bytes) true (wanted (st base h.p h.q h.n h.state h.size h.d)) h.s f
      later at_test r = r ∙ sym (append_assoc h.q bytes f)
      later at_read r = r ∙ sym (append_assoc h.q bytes f)
      later (in_read b m) (r, w, m_some, woken) = (
        r ∙ ap (λ (l : List ℕ). b ++ l) (sym (append_assoc h.q bytes f)),
        w,
        m_some,
        inr (omega (arith, some_bytes, length-append h.q bytes), refl),
      )
      later ended r = r
      later lost r = r

  -- Once everything has arrived each turn counts.
  abbrev pub less : List ℕ → ℕ → ℕ
  less [] c = c - 1
  less (x ∷ f) c = c

  less_le : (f : List ℕ) (c : ℕ) → c - 1 ≤ less f c
  less_le [] c = omega arith
  less_le (x ∷ f) c = omega arith

  less_same : (f : List ℕ) (c : ℕ) → (length f ≡ 0 → c ≡ 0) → c ≤ less f c
  less_same [] c h = omega (arith, h refl)
  less_same (x ∷ f) c h = omega arith

  first_wanted :
      (p : Place) (d : List (List ℕ)) (state size : ℕ)
      → state ≡ 0
      → wanted (st base p [] false state size d) ≡ 1
  first_wanted p d state size e = ap (λ (t : ℕ). wanted (st base p [] false t size d)) e

  -- A thread that waits when everything has arrived has nothing left to read.
  waits_le :
      (host : Host) (f : List ℕ) (p : Place) (q : List ℕ) (n : Bool) (d : List (List ℕ))
      (state size : ℕ) (s : List ℕ) (ps : List (List ℕ)) (k : ℕ) (b : List ℕ) (m : ℕ)
      → Owes host state size s ps k
      → s ≡ b ++ (q ++ f)
      → length b + m ≡ wanted (st base p q n state size d)
      → length q < m
      → 2 * k - 1 ≤ less f (2 * k - 1)
  waits_le host f p q n d state size s ps k b m owes r w short =
      let size_s : length s ≡ length b + (length q + length f) =
        ap length r ∙ length-append b (q ++ f) ∙ ap (λ (t : ℕ). length b + t) (length-append q f) in
      less_same f (2 * k - 1) (λ none. elim (step_lem base host p d state size owes) [
        | inl (e1, e2, e3, e4) ↦ omega (arith, e3)
        | inr step ↦ absurd (
            omega (
              arith,
              none,
              w,
              short,
              size_s,
              step.fits,
              ap length step.split,
              length-append step.chunk step.rest,
            ))
      ])

  -- A read that goes on with what is in the queue.
  read_on :
      (host : Host) (all : List (List ℕ)) (f : List ℕ) (p : Place) (q : List ℕ) (n : Bool)
      (d : List (List ℕ)) (state size : ℕ) (s : List ℕ) (ps : List (List ℕ)) (k : ℕ) (b : List ℕ)
      (m : ℕ)
      → Owes host state size s ps k
      → d ++ ps ≡ all
      → s ≡ b ++ (q ++ f)
      → length b + m ≡ wanted (st base p q n state size d)
      → Inv host all f (less f (2 * k - 1)) (
          continue host
            (
              (read_loop m b q).0,
              record { finish = false; queue = (read_loop m b q).1; notified = false },
            )
            (st base p q n state size d))
  unfolding continue
  read_on host all f p q n d state size s ps k b m owes total r w = elim (dec_lt (length q) m) [
    | yes short ↦
        let costs = waits_le host f p q n d state size s ps k b m owes r w short in
        rw (read_loop_short q b m short) (record {
          p = in_read (b ++ q) (m - length q);
          q = [];
          n = false;
          state = state;
          size = size;
          d = d;
          s = s;
          ps = ps;
          k = k;
          is = refl;
          owes = owes;
          reading = (
            r ∙ sym (append_assoc b q f),
            omega (arith, w, short, length-append b q),
            omega (arith, short),
            inl (refl, refl),
          );
          total = total;
          within = costs;
        })
    | no enough ↦ elim (step_lem base host p d state size owes) [
      | inl (e1, e2, e3, e4) ↦
          let one = first_wanted p d state size e4 in
          absurd (
            omega (
              arith,
              enough,
              one,
              w,
              ap length (sym e2 ∙ r),
              length-append b (q ++ f),
              length-append q f,
            ))
      | inr step ↦
          let long : length step.chunk ≤ length (b ++ q) =
            omega (arith, w, enough, step.fits, length-append b q) in
          let (q2, e1, e2) =
            split_append (b ++ q) f step.chunk step.rest (append_assoc b q f ∙ sym r ∙ step.split)
              long in
          let (c2, e3, e4) =
            split_append step.chunk q2 b q (sym e1) (omega (arith, w, step.fits)) in
          let count : m ≡ length c2 =
            omega (arith, w, step.fits, ap length e3, length-append b c2) in
          let read : read_loop m b q ≡ (filled step.chunk, q2) =
            ap (read_loop m b) e4
            ∙ read_loop-append c2 b q2 m count
            ∙ ap (λ (l : List ℕ). (filled l, q2)) (sym e3) in
          rw read (record {
            p = at_test;
            q = q2;
            n = false;
            state = step.next_state;
            size = step.next_size;
            d = step.next_delivered;
            s = step.rest;
            ps = step.left;
            k = step.fewer;
            is = step.next q2 false;
            owes = step.owes;
            reading = e2;
            total = step.keeps ∙ total;
            within = omega (arith, step.one_less, less_le f (2 * k - 1));
          })
    ]
  ]

  turn_at-Inv :
      (host : Host) (all : List (List ℕ)) (f : List ℕ) (p : Place) (q : List ℕ) (n : Bool)
      (d : List (List ℕ)) (state size : ℕ) (s : List ℕ) (ps : List (List ℕ)) (k : ℕ)
      → Owes host state size s ps k
      → d ++ ps ≡ all
      → Reading p q n (wanted (st base p q n state size d)) s f
      → Inv host all f (less f (cost p k)) (turn host (st base p q n state size d))
  unfolding turn read_bytes resume
  turn_at-Inv host all f at_test q n d state size s ps k owes total r = record {
    p = at_read;
    q = q;
    n = n;
    state = state;
    size = size;
    d = d;
    s = s;
    ps = ps;
    k = k;
    is = refl;
    owes = owes;
    reading = r;
    total = total;
    within = less_le f (2 * k);
  }
  turn_at-Inv host all f at_read q n d state size s ps k owes total r =
      read_on host all f at_read q n d state size s ps k []
        (wanted (st base at_read q n state size d)) owes total r (omega arith)
  turn_at-Inv host all f (in_read b m) q n d state size s ps k owes total
        (r, w, some_missing, inr (there, on)) =
      rw on (woken_on q there r)
    where
      woken_on :
          (t : List ℕ)
          → 0 < length t
          → s ≡ b ++ (t ++ f)
          → Inv host all f (less f (2 * k - 1)) (
              continue host
                (let (state, queue) = woken m b t in
                  (state, record { finish = false; queue = queue; notified = false }))
                (st base (in_read b m) t true state size d))
      woken_on [] h e = absurd (omega (arith, h))
      woken_on (x ∷ t) h e =
          read_on host all f (in_read b m) (x ∷ t) true d state size s ps k b m owes total e w
  turn_at-Inv host all f (in_read b m) q n d state size s ps k owes total
        (r, w, some_missing, inl (none, off)) =
      let short : length q < m = omega (arith, some_missing, ap length none) in
      rw off (record {
        p = in_read b m;
        q = q;
        n = false;
        state = state;
        size = size;
        d = d;
        s = s;
        ps = ps;
        k = k;
        is = refl;
        owes = owes;
        reading = (r, w, some_missing, inl (none, refl));
        total = total;
        within = waits_le host f (in_read b m) q n d state size s ps k b m owes r w short;
      })
  turn_at-Inv host all f ended q n d state size s ps k owes total r = elim r [ ]
  turn_at-Inv host all f lost q n d state size s ps k owes total r = elim r [ ]

  pub Inv-weak :
      (host : Host) (all : List (List ℕ)) (f : List ℕ) (c c2 : ℕ) (i : TcpInterface)
      → c ≤ c2
      → Inv host all f c i
      → Inv host all f c2 i
  Inv-weak host all f c c2 i le h =
      let within = h.within in
      record {
        p = h.p;
        q = h.q;
        n = h.n;
        state = h.state;
        size = h.size;
        d = h.d;
        s = h.s;
        ps = h.ps;
        k = h.k;
        is = h.is;
        owes = h.owes;
        reading = h.reading;
        total = h.total;
        within = omega (arith, le, within);
      }

  less_mono : (f : List ℕ) (a c : ℕ) → a ≤ c → less f a ≤ less f c
  less_mono [] a c h = omega (arith, h)
  less_mono (x ∷ f) a c h = h

  pub turn-Inv :
      (host : Host) (all : List (List ℕ)) (f : List ℕ) (c : ℕ) (i : TcpInterface)
      → Inv host all f c i
      → Inv host all f (less f c) (turn host i)
  turn-Inv host all f c i h =
      subst (λ (j : TcpInterface). Inv host all f (less f c) (turn host j)) (sym h.is)
        (Inv-weak host all f (less f (cost h.p h.k)) (less f c) _
          (less_mono f (cost h.p h.k) c h.within)
          (turn_at-Inv host all f h.p h.q h.n h.d h.state h.size h.s h.ps h.k h.owes h.total
            h.reading))

  pub turns-Inv :
      (host : Host) (all : List (List ℕ)) (n c : ℕ) (i : TcpInterface)
      → Inv host all [] c i
      → Inv host all [] (c - n) (turns host n i)
  unfolding turns
  turns-Inv host all zero c i h = Inv-weak host all [] c (c - 0) i (omega arith) h
  turns-Inv host all (suc n) c i h =
      Inv-weak host all [] (c - 1 - n) (c - suc n) _ (omega arith)
        (turns-Inv host all n (c - 1) (turn host i) (turn-Inv host all [] c i h))

  Owes_none :
      (host : Host) {state size : ℕ} {s : List ℕ} {ps : List (List ℕ)} {k : ℕ}
      → Owes host state size s ps k
      → k ≡ 0
      → ps ≡ []
  Owes_none host (at_start [] fit) e = refl
  Owes_none host (at_start (l ∷ ps) fit) e = absurd (omega (arith, e))
  Owes_none host (at_second l ps fit) e = absurd (omega (arith, e))
  Owes_none host (at_size l ps fit) e = absurd (omega (arith, e))
  Owes_none host (at_payload l ps fit) e = absurd (omega (arith, e))

  cost_none : (p : Place) (k : ℕ) → cost p k ≤ 0 → k ≡ 0
  cost_none at_test k h = omega (arith, h)
  cost_none at_read k h = omega (arith, h)
  cost_none (in_read b m) k h = omega (arith, h)
  cost_none ended k h = omega (arith, h)
  cost_none lost k h = omega (arith, h)

  pub Inv-done :
      (host : Host) (all : List (List ℕ)) (i : TcpInterface)
      → Inv host all [] 0 i
      → i.delivered ≡ all
  Inv-done host all i h =
      let none = Owes_none host h.owes (cost_none h.p h.k h.within) in
      ap (λ (j : TcpInterface). j.delivered) h.is
      ∙ sym (append-nil h.d)
      ∙ ap (λ (l : List (List ℕ)). h.d ++ l) (sym none)
      ∙ h.total

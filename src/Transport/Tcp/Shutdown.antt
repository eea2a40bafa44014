-- ===== src/Transport/Tcp/Shutdown.antt =====
-- src/network_interfaces/tcp_interface.cpp: whether `close` ends the thread that it joins.
use av_hil_validation_platfo.Transport.Stream.{read_loop, read_bytes, resume}
use av_hil_validation_platfo.Transport.Tcp.{
  Host, TcpInterface, Place, at_test, at_read, in_read, ended, lost, close, wanted, continue, turn,
  turns,
}
use av_hil_validation_platfo.Base.{
  ℕ, zero, suc, ◌<◌, ◌≡◌, refl, ap, sym, ◌∙◌, ◌⊎◌, inl, inr, false, List, [], arith,
}

-- The thread is not between the test of its loop and the read after it, and no read was undefined.
abbrev pub IsStoppable : Place → Type 0
IsStoppable at_test = Unit
IsStoppable (in_read bytes missing) = Unit
IsStoppable ended = Unit
IsStoppable at_read = ⊥
IsStoppable lost = ⊥

close_ends_at :
    (host : Host) (p : Place) (i : TcpInterface)
    → IsStoppable p
    → (turns host 2 (record (close i) { place = p })).place ≡ ended
unfolding turns turn continue resume
close_ends_at host at_test i h = refl
close_ends_at host (in_read bytes missing) i h = refl
close_ends_at host ended i h = refl
close_ends_at host at_read i h = elim h [ ]
close_ends_at host lost i h = elim h [ ]

-- A thread that stands at the test of its loop or waits in a read when its interface is closed has ended
-- two turns later.
pub close_ends :
    (host : Host) (i : TcpInterface) → IsStoppable i.place → (turns host 2 (close i)).place ≡ ended
close_ends host i h = close_ends_at host i.place i h

Nat-cases : (n : ℕ) → (n ≡ 0) ⊎ ((k : ℕ) × (n ≡ suc k))
Nat-cases zero = inl refl
Nat-cases (suc k) = inr (k, refl)

-- The thread waits, and nothing is there that wakes it up.
record IsAsleep (bytes : List ℕ) (missing : ℕ) (i : TcpInterface) : Type 0 where
  pub waits : i.place ≡ in_read bytes missing
  pub unnotified : i.stream.notified ≡ false

turn-IsAsleep :
    (host : Host) (bytes : List ℕ) (missing : ℕ) (i : TcpInterface)
    → IsAsleep bytes missing i
    → IsAsleep bytes missing (turn host i)
unfolding turn continue resume
turn-IsAsleep host bytes missing i h =
    rw (h.waits, h.unnotified) (record { waits = refl; unnotified = refl })

turns-IsAsleep :
    (host : Host) (bytes : List ℕ) (missing n : ℕ) (i : TcpInterface)
    → IsAsleep bytes missing i
    → IsAsleep bytes missing (turns host n i)
unfolding turns
turns-IsAsleep host bytes missing zero i h = h
turns-IsAsleep host bytes missing (suc n) i h =
    turns-IsAsleep host bytes missing n (turn host i) (turn-IsAsleep host bytes missing i h)

first_turn :
    (host : Host) (k : ℕ) (i : TcpInterface)
    → i.place ≡ at_read
    → wanted i ≡ suc k
    → IsAsleep [] (suc k) (turn host (close i))
unfolding turn continue read_bytes read_loop
first_turn host k i e w = rw (e) (rw (w) (record { waits = refl; unnotified = refl }))

-- A thread that has passed the test of its loop but has not begun to read when its interface is closed,
-- and wants at least one byte, waits from its next turn on for ever: `close` does not come back from
-- joining it.
pub close_misses_reader :
    (host : Host) (i : TcpInterface) (n : ℕ)
    → i.place ≡ at_read
    → 0 < wanted i
    → (turns host (suc n) (close i)).place ≡ in_read [] (wanted i)
unfolding turns
close_misses_reader host i n e h = elim (Nat-cases (wanted i)) [
  | inl z ↦ absurd (omega (arith, z, h))
  | inr (k, z) ↦
      (turns-IsAsleep host [] (suc k) n (turn host (close i)) (first_turn host k i e z)).waits
      ∙ ap (in_read []) (sym z)
]

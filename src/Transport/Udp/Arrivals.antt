-- ===== src/Transport/Udp/Arrivals.antt =====
-- src/network_interfaces/udp_interface.cpp: which of the datagrams that arrive are delivered, also between
-- writes.
use av_hil_validation_platfo.Transport.Udp.{
  UdpInterface, error_handler, start_receive, setup_steps, setup_udp, new_interface, receive,
  arrive, write,
}
use av_hil_validation_platfo.Base.{
  ℕ, ◌+◌, ◌≡◌, refl, sym, ◌∙◌, Bool, true, false, not, List, [], ◌∷◌, ◌++◌, append-nil,
  append_assoc,
}

-- An error and the bytes.
pub data Event : Type 0 where
  arrived : Bool → List ℕ → Event
  written : Bool → List ℕ → Event

abbrev pub handle : Event → UdpInterface → UdpInterface
handle (arrived ec bytes) u = arrive ec bytes u
handle (written ec bytes) u = write ec bytes u

abbrev pub handle_all : List Event → UdpInterface → UdpInterface
handle_all [] u = u
handle_all (x ∷ events) u = handle_all events (handle x u)

-- The datagrams with bytes before the first that has both bytes and an error.
abbrev pub before_error : List Event → List (List ℕ)
before_error [] = []
before_error (written ec bytes ∷ events) = before_error events
before_error (arrived ec [] ∷ events) = before_error events
before_error (arrived false (b ∷ bytes) ∷ events) = (b ∷ bytes) ∷ before_error events
before_error (arrived true (b ∷ bytes) ∷ events) = []

-- No datagram has both bytes and an error.
abbrev pub no_error : List Event → Bool
no_error [] = true
no_error (written ec bytes ∷ events) = no_error events
no_error (arrived ec [] ∷ events) = no_error events
no_error (arrived false (b ∷ bytes) ∷ events) = no_error events
no_error (arrived true (b ∷ bytes) ∷ events) = false

-- What a write with no error sends.
abbrev pub all_sent : List Event → List (List ℕ)
all_sent [] = []
all_sent (arrived ec bytes ∷ events) = all_sent events
all_sent (written false bytes ∷ events) = bytes ∷ all_sent events
all_sent (written true bytes ∷ events) = all_sent events

-- An interface whose sending socket is open, and which waits for a datagram or not.
abbrev set_up_with : Bool → List (List ℕ) → List (List ℕ) → ℕ → Bool → UdpInterface
set_up_with waits got out n x = record {
  send_open = true;
  receiving = waits;
  delivered = got;
  sent = out;
  errors = n;
  exited = x;
}

record Outcome (events : List Event) (u : UdpInterface) : Type 0 where
  delivers : (handle_all events u).delivered ≡ u.delivered ++ before_error events
  receives : (handle_all events u).receiving ≡ no_error events
  sends : (handle_all events u).sent ≡ u.sent ++ all_sent events

-- With no call of `receive` to come nothing is delivered.
record Deaf (events : List Event) (u : UdpInterface) : Type 0 where
  delivers_none : (handle_all events u).delivered ≡ u.delivered
  receives_none : (handle_all events u).receiving ≡ false
  still_sends : (handle_all events u).sent ≡ u.sent ++ all_sent events

handle_all-Deaf :
    (events : List Event) (got out : List (List ℕ)) (n : ℕ) (x : Bool)
    → Deaf events (set_up_with false got out n x)
unfolding arrive write error_handler
handle_all-Deaf [] got out n x = record {
  delivers_none = refl;
  receives_none = refl;
  still_sends = sym (append-nil out);
}
handle_all-Deaf (arrived ec bytes ∷ events) got out n x =
    let rest = handle_all-Deaf events got out n x in
    record {
      delivers_none = rest.delivers_none;
      receives_none = rest.receives_none;
      still_sends = rest.still_sends;
    }
handle_all-Deaf (written false bytes ∷ events) got out n x =
    let rest = handle_all-Deaf events got (out ++ (bytes ∷ [])) n x in
    record {
      delivers_none = rest.delivers_none;
      receives_none = rest.receives_none;
      still_sends = rest.still_sends ∙ append_assoc out (bytes ∷ []) (all_sent events);
    }
handle_all-Deaf (written true bytes ∷ events) got out n x =
    let rest = handle_all-Deaf events got out (n + 1) x in
    record {
      delivers_none = rest.delivers_none;
      receives_none = rest.receives_none;
      still_sends = rest.still_sends;
    }

handle_all-Outcome :
    (events : List Event) (got out : List (List ℕ)) (n : ℕ) (x : Bool)
    → Outcome events (set_up_with true got out n x)
unfolding arrive receive write error_handler start_receive
handle_all-Outcome [] got out n x = record {
  delivers = sym (append-nil got);
  receives = refl;
  sends = sym (append-nil out);
}
handle_all-Outcome (arrived ec [] ∷ events) got out n x =
    let rest = handle_all-Outcome events got out n x in
    record { delivers = rest.delivers; receives = rest.receives; sends = rest.sends }
handle_all-Outcome (arrived false (b ∷ bytes) ∷ events) got out n x =
    let rest = handle_all-Outcome events (got ++ ((b ∷ bytes) ∷ [])) out n x in
    record {
      delivers = rest.delivers ∙ append_assoc got ((b ∷ bytes) ∷ []) (before_error events);
      receives = rest.receives;
      sends = rest.sends;
    }
handle_all-Outcome (arrived true (b ∷ bytes) ∷ events) got out n x =
    let rest = handle_all-Deaf events got out (n + 1) x in
    record {
      delivers = rest.delivers_none ∙ sym (append-nil got);
      receives = rest.receives_none;
      sends = rest.still_sends;
    }
handle_all-Outcome (written false bytes ∷ events) got out n x =
    let rest = handle_all-Outcome events got (out ++ (bytes ∷ [])) n x in
    record {
      delivers = rest.delivers;
      receives = rest.receives;
      sends = rest.sends ∙ append_assoc out (bytes ∷ []) (all_sent events);
    }
handle_all-Outcome (written true bytes ∷ events) got out n x =
    let rest = handle_all-Outcome events got out (n + 1) x in
    record { delivers = rest.delivers; receives = rest.receives; sends = rest.sends }

abbrev pub set_up : UdpInterface
set_up = setup_udp false false false false false new_interface

-- After a set-up without errors and any arrivals and writes: what is delivered are the datagrams with bytes
-- before the first that has both bytes and an error; the interface receives no more exactly when there was
-- such a datagram; and what is sent are the writes without an error, in order.
pub handle_all_lem :
    (events : List Event)
    → ((handle_all events set_up).delivered ≡ before_error events)
      × (((handle_all events set_up).receiving ≡ no_error events)
          × ((handle_all events set_up).sent ≡ all_sent events))
unfolding setup_udp setup_steps start_receive error_handler
handle_all_lem events =
    let outcome = handle_all-Outcome events [] [] 0 false in
    (outcome.delivers, (outcome.receives, outcome.sends))

-- The set-up ends in a process that has exited or in one that receives.
pub setup_udp_lem :
    (a b c d e : Bool)
    → (setup_udp a b c d e new_interface).exited ≡ not (setup_udp a b c d e new_interface).receiving
unfolding setup_udp setup_steps start_receive error_handler
setup_udp_lem true b c d e = refl
setup_udp_lem false true c d e = refl
setup_udp_lem false false true d e = refl
setup_udp_lem false false false true e = refl
setup_udp_lem false false false false true = refl
setup_udp_lem false false false false false = refl

-- ===== src/Transport/Udp.antt =====
-- src/network_interfaces/udp_interface.cpp: what a datagram that arrives and a datagram to be written do. The
-- sockets are a parameter: Boost calls `receive` once for each `start_receive`, with what it got.
pub mod Arrivals
use av_hil_validation_platfo.Base.Tests.{if◌then◌else◌}
use av_hil_validation_platfo.Base.{ℕ, ◌+◌, Bool, true, false, not, List, [], ◌∷◌, ◌++◌}

-- `receiving` is an `async_receive_from` that is not answered yet; `delivered` are the calls of `recv_cb_`,
-- `sent` those of `send_to` that succeeded, and `exited` the end of the process.
pub record UdpInterface : Type 0 where
  pub send_open : Bool
  pub receiving : Bool
  pub delivered : List (List ℕ)
  pub sent : List (List ℕ)
  pub errors : ℕ
  pub exited : Bool

-- The message is counted.
unfoldable pub error_handler : (ec fatal : Bool) → UdpInterface → UdpInterface
error_handler false fatal u = u
error_handler true fatal u =
    let u : UdpInterface = record u { errors = u.errors + 1 } in
    if fatal then record u { exited = true } else u

unfoldable pub start_receive : UdpInterface → UdpInterface
start_receive u = record u { receiving = true }

-- A process that has exited goes no further.
unfoldable pub setup_steps : List Bool → UdpInterface → UdpInterface
setup_steps [] u = start_receive u
setup_steps (ec ∷ rest) u =
    let u = error_handler ec true u in
    let after = setup_steps rest u in if u.exited then u else after

-- `setup_udp`: the results of opening the sending socket, reading the remote address, opening the receiving
-- socket, reading the local address and binding.
unfoldable pub setup_udp :
    (opened remote opened_too local bound : Bool) → UdpInterface → UdpInterface
setup_udp opened remote opened_too local bound u =
    setup_steps (opened ∷ remote ∷ opened_too ∷ local ∷ bound ∷ [])
      (record u { send_open = not opened })

abbrev pub new_interface : UdpInterface
new_interface = record {
  send_open = false;
  receiving = false;
  delivered = [];
  sent = [];
  errors = 0;
  exited = false;
}

unfoldable pub receive : Bool → List ℕ → UdpInterface → UdpInterface
receive ec [] u = start_receive u
receive false (b ∷ bytes) u =
    start_receive (record u { delivered = u.delivered ++ ((b ∷ bytes) ∷ []) })
receive true (b ∷ bytes) u = error_handler true false u

-- What arrives when nothing is asked for is not handed over.
unfoldable pub arrive : Bool → List ℕ → UdpInterface → UdpInterface
arrive ec bytes u = if not u.receiving then u else receive ec bytes (record u { receiving = false })

-- The flag is the error of `send_to`.
unfoldable pub write : Bool → List ℕ → UdpInterface → UdpInterface
write ec bytes u =
    if not u.send_open
    then u
    else if ec
    then error_handler ec false u
    else record u { sent = u.sent ++ (bytes ∷ []) }

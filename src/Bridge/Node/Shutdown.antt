-- ===== src/Bridge/Node/Shutdown.antt =====
-- src/network_bridge.cpp: `shutdown`, and what becomes of frames that the fault engine still holds.
use av_hil_validation_platfo.Base.Double.{Double}
use av_hil_validation_platfo.Base.Tests.{Option-cases, if◌then◌else◌}
use av_hil_validation_platfo.Replay.Writer.{WalWriter, close}
use av_hil_validation_platfo.Faults.Engine.{flush}
use av_hil_validation_platfo.Bridge.Node.{NetworkBridge, closed, call, engine_wrote}
use av_hil_validation_platfo.Base.{
  true, false, Option, none, some, List, [], ◌∷◌, ◌++◌, ◌≡◌, refl, ap, ◌∙◌, inl, inr, append-nil,
}

module _ {D R P : Type 0} where
  -- `network_interface_->close()` and `reset()`
  pub drop_interface : NetworkBridge D R P → NetworkBridge D R P
  drop_interface b =
      if b.network_interface then record (call closed b) { network_interface = false } else b

  pub close_log : NetworkBridge D R P → NetworkBridge D R P
  close_log b = elim b.wal_writer [
    | none ↦ b
    | some w ↦ record b { wal_writer = none; closed_logs = b.closed_logs ++ (close w ∷ []) }
  ]

abbrev pub closed_log : Option WalWriter → List WalWriter
closed_log none = []
closed_log (some w) = close w ∷ []

module _ {D R P : Type 0} ⦃d : Double D⦄ where
  pub flush_engine : NetworkBridge D R P → NetworkBridge D R P
  flush_engine b = elim b.fault_engine [
    | none ↦ b
    | some e ↦ record (engine_wrote e (flush e) b) { fault_engine = none }
  ]

  pub shutdown : NetworkBridge D R P → NetworkBridge D R P
  unfolding drop_interface flush_engine close_log
  shutdown b =
      let b = drop_interface b in
      let b : NetworkBridge D R P = record b {
        network_check_timer = false;
        sub_mgrs = [];
        timers = [];
        publishers = [];
      } in
      close_log (flush_engine b)

  flush_engine_lem :
      (b : NetworkBridge D R P)
      → b.network_interface ≡ false
      → flush_engine b ≡ record b { fault_engine = none }
  unfolding flush_engine engine_wrote
  flush_engine_lem b h = elim (Option-cases b.fault_engine) [
    | inl e ↦ rw (e) refl
    | inr (e, q) ↦ rw (q, h) refl
  ]

  close_log_lem :
      (b : NetworkBridge D R P)
      → close_log b
        ≡ record b { wal_writer = none; closed_logs = b.closed_logs ++ closed_log b.wal_writer }
  unfolding close_log
  close_log_lem b = elim (Option-cases b.wal_writer) [
    | inl e ↦ rw (e, append-nil) refl
    | inr (w, q) ↦ rw (q) refl
  ]

  -- Shutting a node with an interface down calls the interface once, to close it: a frame that the
  -- fault engine still delays or holds is written nowhere, though the engine is flushed. The log, if
  -- there is one, is closed, and nothing more is scheduled.
  pub shutdown_lem :
      (b : NetworkBridge D R P)
      → b.network_interface ≡ true
      → shutdown b ≡ record b {
        network_interface = false;
        calls = b.calls ++ (closed ∷ []);
        network_check_timer = false;
        sub_mgrs = [];
        timers = [];
        publishers = [];
        fault_engine = none;
        wal_writer = none;
        closed_logs = b.closed_logs ++ closed_log b.wal_writer;
      }
  unfolding shutdown drop_interface
  shutdown_lem b h = rw (h) (ap close_log (flush_engine_lem _ refl) ∙ close_log_lem _)

-- ===== src/Bridge/Node/Send.antt =====
-- src/network_bridge.cpp: `send_data`, the way of a message from its manager to the interface.
pub mod Direct
use av_hil_validation_platfo.Base.Double.{Double}
use av_hil_validation_platfo.Base.Lists.{length}
use av_hil_validation_platfo.Base.Memory.{load}
use av_hil_validation_platfo.Base.Tests.{if◌then◌else◌}
use av_hil_validation_platfo.Base.Text.{Text, is_empty}
use av_hil_validation_platfo.Protocol.Frame.{control, flag_compressed}
use av_hil_validation_platfo.Protocol.Codec.{encode_frame}
use av_hil_validation_platfo.Replay.Writer.{Disk, append}
use av_hil_validation_platfo.Faults.Engine.{Random, FaultEngine}
use av_hil_validation_platfo.Faults.Engine.Process.{process}
use av_hil_validation_platfo.Bridge.Header.{create_header}
use av_hil_validation_platfo.Bridge.Compression.{Zstd, compress}
use av_hil_validation_platfo.Bridge.Subscription
use av_hil_validation_platfo.Bridge.Subscription.{SubscriptionManager, Graph, has_data, get_data}
use av_hil_validation_platfo.Bridge.Transforms
use av_hil_validation_platfo.Bridge.Node.{
  NetworkBridge, Manager, plain, gathering, write, call, engine_wrote,
}
use av_hil_validation_platfo.Base.{
  ℕ, ◌+◌, ◌-◌, ◌%◌, ◌^◌, Bool, true, false, not, ◌||◌, Option, none, some, List, [], ◌∷◌, ◌++◌,
}

-- What one call of `send_data` meets: the wall clock in nanoseconds, the seconds since the node
-- started, the disk, and whether the interface is ready.
pub record Moment (D : Type 0) : Type 0 where
  pub timestamp_ns : ℕ
  pub t_s : D
  pub disk : Disk
  pub is_ready : Bool

abbrev pub base : {P : Type 0} → Manager P → SubscriptionManager
base (plain m) = m
base (gathering m) = m.manager

abbrev pub with_base : {P : Type 0} → SubscriptionManager → Manager P → Manager P
with_base b (plain m) = plain b
with_base b (gathering m) = gathering (record m { manager = b })

-- `manager->check_subscription()`
abbrev pub check_manager : {P : Type 0} → Bool → Graph → Manager P → Manager P
check_manager ros_ok graph (plain m) = plain (Subscription.check_subscription ros_ok graph m)
check_manager ros_ok graph (gathering m) = gathering (Transforms.check_subscription ros_ok graph m)

module _ {D R P : Type 0} ⦃d : Double D⦄ where
  -- The record of a frame, if the node has a log. The sequence number is already counted up.
  pub record_frame : Moment D → List ℕ → NetworkBridge D R P → NetworkBridge D R P
  record_frame now compressed b = elim b.wal_writer [
    | none ↦ b
    | some w ↦
        let sequence = (b.tx_sequence + (2 ^ 64 - 1)) % 2 ^ 64 in
        let (written, w) =
          append w now.timestamp_ns control sequence (load compressed) (length compressed)
            now.disk in
        record b { wal_writer = some w }
  ]

  module _ (random : Random D R) (clock : ℕ → D) where
    abbrev pub hand_over :
        Option (FaultEngine D R)
        → Moment D
        → Text
        → List ℕ
        → NetworkBridge D R P
        → NetworkBridge D R P
    hand_over none now topic frame b = call (write frame) b
    hand_over (some e) now topic frame b =
        engine_wrote e (process random clock e frame now.t_s topic) b

    abbrev pub send_frame : Moment D → Text → List ℕ → NetworkBridge D R P → NetworkBridge D R P
    send_frame now topic frame b = hand_over b.fault_engine now topic frame b

    -- From the header on.
    pub send_message :
        Zstd → Moment D → Text → Text → ℕ → List ℕ → NetworkBridge D R P → NetworkBridge D R P
    unfolding record_frame
    send_message zstd now topic msg_type level message b =
        elim (compress zstd (create_header topic msg_type ++ message) level) [
          | none ↦ b
          | some compressed ↦
              let sequence = b.tx_sequence in
              let b : NetworkBridge D R P = record b { tx_sequence = (sequence + 1) % 2 ^ 64 } in
              elim (encode_frame control sequence now.timestamp_ns flag_compressed (load compressed)
                (length compressed)) [
                  | none ↦ b
                  | some frame ↦ send_frame now topic frame (record_frame now compressed b)
                ]
        ]

    -- The timer of one manager.
    pub send_data :
        Zstd
        → Bool
        → Graph
        → Moment D
        → Manager P
        → NetworkBridge D R P
        → Manager P × NetworkBridge D R P
    unfolding send_message
    send_data zstd ros_ok graph now manager b =
        let manager = check_manager ros_ok graph manager in
        if not (has_data (base manager))
        then (manager, b)
        else if not now.is_ready
        then (manager, b)
        else let (message, is_data_valid, m) = get_data (base manager) in
          let manager = with_base m manager in
          if is_empty message || not is_data_valid then (manager, b) else (
            manager,
            send_message zstd now m.topic m.msg_type m.zstd_compression_level message b,
          )

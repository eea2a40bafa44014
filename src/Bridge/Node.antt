-- ===== src/Bridge/Node.antt =====
-- src/network_bridge.cpp: the node, its two directions and its health timer.
pub mod Send
pub mod Publishing
pub mod Link
pub mod Shutdown
use av_hil_validation_platfo.Base.Double.{Double}
use av_hil_validation_platfo.Base.Lists.{length, drop}
use av_hil_validation_platfo.Base.Memory.{load, bytes_from}
use av_hil_validation_platfo.Base.Tests.{ltb, if◌then◌else◌}
use av_hil_validation_platfo.Base.Text.{Text, same, is_empty}
use av_hil_validation_platfo.Protocol.Frame.{
  FrameError, FrameHeader, ok, header_crc_mismatch, payload_crc_mismatch, default_header,
  frame_overhead,
}
use av_hil_validation_platfo.Protocol.Decoder.{FrameDecoder, initial, decode}
use av_hil_validation_platfo.Replay.Writer.{WalWriter}
use av_hil_validation_platfo.Faults.Engine.{FaultEngine, emit_taken}
use av_hil_validation_platfo.Bridge.Header.{parse_header}
use av_hil_validation_platfo.Bridge.Compression.{Zstd, decompress}
use av_hil_validation_platfo.Bridge.Subscription.{SubscriptionManager}
use av_hil_validation_platfo.Bridge.Transforms.{SubscriptionManagerTf}
use av_hil_validation_platfo.Base.{
  ℕ, ◌+◌, ◌%◌, ◌^◌, Bool, true, false, not, ◌||◌, Option, none, some, List, [], ◌∷◌, ◌++◌, map,
}

-- What the node calls of its network interface, a plugin.
pub data InterfaceCall : Type 0 where
  opened closed initialized : InterfaceCall
  write : List ℕ → InterfaceCall

pub record Publisher : Type 0 where
  pub name : Text
  pub msg_type : Text

-- A manager behind a pointer to its base class.
pub data Manager (P : Type 0) : Type 0 where
  plain : SubscriptionManager → Manager P
  gathering : SubscriptionManagerTf P → Manager P

-- `network_interface` and `network_check_timer`: the pointer is not null. `calls` are the calls of the
-- interface, `published` the messages given to publishers, `timers` the periods in
-- milliseconds, and `closed_logs` the logs that were closed.
pub record NetworkBridge (D R P : Type 0) : Type 0 where
  pub network_interface : Bool
  pub calls : List InterfaceCall
  pub sub_mgrs : List (Manager P)
  pub timers : List ℕ
  pub network_check_timer : Bool
  pub publishers : List (Text × Publisher)
  pub publish_namespace : Text
  pub tx_sequence : ℕ
  pub frame_decoder : FrameDecoder
  pub frame_reject_count : ℕ
  pub crc_failure_count : ℕ
  pub wal_writer : Option WalWriter
  pub fault_engine : Option (FaultEngine D R)
  pub published : List (Publisher × List ℕ)
  pub closed_logs : List WalWriter

-- `publishers_.find(topic)`
abbrev pub find_publisher : Text → List (Text × Publisher) → Option Publisher
find_publisher topic [] = none
find_publisher topic ((t, p) ∷ publishers) =
    if same t topic then some p else find_publisher topic publishers

abbrev pub is_ok : FrameError → Bool
is_ok ok = true
is_ok _ = false

abbrev pub is_crc_failure : FrameError → Bool
is_crc_failure header_crc_mismatch = true
is_crc_failure payload_crc_mismatch = true
is_crc_failure _ = false

module _ {D R P : Type 0} where
  abbrev pub new_bridge : NetworkBridge D R P
  new_bridge = record {
    network_interface = false;
    calls = [];
    sub_mgrs = [];
    timers = [];
    network_check_timer = false;
    publishers = [];
    publish_namespace = [];
    tx_sequence = 0;
    frame_decoder = initial;
    frame_reject_count = 0;
    crc_failure_count = 0;
    wal_writer = none;
    fault_engine = none;
    published = [];
    closed_logs = [];
  }

  abbrev pub call : InterfaceCall → NetworkBridge D R P → NetworkBridge D R P
  call c b = record b { calls = b.calls ++ (c ∷ []) }

  -- What the callback of the fault engine does with the frames that the engine wrote since it was
  -- `before`: without an interface they are lost.
  pub engine_wrote : FaultEngine D R → FaultEngine D R → NetworkBridge D R P → NetworkBridge D R P
  engine_wrote before after b = record b {
    fault_engine = some after;
    calls =
        if b.network_interface
        then b.calls ++ map write (drop (length before.written) after.written)
        else b.calls;
  }

  -- A frame that the decoder refused.
  pub reject : FrameError → NetworkBridge D R P → NetworkBridge D R P
  reject err b = record b {
    frame_reject_count = (b.frame_reject_count + 1) % 2 ^ 64;
    crc_failure_count =
        if is_crc_failure err then (b.crc_failure_count + 1) % 2 ^ 64 else b.crc_failure_count;
  }

  -- `publishers_[topic]`, created at the first message of the topic. Creation is taken to succeed.
  pub publisher_for : Text → Text → NetworkBridge D R P → Publisher × NetworkBridge D R P
  publisher_for topic msg_type b = elim (find_publisher topic b.publishers) [
    | some p ↦ (p, b)
    | none ↦
        let p : Publisher = record { name = b.publish_namespace ++ topic; msg_type = msg_type } in
        (p, record b { publishers = b.publishers ++ ((topic, p) ∷ []) })
  ]

  -- `still_ok` is the second answer of `rclcpp::ok()`.
  pub publish : Bool → Text → Text → List ℕ → NetworkBridge D R P → NetworkBridge D R P
  unfolding publisher_for
  publish still_ok topic msg_type payload b =
      let (p, b) = publisher_for topic msg_type b in
      if still_ok then record b { published = b.published ++ ((p, payload) ∷ []) } else b

  -- What is done with the bytes of a frame once they are decompressed.
  pub receive_message : Bool → List ℕ → NetworkBridge D R P → NetworkBridge D R P
  unfolding publish
  receive_message still_ok message b =
      let (topic, msg_type) = parse_header message [] [] in
      if is_empty topic || is_empty msg_type
      then b
      else let header_length = length topic + 1 + length msg_type + 1 in
        if ltb (length message) header_length
        then b
        else publish still_ok topic msg_type (drop header_length message) b

  -- What is done once the decoder gave its verdict.
  pub receive_frame :
      Zstd
      → Bool
      → List ℕ
      → FrameError × FrameHeader × FrameDecoder
      → NetworkBridge D R P
      → NetworkBridge D R P
  unfolding reject receive_message
  receive_frame zstd still_ok bytes (err, fh, decoder) b =
      let b : NetworkBridge D R P = record b { frame_decoder = decoder } in
      if not (is_ok err)
      then reject err b
      else elim (decompress zstd (bytes_from (load bytes) frame_overhead fh.payload_size)) [
        | none ↦ b
        | some message ↦ receive_message still_ok message b
      ]

  -- `ros_ok` is the first answer of `rclcpp::ok()`.
  pub receive_data : Zstd → Bool → Bool → List ℕ → NetworkBridge D R P → NetworkBridge D R P
  unfolding receive_frame
  receive_data zstd ros_ok still_ok bytes b =
      if not ros_ok
      then b
      else receive_frame zstd still_ok bytes
          (decode b.frame_decoder (some (load bytes)) (length bytes) 0 default_header) b

module _ {D R P : Type 0} ⦃d : Double D⦄ where
  -- The worker of the engine hands over a frame whose delay is over.
  pub worker_emits : NetworkBridge D R P → NetworkBridge D R P
  unfolding engine_wrote
  worker_emits b = elim b.fault_engine [ none ↦ b | some e ↦ engine_wrote e (emit_taken e) b ]

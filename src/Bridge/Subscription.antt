-- ===== src/Bridge/Subscription.antt =====
-- src/subscription_manager.cpp and include/network_bridge/subscription_manager.hpp: the latest
-- messages of one topic, from the callback of its subscription to the timer that sends them.
pub mod Fifo
use av_hil_validation_platfo.Base.Lists.{length}
use av_hil_validation_platfo.Base.Tests.{◌==◌, if◌then◌else◌}
use av_hil_validation_platfo.Base.Text.{Text, is_empty}
use av_hil_validation_platfo.Protocol.Frame.{SensorType}
use av_hil_validation_platfo.Core.Ring.{SpscRing, empty_ring, try_pop, empty_approx}
use av_hil_validation_platfo.Core.Backpressure.{
  BackpressurePolicy, PushResult, enqueued, dropped_newest, overwrote, blocked_then_enqueued,
  apply_policy, default_policy_for,
}
use av_hil_validation_platfo.Base.{
  ℕ, ◌+◌, ◌%◌, ◌^◌, Bool, true, false, not, ◌&&◌, Option, none, some, List, [], ◌∷◌, ◌++◌,
}

-- include/sensorforge/core/sensor_frame.hpp
pub record SensorFrame : Type 0 where
  pub payload : List ℕ
  pub sequence : ℕ
  pub timestamp_ns : ℕ

abbrev pub default_frame : SensorFrame
default_frame = record { payload = []; sequence = 0; timestamp_ns = 0 }

abbrev pub ring_capacity : ℕ
ring_capacity = 1024

-- What ROS2 tells of a topic: its types, if it exists, and how many publishers it has.
pub record Graph : Type 0 where
  pub types : Text → Option (List Text)
  pub publishers : Text → ℕ

-- `subscribed`: the subscriber is not null.
pub record SubscriptionManager : Type 0 where
  pub msg_type : Text
  pub topic : Text
  pub subscribe_namespace : Text
  pub zstd_compression_level : ℕ
  pub topic_found : Bool
  pub received_msg : Bool
  pub is_stale : Bool
  pub publish_stale_data : Bool
  pub subscribed : Bool
  pub ring : SpscRing ring_capacity default_frame
  pub current_frame : SensorFrame
  pub capture_sequence : ℕ
  pub sensor_type : SensorType
  pub policy : BackpressurePolicy
  pub enqueued_count : ℕ
  pub dropped_count : ℕ
  pub overwritten_count : ℕ

unfoldable pub set_sensor_type : SubscriptionManager → SensorType → SubscriptionManager
set_sensor_type m t = record m { sensor_type = t; policy = default_policy_for t }

unfoldable pub new_manager : Text → Text → ℕ → Bool → SubscriptionManager
unfolding set_sensor_type
new_manager topic subscribe_namespace zstd_compression_level publish_stale_data =
    set_sensor_type
      (record {
        msg_type = [];
        topic = topic;
        subscribe_namespace = subscribe_namespace;
        zstd_compression_level = zstd_compression_level;
        topic_found = true;
        received_msg = false;
        is_stale = true;
        publish_stale_data = publish_stale_data;
        subscribed = false;
        ring = empty_ring ring_capacity default_frame;
        current_frame = default_frame;
        capture_sequence = 0;
        sensor_type = SensorType.control;
        policy = BackpressurePolicy.drop_newest;
        enqueued_count = 0;
        dropped_count = 0;
        overwritten_count = 0;
      })
      SensorType.control

-- `all_topics_and_types.at(topic)[0]`; ROS2 lists no topic without a type.
abbrev pub first_type : List Text → Text
first_type [] = []
first_type (t ∷ types) = t

-- `ros_ok` is `rclcpp::ok()`. The quality of service is left to ROS2.
unfoldable pub setup_subscription : Bool → Graph → SubscriptionManager → SubscriptionManager
setup_subscription ros_ok graph m =
    if not ros_ok
    then m
    else let topic = m.subscribe_namespace ++ m.topic in
      elim (graph.types topic) [
        | none ↦ record m { topic_found = false }
        | some types ↦
            if graph.publishers topic == 0
            then record m { topic_found = false }
            else record m { topic_found = true; msg_type = first_type types; subscribed = true }
      ]

unfoldable pub check_subscription : Bool → Graph → SubscriptionManager → SubscriptionManager
unfolding setup_subscription
check_subscription ros_ok graph m = if m.subscribed then m else setup_subscription ros_ok graph m

abbrev pub count_result : Option PushResult → SubscriptionManager → SubscriptionManager
count_result none m = m
count_result (some enqueued) m = record m { enqueued_count = m.enqueued_count + 1 }
count_result (some blocked_then_enqueued) m = record m { enqueued_count = m.enqueued_count + 1 }
count_result (some overwrote) m = record m {
  overwritten_count = m.overwritten_count + 1;
  enqueued_count = m.enqueued_count + 1;
}
count_result (some dropped_newest) m = record m { dropped_count = m.dropped_count + 1 }

-- A message of the subscription, at that time. Nothing is taken from the ring during the call, so a
-- producer that the policy blocks stays in it, and the result is none.
pub callback : SubscriptionManager → List ℕ → ℕ → Option PushResult × SubscriptionManager
callback m serialized_msg now =
    let frame : SensorFrame = record {
      payload = serialized_msg;
      sequence = m.capture_sequence;
      timestamp_ns = now;
    } in
    let o = apply_policy ring_capacity default_frame m.ring frame m.policy [] in
    (
      o.result,
      count_result o.result (record m {
        received_msg = true;
        is_stale = false;
        capture_sequence = (m.capture_sequence + 1) % 2 ^ 64;
        ring = o.ring;
      }),
    )

pub has_data : SubscriptionManager → Bool
has_data m =
    if not m.received_msg
    then false
    else if not (empty_approx ring_capacity default_frame m.ring)
    then true
    else m.publish_stale_data

-- The data, whether it is valid, and the manager afterwards.
pub get_data : SubscriptionManager → List ℕ × Bool × SubscriptionManager
get_data m =
    if not m.received_msg
    then (m.current_frame.payload, false, m)
    else let (popped, ring) = try_pop ring_capacity default_frame m.ring in
      elim popped [
        | some frame ↦
            let m : SubscriptionManager = record m {
              ring = ring;
              current_frame = frame;
              is_stale = empty_approx ring_capacity default_frame ring;
            } in
            (frame.payload, true, m)
        | none ↦
            let m : SubscriptionManager = record m { ring = ring } in
            if m.publish_stale_data && not (is_empty m.current_frame.payload)
            then (m.current_frame.payload, true, m)
            else (m.current_frame.payload, false, record m { is_stale = true })
      ]

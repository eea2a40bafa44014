-- ===== src/Bridge/Transforms.antt =====
-- src/subscription_manager_tf.cpp: the transforms of a topic, filtered and gathered into one message.
pub mod Indexed
use av_hil_validation_platfo.Base.Lists.{length, set}
use av_hil_validation_platfo.Base.Tests.{if◌then◌else◌}
use av_hil_validation_platfo.Base.Text.{Text, same}
use av_hil_validation_platfo.Core.Backpressure.{PushResult}
use av_hil_validation_platfo.Bridge.Subscription.{
  SubscriptionManager, Graph, callback, setup_subscription,
}
use av_hil_validation_platfo.Base.{
  ℕ, Bool, true, false, not, ◌&&◌, ◌||◌, Option, none, some, List, [], ◌∷◌, ◌++◌, map,
}

-- `geometry_msgs::msg::TransformStamped`
pub record TransformStamped : Type 0 where
  pub frame_id : Text
  pub child_frame_id : Text
  pub stamp : ℕ
  pub transform : List ℕ

abbrev pub FramePair : Type 0
FramePair = Text × Text

abbrev pub same_id : FramePair → FramePair → Bool
same_id (a, b) (c, d) = same a c && same b d

-- `std::regex` with `std::regex_match`, and the serialization of the message.
pub record Ros (P : Type 0) : Type 0 where
  pub regex : Text → P
  pub regex_match : Text → P → Bool
  pub serialize : List TransformStamped → List ℕ

-- `subscribed`: `tf2_subscriber_` is not null.
pub record SubscriptionManagerTf (P : Type 0) : Type 0 where
  pub manager : SubscriptionManager
  pub static_tf : Bool
  pub subscribed : Bool
  pub include_pattern : List P
  pub exclude_pattern : List P
  pub tf_id : List (FramePair × ℕ)
  pub transforms : List TransformStamped

abbrev pub id_of : TransformStamped → FramePair
id_of t = (t.frame_id, t.child_frame_id)

-- `tf_id_.find(id)`
pub find_id : FramePair → List (FramePair × ℕ) → Option ℕ
find_id id [] = none
find_id id ((k, i) ∷ entries) = if same_id k id then some i else find_id id entries

-- Where one transform leaves the loop: the buffer was reset, or not.
pub data Outcome (P : Type 0) : Type 0 where
  reset_buffer : SubscriptionManagerTf P → Outcome P
  go_on : SubscriptionManagerTf P → Outcome P

module _ {P : Type 0} where
  abbrev pub is_stale : SubscriptionManagerTf P → Bool
  is_stale m = if m.static_tf then false else m.manager.is_stale

  -- `create_subscription` of the base class is replaced, so the subscriber is this one.
  abbrev pub check_subscription : Bool → Graph → SubscriptionManagerTf P → SubscriptionManagerTf P
  check_subscription ros_ok graph m =
      if m.subscribed
      then m
      else let base = setup_subscription ros_ok graph (record (m.manager) { subscribed = false }) in
        record m { manager = record base { subscribed = false }; subscribed = base.subscribed }

  unfoldable pub store_transform : TransformStamped → SubscriptionManagerTf P → Outcome P
  unfolding find_id
  store_transform t m = elim (find_id (id_of t) m.tf_id) [
    | some i ↦ go_on (record m { transforms = set m.transforms i t })
    | none ↦ elim (find_id (t.child_frame_id, t.frame_id) m.tf_id) [
      | some j ↦ reset_buffer (record m { tf_id = []; transforms = []; subscribed = false })
      | none ↦ go_on (record m {
        tf_id = m.tf_id ++ ((id_of t, length m.transforms) ∷ []);
        transforms = m.transforms ++ (t ∷ []);
      })
    ]
  ]

  -- The stamps of static transforms are erased.
  unfoldable pub erase_stamps : SubscriptionManagerTf P → SubscriptionManagerTf P
  erase_stamps m =
      if m.static_tf
      then record m {
        transforms = map (λ (t : TransformStamped). record t { stamp = 0 }) m.transforms;
      }
      else m

  module _ (ros : Ros P) where
    abbrev pub set_include_pattern : SubscriptionManagerTf P → List Text → SubscriptionManagerTf P
    set_include_pattern m pattern = record m {
      include_pattern = m.include_pattern ++ map ros.regex pattern;
    }

    abbrev pub set_exclude_pattern : SubscriptionManagerTf P → List Text → SubscriptionManagerTf P
    set_exclude_pattern m pattern = record m {
      exclude_pattern = m.exclude_pattern ++ map ros.regex pattern;
    }

    abbrev pub matched : List P → TransformStamped → Bool
    matched [] t = false
    matched (v ∷ patterns) t =
        (ros.regex_match t.frame_id v || ros.regex_match t.child_frame_id v) || matched patterns t

    abbrev pub no_patterns : List P → Bool
    no_patterns [] = true
    no_patterns (v ∷ patterns) = false

    -- The two filters.
    abbrev pub ignored : SubscriptionManagerTf P → TransformStamped → Bool
    ignored m t =
        (not (no_patterns m.exclude_pattern) && matched m.exclude_pattern t)
        || (not (no_patterns m.include_pattern) && not (matched m.include_pattern t))

    unfoldable pub transform_loop : List TransformStamped → SubscriptionManagerTf P → Outcome P
    unfolding store_transform
    transform_loop [] m = go_on m
    transform_loop (t ∷ rest) m =
        if ignored m t then transform_loop rest m else elim (store_transform t m) [
          | reset_buffer m' ↦ reset_buffer m'
          | go_on m' ↦ transform_loop rest m'
        ]

    -- The message at that time. After a reset nothing is enqueued.
    unfoldable pub tf2_callback :
        List TransformStamped
        → ℕ
        → SubscriptionManagerTf P
        → Option PushResult × SubscriptionManagerTf P
    unfolding transform_loop erase_stamps
    tf2_callback tfmsg now m = elim (transform_loop tfmsg m) [
      | reset_buffer m' ↦ (none, m')
      | go_on m' ↦
          let stamped = erase_stamps m' in
          let (result, base) = callback stamped.manager (ros.serialize stamped.transforms) now in
          (result, record stamped { manager = base })
    ]

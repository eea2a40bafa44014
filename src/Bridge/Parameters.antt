-- ===== src/Bridge/Parameters.antt =====
-- src/network_bridge.cpp: what the node is made of, from its parameters.
pub mod Topics
pub mod Namespace
use av_hil_validation_platfo.Base.Double.{Double}
use av_hil_validation_platfo.Base.Tests.{◌==◌, if◌then◌else◌}
use av_hil_validation_platfo.Base.Text.{Text, same, is_empty, codes}
use av_hil_validation_platfo.Replay.Writer.{Disk, new_writer, default_segment_bytes}
use av_hil_validation_platfo.Faults.Rule.{
  FaultRule, FaultKind, is_kind, no_fault, fault_kind_from_string,
}
use av_hil_validation_platfo.Faults.Engine.{FaultEngine, new_engine, add_rule}
use av_hil_validation_platfo.Bridge.Subscription.{Graph, new_manager, setup_subscription}
use av_hil_validation_platfo.Bridge.Transforms.{
  Ros, SubscriptionManagerTf, set_include_pattern, set_exclude_pattern,
}
use av_hil_validation_platfo.Bridge.Transforms
use av_hil_validation_platfo.Bridge.Node.{
  NetworkBridge, Manager, plain, gathering, call, initialized, opened, closed,
}
use av_hil_validation_platfo.Base.{
  ℕ, Bool, true, false, not, ◌&&◌, ◌||◌, Option, none, some, List, [], ◌∷◌, ◌++◌,
}

-- The parameter server: what a parameter reads as, by its name and its declared default.
pub record Parameters (D : Type 0) : Type 0 where
  pub text : Text → Text → Text
  pub texts : Text → List Text → List Text
  pub flag : Text → Bool → Bool
  pub integer : Text → ℕ → ℕ
  pub number : Text → D → D

-- The conversions of a `double` to `float` and, cut off, to `int`.
pub record Casts (D : Type 0) : Type 0 where
  pub single : D → D
  pub to_int : D → ℕ

-- '/'
abbrev pub slash : ℕ
slash = 47

abbrev pub front : Text → ℕ
front [] = 0
front (c ∷ s) = c

abbrev pub back : Text → ℕ
back [] = 0
back (c ∷ []) = c
back (c ∷ s) = back s

abbrev pub pop_back : Text → Text
pop_back [] = []
pop_back (c ∷ []) = []
pop_back (c ∷ s) = c ∷ pop_back s

-- What is done to both namespaces.
unfoldable pub normalize : Text → Text
normalize ns =
    if is_empty ns
    then ns
    else let ns = if front ns == slash then ns else slash ∷ ns in
      if back ns == slash then pop_back ns else ns

abbrev pub is_tf_topic : Text → Bool
is_tf_topic topic =
    same topic (codes "/tf")
    || same topic (codes "tf")
    || same topic (codes "/tf_static")
    || same topic (codes "tf_static")

abbrev pub is_static_topic : Text → Bool
is_static_topic topic =
    is_tf_topic topic && (same topic (codes "/tf_static") || same topic (codes "tf_static"))

module _ {D : Type 0} ⦃d : Double D⦄ (casts : Casts D) where
  abbrev pub period : D → ℕ
  period rate = casts.to_int (d.div (d.of_nat 1000) rate)

module _ {D P : Type 0} (ros : Ros P) (ros_ok : Bool) (graph : Graph) (p : Parameters D) where
  -- The manager of a topic of transforms, subscribed.
  pub tf_manager : Text → Text → ℕ → Bool → SubscriptionManagerTf P
  tf_manager topic subscribe_namespace level publish_stale_data =
      let static_tf = p.flag (topic ++ codes ".is_static_tf") (is_static_topic topic) in
      let m : SubscriptionManagerTf P = record {
        manager = new_manager topic subscribe_namespace level publish_stale_data;
        static_tf = static_tf;
        subscribed = false;
        include_pattern = [];
        exclude_pattern = [];
        tf_id = [];
        transforms = [];
      } in
      let m = set_include_pattern ros m (p.texts (topic ++ codes ".include") []) in
      let m = set_exclude_pattern ros m (p.texts (topic ++ codes ".exclude") []) in
      Transforms.check_subscription ros_ok graph m

module _ {D : Type 0} ⦃d : Double D⦄ where
  -- The one rule that parameters can set.
  abbrev pub fault_rule : Parameters D → FaultRule D
  fault_rule p = record {
    kind = fault_kind_from_string (p.text (codes "fault_type") (codes "none"));
    stream = [];
    start_s = p.number (codes "fault_start_s") (d.of_nat 0);
    duration_s = p.number (codes "fault_duration_s") (d.of_nat 1_000_000_000);
    delay_ms = p.number (codes "fault_delay_ms") (d.of_nat 0);
    drop_rate = p.number (codes "fault_drop_rate") (d.of_nat 0);
    bandwidth_kbps = p.number (codes "fault_bandwidth_kbps") (d.of_nat 0);
    corrupt_bits = 4;
    seed = 1;
  }

module _ {D R P : Type 0} ⦃d : Double D⦄ where
  pub load_fault : Parameters D → R → NetworkBridge D R P → NetworkBridge D R P
  load_fault p seeded b =
      let fault_type = p.text (codes "fault_type") (codes "none") in
      if not (same fault_type (codes "none")) && not (is_empty fault_type)
      then (if not (is_kind (fault_rule p).kind no_fault)
          then record b { fault_engine = some (add_rule (new_engine seeded) (fault_rule p)) }
          else b)
      else b

  pub load_log : Parameters D → Disk → NetworkBridge D R P → NetworkBridge D R P
  load_log p disk b =
      let wal_record_dir = p.text (codes "wal_record_dir") [] in
      if not (is_empty wal_record_dir)
      then record b { wal_writer = some (new_writer default_segment_bytes disk) }
      else b

  module _ (casts : Casts D) (ros : Ros P) (ros_ok : Bool) (graph : Graph) (p : Parameters D) where
    -- The body of the loop over the topics.
    pub load_topic : D → ℕ → Text → Bool → NetworkBridge D R P → Text → NetworkBridge D R P
    unfolding tf_manager
    load_topic default_rate default_zstd_level subscribe_namespace publish_stale_data b topic =
        let level = p.integer (topic ++ codes ".zstd_level") default_zstd_level in
        let is_tf = p.flag (topic ++ codes ".is_tf") (is_tf_topic topic) in
        let rate = casts.single (p.number (topic ++ codes ".rate") default_rate) in
        let manager : Manager P =
          if is_tf
          then gathering
              (tf_manager ros ros_ok graph p topic subscribe_namespace level publish_stale_data)
          else plain (
              setup_subscription ros_ok graph
                (new_manager topic subscribe_namespace level publish_stale_data)) in
        record b {
          sub_mgrs = b.sub_mgrs ++ (manager ∷ []);
          timers = b.timers ++ (period casts rate ∷ []);
        }

    pub load_topics : D → ℕ → Text → Bool → List Text → NetworkBridge D R P → NetworkBridge D R P
    unfolding load_topic
    load_topics default_rate default_zstd_level subscribe_namespace publish_stale_data [] b = b
    load_topics default_rate default_zstd_level subscribe_namespace publish_stale_data
          (topic ∷ topics) b =
        load_topics default_rate default_zstd_level subscribe_namespace publish_stale_data topics (
          load_topic default_rate default_zstd_level subscribe_namespace publish_stale_data b topic)

    pub load_parameters : R → Disk → NetworkBridge D R P → NetworkBridge D R P
    unfolding load_log load_fault load_topics
    load_parameters seeded disk b =
        let publish_stale_data = p.flag (codes "publish_stale_data") false in
        let default_rate = casts.single (p.number (codes "default_rate") (d.of_nat 5)) in
        let default_zstd_level = p.integer (codes "default_zstd_level") 3 in
        let b = load_fault p seeded (load_log p disk b) in
        let b : NetworkBridge D R P = record b {
          publish_namespace = normalize (p.text (codes "publish_namespace") []);
        } in
        let subscribe_namespace = normalize (p.text (codes "subscribe_namespace") []) in
        let topics = p.texts (codes "topics") [] in
        let b =
          load_topics default_rate default_zstd_level subscribe_namespace publish_stale_data topics
            b in
        record b { network_check_timer = true }

    -- The plugin is taken to load; the process ends if it does not.
    pub initialize : R → Disk → NetworkBridge D R P → NetworkBridge D R P
    unfolding load_parameters
    initialize seeded disk b =
        let b = load_parameters seeded disk b in
        let b = call initialized (record b { network_interface = true }) in call opened b

    -- The health timer. `has_failed` is the answer of the interface.
    pub check_network_health : Bool → R → Disk → NetworkBridge D R P → NetworkBridge D R P
    unfolding initialize
    check_network_health has_failed seeded disk b =
        if not b.network_interface
        then initialize seeded disk b
        else if has_failed
        then call opened (call closed b)
        else b

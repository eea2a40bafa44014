-- ===== src/Bridge/Parameters/Topics.antt =====
-- src/network_bridge.cpp: the managers and timers that `load_parameters` makes of the topics.
use av_hil_validation_platfo.Base.Double.{Double}
use av_hil_validation_platfo.Base.Lists.{length}
use av_hil_validation_platfo.Base.Tests.{Bool-cases, Option-cases, ◌==◌}
use av_hil_validation_platfo.Base.Text.{Text, same, is_empty, codes}
use av_hil_validation_platfo.Replay.Writer.{Disk, WalWriter, new_writer, default_segment_bytes}
use av_hil_validation_platfo.Faults.Rule.{is_kind, no_fault}
use av_hil_validation_platfo.Faults.Engine.{FaultEngine, new_engine, add_rule}
use av_hil_validation_platfo.Bridge.Subscription.{
  SubscriptionManager, Graph, new_manager, set_sensor_type, setup_subscription,
}
use av_hil_validation_platfo.Bridge.Transforms.{Ros}
use av_hil_validation_platfo.Bridge.Node.{
  NetworkBridge, Manager, plain, gathering, new_bridge, initialized, opened,
}
use av_hil_validation_platfo.Bridge.Node.Send.{base}
use av_hil_validation_platfo.Bridge.Parameters.{
  Parameters, Casts, fault_rule, period, normalize, load_fault, load_log, is_tf_topic, tf_manager,
  load_topic, load_topics, load_parameters, initialize,
}
use av_hil_validation_platfo.Base.{
  ℕ, suc, ◌≡◌, refl, ap, ap₂, Option, some, not, ◌&&◌, ◌∙◌, inl, inr, Bool, true, false, List, [],
  ◌∷◌, ◌++◌, map, append-nil, append_assoc,
}

abbrev topic_of : {P : Type 0} → Manager P → Text
topic_of m = (base m).topic

module _ {D R P : Type 0} where
  -- The topics that the node sends, in order.
  abbrev pub sent_topics : NetworkBridge D R P → List Text
  sent_topics b = map topic_of b.sub_mgrs

setup_subscription-topic :
    (ros_ok : Bool) (graph : Graph) (m : SubscriptionManager)
    → (setup_subscription ros_ok graph m).topic ≡ m.topic
unfolding setup_subscription
setup_subscription-topic true graph m =
    elim (Option-cases (graph.types (m.subscribe_namespace ++ m.topic))) [
      | inl e ↦ rw (e) refl
      | inr (types, e) ↦
          elim (Bool-cases (graph.publishers (m.subscribe_namespace ++ m.topic) == 0)) [
            | inl z ↦ rw (e, z) refl
            | inr z ↦ rw (e, z) refl
          ]
    ]
setup_subscription-topic false graph m = refl

module _ {D P : Type 0} (ros : Ros P) (ros_ok : Bool) (graph : Graph) (p : Parameters D) where
  tf_manager-topic :
      (topic ns : Text) (level : ℕ) (stale : Bool)
      → (tf_manager ros ros_ok graph p topic ns level stale).manager.topic ≡ topic
  unfolding tf_manager new_manager set_sensor_type
  tf_manager-topic topic ns level stale =
      setup_subscription-topic ros_ok graph
        (record (new_manager topic ns level stale) { subscribed = false })

module _ {D R P : Type 0} ⦃d : Double D⦄ (casts : Casts D) (ros : Ros P) (ros_ok : Bool)
    (graph : Graph) (p : Parameters D) where
  load_topic_lem :
      (rate : D) (level : ℕ) (ns : Text) (stale : Bool) (b : NetworkBridge D R P) (topic : Text)
      → (m : Manager P) × (t : ℕ) × (load_topic casts ros ros_ok graph p rate level ns stale b topic
          ≡ record b { sub_mgrs = b.sub_mgrs ++ (m ∷ []); timers = b.timers ++ (t ∷ []) })
        × ((base m).topic ≡ topic)
  unfolding load_topic new_manager set_sensor_type
  load_topic_lem rate level ns stale b topic =
      let zstd_level = p.integer (topic ++ codes ".zstd_level") level in
      elim (Bool-cases (p.flag (topic ++ codes ".is_tf") (is_tf_topic topic))) [
        | inl e ↦ (
          gathering (tf_manager ros ros_ok graph p topic ns zstd_level stale),
          period casts (casts.single (p.number (topic ++ codes ".rate") rate)),
          rw (e) refl,
          tf_manager-topic ros ros_ok graph p topic ns zstd_level stale,
        )
        | inr e ↦ (
          plain (setup_subscription ros_ok graph (new_manager topic ns zstd_level stale)),
          period casts (casts.single (p.number (topic ++ codes ".rate") rate)),
          rw (e) refl,
          setup_subscription-topic ros_ok graph (new_manager topic ns zstd_level stale),
        )
      ]

  load_topics_lem :
      (rate : D) (level : ℕ) (ns : Text) (stale : Bool) (topics : List Text)
      (b : NetworkBridge D R P)
      → (ms : List (Manager P)) × (ts : List ℕ) × (load_topics casts ros ros_ok graph p rate level
            ns stale topics b
          ≡ record b { sub_mgrs = b.sub_mgrs ++ ms; timers = b.timers ++ ts })
        × (map topic_of ms ≡ topics)
        × (length ts ≡ length topics)
  unfolding load_topics
  load_topics_lem rate level ns stale [] b =
      ([], [], rw (append-nil b.sub_mgrs, append-nil b.timers) refl, refl, refl)
  load_topics_lem rate level ns stale (topic ∷ topics) b =
      let (m, t, e, same_topic) = load_topic_lem rate level ns stale b topic in
      let b1 : NetworkBridge D R P = record b {
        sub_mgrs = b.sub_mgrs ++ (m ∷ []);
        timers = b.timers ++ (t ∷ []);
      } in
      let (ms, ts, f, topics_of, count) = load_topics_lem rate level ns stale topics b1 in
      (
        m ∷ ms,
        t ∷ ts,
        ap (load_topics casts ros ros_ok graph p rate level ns stale topics) e
            ∙ f
            ∙ ap₂ (λ (x : List (Manager P)) (y : List ℕ). record b { sub_mgrs = x; timers = y })
                (append_assoc b.sub_mgrs (m ∷ []) ms) (append_assoc b.timers (t ∷ []) ts),
        ap₂ (λ (x : Text) (y : List Text). x ∷ y) same_topic topics_of,
        ap suc count,
      )

  load_fault_lem :
      (seeded : R) (b : NetworkBridge D R P)
      → (e : Option (FaultEngine D R)) × (load_fault p seeded b ≡ record b { fault_engine = e })
  unfolding load_fault
  load_fault_lem seeded b =
      let fault_type = p.text (codes "fault_type") (codes "none") in
      elim (Bool-cases (not (same fault_type (codes "none")) && not (is_empty fault_type))) [
        | inr off ↦ (b.fault_engine, rw (off) refl)
        | inl on ↦ elim (Bool-cases (not (is_kind (fault_rule p).kind no_fault))) [
          | inr off ↦ (b.fault_engine, rw (on, off) refl)
          | inl known ↦ (some (add_rule (new_engine seeded) (fault_rule p)), rw (on, known) refl)
        ]
      ]

  load_log_lem :
      (disk : Disk) (b : NetworkBridge D R P)
      → (w : Option WalWriter) × (load_log p disk b ≡ record b { wal_writer = w })
  unfolding load_log
  load_log_lem disk b = elim (Bool-cases (not (is_empty (p.text (codes "wal_record_dir") [])))) [
    | inl e ↦ (some (new_writer default_segment_bytes disk), rw (e) refl)
    | inr e ↦ (b.wal_writer, rw (e) refl)
  ]

  -- A new node that is initialized has one manager for each topic of its parameters, in their order, and
  -- as many timers; its interface is initialized before it is opened, and the health timer runs.
  pub initialize_lem :
      (seeded : R) (disk : Disk)
      → let b = initialize casts ros ros_ok graph p seeded disk new_bridge in
        let topics = p.texts (codes "topics") [] in
        (sent_topics b ≡ topics)
        × (length b.timers ≡ length topics)
        × (b.calls ≡ initialized ∷ opened ∷ [])
        × (b.network_check_timer ≡ true)
        × (b.publish_namespace ≡ normalize (p.text (codes "publish_namespace") []))
  unfolding initialize load_parameters
  initialize_lem seeded disk =
      let (w, logged) = load_log_lem disk new_bridge in
      let (e, faulty) = load_fault_lem seeded (record new_bridge { wal_writer = w }) in
      let start : NetworkBridge D R P = record new_bridge {
        wal_writer = w;
        fault_engine = e;
        publish_namespace = normalize (p.text (codes "publish_namespace") []);
      } in
      let (ms, ts, loaded, topics_of, count) =
        load_topics_lem (casts.single (p.number (codes "default_rate") (d.of_nat 5)))
          (p.integer (codes "default_zstd_level") 3)
          (normalize (p.text (codes "subscribe_namespace") []))
          (p.flag (codes "publish_stale_data") false) (p.texts (codes "topics") []) start in
      rw (logged, faulty, loaded) (topics_of, count, refl, refl, refl)

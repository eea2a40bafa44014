-- ===== src/Bridge/Tests.antt =====
-- Runs of the bridge, with a compression that keeps its input.
use mathlib.Core.Option.{some-injective}
use av_hil_validation_platfo.Base.Lists.{length, length-append, set}
use av_hil_validation_platfo.Base.Tests.{ltb, leb, ◌==◌, if◌then◌else◌}
use av_hil_validation_platfo.Base.Text.{Text, same, codes}
use av_hil_validation_platfo.Base.Double.{Double}
use av_hil_validation_platfo.Faults.Engine.{Random, new_engine}
use av_hil_validation_platfo.Bridge.Header.{create_header}
use av_hil_validation_platfo.Bridge.Header.RoundTrip.{NoNull, parse_header-create_header}
use av_hil_validation_platfo.Bridge.Compression.{Zstd, known, RestoresContent, compress}
use av_hil_validation_platfo.Bridge.Subscription.{SensorFrame, Graph, new_manager}
use av_hil_validation_platfo.Bridge.Subscription.Fifo.{
  payloads, Event, message, timer, on_events, started, on_events_fifo,
}
use av_hil_validation_platfo.Bridge.Transforms.{
  TransformStamped, Ros, SubscriptionManagerTf, store_transform, erase_stamps, transform_loop,
  tf2_callback,
}
use av_hil_validation_platfo.Bridge.Transforms.Indexed.{ids, tf2_callbacks, tf2_callbacks_in_bounds}
use av_hil_validation_platfo.Bridge.Node.{NetworkBridge, new_bridge, write, closed}
use av_hil_validation_platfo.Bridge.Node.Publishing.{seen}
use av_hil_validation_platfo.Bridge.Node.Send.{Moment}
use av_hil_validation_platfo.Bridge.Node.Link.{
  Message, IsCarried, send_all, receive_all, expected, link_delivers,
}
use av_hil_validation_platfo.Bridge.Node.Shutdown.{shutdown, shutdown_lem}
use av_hil_validation_platfo.Bridge.Parameters.{Parameters, Casts}
use av_hil_validation_platfo.Base.{
  ℕ, ◌+◌, ◌-◌, ◌*◌, ◌/◌, ◌^◌, ◌≤◌, ◌<◌, ◌≡◌, refl, ap, sym, true, false, none, some, List, [], ◌∷◌,
  ◌++◌, map, arith,
}

abbrev topic : Text
topic = codes "/scan"

abbrev msg_type : Text
msg_type = codes "L"

topic_text : NoNull topic
topic_text = (omega arith, (omega arith, (omega arith, (omega arith, (omega arith, _)))))

type_text : NoNull msg_type
type_text = (omega arith, _)

abbrev short : List ℕ
short = 97 ∷ 0 ∷ 98 ∷ 0 ∷ []

instance abbrev whole : Double ℕ
whole = record {
  of_nat = λ n. n;
  lt = ltb;
  le = leb;
  eq = ◌==◌;
  add = ◌+◌;
  sub = ◌-◌;
  mul = ◌*◌;
  div = ◌/◌;
}

abbrev counting : Random ℕ ℕ
counting = record { uniform = λ r. (0, r + 1); position = λ n r. (n, r + 1); bit = λ r. (3, r + 1) }

abbrev stored : Zstd
stored = record {
  compress_bound = λ n. n + 64;
  compress = λ capacity l level. some l;
  content_size = λ c. known (length c);
  decompress = λ capacity c. some c;
}

stored-RestoresContent : RestoresContent stored
stored-RestoresContent capacity l c level h =
    let e = some-injective l c h in (ap (λ (x : List ℕ). known (length x)) (sym e), ap some (sym e))

abbrev at : ℕ → Moment ℕ
at t = record {
  timestamp_ns = t;
  t_s = t;
  disk = record { opens = true; writes = true; partial_write = []; found = [] };
  is_ready = true;
}

abbrev two_messages : List (Message ℕ)
two_messages =
    record { topic = topic; msg_type = msg_type; level = 3; content = 1 ∷ 2 ∷ []; now = at 5 }
    ∷ record { topic = topic; msg_type = msg_type; level = 3; content = 0 ∷ []; now = at 9 }
    ∷ []

abbrev plain_bridge : NetworkBridge ℕ ℕ Unit
plain_bridge = new_bridge

abbrev namespaced : NetworkBridge ℕ ℕ Unit
namespaced = record new_bridge { publish_namespace = codes "/car" }

carried :
    (content : List ℕ) (t : ℕ)
    → t < 2 ^ 64
    → length content < 1000
    → IsCarried stored topic msg_type 3 content t
unfolding compress
carried content t h k = record {
  topic_text = topic_text;
  type_text = type_text;
  topic_size = omega arith;
  type_size = omega arith;
  timestamp_fits = h;
  compressed = create_header topic msg_type ++ content;
  compresses = refl;
  within_limit = omega (
    arith,
    k,
    length-append (create_header topic msg_type) content,
    (parse_header-create_header topic msg_type [] [] content topic_text type_text (omega arith)
        (omega arith)).1,
  );
}

link_delivers_example :
    (fs : List (List ℕ)) × ((send_all counting (λ n. n) stored two_messages plain_bridge).calls
      ≡ [] ++ map write fs)
    × (seen (receive_all stored fs namespaced) ≡ [] ++ map (expected (codes "/car")) two_messages)
    × ((receive_all stored fs namespaced).frame_reject_count ≡ 0)
    × ((send_all counting (λ n. n) stored two_messages plain_bridge).tx_sequence ≡ 2)
link_delivers_example =
    link_delivers counting (λ n. n) stored two_messages 5 plain_bridge namespaced
      stored-RestoresContent
      (
        carried (1 ∷ 2 ∷ []) 5 (omega arith) (omega arith),
        (carried (0 ∷ []) 9 (omega arith) (omega arith), _),
      )
      (omega arith, (omega arith, _)) refl (omega arith) (λ h. absurd (ground (arith, h))) _

abbrev busy : NetworkBridge ℕ ℕ Unit
busy = record new_bridge {
  network_interface = true;
  timers = 200 ∷ [];
  fault_engine =
      some (record (new_engine 0) { delayed = record { due_ns = 9; bytes = 1 ∷ [] } ∷ [] });
}

shutdown_lem_example :
    shutdown busy ≡ record new_bridge { network_interface = false; calls = closed ∷ [] }
shutdown_lem_example = shutdown_lem busy refl

abbrev events : List Event
events = message (1 ∷ []) 5 ∷ timer ∷ timer ∷ message [] 6 ∷ message (2 ∷ []) 7 ∷ timer ∷ []

on_events_fifo_example :
    let s = on_events (started (new_manager topic [] 3 true)) events in
    (q : List SensorFrame) × (payloads s.accepted ≡ s.delivered ++ payloads q)
    × (length q ≤ 1023)
    × (s.manager.enqueued_count ≡ length s.accepted)
    × (s.manager.enqueued_count + s.manager.dropped_count ≡ 3)
on_events_fifo_example = on_events_fifo topic [] 3 true events

abbrev edge : Text → Text → ℕ → TransformStamped
edge a b stamp = record { frame_id = a; child_frame_id = b; stamp = stamp; transform = [] }

abbrev ros : Ros Text
ros = record { regex = λ t. t; regex_match = same; serialize = λ ts. length ts ∷ [] }

abbrev gatherer : SubscriptionManagerTf Text
gatherer = record {
  manager = new_manager (codes "/tf") [] 3 false;
  static_tf = false;
  subscribed = true;
  include_pattern = [];
  exclude_pattern = codes "noise" ∷ [];
  tf_id = [];
  transforms = [];
}

abbrev transforms_seen : List (List TransformStamped × ℕ)
transforms_seen =
    ((edge (codes "map") (codes "odom") 1 ∷ edge (codes "noise") (codes "x") 1 ∷ []), 5)
    ∷ ((edge (codes "odom") (codes "base") 2 ∷ []), 6)
    ∷ []

tf2_callbacks_in_bounds_example :
    let ts = (tf2_callbacks ros transforms_seen gatherer).transforms in
    (1 < length ts) × (ids (set ts 1 (edge (codes "odom") (codes "base") 7)) ≡ ids ts)
unfolding tf2_callback transform_loop store_transform erase_stamps
tf2_callbacks_in_bounds_example =
    tf2_callbacks_in_bounds ros transforms_seen gatherer (edge (codes "odom") (codes "base") 7) 1
      refl refl

-- Every parameter has its default, but for the topics.
abbrev two_topics : List Text
two_topics = codes "/scan" ∷ codes "/tf" ∷ []

abbrev parameters : Parameters ℕ
parameters = record {
  text = λ name default. default;
  texts = λ name default. if same name (codes "topics") then two_topics else default;
  flag = λ name default. default;
  integer = λ name default. default;
  number = λ name default. default;
}

abbrev casts : Casts ℕ
casts = record { single = λ x. x; to_int = λ x. x }

abbrev seed : ℕ
seed = 1

abbrev no_topics : Graph
no_topics = record { types = λ topic. none; publishers = λ topic. 0 }

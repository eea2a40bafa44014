-- ===== src/Bridge/Subscription/Fifo.antt =====
-- src/subscription_manager.cpp: what the timer gets, against what the subscription received.
use mathlib.Core.Path.{subst}
use mathlib.Core.List.{append-nil, append_assoc}
use native.Mathlib.Decide.{dec_lt}
use av_hil_validation_platfo.Base.Lists.{length, length-append}
use av_hil_validation_platfo.Base.Tests.{
  ltb, ltb_of_lt, ltb_of_le, Bool-cases, Option-cases, if◌then◌else◌,
}
use av_hil_validation_platfo.Base.Text.{Text, is_empty}
use av_hil_validation_platfo.Core.Ring.{try_pop}
use av_hil_validation_platfo.Core.Ring.Bounded.{dequeue}
use av_hil_validation_platfo.Core.Ring.Slots.{Queues, length_below, empty_ring-Queues}
use av_hil_validation_platfo.Core.Ring.Refinement.{try_pop_lem}
use av_hil_validation_platfo.Core.Backpressure.{
  BackpressurePolicy, PushResult, enqueued, dropped_newest, default_policy_for, Outcome,
  apply_policy,
}
use av_hil_validation_platfo.Core.Backpressure.Lossless.{
  Comes, apply_policy_lem, apply_policy_alone, survivors,
}
use av_hil_validation_platfo.Bridge.Subscription.{
  SensorFrame, default_frame, ring_capacity, SubscriptionManager, new_manager, callback, get_data,
  count_result, set_sensor_type,
}
use av_hil_validation_platfo.Base.{
  ℕ, suc, ◌+◌, ◌%◌, ◌^◌, ◌≤◌, ◌≡◌, refl, ap, sym, ◌∙◌, inl, inr, Bool, true, false, not, ◌&&◌,
  Option, none, some, List, [], ◌∷◌, ◌++◌, map, arith,
}

-- A message of the subscription with its time, or a turn of the timer.
pub data Event : Type 0 where
  message : List ℕ → ℕ → Event
  timer : Event

-- The manager, the frames whose push said that they were enqueued, and the bytes that `get_data` returned as
-- valid when it took a frame out.
pub record Session : Type 0 where
  pub manager : SubscriptionManager
  pub accepted : List SensorFrame
  pub delivered : List (List ℕ)

abbrev pub captured : SubscriptionManager → List ℕ → ℕ → SensorFrame
captured m bytes now = record { payload = bytes; sequence = m.capture_sequence; timestamp_ns = now }

abbrev pub if_stored : Option PushResult → SensorFrame → List SensorFrame
if_stored none f = []
if_stored (some dropped_newest) f = []
if_stored (some _) f = f ∷ []

abbrev pub if_taken : Option SensorFrame → List ℕ × Bool → List (List ℕ)
if_taken none answer = []
if_taken (some f) (bytes, valid) = if valid then bytes ∷ [] else []

-- The answer of `get_data`, if the call takes a frame out of the ring.
abbrev pub returned_by : SubscriptionManager → List (List ℕ)
returned_by m =
    if m.received_msg
    then if_taken (try_pop ring_capacity default_frame m.ring).0 ((get_data m).0, (get_data m).1)
    else []

abbrev pub payloads : List SensorFrame → List (List ℕ)
payloads frames = map (λ f. f.payload) frames

abbrev pub on_event : Session → Event → Session
on_event s (message bytes now) =
    let (result, m) = callback s.manager bytes now in
    record {
      manager = m;
      accepted = s.accepted ++ if_stored result (captured s.manager bytes now);
      delivered = s.delivered;
    }
on_event s timer = record {
  manager = (get_data s.manager).2;
  accepted = s.accepted;
  delivered = s.delivered ++ returned_by s.manager;
}

abbrev pub on_events : Session → List Event → Session
on_events s [] = s
on_events s (event ∷ events) = on_events (on_event s event) events

abbrev pub messages : List Event → ℕ
messages [] = 0
messages (message bytes now ∷ events) = suc (messages events)
messages (timer ∷ events) = messages events

pub record IsFifo (n : ℕ) (s : Session) : Type 0 where
  pub dropping : s.manager.policy ≡ BackpressurePolicy.drop_newest
  pub queue : List SensorFrame
  pub queues : Queues ring_capacity default_frame s.manager.ring queue
  pub history : payloads s.accepted ≡ s.delivered ++ payloads queue
  pub stored_count : s.manager.enqueued_count ≡ length s.accepted
  pub all_counted : s.manager.enqueued_count + s.manager.dropped_count ≡ n

-- The session after a message, by the outcome of the push.
abbrev pushed : Session → List ℕ → ℕ → Outcome ring_capacity default_frame → Session
pushed s bytes now o = record {
  manager = count_result o.result (record (s.manager) {
    received_msg = true;
    is_stale = false;
    capture_sequence = (s.manager.capture_sequence + 1) % 2 ^ 64;
    ring = o.ring;
  });
  accepted = s.accepted ++ if_stored o.result (captured s.manager bytes now);
  delivered = s.delivered;
}

payloads-append : (l k : List SensorFrame) → payloads (l ++ k) ≡ payloads l ++ payloads k
payloads-append [] k = refl
payloads-append (f ∷ l) k = ap (λ (ps : List (List ℕ)). f.payload ∷ ps) (payloads-append l k)

stored-IsFifo :
    (n : ℕ) (s : Session) (bytes : List ℕ) (now : ℕ) (h : IsFifo n s)
    (o : Outcome ring_capacity default_frame)
    → o.result ≡ some enqueued
    → Queues ring_capacity default_frame o.ring (h.queue ++ (captured s.manager bytes now ∷ []))
    → IsFifo (suc n) (pushed s bytes now o)
stored-IsFifo n s bytes now h o e r =
    let x = captured s.manager bytes now in
    let counted = h.stored_count in
    let all = h.all_counted in
    rw e (record {
      dropping = h.dropping;
      queue = h.queue ++ (x ∷ []);
      queues = r;
      history =
          payloads-append s.accepted (x ∷ [])
          ∙ ap (λ (l : List (List ℕ)). l ++ (bytes ∷ [])) h.history
          ∙ append_assoc s.delivered (payloads h.queue) (bytes ∷ [])
          ∙ ap (λ (l : List (List ℕ)). s.delivered ++ l) (sym (payloads-append h.queue (x ∷ [])));
      stored_count = omega (arith, counted, length-append s.accepted (x ∷ []));
      all_counted = omega (arith, all);
    })

dropped-IsFifo :
    (n : ℕ) (s : Session) (bytes : List ℕ) (now : ℕ) (h : IsFifo n s)
    (o : Outcome ring_capacity default_frame)
    → o.result ≡ some dropped_newest
    → Queues ring_capacity default_frame o.ring h.queue
    → IsFifo (suc n) (pushed s bytes now o)
dropped-IsFifo n s bytes now h o e r =
    let all = h.all_counted in
    rw e (record {
      dropping = h.dropping;
      queue = h.queue;
      queues = r;
      history = ap payloads (append-nil s.accepted) ∙ h.history;
      stored_count = h.stored_count ∙ ap length (sym (append-nil s.accepted));
      all_counted = omega (arith, all);
    })

message-IsFifo :
    (n : ℕ) (s : Session) (bytes : List ℕ) (now : ℕ)
    → IsFifo n s
    → IsFifo (suc n) (on_event s (message bytes now))
unfolding callback
message-IsFifo n s bytes now h =
    let m = s.manager in
    let x = captured m bytes now in
    let full = if ltb (length h.queue) 1023 then some enqueued else some dropped_newest in
    let push = λ (p : BackpressurePolicy). apply_policy ring_capacity default_frame m.ring x p [] in
    let comes : Comes ring_capacity default_frame h.queue x full (push m.policy) =
      subst (λ (p : BackpressurePolicy). Comes ring_capacity default_frame h.queue x full (push p))
        (sym h.dropping)
        (apply_policy_lem ring_capacity default_frame BackpressurePolicy.drop_newest [] m.ring
          h.queue x (omega arith) h.queues) in
    let kept : comes.kept ≡ survivors full h.queue x =
      ap (λ (l : List SensorFrame). l ++ comes.kept)
        (sym (apply_policy_alone ring_capacity default_frame m.policy m.ring x))
      ∙ comes.exact in
    elim (dec_lt (length h.queue) 1023) [
      | yes p ↦
          let e : full ≡ some enqueued = rw (ltb_of_lt (length h.queue) 1023 p) refl in
          stored-IsFifo n s bytes now h (push m.policy) (comes.result_is ∙ e) (
            subst (Queues ring_capacity default_frame (push m.policy).ring)
              (kept ∙ ap (λ (t : Option PushResult). survivors t h.queue x) e) comes.queues)
      | no p ↦
          let e : full ≡ some dropped_newest =
            rw (ltb_of_le (length h.queue) 1023 (omega arith)) refl in
          dropped-IsFifo n s bytes now h (push m.policy) (comes.result_is ∙ e) (
            subst (Queues ring_capacity default_frame (push m.policy).ring)
              (kept ∙ ap (λ (t : Option PushResult). survivors t h.queue x) e) comes.queues)
    ]

-- What `get_data` does to the ring and the counts.
get_data_lem :
    (m : SubscriptionManager)
    → let m' = (get_data m).2 in
      (m'.policy ≡ m.policy)
      × (m'.enqueued_count ≡ m.enqueued_count)
      × (m'.dropped_count ≡ m.dropped_count)
      × (m'.ring
          ≡ (if m.received_msg then (try_pop ring_capacity default_frame m.ring).1 else m.ring))
unfolding get_data
get_data_lem m = elim (Bool-cases m.received_msg) [
  | inr e ↦ rw e (refl, refl, refl, refl)
  | inl e ↦ elim (Option-cases (try_pop ring_capacity default_frame m.ring).0) [
    | inr (f, g) ↦ rw (e, g) (refl, refl, refl, refl)
    | inl g ↦ elim (Bool-cases (m.publish_stale_data && not (is_empty m.current_frame.payload))) [
      | inl c ↦ rw (e, g, c) (refl, refl, refl, refl)
      | inr c ↦ rw (e, g, c) (refl, refl, refl, refl)
    ]
  ]
]

-- What `get_data` returns when it takes a frame out.
returned_by-some :
    (m : SubscriptionManager) (f : SensorFrame)
    → m.received_msg ≡ true
    → (try_pop ring_capacity default_frame m.ring).0 ≡ some f
    → returned_by m ≡ f.payload ∷ []
unfolding get_data
returned_by-some m f e g = rw (e, g) refl

returned_by-none :
    (m : SubscriptionManager)
    → m.received_msg ≡ true
    → (try_pop ring_capacity default_frame m.ring).0 ≡ none
    → returned_by m ≡ []
returned_by-none m e g = rw (e, g) refl

returned_by-dequeue :
    (m : SubscriptionManager) (q : List SensorFrame)
    → m.received_msg ≡ true
    → (try_pop ring_capacity default_frame m.ring).0 ≡ (dequeue q).0
    → returned_by m ++ payloads (dequeue q).1 ≡ payloads q
returned_by-dequeue m [] e g = ap (λ (l : List (List ℕ)). l ++ []) (returned_by-none m e g)
returned_by-dequeue m (x ∷ q) e g =
    ap (λ (l : List (List ℕ)). l ++ payloads q) (returned_by-some m x e g)

timer-IsFifo : (n : ℕ) (s : Session) → IsFifo n s → IsFifo n (on_event s timer)
timer-IsFifo n s h =
    let m = s.manager in
    let pop = try_pop_lem ring_capacity default_frame m.ring h.queue h.queues in
    let got = get_data_lem m in
    let c = h.stored_count in
    let a = h.all_counted in
    elim (Bool-cases m.received_msg) [
      | inl e ↦
          let ring_is : (get_data m).2.ring ≡ (try_pop ring_capacity default_frame m.ring).1 =
            got.3 ∙ rw e refl in
          record {
            dropping = got.0 ∙ h.dropping;
            queue = (dequeue h.queue).1;
            queues =
                subst (λ r. Queues ring_capacity default_frame r (dequeue h.queue).1) (sym ring_is)
                  pop.1;
            history =
                h.history
                ∙ ap (λ (l : List (List ℕ)). s.delivered ++ l)
                    (sym (returned_by-dequeue m h.queue e pop.0))
                ∙ sym (append_assoc s.delivered (returned_by m) (payloads (dequeue h.queue).1));
            stored_count = got.1 ∙ c;
            all_counted = omega (arith, got.1, got.2, a);
          }
      | inr e ↦
          let ring_is : (get_data m).2.ring ≡ m.ring = got.3 ∙ rw e refl in
          let taken : returned_by m ≡ [] = rw e refl in
          record {
            dropping = got.0 ∙ h.dropping;
            queue = h.queue;
            queues =
                subst (λ r. Queues ring_capacity default_frame r h.queue) (sym ring_is) h.queues;
            history =
                h.history
                ∙ ap (λ (l : List (List ℕ)). l ++ payloads h.queue) (sym (append-nil s.delivered))
                ∙ ap (λ (l : List (List ℕ)). (s.delivered ++ l) ++ payloads h.queue) (sym taken);
            stored_count = got.1 ∙ c;
            all_counted = omega (arith, got.1, got.2, a);
          }
    ]

on_events-IsFifo :
    (events : List Event) (n : ℕ) (s : Session)
    → IsFifo n s
    → IsFifo (n + messages events) (on_events s events)
on_events-IsFifo [] n s h = subst (λ (k : ℕ). IsFifo k s) (omega arith) h
on_events-IsFifo (message bytes now ∷ events) n s h =
    subst (λ (k : ℕ). IsFifo k (on_events (on_event s (message bytes now)) events))
      (let e : suc n + messages events ≡ n + messages (message bytes now ∷ events) = omega arith in
        e)
      (on_events-IsFifo events (suc n) (on_event s (message bytes now))
        (message-IsFifo n s bytes now h))
on_events-IsFifo (timer ∷ events) n s h =
    on_events-IsFifo events n (on_event s timer) (timer-IsFifo n s h)

abbrev pub started : SubscriptionManager → Session
started m = record { manager = m; accepted = []; delivered = [] }

-- For a manager as the bridge makes it, over any sequence of messages and timer turns: every message
-- is counted as enqueued or as dropped, the enqueued ones are those accepted, and the bytes that
-- `get_data` returned as valid when it took a frame out are those of the accepted messages in order, but for
-- the at most 1023 that are still queued.
pub on_events_fifo :
    (topic subscribe_namespace : Text) (level : ℕ) (publish_stale_data : Bool) (events : List Event)
    → let s =
        on_events
          (started (new_manager topic subscribe_namespace level publish_stale_data))
          events in
      (q : List SensorFrame) × (payloads s.accepted ≡ s.delivered ++ payloads q)
      × (length q ≤ 1023)
      × (s.manager.enqueued_count ≡ length s.accepted)
      × (s.manager.enqueued_count + s.manager.dropped_count ≡ messages events)
unfolding new_manager set_sensor_type default_policy_for
on_events_fifo topic subscribe_namespace level publish_stale_data events =
    let m = new_manager topic subscribe_namespace level publish_stale_data in
    let h = on_events-IsFifo events 0 (started m) (record {
      dropping = refl;
      queue = [];
      queues = empty_ring-Queues ring_capacity default_frame (omega arith);
      history = refl;
      stored_count = refl;
      all_counted = refl;
    }) in
    let a = h.all_counted in
    (
      h.queue,
      h.history,
      (let b = length_below ring_capacity default_frame _ h.queue h.queues in omega (arith, b)),
      h.stored_count,
      omega (arith, a),
    )

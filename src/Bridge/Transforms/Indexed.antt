-- ===== src/Bridge/Transforms/Indexed.antt =====
-- src/subscription_manager_tf.cpp: the index `tf_id_` of the buffer of transforms.
use mathlib.Core.Path.{subst}
use av_hil_validation_platfo.Base.Lists.{length, set}
use av_hil_validation_platfo.Base.Tests.{Bool-cases, Option-cases}
use av_hil_validation_platfo.Base.Text.{Text, eq_of_same}
use av_hil_validation_platfo.Bridge.Transforms.{
  TransformStamped, FramePair, Ros, SubscriptionManagerTf, Outcome, reset_buffer, go_on, same_id,
  id_of, find_id, store_transform, ignored, transform_loop, erase_stamps, tf2_callback,
}
use av_hil_validation_platfo.Base.{
  ℕ, suc, ◌+◌, ◌-◌, ◌≤◌, ◌<◌, ◌≡◌, refl, ap, ap₂, sym, ◌∙◌, ◌⊎◌, inl, inr, true, some, List, [],
  ◌∷◌, ◌++◌, map, arith,
}

-- The ids with their positions, from `i` on.
abbrev pub numbered : ℕ → List FramePair → List (FramePair × ℕ)
numbered i [] = []
numbered i (id ∷ ids) = (id, i) ∷ numbered (i + 1) ids

abbrev pub ids : List TransformStamped → List FramePair
ids ts = map id_of ts

abbrev pub IsIndexed : {P : Type 0} → SubscriptionManagerTf P → Type 0
IsIndexed m = m.tf_id ≡ numbered 0 (ids m.transforms)

numbered-snoc :
    (i j : ℕ) (xs : List FramePair) (x : FramePair)
    → j ≡ i + length xs
    → numbered i (xs ++ (x ∷ [])) ≡ numbered i xs ++ ((x, j) ∷ [])
numbered-snoc i j [] x h = ap (λ (k : ℕ). (x, k) ∷ []) (let e : i ≡ j = omega (arith, h) in e)
numbered-snoc i j (y ∷ xs) x h =
    ap (λ (l : List (FramePair × ℕ)). (y, i) ∷ l) (numbered-snoc (i + 1) j xs x (omega (arith, h)))

eq_of_same_id : (a b : FramePair) → same_id a b ≡ true → a ≡ b
eq_of_same_id (a, b) (c, d) h =
    ap₂ (λ (x y : Text). (x, y)) (eq_of_same a c (ground (arith, h)))
      (eq_of_same b d (ground (arith, h)))

-- What is found stands at that position.
find_id-numbered :
    (id : FramePair) (i j : ℕ) (ts : List TransformStamped) (t : TransformStamped)
    → find_id id (numbered i (ids ts)) ≡ some j
    → id_of t ≡ id
    → (i ≤ j) × (j < i + length ts) × (ids (set ts (j - i) t) ≡ ids ts)
unfolding find_id
find_id-numbered id i j [] t h e = absurd (ground (arith, h))
find_id-numbered id i j (u ∷ ts) t h e = elim (Bool-cases (same_id (id_of u) id)) [
  | inl q ↦
      let f : some i ≡ some j = rw q at h in
      let k : i ≡ j = ground (arith, f) in
      let zero_off : j - i ≡ 0 = omega (arith, k) in
      (
        omega (arith, k),
        omega (arith, k),
        ap (λ (n : ℕ). ids (set (u ∷ ts) n t)) zero_off
            ∙ ap (λ (x : FramePair). x ∷ ids ts) (e ∙ sym (eq_of_same_id (id_of u) id q)),
      )
  | inr q ↦
      let ih = find_id-numbered id (i + 1) j ts t (rw q at h) e in
      let off : j - i ≡ suc (j - (i + 1)) = omega (arith, ih.0) in
      (
        omega (arith, ih.0),
        omega (arith, ih.1),
        ap (λ (n : ℕ). ids (set (u ∷ ts) n t)) off ∙ ap (λ (l : List FramePair). id_of u ∷ l) ih.2,
      )
]

ids-snoc :
    (ts : List TransformStamped) (t : TransformStamped)
    → ids (ts ++ (t ∷ [])) ≡ ids ts ++ (id_of t ∷ [])
ids-snoc [] t = refl
ids-snoc (u ∷ ts) t = ap (λ (l : List FramePair). id_of u ∷ l) (ids-snoc ts t)

length-ids : (ts : List TransformStamped) → length (ids ts) ≡ length ts
length-ids [] = refl
length-ids (t ∷ ts) = ap suc (length-ids ts)

ids-erased :
    (ts : List TransformStamped)
    → ids (map (λ (t : TransformStamped). record t { stamp = 0 }) ts) ≡ ids ts
ids-erased [] = refl
ids-erased (t ∷ ts) = ap (λ (l : List FramePair). id_of t ∷ l) (ids-erased ts)

module _ {P : Type 0} where
  abbrev reached : Outcome P → SubscriptionManagerTf P
  reached (reset_buffer m) = m
  reached (go_on m) = m

  Outcome-cases :
      (o : Outcome P)
      → ((m : SubscriptionManagerTf P) × (o ≡ reset_buffer m))
        ⊎ ((m : SubscriptionManagerTf P) × (o ≡ go_on m))
  Outcome-cases (reset_buffer m) = inl (m, refl)
  Outcome-cases (go_on m) = inr (m, refl)

  store_transform-IsIndexed :
      (t : TransformStamped) (m : SubscriptionManagerTf P)
      → IsIndexed m
      → IsIndexed (reached (store_transform t m))
  unfolding store_transform
  store_transform-IsIndexed t m h = elim (Option-cases (find_id (id_of t) m.tf_id)) [
    | inr (i, e) ↦
        let found =
          find_id-numbered (id_of t) 0 i m.transforms t (ap (find_id (id_of t)) (sym h) ∙ e) refl in
        let at : i - 0 ≡ i = omega arith in
        rw (e, store_transform)
          (h
            ∙ ap (numbered 0) (sym (ap (λ (n : ℕ). ids (set m.transforms n t)) (sym at) ∙ found.2)))
    | inl e ↦ elim (Option-cases (find_id (t.child_frame_id, t.frame_id) m.tf_id)) [
      | inr (j, f) ↦ rw (e, f, store_transform) refl
      | inl f ↦
          rw (e, f, store_transform)
            (ap (λ (l : List (FramePair × ℕ)). l ++ ((id_of t, length m.transforms) ∷ [])) h
              ∙ sym (
                  ap (numbered 0) (ids-snoc m.transforms t)
                  ∙ numbered-snoc 0 (length m.transforms) (ids m.transforms) (id_of t)
                      (omega (arith, length-ids m.transforms))))
    ]
  ]

  module _ (ros : Ros P) where
    transform_loop-IsIndexed :
        (ts : List TransformStamped) (m : SubscriptionManagerTf P)
        → IsIndexed m
        → IsIndexed (reached (transform_loop ros ts m))
    unfolding transform_loop
    transform_loop-IsIndexed [] m h = h
    transform_loop-IsIndexed (t ∷ ts) m h = elim (Bool-cases (ignored ros m t)) [
      | inl c ↦ rw (c, transform_loop) (transform_loop-IsIndexed ts m h)
      | inr c ↦
          let k = store_transform-IsIndexed t m h in
          elim (Outcome-cases (store_transform t m)) [
            | inl (m', e) ↦
                rw (c, e, transform_loop) (subst (λ (o : Outcome P). IsIndexed (reached o)) e k)
            | inr (m', e) ↦
                rw (c, e, transform_loop)
                  (transform_loop-IsIndexed ts m'
                    (subst (λ (o : Outcome P). IsIndexed (reached o)) e k))
          ]
    ]

    erase_stamps-IsIndexed :
        (m : SubscriptionManagerTf P) → IsIndexed m → IsIndexed (erase_stamps m)
    unfolding erase_stamps
    erase_stamps-IsIndexed m h = elim (Bool-cases m.static_tf) [
      | inl c ↦ rw c (h ∙ ap (numbered 0) (sym (ids-erased m.transforms)))
      | inr c ↦ rw c h
    ]

    tf2_callback-IsIndexed :
        (tfmsg : List TransformStamped) (now : ℕ) (m : SubscriptionManagerTf P)
        → IsIndexed m
        → IsIndexed (tf2_callback ros tfmsg now m).1
    unfolding tf2_callback
    tf2_callback-IsIndexed tfmsg now m h =
        let k = transform_loop-IsIndexed tfmsg m h in
        elim (Outcome-cases (transform_loop ros tfmsg m)) [
          | inl (m', e) ↦
              rw (e, tf2_callback) (subst (λ (o : Outcome P). IsIndexed (reached o)) e k)
          | inr (m', e) ↦
              rw (e, tf2_callback)
                (erase_stamps-IsIndexed m' (subst (λ (o : Outcome P). IsIndexed (reached o)) e k))
        ]

    abbrev pub tf2_callbacks :
        List (List TransformStamped × ℕ) → SubscriptionManagerTf P → SubscriptionManagerTf P
    tf2_callbacks [] m = m
    tf2_callbacks ((tfmsg, now) ∷ rest) m = tf2_callbacks rest (tf2_callback ros tfmsg now m).1

    tf2_callbacks-IsIndexed :
        (messages : List (List TransformStamped × ℕ)) (m : SubscriptionManagerTf P)
        → IsIndexed m
        → IsIndexed (tf2_callbacks messages m)
    tf2_callbacks-IsIndexed [] m h = h
    tf2_callbacks-IsIndexed ((tfmsg, now) ∷ rest) m h =
        tf2_callbacks-IsIndexed rest (tf2_callback ros tfmsg now m).1
          (tf2_callback-IsIndexed tfmsg now m h)

    -- After any sequence of messages to a manager whose index is right, such as one that has none: a
    -- position that the index gives for a pair of frames lies inside the buffer, and writing a
    -- transform of that pair there leaves the pairs of the buffer as they are.
    pub tf2_callbacks_in_bounds :
        (messages : List (List TransformStamped × ℕ)) (m : SubscriptionManagerTf P)
        (t : TransformStamped) (i : ℕ)
        → IsIndexed m
        → find_id (id_of t) (tf2_callbacks messages m).tf_id ≡ some i
        → let ts = (tf2_callbacks messages m).transforms in
          (i < length ts) × (ids (set ts i t) ≡ ids ts)
    tf2_callbacks_in_bounds messages m t i h found =
        let indexed = tf2_callbacks-IsIndexed messages m h in
        let ts = (tf2_callbacks messages m).transforms in
        let r =
          find_id-numbered (id_of t) 0 i ts t (ap (find_id (id_of t)) (sym indexed) ∙ found) refl in
        let at : i - 0 ≡ i = omega arith in
        (omega (arith, r.1), sym (ap (λ (n : ℕ). ids (set ts n t)) at) ∙ r.2)

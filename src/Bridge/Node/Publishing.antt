-- ===== src/Bridge/Node/Publishing.antt =====
-- src/network_bridge.cpp: the publishers of a node, and what a message does to them.
use mathlib.Core.List.{map-append}
use mathlib.Core.Option.{some-injective}
use av_hil_validation_platfo.Base.Tests.{Bool-cases, Option-cases}
use av_hil_validation_platfo.Base.Text.{Text, same, eq_of_same}
use av_hil_validation_platfo.Bridge.Node.{
  NetworkBridge, Publisher, find_publisher, publisher_for, publish,
}
use av_hil_validation_platfo.Base.{
  ℕ, ◌≡◌, refl, ap, sym, ◌∙◌, inl, inr, true, some, List, [], ◌∷◌, ◌++◌, map, arith,
}

-- Each publisher carries the namespace before its topic.
abbrev pub AllNamed : Text → List (Text × Publisher) → Type 0
AllNamed ns [] = Unit
AllNamed ns ((t, p) ∷ publishers) = (p.name ≡ ns ++ t) × AllNamed ns publishers

pub find_publisher_name :
    (ns topic : Text) (publishers : List (Text × Publisher)) (p : Publisher)
    → AllNamed ns publishers
    → find_publisher topic publishers ≡ some p
    → p.name ≡ ns ++ topic
find_publisher_name ns topic [] p n h = absurd (ground (arith, h))
find_publisher_name ns topic ((t, q) ∷ publishers) p n h = elim (Bool-cases (same t topic)) [
  | inl e ↦
      ap (λ (r : Publisher). r.name) (sym (some-injective q p (rw (e) at h)))
      ∙ n.0
      ∙ ap (λ (l : Text). ns ++ l) (eq_of_same t topic e)
  | inr e ↦ find_publisher_name ns topic publishers p n.1 (rw (e) at h)
]

pub AllNamed-append :
    (ns topic : Text) (p : Publisher) (publishers : List (Text × Publisher))
    → AllNamed ns publishers
    → p.name ≡ ns ++ topic
    → AllNamed ns (publishers ++ ((topic, p) ∷ []))
AllNamed-append ns topic p [] n h = (h, _)
AllNamed-append ns topic p (q ∷ publishers) n h = (n.0, AllNamed-append ns topic p publishers n.1 h)

abbrev pub to_seen : Publisher × List ℕ → Text × List ℕ
to_seen m = (m.0.name, m.1)

module _ {D R P : Type 0} where
  -- What a subscriber sees: the name of the publisher and the message.
  abbrev pub seen : NetworkBridge D R P → List (Text × List ℕ)
  seen b = map to_seen b.published

  -- What publishing a message does to the node.
  pub record Published (topic : Text) (message : List ℕ) (b b' : NetworkBridge D R P) : Type 0 where
    pub seen_more : seen b' ≡ seen b ++ ((b.publish_namespace ++ topic, message) ∷ [])
    pub named : AllNamed b'.publish_namespace b'.publishers
    pub same_namespace : b'.publish_namespace ≡ b.publish_namespace
    pub same_rejects : b'.frame_reject_count ≡ b.frame_reject_count
    pub same_decoder : b'.frame_decoder ≡ b.frame_decoder

  publisher_for_lem :
      (topic msg_type : Text) (b : NetworkBridge D R P)
      → AllNamed b.publish_namespace b.publishers
      → (p : Publisher) × (ps : List (Text × Publisher)) × (publisher_for topic msg_type b
          ≡ (p, record b { publishers = ps }))
        × (p.name ≡ b.publish_namespace ++ topic)
        × AllNamed b.publish_namespace ps
  unfolding publisher_for
  publisher_for_lem topic msg_type b n = elim (Option-cases (find_publisher topic b.publishers)) [
    | inl e ↦
        let p : Publisher = record { name = b.publish_namespace ++ topic; msg_type = msg_type } in
        (
          p,
          b.publishers ++ ((topic, p) ∷ []),
          rw (publisher_for, e) refl,
          refl,
          AllNamed-append b.publish_namespace topic p b.publishers n refl,
        )
    | inr (p, e) ↦ (
      p,
      b.publishers,
      rw (publisher_for, e) refl,
      find_publisher_name b.publish_namespace topic b.publishers p n e,
      n,
    )
  ]

  pub publish_lem :
      (topic msg_type : Text) (message : List ℕ) (b : NetworkBridge D R P)
      → AllNamed b.publish_namespace b.publishers
      → Published topic message b (publish true topic msg_type message b)
  unfolding publish
  publish_lem topic msg_type message b n =
      let (p, ps, e, name, named) = publisher_for_lem topic msg_type b n in
      rw (e) (record {
        seen_more =
            map-append to_seen b.published ((p, message) ∷ [])
            ∙ ap (λ (l : Text). seen b ++ ((l, message) ∷ [])) name;
        named = named;
        same_namespace = refl;
        same_rejects = refl;
        same_decoder = refl;
      })

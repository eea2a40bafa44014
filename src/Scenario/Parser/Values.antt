-- ===== src/Scenario/Parser/Values.antt =====
-- src/scenario/scenario.cpp: the values of a scenario against those of its document, field by field.
use av_hil_validation_platfo.Base.Double.{Double}
use av_hil_validation_platfo.Base.Map.{Map}
use av_hil_validation_platfo.Base.Text.{Text, is_empty, codes}
use av_hil_validation_platfo.Scenario.Model.{
  StreamConfig, FaultSpec, Assertion, Scenario, fault_type_from_string, is_unknown_type,
  compare_op_from_string, is_unknown_op,
}
use av_hil_validation_platfo.Scenario.Parser.{
  Yaml, string_at, double_at, window_at, items_at, pairs_at, nested_params, inline_params,
  parse_stream, parse_fault, parse_assertion, parse_node,
}
use av_hil_validation_platfo.Scenario.Parser.Valid.{Describes, parse_node-Describes}
use av_hil_validation_platfo.Scenario.Result.{Parsed, ok, IsEach}
use av_hil_validation_platfo.Base.{◌≡◌, refl, ap₂, ◌↔◌, false, some, List, [], ◌∷◌, arith}

-- The elements of two lists stand in the relation, one by one and in order.
module _ {A B : Type 0} (Related : A → B → Type 0) where
  abbrev pub Pairwise : List A → List B → Type 0
  Pairwise [] [] = Unit
  Pairwise [] (y ∷ ys) = ⊥
  Pairwise (x ∷ xs) [] = ⊥
  Pairwise (x ∷ xs) (y ∷ ys) = Related x y × Pairwise xs ys

module _ {A B : Type 0} (f : A → Parsed B) (Related : A → B → Type 0)
    (same : (x : A) (y : B) → (f x ≡ ok y) ↔ Related x y) where
  IsEach-Pairwise : (xs : List A) (ys : List B) → IsEach f xs ys ↔ Pairwise Related xs ys
  IsEach-Pairwise [] [] = (λ h. tt, λ h. refl)
  IsEach-Pairwise [] (y ∷ ys) = (λ h. absurd cc, λ h. absurd h)
  IsEach-Pairwise (x ∷ xs) [] = (λ h. absurd cc, λ h. absurd h)
  IsEach-Pairwise (x ∷ xs) (y ∷ ys) =
      let (to, of) = IsEach-Pairwise xs ys in
      let (to_one, of_one) = same x y in
      (
        λ h. (to_one cc, to cc),
        λ (one, rest). ap₂ (λ (z : Parsed B) (zs : List (Parsed B)). z ∷ zs) (of_one one) (of rest),
      )

module _ {N D : Type 0} ⦃d : Double D⦄ (yaml : Yaml N D) where
  -- An entry of `streams`: its key is the name.
  pub record OfStream (entry : N × N) (c : StreamConfig D) : Type 0 where
    pub name : yaml.as_string entry.0 ≡ ok c.name
    pub rate_hz : double_at yaml entry.1 (codes "rate_hz") ≡ ok c.rate_hz
    pub positive : d.le c.rate_hz (d.of_nat 0) ≡ false

  -- The parameters are those of `params`, and those that stand in the fault itself.
  pub record OfFault (f : N) (s : FaultSpec D) : Type 0 where
    pub stream : string_at yaml f (codes "stream") ≡ ok s.stream
    pub start_seconds : double_at yaml f (codes "start_seconds") ≡ ok s.start_seconds
    pub duration_seconds : double_at yaml f (codes "duration_seconds") ≡ ok s.duration_seconds
    pub type :
        (word : Text) × (string_at yaml f (codes "type") ≡ ok word)
        × (s.type ≡ fault_type_from_string word)
    pub known : is_unknown_type s.type ≡ false
    pub params :
        (nested : List (N × N)) × (pairs_at yaml f (codes "params") ≡ ok nested)
        × (outer : Map D) × (nested_params yaml nested [] ≡ ok outer)
        × (inline_params yaml f
              (codes "delay_ms"
                ∷ codes "drop_rate"
                ∷ codes "bandwidth_kbps"
                ∷ codes "burst_ms"
                ∷ [])
              outer
            ≡ ok s.params)

  pub record OfAssertion (a : N) (s : Assertion D) : Type 0 where
    pub metric : string_at yaml a (codes "metric") ≡ ok s.metric
    pub named : is_empty s.metric ≡ false
    pub op :
        (word : Text) × (string_at yaml a (codes "operator") ≡ ok word)
        × (s.op ≡ compare_op_from_string word)
    pub known : is_unknown_op s.op ≡ false
    pub value : double_at yaml a (codes "value") ≡ ok s.value
    pub window_seconds : window_at yaml a (codes "window_seconds") ≡ ok s.window_seconds

  parse_stream-OfStream :
      (entry : N × N) (c : StreamConfig D) → parse_stream yaml entry ≡ ok c → OfStream entry c
  unfolding parse_stream
  parse_stream-OfStream (key, body) c h = ground (arith, h)

  parse_stream_of :
      (entry : N × N) (c : StreamConfig D) → OfStream entry c → parse_stream yaml entry ≡ ok c
  unfolding parse_stream
  parse_stream_of (key, body) c g = rw (g.name, g.rate_hz, g.positive) refl

  parse_fault-OfFault : (f : N) (s : FaultSpec D) → parse_fault yaml f ≡ ok s → OfFault f s
  unfolding parse_fault
  parse_fault-OfFault f s h = ground (arith, h)

  parse_fault_of : (f : N) (s : FaultSpec D) → OfFault f s → parse_fault yaml f ≡ ok s
  unfolding parse_fault
  parse_fault_of f s g =
      let (word, e, t) = g.type in
      let (nested, e1, outer, e2, e3) = g.params in
      ground (arith, g.stream, g.start_seconds, g.duration_seconds, e, t, g.known, e1, e2, e3)

  parse_assertion-OfAssertion :
      (a : N) (s : Assertion D) → parse_assertion yaml a ≡ ok s → OfAssertion a s
  unfolding parse_assertion
  parse_assertion-OfAssertion a s h = ground (arith, h)

  parse_assertion_of : (a : N) (s : Assertion D) → OfAssertion a s → parse_assertion yaml a ≡ ok s
  unfolding parse_assertion
  parse_assertion_of a s g =
      let (word, e, o) = g.op in
      ground (arith, g.metric, g.named, e, o, g.known, g.value, g.window_seconds)

  -- What the document has for a scenario, entry by entry and in order.
  pub record OfDocument (root : N) (s : Scenario D) : Type 0 where
    pub named :
        (c : N) × (yaml.child root (codes "name") ≡ ok (some c)) × (yaml.as_string c ≡ ok s.name)
    pub lasts : double_at yaml root (codes "duration_seconds") ≡ ok s.duration_seconds
    pub positive : d.le s.duration_seconds (d.of_nat 0) ≡ false
    pub streams :
        (entries : List (N × N)) × (pairs_at yaml root (codes "streams") ≡ ok entries)
        × Pairwise OfStream entries s.streams
    pub faults :
        (entries : List N) × (items_at yaml root (codes "faults") ≡ ok entries)
        × Pairwise OfFault entries s.faults
    pub assertions :
        (entries : List N) × (items_at yaml root (codes "assertions") ≡ ok entries)
        × Pairwise OfAssertion entries s.assertions

  streams-Pairwise :
      (entries : List (N × N)) (cs : List (StreamConfig D))
      → IsEach (parse_stream yaml) entries cs ↔ Pairwise OfStream entries cs
  streams-Pairwise =
      IsEach-Pairwise (parse_stream yaml) OfStream
        (λ x y. (parse_stream-OfStream x y, parse_stream_of x y))

  faults-Pairwise :
      (entries : List N) (fs : List (FaultSpec D))
      → IsEach (parse_fault yaml) entries fs ↔ Pairwise OfFault entries fs
  faults-Pairwise =
      IsEach-Pairwise (parse_fault yaml) OfFault
        (λ x y. (parse_fault-OfFault x y, parse_fault_of x y))

  assertions-Pairwise :
      (entries : List N) (cs : List (Assertion D))
      → IsEach (parse_assertion yaml) entries cs ↔ Pairwise OfAssertion entries cs
  assertions-Pairwise =
      IsEach-Pairwise (parse_assertion yaml) OfAssertion
        (λ x y. (parse_assertion-OfAssertion x y, parse_assertion_of x y))

  to_OfDocument : (root : N) (s : Scenario D) → Describes yaml root s → OfDocument root s
  to_OfDocument root s g =
      let (streams, s1, s2) = g.streams in
      let (faults, f1, f2) = g.faults in
      let (assertions, a1, a2) = g.assertions in
      record {
        named = g.named;
        lasts = g.lasts;
        positive = g.positive;
        streams = (streams, s1, (streams-Pairwise streams s.streams).0 s2);
        faults = (faults, f1, (faults-Pairwise faults s.faults).0 f2);
        assertions = (assertions, a1, (assertions-Pairwise assertions s.assertions).0 a2);
      }

  of_OfDocument : (root : N) (s : Scenario D) → OfDocument root s → Describes yaml root s
  of_OfDocument root s g =
      let (streams, s1, s2) = g.streams in
      let (faults, f1, f2) = g.faults in
      let (assertions, a1, a2) = g.assertions in
      record {
        named = g.named;
        lasts = g.lasts;
        positive = g.positive;
        streams = (streams, s1, (streams-Pairwise streams s.streams).1 s2);
        faults = (faults, f1, (faults-Pairwise faults s.faults).1 f2);
        assertions = (assertions, a1, (assertions-Pairwise assertions s.assertions).1 a2);
      }

  -- `parse_node` returns a scenario exactly when each of its fields is read from its own key of the
  -- document, stream by stream, fault by fault and assertion by assertion in order, with the duration
  -- and the rates not at or below 0, the types and operators known, and the metrics not empty. The
  -- parameters of a fault are those that the loops over `params` and over the four inline keys make.
  pub parse_node-OfDocument :
      (root : N) (s : Scenario D) → (parse_node yaml root ≡ ok s) ↔ OfDocument root s
  parse_node-OfDocument root s =
      let (to, of) = parse_node-Describes yaml root s in
      (λ h. to_OfDocument root s (to h), λ g. of (of_OfDocument root s g))

-- ===== src/Scenario/Parser/Valid.antt =====
-- src/scenario/scenario.cpp: which scenarios `parse_node` returns, and when it throws.
use av_hil_validation_platfo.Base.Double.{Double}
use av_hil_validation_platfo.Base.Lists.{All}
use av_hil_validation_platfo.Base.Text.{Text, is_empty, codes}
use av_hil_validation_platfo.Scenario.Model.{
  StreamConfig, FaultSpec, Assertion, Scenario, is_unknown_type, is_unknown_op,
}
use av_hil_validation_platfo.Scenario.Parser.{
  Yaml, double_at, items_at, pairs_at, parse_stream, parse_fault, parse_assertion, parse_sections,
  parse_node,
}
use av_hil_validation_platfo.Scenario.Result.{ok, each, IsEach, each-IsEach, each_of_IsEach}
use av_hil_validation_platfo.Base.{◌≡◌, refl, ◌↔◌, false, some, List, arith}

module _ {D : Type 0} ⦃d : Double D⦄ where
  abbrev pub IsValidStream : StreamConfig D → Type 0
  IsValidStream c = d.le c.rate_hz (d.of_nat 0) ≡ false

  abbrev pub IsValidFault : FaultSpec D → Type 0
  IsValidFault f = is_unknown_type f.type ≡ false

  abbrev pub IsValidAssertion : Assertion D → Type 0
  IsValidAssertion a = (is_empty a.metric ≡ false) × (is_unknown_op a.op ≡ false)

  pub record IsValid (s : Scenario D) : Type 0 where
    pub duration : d.le s.duration_seconds (d.of_nat 0) ≡ false
    pub streams : All IsValidStream s.streams
    pub faults : All IsValidFault s.faults
    pub assertions : All IsValidAssertion s.assertions

module _ {N D : Type 0} ⦃d : Double D⦄ (yaml : Yaml N D) where
  -- The values of a scenario are those of the document, entry by entry and in order.
  pub record Describes (root : N) (s : Scenario D) : Type 0 where
    pub named :
        (c : N) × (yaml.child root (codes "name") ≡ ok (some c)) × (yaml.as_string c ≡ ok s.name)
    pub lasts : double_at yaml root (codes "duration_seconds") ≡ ok s.duration_seconds
    pub positive : d.le s.duration_seconds (d.of_nat 0) ≡ false
    pub streams :
        (entries : List (N × N)) × (pairs_at yaml root (codes "streams") ≡ ok entries)
        × IsEach (parse_stream yaml) entries s.streams
    pub faults :
        (entries : List N) × (items_at yaml root (codes "faults") ≡ ok entries)
        × IsEach (parse_fault yaml) entries s.faults
    pub assertions :
        (entries : List N) × (items_at yaml root (codes "assertions") ≡ ok entries)
        × IsEach (parse_assertion yaml) entries s.assertions

  -- What the three sections come from.
  record Sections (name : Text) (duration : D) (root : N) (s : Scenario D) : Type 0 where
    named : s.name ≡ name
    lasts : s.duration_seconds ≡ duration
    streams :
        (entries : List (N × N)) × (pairs_at yaml root (codes "streams") ≡ ok entries)
        × (each (parse_stream yaml) entries ≡ ok s.streams)
    faults :
        (entries : List N) × (items_at yaml root (codes "faults") ≡ ok entries)
        × (each (parse_fault yaml) entries ≡ ok s.faults)
    assertions :
        (entries : List N) × (items_at yaml root (codes "assertions") ≡ ok entries)
        × (each (parse_assertion yaml) entries ≡ ok s.assertions)

  parse_sections-Sections :
      (name : Text) (duration : D) (root : N) (s : Scenario D)
      → parse_sections yaml name duration root ≡ ok s
      → Sections name duration root s
  unfolding parse_sections
  parse_sections-Sections name duration root s h = ground (arith, h)

  parse_node_opened :
      (root : N) (s : Scenario D)
      → parse_node yaml root ≡ ok s
      → (c : N) × (yaml.child root (codes "name") ≡ ok (some c))
        × (name : Text) × (yaml.as_string c ≡ ok name)
        × (duration : D) × (double_at yaml root (codes "duration_seconds") ≡ ok duration)
        × (d.le duration (d.of_nat 0) ≡ false)
        × (parse_sections yaml name duration root ≡ ok s)
  unfolding parse_node
  parse_node_opened root s h = ground (arith, h)

  to_Describes : (root : N) (s : Scenario D) → parse_node yaml root ≡ ok s → Describes root s
  to_Describes root s h =
      let (c, found, name, named, duration, lasts, positive, rest) = parse_node_opened root s h in
      let g = parse_sections-Sections name duration root s rest in
      let (streams, s1, s2) = g.streams in
      let (faults, f1, f2) = g.faults in
      let (assertions, a1, a2) = g.assertions in
      record {
        named = (c, found, rw g.named named);
        lasts = rw g.lasts lasts;
        positive = rw g.lasts positive;
        streams = (streams, s1, each-IsEach (parse_stream yaml) streams s2);
        faults = (faults, f1, each-IsEach (parse_fault yaml) faults f2);
        assertions = (assertions, a1, each-IsEach (parse_assertion yaml) assertions a2);
      }

  of_Describes : (root : N) (s : Scenario D) → Describes root s → parse_node yaml root ≡ ok s
  unfolding parse_node parse_sections
  of_Describes root s g =
      let (c, found, named) = g.named in
      let (streams, s1, s2) = g.streams in
      let (faults, f1, f2) = g.faults in
      let (assertions, a1, a2) = g.assertions in
      rw
        (
          found,
          named,
          g.lasts,
          g.positive,
          s1,
          each_of_IsEach (parse_stream yaml) streams s.streams s2,
          f1,
          each_of_IsEach (parse_fault yaml) faults s.faults f2,
          a1,
          each_of_IsEach (parse_assertion yaml) assertions s.assertions a2,
        )
        refl

  -- `parse_node` returns a scenario exactly when its values are those of the document, entry by entry
  -- and in order, and the duration is not at or below 0.
  pub parse_node-Describes :
      (root : N) (s : Scenario D) → (parse_node yaml root ≡ ok s) ↔ Describes root s
  parse_node-Describes root s = (to_Describes root s, of_Describes root s)

-- ===== src/Scenario/Parser.antt =====
-- src/scenario/scenario.cpp: `parse_node`, over a document that yaml-cpp has read.
pub mod Valid
pub mod Values
use av_hil_validation_platfo.Base.Double.{Double}
use av_hil_validation_platfo.Base.Map.{Map, assign}
use av_hil_validation_platfo.Base.Tests.{if◌then◌else◌}
use av_hil_validation_platfo.Base.Text.{Text, is_empty, codes}
use av_hil_validation_platfo.Scenario.Model.{
  StreamConfig, FaultSpec, Assertion, Scenario, fault_type_from_string, is_unknown_type,
  compare_op_from_string, is_unknown_op,
}
use av_hil_validation_platfo.Scenario.Result.{Parsed, ok, err, ◌>>=◌, each}
use av_hil_validation_platfo.Base.{◌||◌, Option, none, some, List, [], ◌∷◌, ◌++◌}

-- `YAML::Node` as the parser uses it: a child by its key, if it is there; the conversions, which
-- throw; and the items or the pairs that a loop over the node visits.
pub record Yaml (N D : Type 0) : Type 0 where
  pub child : N → Text → Parsed (Option N)
  pub as_string : N → Parsed Text
  pub as_double : N → Parsed D
  pub items : N → List N
  pub pairs : N → List (N × N)

abbrev pub missing_name : Text
missing_name = codes "scenario: missing required 'name'"

abbrev pub bad_duration : Text
bad_duration = codes "scenario: duration_seconds must be > 0"

abbrev pub bad_rate : Text → Text
bad_rate name = codes "scenario: stream '" ++ name ++ codes "' rate_hz must be > 0"

abbrev pub bad_type : Text → Text
bad_type word = codes "scenario: unknown fault type '" ++ word ++ codes "'"

abbrev pub bad_assertion : Text
bad_assertion = codes "scenario: assertion needs metric + valid operator"

abbrev pub inline_keys : List Text
inline_keys = codes "delay_ms" ∷ codes "drop_rate" ∷ codes "bandwidth_kbps" ∷ codes "burst_ms" ∷ []

module _ {N D : Type 0} (yaml : Yaml N D) where
  -- `n[key] ? n[key].as<std::string>() : ""`
  unfoldable pub string_at : N → Text → Parsed Text
  string_at n key =
      yaml.child n key >>= λ found. elim found [ none ↦ ok [] | some c ↦ yaml.as_string c ]

  unfoldable pub window_at : N → Text → Parsed (Option D)
  window_at n key = yaml.child n key >>= λ found. elim found [
    | none ↦ ok none
    | some c ↦ yaml.as_double c >>= λ w. ok (some w)
  ]

  -- What a loop over `n[key]` visits, nothing when it is missing.
  unfoldable pub items_at : N → Text → Parsed (List N)
  items_at n key =
      yaml.child n key >>= λ found. elim found [ none ↦ ok [] | some c ↦ ok (yaml.items c) ]

  unfoldable pub pairs_at : N → Text → Parsed (List (N × N))
  pairs_at n key =
      yaml.child n key >>= λ found. elim found [ none ↦ ok [] | some c ↦ ok (yaml.pairs c) ]

  -- The value is converted before its key.
  unfoldable pub nested_params : List (N × N) → Map D → Parsed (Map D)
  nested_params [] params = ok params
  nested_params ((k, v) ∷ rest) params = yaml.as_double v >>= λ value.
      yaml.as_string k >>= λ key. nested_params rest (assign key value params)

  unfoldable pub inline_params : N → List Text → Map D → Parsed (Map D)
  inline_params f [] params = ok params
  inline_params f (key ∷ rest) params = yaml.child f key >>= λ found. elim found [
    | none ↦ inline_params f rest params
    | some c ↦ yaml.as_double c >>= λ value. inline_params f rest (assign key value params)
  ]

module _ {N D : Type 0} ⦃d : Double D⦄ (yaml : Yaml N D) where
  -- `n[key] ? n[key].as<double>() : 0.0`
  unfoldable pub double_at : N → Text → Parsed D
  double_at n key = yaml.child n key >>= λ found. elim found [
    | none ↦ ok (d.of_nat 0)
    | some c ↦ yaml.as_double c
  ]

  unfoldable pub parse_stream : N × N → Parsed (StreamConfig D)
  parse_stream (key, body) = do
    name ← yaml.as_string key
    rate_hz ← double_at body (codes "rate_hz")
    if d.le rate_hz (d.of_nat 0)
        then err (bad_rate name)
        else ok (record { name = name; rate_hz = rate_hz })

  unfoldable pub parse_fault : N → Parsed (FaultSpec D)
  parse_fault f = do
    stream ← string_at yaml f (codes "stream")
    start ← double_at f (codes "start_seconds")
    duration ← double_at f (codes "duration_seconds")
    type_str ← string_at yaml f (codes "type")
    if is_unknown_type (fault_type_from_string type_str)
        then err (bad_type type_str)
        else (pairs_at yaml f (codes "params") >>= λ nested.
            nested_params yaml nested [] >>= λ params.
            inline_params yaml f inline_keys params >>= λ all_params. ok (record {
              stream = stream;
              start_seconds = start;
              duration_seconds = duration;
              type = fault_type_from_string type_str;
              params = all_params;
            }))

  unfoldable pub parse_assertion : N → Parsed (Assertion D)
  parse_assertion a = do
    metric ← string_at yaml a (codes "metric")
    op_str ← string_at yaml a (codes "operator")
    if is_empty metric || is_unknown_op (compare_op_from_string op_str)
        then err bad_assertion
        else (double_at a (codes "value") >>= λ value.
            window_at yaml a (codes "window_seconds") >>= λ window. ok (record {
              metric = metric;
              op = compare_op_from_string op_str;
              value = value;
              window_seconds = window;
            }))

  -- The three sections, after the name and the duration.
  unfoldable pub parse_sections : Text → D → N → Parsed (Scenario D)
  parse_sections name duration root = do
    stream_pairs ← pairs_at yaml root (codes "streams")
    streams ← each parse_stream stream_pairs
    fault_items ← items_at yaml root (codes "faults")
    faults ← each parse_fault fault_items
    assertion_items ← items_at yaml root (codes "assertions")
    assertions ← each parse_assertion assertion_items
    ok (record {
      name = name;
      duration_seconds = duration;
      streams = streams;
      faults = faults;
      assertions = assertions;
    })

  unfoldable pub parse_node : N → Parsed (Scenario D)
  parse_node root = yaml.child root (codes "name") >>= λ found. elim found [
    | none ↦ err missing_name
    | some c ↦ yaml.as_string c >>= λ name.
        double_at root (codes "duration_seconds") >>= λ duration.
        if d.le duration (d.of_nat 0) then err bad_duration else parse_sections name duration root
  ]

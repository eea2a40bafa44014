-- ===== src/Scenario/Runner/Rules.antt =====
-- src/scenario/scenario_runner.cpp: the rule that a fault of a scenario file becomes.
use av_hil_validation_platfo.Base.Double.{Double}
use av_hil_validation_platfo.Base.Text.{Text, codes}
use av_hil_validation_platfo.Faults.Rule.{is_kind, no_fault, fault_kind_from_string}
use av_hil_validation_platfo.Scenario.Model.{
  FaultType, FaultSpec, fault_type_from_string, fault_type_to_string, is_unknown_type,
}
use av_hil_validation_platfo.Scenario.Parser.{Yaml, string_at, parse_fault}
use av_hil_validation_platfo.Scenario.Result.{ok}
use av_hil_validation_platfo.Scenario.Runner.{to_fault_rule}
use av_hil_validation_platfo.Scenario.Words.{same_kind}
use av_hil_validation_platfo.Base.{◌≡◌, refl, ◌∙◌, ap, false, arith}

-- A known type of fault is a kind that the engine acts on.
known_kind :
    (t : FaultType)
    → is_unknown_type t ≡ false
    → is_kind (fault_kind_from_string (fault_type_to_string t)) no_fault ≡ false
unfolding fault_kind_from_string
known_kind FaultType.delay h = refl
known_kind FaultType.drop h = refl
known_kind FaultType.corrupt h = refl
known_kind FaultType.reorder h = refl
known_kind FaultType.duplicate h = refl
known_kind FaultType.burst_loss h = refl
known_kind FaultType.bandwidth_limit h = refl
known_kind FaultType.ecu_disconnect h = refl
known_kind FaultType.process_restart h = refl
known_kind FaultType.unknown h = absurd (ground (arith, h))

module _ {N D : Type 0} ⦃d : Double D⦄ (yaml : Yaml N D) where
  parse_fault-word :
      (n : N) (f : FaultSpec D)
      → parse_fault yaml n ≡ ok f
      → (word : Text) × (string_at yaml n (codes "type") ≡ ok word)
        × (f.type ≡ fault_type_from_string word)
        × (is_unknown_type f.type ≡ false)
  unfolding parse_fault
  parse_fault-word n f h = ground (arith, h)

  -- A fault that the parser accepts becomes a rule of the kind that the engine itself reads from the
  -- word in the file, and that kind is not the one of no fault.
  pub to_fault_rule-parse_fault :
      (n : N) (f : FaultSpec D)
      → parse_fault yaml n ≡ ok f
      → (word : Text) × (string_at yaml n (codes "type") ≡ ok word)
        × ((to_fault_rule f).kind ≡ fault_kind_from_string word)
        × (is_kind (to_fault_rule f).kind no_fault ≡ false)
  unfolding to_fault_rule
  to_fault_rule-parse_fault n f h =
      let (word, found, typed, known) = parse_fault-word n f h in
      (
        word,
        found,
        ap (λ (t : FaultType). fault_kind_from_string (fault_type_to_string t)) typed
            ∙ same_kind word,
        known_kind f.type known,
      )

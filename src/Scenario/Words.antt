-- ===== src/Scenario/Words.antt =====
-- src/scenario/scenario.cpp: the words for the types of fault and the comparisons, and what the
-- fault engine reads from them.
use av_hil_validation_platfo.Base.Text.{Text, codes, eq_of_same}
use av_hil_validation_platfo.Faults.Rule.{fault_kind_from_string}
use av_hil_validation_platfo.Scenario.Model.{
  FaultType, fault_type_from_string, fault_type_to_string,
}
use av_hil_validation_platfo.Base.{◌≡◌, refl, arith}

-- Every type of fault and every comparison is read back from its own word.
pub fault_type_from_string-to_string :
    (t : FaultType) → fault_type_from_string (fault_type_to_string t) ≡ t
unfolding fault_type_from_string
fault_type_from_string-to_string FaultType.delay = refl
fault_type_from_string-to_string FaultType.drop = refl
fault_type_from_string-to_string FaultType.corrupt = refl
fault_type_from_string-to_string FaultType.reorder = refl
fault_type_from_string-to_string FaultType.duplicate = refl
fault_type_from_string-to_string FaultType.burst_loss = refl
fault_type_from_string-to_string FaultType.bandwidth_limit = refl
fault_type_from_string-to_string FaultType.ecu_disconnect = refl
fault_type_from_string-to_string FaultType.process_restart = refl
fault_type_from_string-to_string FaultType.unknown = refl

pub same_kind :
    (word : Text)
    → fault_kind_from_string (fault_type_to_string (fault_type_from_string word))
      ≡ fault_kind_from_string word
unfolding fault_type_from_string fault_kind_from_string
same_kind word = ground (
  arith,
  eq_of_same word (codes "delay"),
  eq_of_same word (codes "drop"),
  eq_of_same word (codes "corrupt"),
  eq_of_same word (codes "reorder"),
)

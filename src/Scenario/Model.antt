-- ===== src/Scenario/Model.antt =====
-- src/scenario/scenario.hpp and scenario.cpp: the data of a scenario, and the words of a file for
-- the types of fault and the comparisons.
use av_hil_validation_platfo.Base.Map.{Map, find}
use av_hil_validation_platfo.Base.Tests.{if◌then◌else◌}
use av_hil_validation_platfo.Base.Text.{Text, same, codes}
use av_hil_validation_platfo.Base.{Bool, true, false, ◌||◌, Option, none, some, List}

pub record StreamConfig (D : Type 0) : Type 0 where
  pub name : Text
  pub rate_hz : D

pub data FaultType : Type 0 where
  delay drop corrupt reorder duplicate burst_loss bandwidth_limit : FaultType
  ecu_disconnect process_restart unknown : FaultType

unfoldable pub fault_type_from_string : Text → FaultType
fault_type_from_string s =
    if same s (codes "delay")
    then delay
    else if same s (codes "drop")
    then drop
    else if same s (codes "corrupt")
    then corrupt
    else if same s (codes "reorder")
    then reorder
    else if same s (codes "duplicate")
    then duplicate
    else if same s (codes "burst") || same s (codes "burst_loss")
    then burst_loss
    else if same s (codes "bandwidth_limit")
    then bandwidth_limit
    else if same s (codes "ecu_disconnect")
    then ecu_disconnect
    else if same s (codes "process_restart")
    then process_restart
    else unknown

abbrev pub fault_type_to_string : FaultType → Text
fault_type_to_string delay = codes "delay"
fault_type_to_string drop = codes "drop"
fault_type_to_string corrupt = codes "corrupt"
fault_type_to_string reorder = codes "reorder"
fault_type_to_string duplicate = codes "duplicate"
fault_type_to_string burst_loss = codes "burst_loss"
fault_type_to_string bandwidth_limit = codes "bandwidth_limit"
fault_type_to_string ecu_disconnect = codes "ecu_disconnect"
fault_type_to_string process_restart = codes "process_restart"
fault_type_to_string unknown = codes "unknown"

-- `type == FaultType::kUnknown`
abbrev pub is_unknown_type : FaultType → Bool
is_unknown_type unknown = true
is_unknown_type _ = false

pub record FaultSpec (D : Type 0) : Type 0 where
  pub stream : Text
  pub start_seconds : D
  pub duration_seconds : D
  pub type : FaultType
  pub params : Map D

-- `param`
abbrev pub param : {D : Type 0} → FaultSpec D → Text → D → D
param f key fallback = elim (find key f.params) [ none ↦ fallback | some v ↦ v ]

pub data CompareOp : Type 0 where
  less_than greater_than equals not_equals unknown_op : CompareOp

unfoldable pub compare_op_from_string : Text → CompareOp
compare_op_from_string s =
    if same s (codes "less_than")
    then less_than
    else if same s (codes "greater_than")
    then greater_than
    else if same s (codes "equals")
    then equals
    else if same s (codes "not_equals")
    then not_equals
    else unknown_op

abbrev pub compare_op_to_string : CompareOp → Text
compare_op_to_string less_than = codes "less_than"
compare_op_to_string greater_than = codes "greater_than"
compare_op_to_string equals = codes "equals"
compare_op_to_string not_equals = codes "not_equals"
compare_op_to_string unknown_op = codes "unknown"

-- `op == CompareOp::kUnknown`
abbrev pub is_unknown_op : CompareOp → Bool
is_unknown_op unknown_op = true
is_unknown_op _ = false

pub record Assertion (D : Type 0) : Type 0 where
  pub metric : Text
  pub op : CompareOp
  pub value : D
  pub window_seconds : Option D

pub record Scenario (D : Type 0) : Type 0 where
  pub name : Text
  pub duration_seconds : D
  pub streams : List (StreamConfig D)
  pub faults : List (FaultSpec D)
  pub assertions : List (Assertion D)

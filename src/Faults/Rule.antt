-- ===== src/Faults/Rule.antt =====
-- faults/fault_types.hpp: the kinds of fault, and one rule.
use av_hil_validation_platfo.Base.Double.{Double}
use av_hil_validation_platfo.Base.Tests.{◌==◌, if◌then◌else◌}
use av_hil_validation_platfo.Base.Text.{Text, same, is_empty, codes}
use av_hil_validation_platfo.Base.{ℕ, Bool, ◌&&◌, ◌||◌}

pub data FaultKind : Type 0 where
  no_fault delay drop duplicate corrupt reorder burst_loss bandwidth_limit : FaultKind
  ecu_disconnect process_restart : FaultKind

-- `k == wanted`
abbrev pub kind_code : FaultKind → ℕ
kind_code no_fault = 0
kind_code delay = 1
kind_code drop = 2
kind_code duplicate = 3
kind_code corrupt = 4
kind_code reorder = 5
kind_code burst_loss = 6
kind_code bandwidth_limit = 7
kind_code ecu_disconnect = 8
kind_code process_restart = 9

abbrev pub is_kind : FaultKind → FaultKind → Bool
is_kind k wanted = kind_code k == kind_code wanted

unfoldable pub fault_kind_from_string : Text → FaultKind
fault_kind_from_string s =
    if same s (codes "delay")
    then delay
    else if same s (codes "drop")
    then drop
    else if same s (codes "duplicate")
    then duplicate
    else if same s (codes "corrupt")
    then corrupt
    else if same s (codes "reorder")
    then reorder
    else if same s (codes "burst") || same s (codes "burst_loss")
    then burst_loss
    else if same s (codes "bandwidth_limit")
    then bandwidth_limit
    else if same s (codes "ecu_disconnect")
    then ecu_disconnect
    else if same s (codes "process_restart")
    then process_restart
    else no_fault

pub record FaultRule (D : Type 0) : Type 0 where
  pub kind : FaultKind
  pub stream : Text
  pub start_s : D
  pub duration_s : D
  pub delay_ms : D
  pub drop_rate : D
  pub bandwidth_kbps : D
  pub corrupt_bits : ℕ
  pub seed : ℕ

module _ {D : Type 0} ⦃d : Double D⦄ where
  unfoldable pub active_at : FaultRule D → D → Bool
  active_at r t_s = d.le r.start_s t_s && d.lt t_s (d.add r.start_s r.duration_s)

  unfoldable pub matches : FaultRule D → Text → Bool
  matches r s = is_empty r.stream || same r.stream s

-- ===== src/States/DcChargeLoop/Modes.antt =====
-- src/iso15118/d20/state/dc_charge_loop.cpp: the control mode of a response.
use libiso.Prelude.{ℕ, Bool, not, ◌||◌, Option, none, some, if◌then◌else◌, has_value}
use libiso.Message.{
  ServiceCategory, zero_rational, DynamicClResControlMode, ScheduledDcClResControlMode,
  BptScheduledDcClResControlMode, DynamicDcClResControlMode, BptDynamicDcClResControlMode,
  DcReqControlMode, DcResControlMode,
}
use libiso.Session.{SelectedServiceParameters}
use libiso.Session.Modes.{selects, is_scheduled, is_dynamic, is_provided_by_secc}
use libiso.Config.{DcTransferLimits, Limits, UpdateDynamicModeParameters}
use libiso.States.DynamicMode.{set_loop_parameters}

-- The four `convert`s, each of a new mode.
unfoldable pub convert_scheduled : DcTransferLimits → ScheduledDcClResControlMode
convert_scheduled l = record {
  max_charge_power = some l.charge_limits.power.max;
  min_charge_power = some l.charge_limits.power.min;
  max_charge_current = some l.charge_limits.current.max;
  max_voltage = some l.voltage.max;
}

abbrev with_scheduled_discharge :
    BptScheduledDcClResControlMode → Option Limits → BptScheduledDcClResControlMode
with_scheduled_discharge m none = m
with_scheduled_discharge m (some d) = record m {
  max_discharge_power = some d.power.max;
  min_discharge_power = some d.power.min;
  max_discharge_current = some d.current.max;
}

unfoldable pub convert_bpt_scheduled : DcTransferLimits → BptScheduledDcClResControlMode
unfolding convert_scheduled
convert_bpt_scheduled l =
    with_scheduled_discharge
      (record {
        base = convert_scheduled l;
        max_discharge_power = none;
        min_discharge_power = none;
        max_discharge_current = none;
        min_voltage = some l.voltage.min;
      })
      l.discharge_limits

abbrev no_dynamic : DynamicClResControlMode
no_dynamic = record {
  departure_time = none;
  minimum_soc = none;
  target_soc = none;
  ack_max_delay = none;
}

unfoldable pub convert_dynamic : DcTransferLimits → DynamicDcClResControlMode
convert_dynamic l = record {
  common = no_dynamic;
  max_charge_power = l.charge_limits.power.max;
  min_charge_power = l.charge_limits.power.min;
  max_charge_current = l.charge_limits.current.max;
  max_voltage = l.voltage.max;
}

abbrev with_dynamic_discharge :
    BptDynamicDcClResControlMode → Option Limits → BptDynamicDcClResControlMode
with_dynamic_discharge m none = m
with_dynamic_discharge m (some d) = record m {
  max_discharge_power = d.power.max;
  min_discharge_power = d.power.min;
  max_discharge_current = d.current.max;
}

unfoldable pub convert_bpt_dynamic : DcTransferLimits → BptDynamicDcClResControlMode
unfolding convert_dynamic
convert_bpt_dynamic l =
    with_dynamic_discharge
      (record {
        base = convert_dynamic l;
        max_discharge_power = zero_rational;
        min_discharge_power = zero_rational;
        max_discharge_current = zero_rational;
        min_voltage = l.voltage.min;
      })
      l.discharge_limits

abbrev with_parameters :
    SelectedServiceParameters
    → UpdateDynamicModeParameters
    → ℕ
    → DynamicDcClResControlMode
    → DynamicDcClResControlMode
unfolding set_loop_parameters
with_parameters s p timestamp m =
    if is_provided_by_secc s.selected_mobility_needs_mode
    then record m { common = set_loop_parameters p timestamp m.common }
    else m

abbrev with_bpt_parameters :
    SelectedServiceParameters
    → UpdateDynamicModeParameters
    → ℕ
    → BptDynamicDcClResControlMode
    → BptDynamicDcClResControlMode
unfolding set_loop_parameters
with_bpt_parameters s p timestamp m = record m { base = with_parameters s p timestamp m.base }

abbrev pub is_plain : SelectedServiceParameters → Bool
is_plain s =
    selects s.selected_energy_service ServiceCategory.dc
    || selects s.selected_energy_service ServiceCategory.mcs

abbrev pub is_bpt : SelectedServiceParameters → Bool
is_bpt s =
    selects s.selected_energy_service ServiceCategory.dc_bpt
    || selects s.selected_energy_service ServiceCategory.mcs_bpt

-- The branches over the control mode: the mode of the response, or `none` for the code FAILED.
unfoldable pub control_mode_for :
    SelectedServiceParameters
    → DcTransferLimits
    → UpdateDynamicModeParameters
    → ℕ
    → DcReqControlMode
    → Option DcResControlMode
unfolding convert_scheduled convert_bpt_scheduled convert_dynamic convert_bpt_dynamic
    set_loop_parameters
control_mode_for s l p timestamp (DcReqControlMode.scheduled _) =
    if not (is_scheduled s.selected_control_mode) || not (is_plain s)
    then none
    else some (DcResControlMode.scheduled (convert_scheduled l))
control_mode_for s l p timestamp (DcReqControlMode.bpt_scheduled _) =
    if not (is_scheduled s.selected_control_mode) || not (is_bpt s)
    then none
    else if not (has_value l.discharge_limits)
    then none
    else some (DcResControlMode.bpt_scheduled (convert_bpt_scheduled l))
control_mode_for s l p timestamp (DcReqControlMode.dynamic _) =
    if not (is_dynamic s.selected_control_mode) || not (is_plain s)
    then none
    else some (DcResControlMode.dynamic (with_parameters s p timestamp (convert_dynamic l)))
control_mode_for s l p timestamp (DcReqControlMode.bpt_dynamic _) =
    if not (is_dynamic s.selected_control_mode) || not (is_bpt s)
    then none
    else if not (has_value l.discharge_limits)
    then none
    else some
        (DcResControlMode.bpt_dynamic (with_bpt_parameters s p timestamp (convert_bpt_dynamic l)))

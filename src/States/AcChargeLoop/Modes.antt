-- ===== src/States/AcChargeLoop/Modes.antt =====
-- src/iso15118/d20/state/ac_charge_loop.cpp: the control mode of a response.
use libiso.Prelude.{ℕ, Bool, not, ◌&&◌, Option, none, some, if◌then◌else◌}
use mathlib.Core.Option.{get_or}
use libiso.Floats.{Float}
use libiso.Message.{
  ServiceCategory, RationalNumber, zero_rational, DerControlFunctions, DynamicClResControlMode,
  ScheduledAcClResControlMode, DerScheduledAcClResControlMode, DynamicAcClResControlMode,
  DerDynamicAcClResControlMode, AcReqControlMode, AcResControlMode,
}
use libiso.Session.{SelectedServiceParameters}
use libiso.Session.Modes.{selects, is_scheduled, is_dynamic, is_provided_by_secc}
use libiso.Config.{AcTransferLimits, AcTargetPower, AcPresentPower, UpdateDynamicModeParameters}
use libiso.AcDer.{AcDerControlConfig, AcDerControlFailureReason, AcDerControlProvider}
use libiso.States.DerControl.{DerOutcome, check_der}
use libiso.States.AcDiscovery.{max_of}
use libiso.States.DynamicMode.{set_loop_parameters}

-- The two `convert`s, each of a new mode; those of a bidirectional mode are the same.
unfoldable pub convert_scheduled : AcTargetPower → AcPresentPower → ScheduledAcClResControlMode
convert_scheduled t p = record {
  target_active_power = t.target_active_power;
  target_active_power_l2 = t.target_active_power_l2;
  target_active_power_l3 = t.target_active_power_l3;
  target_reactive_power = t.target_reactive_power;
  target_reactive_power_l2 = t.target_reactive_power_l2;
  target_reactive_power_l3 = t.target_reactive_power_l3;
  present_active_power = p.present_active_power;
  present_active_power_l2 = p.present_active_power_l2;
  present_active_power_l3 = p.present_active_power_l3;
}

abbrev no_dynamic : DynamicClResControlMode
no_dynamic = record {
  departure_time = none;
  minimum_soc = none;
  target_soc = none;
  ack_max_delay = none;
}

unfoldable pub convert_dynamic : AcTargetPower → AcPresentPower → DynamicAcClResControlMode
convert_dynamic t p = record {
  common = no_dynamic;
  target_active_power = get_or t.target_active_power zero_rational;
  target_active_power_l2 = t.target_active_power_l2;
  target_active_power_l3 = t.target_active_power_l3;
  target_reactive_power = t.target_reactive_power;
  target_reactive_power_l2 = t.target_reactive_power_l2;
  target_reactive_power_l3 = t.target_reactive_power_l3;
  present_active_power = p.present_active_power;
  present_active_power_l2 = p.present_active_power_l2;
  present_active_power_l3 = p.present_active_power_l3;
}

abbrev pub set_point {ℓ} : {A : Type ℓ} → Bool → A → Option A
set_point provided a = if provided then some a else none

-- `fill_der_power_limits` and `fill_der_control_setpoints`, for each of the two modes.
unfoldable pub fill_scheduled :
    AcTransferLimits
    → DerControlFunctions
    → AcDerControlConfig
    → ScheduledAcClResControlMode
    → DerScheduledAcClResControlMode
fill_scheduled l f config m = record {
  base = m;
  max_charge_power = l.charge_power.max;
  max_charge_power_l2 = max_of l.charge_power_l2;
  max_charge_power_l3 = max_of l.charge_power_l3;
  max_discharge_power = get_or (max_of l.discharge_power) zero_rational;
  max_discharge_power_l2 = max_of l.discharge_power_l2;
  max_discharge_power_l3 = max_of l.discharge_power_l3;
  dso_max_discharge_power = none;
  dso_max_discharge_power_l2 = none;
  dso_max_discharge_power_l3 = none;
  dso_q_setpoint = set_point f.dso_q_setpoint_provision config.dso_q_setpoint;
  dso_cos_phi_setpoint = set_point f.dso_cos_phi_setpoint_provision config.dso_cos_phi_setpoint;
}

unfoldable pub fill_dynamic :
    AcTransferLimits
    → DerControlFunctions
    → AcDerControlConfig
    → DynamicAcClResControlMode
    → DerDynamicAcClResControlMode
fill_dynamic l f config m = record {
  base = m;
  max_charge_power = l.charge_power.max;
  max_charge_power_l2 = max_of l.charge_power_l2;
  max_charge_power_l3 = max_of l.charge_power_l3;
  max_discharge_power = get_or (max_of l.discharge_power) zero_rational;
  max_discharge_power_l2 = max_of l.discharge_power_l2;
  max_discharge_power_l3 = max_of l.discharge_power_l3;
  dso_max_discharge_power = none;
  dso_max_discharge_power_l2 = none;
  dso_max_discharge_power_l3 = none;
  dso_q_setpoint = set_point f.dso_q_setpoint_provision config.dso_q_setpoint;
  dso_cos_phi_setpoint = set_point f.dso_cos_phi_setpoint_provision config.dso_cos_phi_setpoint;
}

-- The mode of the response, or the reason that goes with the code FAILED.
pub data ModeOutcome : Type 0 where
  failed : AcDerControlFailureReason → ModeOutcome
  mode : AcResControlMode → ModeOutcome

abbrev pub mode_if : Bool → AcResControlMode → ModeOutcome
mode_if allowed m =
    if not allowed
    then ModeOutcome.failed AcDerControlFailureReason.no_failure
    else ModeOutcome.mode m

abbrev with_parameters :
    SelectedServiceParameters
    → UpdateDynamicModeParameters
    → ℕ
    → DynamicAcClResControlMode
    → DynamicAcClResControlMode
unfolding set_loop_parameters
with_parameters s d timestamp m =
    if is_provided_by_secc s.selected_mobility_needs_mode
    then record m { common = set_loop_parameters d timestamp m.common }
    else m

abbrev pub scheduled_der : AcTransferLimits → ScheduledAcClResControlMode → DerOutcome → ModeOutcome
unfolding fill_scheduled
scheduled_der l m (DerOutcome.refused reason) = ModeOutcome.failed reason
scheduled_der l m (DerOutcome.granted f config) =
    ModeOutcome.mode (AcResControlMode.der_scheduled (fill_scheduled l f config m))

abbrev pub dynamic_der : AcTransferLimits → DynamicAcClResControlMode → DerOutcome → ModeOutcome
unfolding fill_dynamic
dynamic_der l m (DerOutcome.refused reason) = ModeOutcome.failed reason
dynamic_der l m (DerOutcome.granted f config) =
    ModeOutcome.mode (AcResControlMode.der_dynamic (fill_dynamic l f config m))

-- The branches over the control mode.
unfoldable pub control_mode_for :
    (RationalNumber → Float)
    → SelectedServiceParameters
    → AcTransferLimits
    → AcTargetPower
    → AcPresentPower
    → UpdateDynamicModeParameters
    → ℕ
    → AcDerControlProvider
    → AcReqControlMode
    → ModeOutcome
unfolding convert_scheduled convert_dynamic fill_scheduled fill_dynamic set_loop_parameters
control_mode_for value_of s l t p d timestamp provider (AcReqControlMode.scheduled _) =
    mode_if
      (is_scheduled s.selected_control_mode && selects s.selected_energy_service ServiceCategory.ac)
      (AcResControlMode.scheduled (convert_scheduled t p))
control_mode_for value_of s l t p d timestamp provider (AcReqControlMode.bpt_scheduled _) =
    mode_if
      (is_scheduled s.selected_control_mode
        && selects s.selected_energy_service ServiceCategory.ac_bpt)
      (AcResControlMode.bpt_scheduled (convert_scheduled t p))
control_mode_for value_of s l t p d timestamp provider (AcReqControlMode.der_scheduled _) =
    scheduled_der l (convert_scheduled t p) (
      check_der value_of provider s (
        is_scheduled s.selected_control_mode
        && selects s.selected_energy_service ServiceCategory.ac_der))
control_mode_for value_of s l t p d timestamp provider (AcReqControlMode.dynamic _) =
    mode_if
      (is_dynamic s.selected_control_mode && selects s.selected_energy_service ServiceCategory.ac)
      (AcResControlMode.dynamic (with_parameters s d timestamp (convert_dynamic t p)))
control_mode_for value_of s l t p d timestamp provider (AcReqControlMode.bpt_dynamic _) =
    mode_if
      (is_dynamic s.selected_control_mode
        && selects s.selected_energy_service ServiceCategory.ac_bpt)
      (AcResControlMode.bpt_dynamic (with_parameters s d timestamp (convert_dynamic t p)))
control_mode_for value_of s l t p d timestamp provider (AcReqControlMode.der_dynamic _) =
    dynamic_der l (with_parameters s d timestamp (convert_dynamic t p)) (
      check_der value_of provider s (
        is_dynamic s.selected_control_mode
        && selects s.selected_energy_service ServiceCategory.ac_der))

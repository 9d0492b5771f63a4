-- ===== src/Config.antt =====
-- include/iso15118/d20: limits.hpp, ac_powers.hpp, dynamic_mode_parameters.hpp, config.hpp and
-- control_event.hpp.
pub mod Setup
use Prim.Native.String.{String}
use libiso.Prelude.{ℕ, Bool, Option, List}
use libiso.Message.{RationalNumber, Authorization, ServiceCategory, ControlMode, MobilityNeedsMode}
use libiso.Session.{
  AcParameterList, AcBptParameterList, AcDerParameterList, DcParameterList, DcBptParameterList,
  McsParameterList, McsBptParameterList, InternetParameterList, ParkingParameterList,
}
pub use libiso.Floats.{Float}
use libiso.AcDer.{AcDerControlConfig, AcDerControlProvider}

pub record Limit : Type 0 where
  pub max : RationalNumber
  pub min : RationalNumber

pub record Limits : Type 0 where
  pub power : Limit
  pub current : Limit

pub record DcTransferLimits : Type 0 where
  pub charge_limits : Limits
  pub discharge_limits : Option Limits
  pub voltage : Limit
  pub power_ramp_limit : Option RationalNumber

pub record AcTransferLimits : Type 0 where
  pub charge_power : Limit
  pub charge_power_l2 : Option Limit
  pub charge_power_l3 : Option Limit
  pub nominal_frequency : RationalNumber
  pub max_power_asymmetry : Option RationalNumber
  pub power_ramp_limitation : Option RationalNumber
  pub discharge_power : Option Limit
  pub discharge_power_l2 : Option Limit
  pub discharge_power_l3 : Option Limit

pub record AcTargetPower : Type 0 where
  pub target_active_power : Option RationalNumber
  pub target_active_power_l2 : Option RationalNumber
  pub target_active_power_l3 : Option RationalNumber
  pub target_reactive_power : Option RationalNumber
  pub target_reactive_power_l2 : Option RationalNumber
  pub target_reactive_power_l3 : Option RationalNumber
  pub target_frequency : Option RationalNumber

pub record AcPresentPower : Type 0 where
  pub present_active_power : Option RationalNumber
  pub present_active_power_l2 : Option RationalNumber
  pub present_active_power_l3 : Option RationalNumber

pub record UpdateDynamicModeParameters : Type 0 where
  pub departure_time : Option ℕ  -- std::time_t
  pub target_soc : Option ℕ  -- uint8_t
  pub min_soc : Option ℕ  -- uint8_t

pub record ControlMobilityNeedsModes : Type 0 where
  pub control_mode : ControlMode
  pub mobility_mode : MobilityNeedsMode

pub record SessionConfig : Type 0 where
  pub evse_id : String
  pub cert_install_service : Bool
  pub authorization_services : List Authorization
  pub supported_energy_transfer_services : List ServiceCategory
  pub supported_vas_services : List ℕ  -- uint16_t
  pub ac_parameter_list : List AcParameterList
  pub ac_bpt_parameter_list : List AcBptParameterList
  pub ac_der_parameter_list : List AcDerParameterList
  pub dc_parameter_list : List DcParameterList
  pub dc_bpt_parameter_list : List DcBptParameterList
  pub mcs_parameter_list : List McsParameterList
  pub mcs_bpt_parameter_list : List McsBptParameterList
  pub internet_parameter_list : List InternetParameterList
  pub parking_parameter_list : List ParkingParameterList
  pub dc_limits : DcTransferLimits
  pub ac_limits : AcTransferLimits
  pub ac_der_control_config : AcDerControlConfig
  pub ac_der_control_provider : AcDerControlProvider
  pub powersupply_limits : DcTransferLimits
  pub supported_control_mobility_modes : List ControlMobilityNeedsModes
  pub custom_protocol : Option String

-- The alternatives of the variant `ControlEvent`.
pub data ControlEvent : Type 0 where
  cable_check_finished : Bool → ControlEvent
  present_voltage_current : Float → Float → ControlEvent
  authorization_response : Bool → ControlEvent
  stop_charging : Bool → ControlEvent
  pause_charging : Bool → ControlEvent
  dc_transfer_limits : DcTransferLimits → ControlEvent
  ac_transfer_limits : AcTransferLimits → ControlEvent
  update_dynamic_mode_parameters : UpdateDynamicModeParameters → ControlEvent
  closed_contactor : Bool → ControlEvent
  ac_target_power : AcTargetPower → ControlEvent
  ac_present_power : AcPresentPower → ControlEvent
  energy_services : List ServiceCategory → ControlEvent
  supported_vass : List ℕ → ControlEvent

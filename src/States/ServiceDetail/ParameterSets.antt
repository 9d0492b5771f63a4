-- ===== src/States/ServiceDetail/ParameterSets.antt =====
-- src/iso15118/message/service_detail.cpp: the constructors of ParameterSet, each from the parameters
-- of one service, with `from_Protocol` of message/common_types.cpp.
use Prim.Native.String.{String}
use libiso.Prelude.{ℕ, Option, none, some, List, [], ◌∷◌, ◌++◌, Bool}
use libiso.Message.{
  AcConnector, DcConnector, McsConnector, ControlMode, MobilityNeedsMode, Pricing, BptChannel,
  GeneratorMode, GridCodeIslandingDetectionMethod, Protocol, Port, Parameter, ParameterValue,
  ParameterSet,
}
use libiso.Session.{
  AcParameterList, AcBptParameterList, AcDerParameterList, DcParameterList, DcBptParameterList,
  McsParameterList, McsBptParameterList, InternetParameterList, ParkingParameterList,
}

abbrev pub int_parameter : String → ℕ → Parameter
int_parameter name v = record { name = name; value = ParameterValue.int_value v }

abbrev bool_parameter : String → Bool → Parameter
bool_parameter name v = record { name = name; value = ParameterValue.bool_value v }

abbrev ac_connector : AcConnector → ℕ
ac_connector AcConnector.single_phase = 1
ac_connector AcConnector.three_phase = 3

abbrev dc_connector : DcConnector → ℕ
dc_connector DcConnector.core = 1
dc_connector DcConnector.extended = 2
dc_connector DcConnector.dual2 = 3
dc_connector DcConnector.dual4 = 4

abbrev mcs_connector : McsConnector → ℕ
mcs_connector McsConnector.mcs = 1
mcs_connector McsConnector.chaoji = 2
mcs_connector McsConnector.ultra_chaoji = 3
mcs_connector McsConnector.r_mcs = 4
mcs_connector McsConnector.x_mcs = 5
mcs_connector McsConnector.aviation = 6
mcs_connector McsConnector.marine = 7

abbrev control_mode : ControlMode → ℕ
control_mode ControlMode.scheduled = 1
control_mode ControlMode.dynamic = 2

-- In scheduled mode the EV provides the mobility needs, whatever is configured.
abbrev mobility_needs : ControlMode → MobilityNeedsMode → ℕ
mobility_needs ControlMode.scheduled m = 1
mobility_needs ControlMode.dynamic MobilityNeedsMode.provided_by_evcc = 1
mobility_needs ControlMode.dynamic MobilityNeedsMode.provided_by_secc = 2

abbrev pricing : Pricing → ℕ
pricing Pricing.no_pricing = 0
pricing Pricing.absolute_pricing = 1
pricing Pricing.price_levels = 2

abbrev bpt_channel : BptChannel → ℕ
bpt_channel BptChannel.unified = 1
bpt_channel BptChannel.separated = 2

abbrev generator_mode : GeneratorMode → ℕ
generator_mode GeneratorMode.grid_following = 1
generator_mode GeneratorMode.grid_forming = 2

abbrev detection_method : GridCodeIslandingDetectionMethod → ℕ
detection_method GridCodeIslandingDetectionMethod.active = 1
detection_method GridCodeIslandingDetectionMethod.passive = 2

abbrev pub port_number : Option Port → ℕ
port_number none = 0
port_number (some Port.port20) = 20
port_number (some Port.port21) = 21
port_number (some Port.port80) = 80
port_number (some Port.port443) = 443

abbrev from_protocol : Protocol → String
from_protocol Protocol.ftp = "ftp"
from_protocol Protocol.http = "http"
from_protocol Protocol.https = "https"

abbrev parameter_set : ℕ → List Parameter → ParameterSet
parameter_set id ps = record { id = id; parameter = ps }

abbrev ac_list : AcParameterList → List Parameter
ac_list l =
    int_parameter "Connector" (ac_connector l.connector)
    ∷ int_parameter "ControlMode" (control_mode l.control_mode)
    ∷ int_parameter "EVSENominalVoltage" l.evse_nominal_voltage
    ∷ int_parameter "MobilityNeedsMode" (mobility_needs l.control_mode l.mobility_needs_mode)
    ∷ int_parameter "Pricing" (pricing l.pricing)
    ∷ []

unfoldable pub ac_set : ℕ → AcParameterList → ParameterSet
ac_set id l = parameter_set id (ac_list l)

abbrev ac_bpt_list : AcBptParameterList → List Parameter
ac_bpt_list l =
    ac_list l.base
    ++ int_parameter "BPTChannel" (bpt_channel l.bpt_channel)
      ∷ int_parameter "GeneratorMode" (generator_mode l.generator_mode)
      ∷ int_parameter "DetectionMethodGridCodeIslanding"
          (detection_method l.grid_code_detection_method)
      ∷ []

unfoldable pub ac_bpt_set : ℕ → AcBptParameterList → ParameterSet
ac_bpt_set id l = parameter_set id (ac_bpt_list l)

unfoldable pub ac_der_set : ℕ → AcDerParameterList → ParameterSet
ac_der_set id l =
    let f = l.control_functions in
    parameter_set id (
      ac_bpt_list l.bpt
      ++ int_parameter "DERStandardControlFunctionsBitmap" f.standard_bitmap
        ∷ int_parameter "DERExtendedControlFunctionsBitmap" f.extended_bitmap
        ∷ bool_parameter "VoltWatt" f.volt_watt
        ∷ bool_parameter "DSOQSetPointProvision" f.dso_q_setpoint_provision
        ∷ bool_parameter "DSOQCosphiSetPointProvision" f.dso_cos_phi_setpoint_provision
        ∷ bool_parameter "DCInjectionRestriction" f.dc_injection_restriction
        ∷ bool_parameter "UnderFrequencyWatt" f.under_frequency_watt
        ∷ bool_parameter "OverFrequencyWatt" f.over_frequency_watt
        ∷ bool_parameter "VoltVar" f.volt_var
        ∷ bool_parameter "WattVar" f.watt_var
        ∷ bool_parameter "WattCosphi" f.watt_cos_phi
        ∷ bool_parameter "OverVoltageFaultRideThroughMode" f.over_voltage_fault_ride_through
        ∷ bool_parameter "UnderVoltageFaultRideThroughMode" f.under_voltage_fault_ride_through
        ∷ bool_parameter "ZeroCurrentMode" f.zero_current
        ∷ [])

abbrev dc_list : ℕ → ControlMode → MobilityNeedsMode → Pricing → List Parameter
dc_list connector m n p =
    int_parameter "Connector" connector
    ∷ int_parameter "ControlMode" (control_mode m)
    ∷ int_parameter "MobilityNeedsMode" (mobility_needs m n)
    ∷ int_parameter "Pricing" (pricing p)
    ∷ []

abbrev bpt_list : BptChannel → GeneratorMode → List Parameter
bpt_list c g =
    int_parameter "BPTChannel" (bpt_channel c)
    ∷ int_parameter "GeneratorMode" (generator_mode g)
    ∷ []

unfoldable pub dc_set : ℕ → DcParameterList → ParameterSet
dc_set id l =
    parameter_set id
      (dc_list (dc_connector l.connector) l.control_mode l.mobility_needs_mode l.pricing)

unfoldable pub dc_bpt_set : ℕ → DcBptParameterList → ParameterSet
dc_bpt_set id l = parameter_set id (
    dc_list (dc_connector l.connector) l.control_mode l.mobility_needs_mode l.pricing
    ++ bpt_list l.bpt_channel l.generator_mode)

unfoldable pub mcs_set : ℕ → McsParameterList → ParameterSet
mcs_set id l =
    parameter_set id
      (dc_list (mcs_connector l.connector) l.control_mode l.mobility_needs_mode l.pricing)

unfoldable pub mcs_bpt_set : ℕ → McsBptParameterList → ParameterSet
mcs_bpt_set id l = parameter_set id (
    dc_list (mcs_connector l.connector) l.control_mode l.mobility_needs_mode l.pricing
    ++ bpt_list l.bpt_channel l.generator_mode)

unfoldable pub internet_set : ℕ → InternetParameterList → ParameterSet
internet_set id l = parameter_set id (
    (record { name = "Protocol"; value = ParameterValue.finite_string (from_protocol l.protocol) })
    ∷ int_parameter "Port" (port_number l.port)
    ∷ [])

unfoldable pub parking_set : ℕ → ParkingParameterList → ParameterSet
parking_set id l = parameter_set id (
    int_parameter "IntendedService" l.intended_service
    ∷ int_parameter "ParkingStatusType" l.parking_status
    ∷ [])

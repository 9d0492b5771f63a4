-- ===== src/Message/Services.antt =====
-- service_detail.hpp and service_selection.hpp of include/iso15118/message.
use Prim.Native.String.{String}
use libiso.Prelude.{ℕ, Bool, Option, List, []}
use libiso.Message.Datatypes.{Header, RationalNumber, ResponseCode, ServiceCategory}

-- The alternatives of `Parameter::value`; an integer is its pattern.
pub data ParameterValue : Type 0 where
  bool_value : Bool → ParameterValue
  byte_value : ℕ → ParameterValue
  short_value : ℕ → ParameterValue
  int_value : ℕ → ParameterValue
  finite_string : String → ParameterValue
  rational_number : RationalNumber → ParameterValue

pub record Parameter : Type 0 where
  pub name : String
  pub value : ParameterValue

pub record ParameterSet : Type 0 where
  pub id : ℕ  -- uint16_t
  pub parameter : List Parameter

pub record ServiceDetailRequest : Type 0 where
  pub header : Header
  pub service : ℕ  -- uint16_t

pub record ServiceDetailResponse : Type 0 where
  pub header : Header
  pub response_code : ResponseCode
  pub service : ℕ  -- uint16_t
  pub service_parameter_list : List ParameterSet

pub record SelectedService : Type 0 where
  pub service_id : ServiceCategory
  pub parameter_set_id : ℕ  -- uint16_t

pub record VasSelectedService : Type 0 where
  pub service_id : ℕ  -- uint16_t
  pub parameter_set_id : ℕ  -- uint16_t

pub record ServiceSelectionRequest : Type 0 where
  pub header : Header
  pub selected_energy_transfer_service : SelectedService
  pub selected_vas_list : Option (List VasSelectedService)

pub record ServiceSelectionResponse : Type 0 where
  pub header : Header
  pub response_code : ResponseCode

-- `ServiceDetailResponse` as constructed: the service is DC.
abbrev pub default_service_detail : Header → ResponseCode → ServiceDetailResponse
default_service_detail h code = record {
  header = h;
  response_code = code;
  service = 2;
  service_parameter_list = [];
}

-- ===== src/Context/Recovery.antt =====
-- src/iso15118/d20/context_helper.cpp: the answer to a request that the state does not expect.
pub mod Laws
use libiso.Prelude.{false, Option, none, some, [], ◌∷◌}
use libiso.Message.{
  Header, ResponseCode, Processing, Authorization, AuthorizationResponseMode, ServiceCategory,
  MessageType, Response, zero_rational, default_service_detail, default_ac_discovery,
  default_dc_discovery, default_schedule_exchange, default_dc_charge_loop, default_ac_charge_loop,
}
use libiso.Context.Types.{Env, Context}
use libiso.Context.Access.{respond}
use libiso.Context.Header.{setup_header}

-- `handle_sequence_error<Response>`: a default response with the code FAILED_SequenceError. `none`
-- is a type without a branch.
unfoldable pub sequence_error_response : MessageType → Header → Option Response
sequence_error_response MessageType.session_setup_req h = some (
    Response.session_setup
      (record { header = h; response_code = ResponseCode.failed_sequence_error; evseid = "" }))
sequence_error_response MessageType.authorization_setup_req h = some (
    Response.authorization_setup (record {
      header = h;
      response_code = ResponseCode.failed_sequence_error;
      authorization_services = Authorization.eim ∷ [];
      certificate_installation_service = false;
      authorization_mode = AuthorizationResponseMode.eim;
    }))
sequence_error_response MessageType.authorization_req h = some (
    Response.authorization (record {
      header = h;
      response_code = ResponseCode.failed_sequence_error;
      evse_processing = Processing.finished;
    }))
sequence_error_response MessageType.service_discovery_req h = some (
    Response.service_discovery (record {
      header = h;
      response_code = ResponseCode.failed_sequence_error;
      service_renegotiation_supported = false;
      energy_transfer_service_list =
          (record { service_id = ServiceCategory.ac; free_service = false }) ∷ [];
      vas_list = none;
    }))
sequence_error_response MessageType.service_detail_req h =
    some (Response.service_detail (default_service_detail h ResponseCode.failed_sequence_error))
sequence_error_response MessageType.service_selection_req h = some (
    Response.service_selection
      (record { header = h; response_code = ResponseCode.failed_sequence_error }))
sequence_error_response MessageType.ac_charge_parameter_discovery_req h = some (
    Response.ac_charge_parameter_discovery
      (default_ac_discovery h ResponseCode.failed_sequence_error))
sequence_error_response MessageType.dc_charge_parameter_discovery_req h = some (
    Response.dc_charge_parameter_discovery
      (default_dc_discovery h ResponseCode.failed_sequence_error))
sequence_error_response MessageType.schedule_exchange_req h =
    some
      (Response.schedule_exchange (default_schedule_exchange h ResponseCode.failed_sequence_error))
sequence_error_response MessageType.dc_charge_loop_req h =
    some (Response.dc_charge_loop (default_dc_charge_loop h ResponseCode.failed_sequence_error))
sequence_error_response MessageType.ac_charge_loop_req h =
    some (Response.ac_charge_loop (default_ac_charge_loop h ResponseCode.failed_sequence_error))
sequence_error_response MessageType.dc_cable_check_req h = some (
    Response.dc_cable_check (record {
      header = h;
      response_code = ResponseCode.failed_sequence_error;
      processing = Processing.ongoing;
    }))
sequence_error_response MessageType.power_delivery_req h = some (
    Response.power_delivery
      (record { header = h; response_code = ResponseCode.failed_sequence_error; status = none }))
sequence_error_response MessageType.dc_pre_charge_req h = some (
    Response.dc_pre_charge (record {
      header = h;
      response_code = ResponseCode.failed_sequence_error;
      present_voltage = zero_rational;
    }))
sequence_error_response MessageType.dc_welding_detection_req h = some (
    Response.dc_welding_detection (record {
      header = h;
      response_code = ResponseCode.failed_sequence_error;
      present_voltage = zero_rational;
    }))
sequence_error_response MessageType.session_stop_req h = some (
    Response.session_stop
      (record { header = h; response_code = ResponseCode.failed_sequence_error }))
sequence_error_response _ h = none

abbrev respond_if : Env → Option Response → Context → Context
unfolding respond
respond_if env none c = c
respond_if env (some r) c = respond env r c

unfoldable pub send_sequence_error : Env → MessageType → Context → Context
unfolding respond setup_header sequence_error_response
send_sequence_error env req_type c =
    respond_if env (sequence_error_response req_type (setup_header env c.session)) c

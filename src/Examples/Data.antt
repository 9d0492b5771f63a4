-- ===== src/Examples/Data.antt =====
-- A session, its context and the requests of an EV.
use libiso.Prelude.{ℕ, false, none, some, List, [], ◌∷◌}
use libiso.Message.{
  SessionId, Header, RationalNumber, Message, Response, ServiceCategory, SupportedAppProtocol,
  SupportedAppProtocolRequest, SessionSetupRequest, AuthorizationRequest, AuthorizationRequestMode,
  ServiceDiscoveryRequest, DcCableCheckRequest, PowerDeliveryRequest, SessionStopRequest,
  ChargingSession, Progress, Processing, DcReqTransferMode,
}
use libiso.Message as Messages
use libiso.Session.{Session, PauseContext, no_offers, nothing_selected, no_vas_selected}
use libiso.Config.{Limit, DcTransferLimits, AcTransferLimits, SessionConfig}
use libiso.Exchange.{MessageExchange}
use libiso.Timeouts.{no_timeouts}
use libiso.AcDer.Defaults.{make_default_ac_der_control_config}
use libiso.AcDer.Provider.{make_static_ac_der_control_provider}
use libiso.Context.{Env, EvInformation, EvTransferLimits, Context}

abbrev pub own_id : SessionId
own_id = 1 ∷ 2 ∷ 3 ∷ 4 ∷ 5 ∷ 6 ∷ 7 ∷ 8 ∷ []

abbrev pub other_id : SessionId
other_id = 9 ∷ 2 ∷ 3 ∷ 4 ∷ 5 ∷ 6 ∷ 7 ∷ 8 ∷ []

abbrev pub zero_volt : RationalNumber
zero_volt = record { value = 0; exponent = 0 }

-- The encoder needs twelve bytes for each response, and the digest is the text itself.
abbrev pub here : Env
here = record {
  time_s = 1700000000;
  now = 9000;
  fresh_session_id = own_id;
  fresh_challenge = 7 ∷ [];
  serialize = λ _. 12;
  sha512 = λ text. some text;
  from_float = λ _. zero_volt;
  from_rational = λ _. 0;
  to_float = λ _. 0;
  get_vas_parameters = λ _. none;
}

abbrev pub own_session : Session
own_session = record {
  id = own_id;
  offered_services = record no_offers {
    auth_services = Messages.Authorization.eim ∷ [];
    custom_vas_list = (100, 3 ∷ 5 ∷ []) ∷ [];
  };
  service_renegotiation_supported = false;
  selected_services = nothing_selected;
  selected_vas_services = no_vas_selected;
}

abbrev pub ac_session : Session
ac_session = record own_session {
  selected_services = record nothing_selected { selected_energy_service = some ServiceCategory.ac };
}

abbrev pub no_limit : Limit
no_limit = record { max = zero_volt; min = zero_volt }

abbrev pub dc_limits : DcTransferLimits
dc_limits = record {
  charge_limits = record { power = no_limit; current = no_limit };
  discharge_limits = none;
  voltage = no_limit;
  power_ramp_limit = none;
}

abbrev pub ac_limits : AcTransferLimits
ac_limits = record {
  charge_power = no_limit;
  charge_power_l2 = none;
  charge_power_l3 = none;
  nominal_frequency = zero_volt;
  max_power_asymmetry = none;
  power_ramp_limitation = none;
  discharge_power = none;
  discharge_power_l2 = none;
  discharge_power_l3 = none;
}

abbrev pub config : SessionConfig
config = record {
  evse_id = "DE*PNX*E1";
  cert_install_service = false;
  authorization_services = Messages.Authorization.eim ∷ [];
  supported_energy_transfer_services = ServiceCategory.dc ∷ ServiceCategory.ac ∷ [];
  supported_vas_services = 65 ∷ [];
  ac_parameter_list = [];
  ac_bpt_parameter_list = [];
  ac_der_parameter_list = [];
  dc_parameter_list = [];
  dc_bpt_parameter_list = [];
  mcs_parameter_list = [];
  mcs_bpt_parameter_list = [];
  internet_parameter_list = [];
  parking_parameter_list = [];
  dc_limits = dc_limits;
  ac_limits = ac_limits;
  ac_der_control_config = make_default_ac_der_control_config (λ _. zero_volt);
  ac_der_control_provider =
      make_static_ac_der_control_provider (make_default_ac_der_control_config (λ _. zero_volt));
  powersupply_limits = dc_limits;
  supported_control_mobility_modes = [];
  custom_protocol = none;
}

abbrev pub idle_exchange : MessageExchange
idle_exchange = record {
  request = none;
  response_size = 0;
  response_available = false;
  payload_type = none;
  response_type = none;
  response_message = none;
}

abbrev pub no_information : EvInformation
no_information = record {
  ev_supported_app_protocols = [];
  selected_app_protocol = none;
  evcc_id = "";
  ev_tls_leaf_cert = none;
  ev_tls_sub_ca_1_cert = none;
  ev_tls_sub_ca_2_cert = none;
  ev_tls_root_cert = none;
}

abbrev pub no_transfer : DcReqTransferMode
no_transfer = DcReqTransferMode.dc (record {
  max_charge_power = zero_volt;
  min_charge_power = zero_volt;
  max_charge_current = zero_volt;
  min_charge_current = zero_volt;
  max_voltage = zero_volt;
  min_voltage = zero_volt;
  target_soc = none;
})

abbrev pub own_context : Context
own_context = record {
  calls = [];
  session = own_session;
  session_config = config;
  ev_transfer_limits = EvTransferLimits.dc no_transfer;
  ev_energy_services = [];
  ev_info = no_information;
  pause_ctx = none;
  session_stopped = false;
  session_paused = false;
  cache_dynamic_mode_parameters = none;
  cache_ac_target_power = none;
  cache_ac_present_power = none;
  current_control_event = none;
  message_exchange = idle_exchange;
  vehicle_cert_hash = none;
  timeouts = no_timeouts;
  current_timeout = none;
}

abbrev pub ac_context : Context
ac_context = record own_context { session = ac_session }

abbrev pub pause_context : PauseContext
pause_context = record {
  vehicle_cert_session_id_hash = 1 ∷ 2 ∷ 3 ∷ 4 ∷ 5 ∷ 6 ∷ 7 ∷ 8 ∷ 70 ∷ 71 ∷ [];
  old_session_id = own_id;
  selected_service_parameters = record nothing_selected {
    selected_energy_service = some ServiceCategory.dc;
  };
}

-- The certificate of a connection, by its hash.
abbrev pub certificate : List ℕ
certificate = 70 ∷ 71 ∷ []

abbrev pub paused_context : Context
paused_context = record own_context {
  pause_ctx = some pause_context;
  vehicle_cert_hash = some certificate;
}

abbrev pub own_header : Header
own_header = record { session_id = own_id; timestamp = 1 }

abbrev pub other_header : Header
other_header = record { session_id = other_id; timestamp = 1 }

abbrev pub cable_check : DcCableCheckRequest
cable_check = record { header = own_header }

abbrev pub other_cable_check : DcCableCheckRequest
other_cable_check = record { header = other_header }

abbrev pub authorization : AuthorizationRequest
authorization = record {
  header = own_header;
  selected_authorization_service = Messages.Authorization.eim;
  authorization_mode = AuthorizationRequestMode.eim;
}

abbrev pub power_delivery : PowerDeliveryRequest
power_delivery = record {
  header = own_header;
  processing = Processing.finished;
  charge_progress = Progress.start;
  power_profile = none;
  channel_selection = none;
}

abbrev pub stop_power : PowerDeliveryRequest
stop_power = record power_delivery { charge_progress = Progress.stop }

abbrev pub session_setup : SessionSetupRequest
session_setup = record { header = own_header; evccid = "WMIV1234567890ABCDEX" }

abbrev pub stop_other : SessionStopRequest
stop_other = record {
  header = other_header;
  charging_session = ChargingSession.pause;
  ev_termination_code = none;
  ev_termination_explanation = none;
}

abbrev pub services : ServiceDiscoveryRequest
services = record { header = own_header; supported_service_ids = some (2 ∷ 6 ∷ 65 ∷ []) }

abbrev pub protocol : ℕ → ℕ → SupportedAppProtocol
protocol schema_id priority = record {
  protocol_namespace = "urn:iso:std:iso:15118:-20:DC";
  version_number_major = 1;
  version_number_minor = 0;
  schema_id = schema_id;
  priority = priority;
}

abbrev pub protocols : SupportedAppProtocolRequest
protocols = record { app_protocol = protocol 10 2 ∷ protocol 11 1 ∷ [] }

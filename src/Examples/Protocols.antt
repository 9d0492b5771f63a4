-- ===== src/Examples/Protocols.antt =====
-- The negotiation of two protocols.
use libiso.Prelude.{◌≡◌, none, some, ◌⊎◌}
use libiso.Message.{SupportedAppProtocol, NegotiationCode}
use libiso.States.SupportedAppProtocol.{handle_request}
use libiso.States.SupportedAppProtocol.Laws.{IsLeast, NoneSupported, handle_request-IsLeast}
use libiso.Examples.Data.{protocols}

handle_request-IsLeast_example :
    let r = handle_request protocols none in
    ((p : SupportedAppProtocol) × (r.response_code ≡ NegotiationCode.ok_successful_negotiation)
      × (r.schema_id ≡ some p.schema_id)
      × IsLeast none protocols.app_protocol p)
    ⊎ ((r.response_code ≡ NegotiationCode.failed_no_negotiation)
        × (r.schema_id ≡ none)
        × NoneSupported none protocols.app_protocol)
handle_request-IsLeast_example = handle_request-IsLeast protocols none

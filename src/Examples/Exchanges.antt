-- ===== src/Examples/Exchanges.antt =====
-- A request and a response that pass through an exchange.
use libiso.Prelude.{none, some, ◌≡◌, ◌⊎◌}
use libiso.Message.{Message, get_type, Response, ResponseCode, Processing}
use libiso.Exchange.{MessageExchange, set_request, pull_request, peek_request_type}
use libiso.Exchange.Laws.{pull_request-set_request}
use libiso.Examples.Data.{idle_exchange, own_header, cable_check}

abbrev request : Message
request = Message.dc_cable_check cable_check

abbrev response : Response
response = Response.dc_cable_check (record {
  header = own_header;
  response_code = ResponseCode.ok;
  processing = Processing.ongoing;
})

pull_request-set_request_example :
    ((idle_exchange.request ≡ none)
      × (pull_request idle_exchange ≡ none)
      × (e' : MessageExchange) × (set_request request idle_exchange ≡ some e')
      × (peek_request_type e' ≡ get_type request)
      × (pull_request e' ≡ some (request, idle_exchange))
      × ((other : Message) → set_request other e' ≡ none))
    ⊎ ((waiting : Message) × (idle_exchange.request ≡ some waiting)
        × (set_request request idle_exchange ≡ none)
        × (peek_request_type idle_exchange ≡ get_type waiting)
        × (pull_request idle_exchange ≡ some (waiting, record idle_exchange { request = none })))
pull_request-set_request_example = pull_request-set_request request idle_exchange

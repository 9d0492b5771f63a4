-- ===== src/Exchange.antt =====
-- `MessageExchange` of include/iso15118/d20/context.hpp and src/iso15118/d20/context.cpp: the one
-- request that waits for a state, and the one response that waits to be sent. `serialize` stands
-- for the EXI encoder: the size of the encoded response, or 0 if it fails.
pub mod Laws
use libiso.Prelude.{ℕ, Bool, true, false, Option, none, some, ◌≡◌, ◌==◌, if◌then◌else◌}
use mathlib.Core.Logic.{ite}
use libiso.Message.{
  payload_type as payload_type_of, response_type as response_type_of, Message, get_type,
  MessageType, PayloadType, Response,
}

-- What no constructor sets is `none`: payload_type and response_type before the first response.
pub record MessageExchange : Type 0 where
  pub request : Option Message
  pub response_size : ℕ
  pub response_available : Bool
  pub payload_type : Option PayloadType
  pub response_type : Option MessageType
  pub response_message : Option Response

unfoldable pub new_exchange : MessageExchange
new_exchange = record {
  request = none;
  response_size = 0;
  response_available = false;
  payload_type = none;
  response_type = none;
  response_message = none;
}

-- `none` is the exception "Previous V2G message has not been handled yet".
unfoldable pub set_request : Message → MessageExchange → Option MessageExchange
set_request m e = elim e.request [ none ↦ some (record e { request = some m }) | some _ ↦ none ]

-- `none` is the exception "Tried to access V2G message, but there is none".
unfoldable pub pull_request : MessageExchange → Option (Message × MessageExchange)
pull_request e = elim e.request [ none ↦ none | some m ↦ some (m, record e { request = none }) ]

unfoldable pub peek_request_type : MessageExchange → MessageType
peek_request_type e = elim e.request [ none ↦ MessageType.none | some m ↦ get_type m ]

unfoldable pub set_response : (Response → ℕ) → Response → MessageExchange → MessageExchange
set_response serialize r e =
    if serialize r == 0
    then record e { response_size = 0; response_available = false }
    else record e {
      response_size = serialize r;
      response_available = true;
      payload_type = some (payload_type_of r);
      response_type = some (response_type_of r);
      response_message = some r;
    }

pub record PendingResponse : Type 0 where
  pub available : Bool
  pub size : ℕ
  pub payload_type : Option PayloadType
  pub response_type : Option MessageType

unfoldable pub check_and_clear_response : MessageExchange → PendingResponse × MessageExchange
check_and_clear_response e = (
  record {
    available = e.response_available;
    size = e.response_size;
    payload_type = e.payload_type;
    response_type = e.response_type;
  },
  record e { response_available = false; response_size = 0; response_type = some MessageType.none },
)

pub MessageType-discrete : Discrete MessageType
MessageType-discrete = hlevel

-- `std::any_cast` to the message type `t`.
abbrev pub any_cast : MessageType → Option Response → Option Response
any_cast t none = none
any_cast t (some r) = ite (MessageType-discrete t (response_type_of r)) (some r) none

abbrev pub get_if_type : MessageType → Option MessageType → Option Response → Option Response
get_if_type t none message = none
get_if_type t (some u) message = ite (MessageType-discrete t u) (any_cast t message) none

-- `get_response<Msg>` where `t` is the type trait of `Msg`.
unfoldable pub get_response : MessageType → MessageExchange → Option Response
get_response t e = get_if_type t e.response_type e.response_message

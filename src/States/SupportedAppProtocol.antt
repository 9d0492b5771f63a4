-- ===== src/States/SupportedAppProtocol.antt =====
-- src/iso15118/d20/state/supported_app_protocol.cpp. The state object has no members of its own.
pub mod Laws
use Prim.Native.String.{String}
use text.Mathlib.Text.{◌==◌ as str_eq}
use libiso.Prelude.{
  ℕ, Bool, true, false, ◌||◌, Option, none, some, List, [], ◌∷◌, ◌==◌, ltb, if◌then◌else◌,
}
use mathlib.Core.Option.{get_or}
use libiso.Message.{
  SupportedAppProtocol, SupportedAppProtocolRequest, SupportedAppProtocolResponse, NegotiationCode,
  Message, Response,
}
use libiso.Exchange
use libiso.Context.{
  Env, Feedback, Context, Event, StateId, Fed, fed, no_result, enter_state, respond, call, stop,
}

abbrev pub iso20_dc_namespace : String
iso20_dc_namespace = "urn:iso:std:iso:15118:-20:DC"

abbrev pub iso20_ac_namespace : String
iso20_ac_namespace = "urn:iso:std:iso:15118:-20:AC"

-- The three comparisons: the custom namespace is the empty text if none is configured.
unfoldable pub is_supported : Option String → SupportedAppProtocol → Bool
is_supported custom p =
    str_eq p.protocol_namespace iso20_dc_namespace
    || (str_eq p.protocol_namespace iso20_ac_namespace
        || str_eq p.protocol_namespace (get_or custom ""))

-- `map[priority] = schema_id` on a std::map: in the order of the keys, replacing what is there.
unfoldable pub assign : ℕ → ℕ → List (ℕ × ℕ) → List (ℕ × ℕ)
assign k v [] = (k, v) ∷ []
assign k v ((j, w) ∷ m) =
    if ltb k j then (k, v) ∷ (j, w) ∷ m else if k == j then (k, v) ∷ m else (j, w) ∷ assign k v m

-- The loop that fills `ev_supported_protocols`.
unfoldable pub collect : Option String → List SupportedAppProtocol → List (ℕ × ℕ) → List (ℕ × ℕ)
unfolding is_supported assign
collect custom [] m = m
collect custom (p ∷ ps) m =
    collect custom ps (if is_supported custom p then assign p.priority p.schema_id m else m)

abbrev pub answer : List (ℕ × ℕ) → SupportedAppProtocolResponse
answer [] = record { response_code = NegotiationCode.failed_no_negotiation; schema_id = none }
answer ((priority, schema_id) ∷ m) = record {
  response_code = NegotiationCode.ok_successful_negotiation;
  schema_id = some schema_id;
}

unfoldable pub handle_request :
    SupportedAppProtocolRequest → Option String → SupportedAppProtocolResponse
unfolding collect
handle_request req custom = answer (collect custom req.app_protocol [])

-- The callback for a selected protocol; `none` is the exception of `custom_protocol.value()`.
unfoldable pub report_protocol : Option String → SupportedAppProtocol → Context → Option Context
unfolding call
report_protocol custom p c =
    if str_eq p.protocol_namespace iso20_dc_namespace
    then some (call (Feedback.selected_protocol "ISO15118-20:DC") c)
    else if str_eq p.protocol_namespace iso20_ac_namespace
    then some (call (Feedback.selected_protocol "ISO15118-20:AC") c)
    else if str_eq p.protocol_namespace (get_or custom "")
    then elim custom [ none ↦ none | some name ↦ some (call (Feedback.selected_protocol name) c) ]
    else some c

abbrev pub remember : SupportedAppProtocol → Context → Context
remember p c =
    let info = c.ev_info in record c { ev_info = record info { selected_app_protocol = some p } }

-- The loop over the protocols with the selected schema id.
unfoldable pub select_protocols :
    Option String → Option ℕ → List SupportedAppProtocol → Context → Option Context
unfolding report_protocol
select_protocols custom none ps c = some c
select_protocols custom (some schema_id) [] c = some c
select_protocols custom (some schema_id) (p ∷ ps) c =
    if p.schema_id == schema_id
    then elim (report_protocol custom p (remember p c)) [
      | none ↦ none
      | some c' ↦ select_protocols custom (some schema_id) ps c'
    ]
    else select_protocols custom (some schema_id) ps c

unfoldable pub finish : NegotiationCode → Option Context → Context → Option (Fed (Unit {0}))
finish NegotiationCode.failed_no_negotiation selected c = some (fed no_result tt c)
finish _ none c = none
finish _ (some c') c = some (fed (enter_state StateId.session_setup) tt c')

-- `none` is an exception.
unfoldable pub on_message : Env → Message → Context → Option (Fed (Unit {0}))
unfolding handle_request respond select_protocols stop finish
on_message env (Message.supported_app_protocol req) c =
    let res = handle_request req c.session_config.custom_protocol in
    let info = c.ev_info in
    let c1 = record (respond env (Response.supported_app_protocol res) c) {
      ev_info = record info { ev_supported_app_protocols = req.app_protocol };
    } in
    finish res.response_code
      (select_protocols c.session_config.custom_protocol res.schema_id req.app_protocol c1) c1
on_message env m c = some (fed no_result tt (stop c))

unfoldable pub feed : Env → Event → Unit {0} → Context → Option (Fed (Unit {0}))
unfolding on_message Exchange.pull_request
feed env Event.v2gtp_message s c = elim (Exchange.pull_request c.message_exchange) [
  | none ↦ none
  | some (m, e) ↦ on_message env m (record c { message_exchange = e })
]
feed env _ s c = some (fed no_result s c)

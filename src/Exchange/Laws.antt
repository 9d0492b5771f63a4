-- ===== src/Exchange/Laws.antt =====
-- `MessageExchange` of include/iso15118/d20/context.hpp and src/iso15118/d20/context.cpp: the
-- requests and responses that pass through it.
use mathlib.Core.Logic.{ite, if_neg}
use libiso.Prelude.{
  ℕ, true, false, Option, none, some, ◌≡◌, ◌≢◌, ◌⊎◌, inl, inr, refl, ◌==◌, arith, Option-cases,
  Bool-cases,
}
use libiso.Message.{
  payload_type as payload_type_of, response_type as response_type_of, Message, get_type,
  MessageType, Response,
}
use libiso.Exchange.{
  MessageExchange, set_request, pull_request, peek_request_type, set_response,
  check_and_clear_response, get_response, MessageType-discrete,
}

-- Where no request waits, one is accepted: it is then the type that is peeked at and the request
-- that is pulled, pulling restores the exchange, setting another throws, and a second pull throws.
-- Where one waits, setting another throws, and the one that waits is pulled.
pub pull_request-set_request :
    (m : Message) (e : MessageExchange)
    → ((e.request ≡ none)
        × (pull_request e ≡ none)
        × (e' : MessageExchange) × (set_request m e ≡ some e')
        × (peek_request_type e' ≡ get_type m)
        × (pull_request e' ≡ some (m, e))
        × ((other : Message) → set_request other e' ≡ none))
      ⊎ ((waiting : Message) × (e.request ≡ some waiting)
          × (set_request m e ≡ none)
          × (peek_request_type e ≡ get_type waiting)
          × (pull_request e ≡ some (waiting, record e { request = none })))
unfolding set_request pull_request peek_request_type
pull_request-set_request m e = elim (Option-cases e.request) [
  | inl free ↦ inl (
    free,
    ground arith,
    record e { request = some m },
    ground arith,
    refl,
    ground arith,
    λ other. refl,
  )
  | inr (waiting, busy) ↦ inr (waiting, busy, ground arith, ground arith, ground arith)
]

-- A response that was set is handed out by the next check, with its size and its types, and the
-- check after that has none; the waiting request is not touched.
pub check-set_response :
    (serialize : Response → ℕ) (r : Response) (e : MessageExchange)
    → serialize r ≢ 0
    → let (p, e') = check_and_clear_response (set_response serialize r e) in
      (p ≡ record {
        available = true;
        size = serialize r;
        payload_type = some (payload_type_of r);
        response_type = some (response_type_of r);
      })
      × ((check_and_clear_response e').0.available ≡ false)
      × ((check_and_clear_response e').0.size ≡ 0)
      × (e'.request ≡ e.request)
unfolding check_and_clear_response set_response
check-set_response serialize r e h = ground arith

-- A response that cannot be encoded cancels one that waits: the next check hands out nothing.
pub check-set_response_fail :
    (serialize : Response → ℕ) (r : Response) (e : MessageExchange)
    → serialize r ≡ 0
    → let (p, e') = check_and_clear_response (set_response serialize r e) in
      (p.available ≡ false) × (p.size ≡ 0) × (e'.request ≡ e.request)
unfolding check_and_clear_response set_response
check-set_response_fail serialize r e h = ground arith

twice_ite :
    {P : Type 0} (d : Dec P) (o : Option Response) → ite d (ite d o none) none ≡ ite d o none
twice_ite (yes p) o = refl
twice_ite (no p) o = refl

-- A response that was set is read back under its own type and under no other, until the next
-- check clears it.
pub get_response-set_response :
    (serialize : Response → ℕ) (r : Response) (e : MessageExchange) (t : MessageType)
    → serialize r ≢ 0
    → t ≢ MessageType.none
    → (get_response t (set_response serialize r e)
        ≡ ite (MessageType-discrete t (response_type_of r)) (some r) none)
      × (get_response t (check_and_clear_response (set_response serialize r e)).1 ≡ none)
unfolding get_response set_response check_and_clear_response
get_response-set_response serialize r e t h typed = elim (Bool-cases (serialize r == 0)) [
  | inl failed ↦ absurd (h (ground arith))
  | inr sent ↦ rw sent (
    twice_ite (MessageType-discrete t (response_type_of r)) (some r),
    if_neg (MessageType-discrete t MessageType.none) typed _ _,
  )
]

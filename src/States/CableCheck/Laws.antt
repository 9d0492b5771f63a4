-- ===== src/States/CableCheck/Laws.antt =====
-- src/iso15118/d20/state/dc_cable_check.cpp: its request, and its signal over a run.
use libiso.Prelude.{
  ℕ, ◌+◌, ◌≤◌, ◌≡◌, refl, true, not, ◌&&◌, ◌||◌, Option, none, some, List, [], ◌∷◌, if◌then◌else◌,
  arith, bytes_eq, Option-cases, inl, inr, ap, sym, subst, ◌∙◌,
}
use libiso.Message.{ResponseCode, Processing, DcCableCheckRequest, Message, Response, get_type}
use libiso.Exchange
use libiso.Context.{Env, Context, Event, StateId, Feedback, Signal, Fed}
use libiso.Context.Requests.{pulled, with_request-some, with_request-none}
use libiso.Context.Recovery.Laws.{calls-send_sequence_error}
use libiso.States.CableCheck.{DcCableCheck, initial, on_message, feed}

-- A DC_CableCheckReq is answered with the state of the check: an unknown session fails and stops
-- the session, a known one goes on to DC_PreCharge exactly if the check is done, and
-- START_CABLE_CHECK is signalled for the first request only.
pub on_message_cable_check :
    (env : Env) (s : DcCableCheck) (req : DcCableCheckRequest) (c : Context)
    → let known = bytes_eq c.session.id req.header.session_id in
      let done = s.cable_check_done in
      let f = on_message env s (Message.dc_cable_check req) c in
      (f.result.new_state ≡ (if known && done then some StateId.dc_pre_charge else none))
      × (f.ctx.session_stopped ≡ (c.session_stopped || not known))
      × (f.ctx.message_exchange
          ≡ Exchange.set_response env.serialize
              (Response.dc_cable_check (record {
                header = record { session_id = c.session.id; timestamp = env.time_s };
                response_code =
                    if known then ResponseCode.ok else ResponseCode.failed_unknown_session;
                processing = if known && done then Processing.finished else Processing.ongoing;
              }))
              c.message_exchange)
      × (f.ctx.calls ≡ (
          if s.cable_check_initiated
          then c.calls
          else Feedback.signal Signal.start_cable_check ∷ c.calls))
      × (f.self ≡ record s { cable_check_initiated = true })
unfolding on_message
on_message_cable_check env s req c = ground arith

abbrev is_start : Feedback → ℕ
is_start (Feedback.signal Signal.start_cable_check) = 1
is_start _ = 0

-- How often START_CABLE_CHECK was signalled.
abbrev pub starts : List Feedback → ℕ
starts [] = 0
starts (f ∷ fs) = is_start f + starts fs

abbrev left : DcCableCheck → ℕ
left s = if s.cable_check_initiated then 0 else 1

starts-on_message :
    (env : Env) (s : DcCableCheck) (m : Message) (c : Context)
    → starts (on_message env s m c).ctx.calls + left (on_message env s m c).self
      ≡ starts c.calls + left s
unfolding on_message
starts-on_message env s (Message.dc_cable_check req) c = ground arith
starts-on_message env s (Message.session_stop req) c = ground arith
starts-on_message env s m c = ground (arith, calls-send_sequence_error env (get_type m) c)

AllStarts : DcCableCheck → Context → Option (Fed DcCableCheck) → Type 0
AllStarts s c none = Unit {0}
AllStarts s c (some f) = starts f.ctx.calls + left f.self ≡ starts c.calls + left s

feed_starts :
    (env : Env) (ev : Event) (s : DcCableCheck) (c : Context) → AllStarts s c (feed env ev s c)
unfolding feed AllStarts
feed_starts env Event.control_message s c = ground arith
feed_starts env Event.v2gtp_message s c = elim (Option-cases c.message_exchange.request) [
  | inl idle ↦ subst (AllStarts s c) (sym (with_request-none c (on_message env s) idle)) tt
  | inr (m, waiting) ↦
      subst (AllStarts s c) (sym (with_request-some c (on_message env s) m waiting))
        (starts-on_message env s m (pulled c))
]
feed_starts env ev s c = refl

-- The events that one state object sees, in any environments; between two of them the session may
-- change the context in any way, with any callbacks but a signal to start the cable check.
pub data Run : DcCableCheck → Context → DcCableCheck → Context → Type 0 where
  stay : {s : DcCableCheck} {c : Context} → Run s c s c
  outside :
      {s t : DcCableCheck} {c d d' : Context}
      → Run s c t d
      → starts d'.calls ≡ starts d.calls
      → Run s c t d'
  event :
      {s t : DcCableCheck} {c d : Context} (env : Env) (ev : Event) (f : Fed DcCableCheck)
      → Run s c t d
      → feed env ev t d ≡ some f
      → Run s c f.self f.ctx

Run-starts :
    {s t : DcCableCheck} {c d : Context}
    → Run s c t d
    → starts d.calls + left t ≡ starts c.calls + left s
unfolding AllStarts
Run-starts stay = refl
Run-starts (outside {t = u} r same) = ap (λ n. n + left u) same ∙ Run-starts r
Run-starts (event {t = u} {c = c} {d = d'} env ev f r e) =
    subst (AllStarts u d') e (feed_starts env ev u d') ∙ Run-starts r

-- Whatever events a new state object of DC_CableCheck is fed, one after the other, and whatever
-- callbacks but this signal the session makes in between, START_CABLE_CHECK is signalled at most
-- once.
pub starts_once :
    (t : DcCableCheck) (c d : Context) → Run initial c t d → starts d.calls ≤ starts c.calls + 1
unfolding initial
starts_once t c d r = ground (arith, Run-starts r)

-- ===== src/States/SessionSetup/Rejoin.antt =====
-- src/iso15118/d20/state/session_setup.cpp and session_stop.cpp: a session that is set up, paused and
-- joined again.
use libiso.Prelude.{ℕ, ◌≡◌, refl, sym, ◌∙◌, false, none, some, List, arith, if◌then◌else◌}
use libiso.Message.{SessionId, SessionSetupRequest, SessionStopRequest, ChargingSession, Message}
use libiso.Session.{
  Session, PauseContext, SelectedServiceParameters, is_ac_charger, is_dc_charger, resumed_session,
  nothing_selected,
}
use libiso.Context.{Env, Context, StateId}
use libiso.States.SessionSetup.{
  old_session, session_is_zero, cert_session_id_hash, pause_ctx_of, on_message, join,
}
use libiso.States.SessionSetup.Laws.{bytes_eq_refl}
use libiso.States.SessionStop as SessionStop

-- The pause context that is left by a session that was set up with a certificate and then paused.
abbrev left_by : Env → List ℕ → SelectedServiceParameters → PauseContext
left_by env h selected = record {
  vehicle_cert_session_id_hash = cert_session_id_hash env h env.fresh_session_id;
  old_session_id = env.fresh_session_id;
  selected_service_parameters = selected;
}

set_up :
    (env : Env) (req : SessionSetupRequest) (c : Context) (h : List ℕ)
    → old_session env req.header.session_id c.vehicle_cert_hash c.pause_ctx ≡ none
    → c.vehicle_cert_hash ≡ some h
    → let f = on_message env tt (Message.session_setup req) c in
      (f.ctx.session.id ≡ env.fresh_session_id) × (f.ctx.pause_ctx ≡ pause_ctx_of env (some h) none)
unfolding on_message join
set_up env req c h new cert = rw new (ground arith)

paused :
    (env : Env) (stop : SessionStopRequest) (c : Context) (p : PauseContext)
    → stop.charging_session ≡ ChargingSession.pause
    → c.pause_ctx ≡ some p
    → (SessionStop.on_message env tt (Message.session_stop stop) c).ctx.pause_ctx
      ≡ some (record p { selected_service_parameters = c.session.selected_services })
unfolding SessionStop.on_message
paused env stop c p pause e = ground arith

joined :
    (env : Env) (req : SessionSetupRequest) (c : Context) (p : PauseContext)
    → old_session env req.header.session_id c.vehicle_cert_hash c.pause_ctx ≡ some p
    → let f = on_message env tt (Message.session_setup req) c in
      (f.ctx.session.id ≡ p.old_session_id)
      × (f.ctx.session.selected_services ≡ p.selected_service_parameters)
      × (f.result.new_state ≡ (
          if is_ac_charger (resumed_session p)
          then some StateId.ac_charge_parameter_discovery
          else if is_dc_charger (resumed_session p)
          then some StateId.dc_charge_parameter_discovery
          else none))
unfolding on_message join
joined env req c p old = rw old (ground arith)

found_again :
    (env env' : Env) (h : List ℕ) (id : SessionId) (selected : SelectedServiceParameters)
    → id ≡ env.fresh_session_id
    → session_is_zero env.fresh_session_id ≡ false
    → env'.sha512 ≡ env.sha512
    → old_session env' id (some h) (some (left_by env h selected)) ≡ some (left_by env h selected)
unfolding old_session
found_again env env' h id selected e nonzero same =
    rw (e, nonzero, same, bytes_eq_refl (cert_session_id_hash env h env.fresh_session_id)) refl

resumed_kind :
    (s : Session) (p : PauseContext)
    → p.selected_service_parameters ≡ s.selected_services
    → (is_ac_charger (resumed_session p) ≡ is_ac_charger s)
      × (is_dc_charger (resumed_session p) ≡ is_dc_charger s)
unfolding resumed_session
resumed_kind s p e = (rw e refl, rw e refl)

-- A session that is set up anew with a certificate, then selects its services and is paused, can be
-- joined again with this certificate and its id, if that is not all zeros and the hash function is
-- the same: the session then has its id and the services that were selected when it was paused, and
-- goes on to the charge parameters of AC or of DC, as the selected service is. In between, the
-- contexts may be any that keep the pause context.
pub on_message_rejoins :
    (env env' env'' : Env) (first again : SessionSetupRequest) (stop : SessionStopRequest)
    (c d e : Context) (h : List ℕ)
    → old_session env first.header.session_id c.vehicle_cert_hash c.pause_ctx ≡ none
    → c.vehicle_cert_hash ≡ some h
    → session_is_zero env.fresh_session_id ≡ false
    → stop.charging_session ≡ ChargingSession.pause
    → d.pause_ctx ≡ (on_message env tt (Message.session_setup first) c).ctx.pause_ctx
    → e.pause_ctx ≡ (SessionStop.on_message env' tt (Message.session_stop stop) d).ctx.pause_ctx
    → e.vehicle_cert_hash ≡ some h
    → again.header.session_id ≡ (on_message env tt (Message.session_setup first) c).ctx.session.id
    → env''.sha512 ≡ env.sha512
    → let f = on_message env'' tt (Message.session_setup again) e in
      (f.ctx.session.id ≡ (on_message env tt (Message.session_setup first) c).ctx.session.id)
      × (f.ctx.session.selected_services ≡ d.session.selected_services)
      × (f.result.new_state ≡ (
          if is_ac_charger d.session
          then some StateId.ac_charge_parameter_discovery
          else if is_dc_charger d.session
          then some StateId.dc_charge_parameter_discovery
          else none))
on_message_rejoins env env' env'' first again stop c d e h new cert nonzero pause kept left cert' id
      same =
    let (own, context) = set_up env first c h new cert in
    let p = left_by env h d.session.selected_services in
    let saved : e.pause_ctx ≡ some p =
      left ∙ paused env' stop d (left_by env h nothing_selected) pause (kept ∙ context) in
    let old : old_session env'' again.header.session_id e.vehicle_cert_hash e.pause_ctx ≡ some p =
      rw (cert', saved)
        (found_again env env'' h again.header.session_id d.session.selected_services (id ∙ own)
          nonzero same) in
    let (same_id, services, moved) = joined env'' again e p old in
    let (ac, dc) = resumed_kind d.session p refl in
    (same_id ∙ sym own, services, moved ∙ rw (ac, dc) refl)

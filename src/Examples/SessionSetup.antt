-- ===== src/Examples/SessionSetup.antt =====
-- A paused session that is joined with its certificate.
use libiso.Prelude.{if◌then◌else◌, ℕ, ◌≡◌, refl, none, some, List, arith}
use libiso.Message.{Message, ServiceCategory}
use libiso.Session.{PauseContext, nothing_selected, is_ac_charger, is_dc_charger}
use libiso.States.SessionSetup.{cert_session_id_hash, on_message}
use libiso.States.SessionSetup.Laws.{on_message_joins}
use libiso.States.SessionSetup.Rejoin.{on_message_rejoins}
use libiso.States.SessionStop as SessionStop
use libiso.Context.{Context, StateId}
use libiso.Examples.Data.{here, own_context, stop_other, certificate, paused_context, session_setup}

-- A session with a certificate is set up, selects DC, is paused, and is joined again.
abbrev secured : Context
secured = record own_context { vehicle_cert_hash = some certificate }

abbrev charging : Context
unfolding on_message
charging =
    let c = (on_message here tt (Message.session_setup session_setup) secured).ctx in
    let s = c.session in
    record c {
      session = record s {
        selected_services = record nothing_selected {
          selected_energy_service = some ServiceCategory.dc;
        };
      };
    }

abbrev paused : Context
unfolding on_message charging SessionStop.on_message
paused = (SessionStop.on_message here tt (Message.session_stop stop_other) charging).ctx

abbrev returned : Context
unfolding paused on_message charging SessionStop.on_message
returned = record secured { pause_ctx = paused.pause_ctx }

on_message_rejoins_example :
    let f = on_message here tt (Message.session_setup session_setup) returned in
    (f.ctx.session.id
      ≡ (on_message here tt (Message.session_setup session_setup) secured).ctx.session.id)
    × (f.ctx.session.selected_services ≡ charging.session.selected_services)
    × (f.result.new_state ≡ (
        if is_ac_charger charging.session
        then some StateId.ac_charge_parameter_discovery
        else if is_dc_charger charging.session
        then some StateId.dc_charge_parameter_discovery
        else none))
unfolding on_message charging paused returned SessionStop.on_message
on_message_rejoins_example =
    on_message_rejoins here here here session_setup session_setup stop_other secured charging
      returned certificate refl refl refl refl refl refl refl refl refl

on_message_joins_example :
    (p : PauseContext) × (h : List ℕ) × (paused_context.pause_ctx ≡ some p)
    × (paused_context.vehicle_cert_hash ≡ some h)
    × (p.vehicle_cert_session_id_hash ≡ cert_session_id_hash here h session_setup.header.session_id)
    × ((on_message here tt (Message.session_setup session_setup) paused_context).ctx.session.id
        ≡ p.old_session_id)
unfolding on_message
on_message_joins_example = on_message_joins here session_setup paused_context (λ e. ground arith)

-- ===== src/Examples/Services.antt =====
-- The services that an EV asks for, and the end of its session.
use libiso.Prelude.{ℕ, ◌≡◌, refl, true, ◌&&◌, none, List, [], ◌∷◌, map, contains}
use libiso.Message.{ChargingSession, Message}
use libiso.Message.{service_id}
use libiso.States.ServiceDiscovery.{handle_request}
use libiso.States.SessionStop.{on_message}
use libiso.States.ServiceDiscovery.Laws.{ids_of, vas_ids_of, handle_request-offers}
use libiso.States.SessionStop.Laws.{paused_with, on_message_ends}
use libiso.Examples.Data.{here, own_session, config, paused_context, stop_other, services}

abbrev asked : List ℕ
asked = 2 ∷ 6 ∷ 65 ∷ []

handle_request-offers_example :
    let d =
      handle_request here services own_session config.supported_energy_transfer_services
        config.supported_vas_services [] in
    ((n : ℕ)
      → (contains (ids_of d.res.energy_transfer_service_list) n
          ≡ contains (map service_id config.supported_energy_transfer_services) n
            && contains asked n)
        × (contains (vas_ids_of d.res.vas_list) n
            ≡ contains config.supported_vas_services n && contains asked n))
    × (map service_id d.session.offered_services.energy_services
        ≡ ids_of d.res.energy_transfer_service_list)
    × (d.session.offered_services.vas_services ≡ vas_ids_of d.res.vas_list)
handle_request-offers_example =
    handle_request-offers here services own_session config.supported_energy_transfer_services
      config.supported_vas_services [] asked refl refl

on_message_ends_example :
    let c' = (on_message here tt (Message.session_stop stop_other) paused_context).ctx in
    (stop_other.charging_session ≡ ChargingSession.pause
      → (c'.session_paused ≡ true)
        × (c'.session_stopped ≡ paused_context.session_stopped)
        × (c'.pause_ctx ≡ paused_with paused_context paused_context.pause_ctx))
    × (stop_other.charging_session ≡ ChargingSession.terminate
        → (c'.session_paused ≡ paused_context.session_paused)
          × (c'.session_stopped ≡ true)
          × (c'.pause_ctx ≡ none))
    × (stop_other.charging_session ≡ ChargingSession.service_renegotiation
        → (c'.session_paused ≡ paused_context.session_paused)
          × (c'.session_stopped ≡ paused_context.session_stopped)
          × (c'.pause_ctx ≡ paused_context.pause_ctx))
on_message_ends_example = on_message_ends here tt stop_other paused_context

-- ===== src/States/ServiceSelection/Laws.antt =====
-- src/iso15118/d20/state/service_selection.cpp: which selections are accepted, and what they select.
use libiso.Prelude.{
  ℕ, ◌≡◌, refl, ◌∙◌, true, Bool, ◌&&◌, Option, none, some, List, [], ◌∷◌, map, contains, arith,
  bytes_eq, Bool-cases, inl, inr,
}
use libiso.Message.{ResponseCode, ServiceSelectionRequest, VasSelectedService, service_id}
use libiso.Session.{Session}
use libiso.Session.Services.{
  find_energy_parameter_set_id, find_vas_parameter_set_id, select_energy_service,
  select_vas_service,
}
use libiso.Session.Selection.{select_energy_service_sound}
use libiso.Context.{Env}
use libiso.States.ServiceSelection.{handle_request, select_vas, select_vas_list, vas_list_found}

-- Selecting a value added service changes nothing but the selected value added services.
pub record IsSameOffer (s t : Session) : Type 0 where
  pub id : t.id ≡ s.id
  pub offered : t.offered_services ≡ s.offered_services
  pub selected : t.selected_services ≡ s.selected_services

select_vas_service-IsSameOffer :
    (s : Session) (v id : ℕ) → IsSameOffer s (select_vas_service s v id)
unfolding select_vas_service
select_vas_service-IsSameOffer s v id = ground arith

IsSameOffer-trans : {s t u : Session} → IsSameOffer s t → IsSameOffer t u → IsSameOffer s u
IsSameOffer-trans h k = record {
  id = k.id ∙ h.id;
  offered = k.offered ∙ h.offered;
  selected = k.selected ∙ h.selected;
}

pub select_vas-IsSameOffer :
    (vs : List VasSelectedService) (s : Session) → IsSameOffer s (select_vas vs s).1
unfolding select_vas
select_vas-IsSameOffer [] s = record { id = refl; offered = refl; selected = refl }
select_vas-IsSameOffer (v ∷ vs) s =
    elim (Bool-cases (find_vas_parameter_set_id s v.service_id v.parameter_set_id)) [
      | inl found ↦ rw found (
          IsSameOffer-trans (select_vas_service-IsSameOffer s v.service_id v.parameter_set_id)
            (select_vas-IsSameOffer vs _))
      | inr missing ↦ rw missing (record { id = refl; offered = refl; selected = refl })
    ]

-- Whether each selected service has its parameter set among the offers.
abbrev pub all_found : Session → List VasSelectedService → Bool
all_found s [] = true
all_found s (v ∷ vs) = find_vas_parameter_set_id s v.service_id v.parameter_set_id && all_found s vs

find_vas-offered :
    (s t : Session) (v id : ℕ)
    → t.offered_services ≡ s.offered_services
    → find_vas_parameter_set_id t v id ≡ find_vas_parameter_set_id s v id
unfolding find_vas_parameter_set_id
find_vas-offered s t v id e = rw e refl

all_found-offered :
    (s t : Session) (vs : List VasSelectedService)
    → t.offered_services ≡ s.offered_services
    → all_found t vs ≡ all_found s vs
all_found-offered s t [] e = refl
all_found-offered s t (v ∷ vs) e =
    rw (find_vas-offered s t v.service_id v.parameter_set_id e, all_found-offered s t vs e) refl

-- The loop that selects the value added services comes to its end exactly if every one of them has
-- its parameter set among the offers, although it selects as it goes.
pub select_vas_found :
    (vs : List VasSelectedService) (s : Session) → (select_vas vs s).0 ≡ all_found s vs
unfolding select_vas
select_vas_found [] s = refl
select_vas_found (v ∷ vs) s =
    elim (Bool-cases (find_vas_parameter_set_id s v.service_id v.parameter_set_id)) [
      | inl found ↦
          let t = select_vas_service s v.service_id v.parameter_set_id in
          let same = select_vas_service-IsSameOffer s v.service_id v.parameter_set_id in
          rw found (select_vas_found vs t ∙ all_found-offered s t vs same.offered)
      | inr missing ↦ rw missing refl
    ]

select_vas_list-selected :
    (vs : Option (List VasSelectedService)) (s : Session)
    → ((select_vas_list vs s).1.selected_services ≡ s.selected_services)
      × ((select_vas_list vs s).1.offered_services ≡ s.offered_services)
      × ((select_vas_list vs s).1.id ≡ s.id)
unfolding select_vas_list
select_vas_list-selected none s = (refl, refl, refl)
select_vas_list-selected (some vs) s =
    let h = select_vas-IsSameOffer vs s in (h.selected, h.offered, h.id)

-- A selection that is accepted names the session and an offered energy service with a parameter set
-- of it; the services listed with it are offered too. The session then has that energy service as its
-- selected one, with its id and its offers as before.
pub handle_request_ok :
    (env : Env) (req : ServiceSelectionRequest) (s : Session)
    → (handle_request env req s).res.response_code ≡ ResponseCode.ok
    → let e = req.selected_energy_transfer_service in
      let t = (handle_request env req s).session in
      (bytes_eq s.id req.header.session_id ≡ true)
      × (contains (map service_id s.offered_services.energy_services) (service_id e.service_id)
          ≡ true)
      × (find_energy_parameter_set_id s e.service_id e.parameter_set_id ≡ true)
      × (vas_list_found s.offered_services.vas_services req.selected_vas_list ≡ true)
      × (t.selected_services.selected_energy_service ≡ some e.service_id)
      × (t.offered_services ≡ s.offered_services)
      × (t.id ≡ s.id)
unfolding handle_request
handle_request_ok env req s h =
    let e = req.selected_energy_transfer_service in
    let r = select_energy_service env.to_float s e.service_id e.parameter_set_id in
    ground (
      arith,
      select_energy_service_sound env.to_float s e.service_id e.parameter_set_id,
      select_vas_list-selected req.selected_vas_list r,
    )

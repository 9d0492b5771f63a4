-- ===== src/Session/Selection.antt =====
-- The lookups and selections of src/iso15118/d20/session.cpp.
use libiso.Prelude.{
  ℕ, ◌+◌, ◌*◌, ◌%◌, ◌<◌, ◌≡◌, ◌≢◌, ◌⊎◌, ◌↔◌, true, false, some, Option-cases, inl, inr, List, [],
  ◌∷◌, ◌++◌, ◌==◌, if◌then◌else◌, contains, arith,
}
use libiso.Message.{ServiceCategory}
use libiso.Session.{Session, find, is_ac_charger, is_dc_charger}
use libiso.Session.Services.{
  find_energy_parameter_set_id, find_vas_parameter_set_id, as_int16, contains_id,
  select_energy_service, select_vas_service,
}

-- Selecting an energy service either finds its parameter set, and then the selected service is
-- the one asked for, or finds none, and then the session is as it was. Either way the identifier,
-- the offers and the selected value added services stay.
pub select_energy_service_sound :
    (to_float : ℕ → ℕ) (s : Session) (service : ServiceCategory) (id : ℕ)
    → ((find_energy_parameter_set_id s service id ≡ true)
        × ((select_energy_service to_float s service id).selected_services.selected_energy_service
            ≡ some service)
        × ((select_energy_service to_float s service id).id ≡ s.id)
        × ((select_energy_service to_float s service id).offered_services ≡ s.offered_services)
        × ((select_energy_service to_float s service id).selected_vas_services
            ≡ s.selected_vas_services))
      ⊎ ((find_energy_parameter_set_id s service id ≡ false)
          × (select_energy_service to_float s service id ≡ s))
unfolding select_energy_service
select_energy_service_sound to_float s ServiceCategory.ac id = ground arith
select_energy_service_sound to_float s _ id = ground arith

-- After a selection that was found the charger is an AC charger or a DC charger, and not both.
pub select_energy_service_kind :
    (to_float : ℕ → ℕ) (s : Session) (service : ServiceCategory) (id : ℕ)
    → find_energy_parameter_set_id s service id ≡ true
    → is_ac_charger (select_energy_service to_float s service id)
      ≢ is_dc_charger (select_energy_service to_float s service id)
unfolding select_energy_service
select_energy_service_kind to_float s ServiceCategory.ac id h = ground arith
select_energy_service_kind to_float s _ id h = ground arith

low_byte : (id k : ℕ) → (id + 256 * k) % 256 ≡ id % 256
low_byte id k = omega arith

-- Parameter set ids are told apart by their low byte only: an id that differs from another by a
-- multiple of 256 makes the same selection.
pub select_energy_service_narrow :
    (to_float : ℕ → ℕ) (s : Session) (service : ServiceCategory) (id k : ℕ)
    → select_energy_service to_float s service (id + 256 * k)
      ≡ select_energy_service to_float s service id
unfolding select_energy_service
select_energy_service_narrow to_float s ServiceCategory.ac id k = ground (arith, low_byte id k)
select_energy_service_narrow to_float s _ id k = ground (arith, low_byte id k)

contains_id_iff :
    (ids : List ℕ) (id : ℕ)
    → (contains_id ids (as_int16 id) ≡ true) ↔ ((id < 32768) × (contains ids id ≡ true))
unfolding contains_id
contains_id_iff [] id = ground arith
contains_id_iff (x ∷ ids) id = ground (arith, contains_id_iff ids id)

-- A parameter set of a custom value added service is found exactly if the service is listed, with
-- that id, and the id is below 2 ^ 15: from there on it is negative as an int16_t, and no listed id
-- is.
pub find_vas_parameter_set_id_custom :
    (s : Session) (vas_service id : ℕ)
    → vas_service ≢ 65
    → vas_service ≢ 66
    → (find_vas_parameter_set_id s vas_service id ≡ true) ↔ (
        (ids : List ℕ) × (find s.offered_services.custom_vas_list vas_service ≡ some ids)
        × (id < 32768)
        × (contains ids id ≡ true))
unfolding find_vas_parameter_set_id
find_vas_parameter_set_id_custom s v id a b =
    elim (Option-cases (find s.offered_services.custom_vas_list v)) [
      | inl unlisted ↦ (
        λ found. absurd (ground (arith, unlisted)),
        λ (ids, listed, _, _). absurd (ground (arith, unlisted)),
      )
      | inr (ids, listed) ↦ (
        λ found.
            let (small, held) = (contains_id_iff ids id).0 (ground (arith, listed)) in
            (ids, listed, small, held),
        λ (ids', listed', small, held). ground (arith, listed, contains_id_iff ids id),
      )
    ]

-- Selecting the internet or the parking service appends it to the selected services exactly if
-- its parameter set is found, and otherwise changes nothing.
pub select_vas_service_sound :
    (s : Session) (vas_service id : ℕ)
    → (vas_service ≡ 65) ⊎ (vas_service ≡ 66)
    → ((find_vas_parameter_set_id s vas_service id ≡ true)
        × ((select_vas_service s vas_service id).selected_vas_services.vas_services
            ≡ s.selected_vas_services.vas_services
              ++ (if vas_service == 65
                  then ServiceCategory.internet
                  else ServiceCategory.parking_status)
                ∷ []))
      ⊎ ((find_vas_parameter_set_id s vas_service id ≡ false)
          × (select_vas_service s vas_service id ≡ s))
unfolding select_vas_service find_vas_parameter_set_id
select_vas_service_sound s v id h = ground arith

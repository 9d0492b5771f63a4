-- ===== src/States/ServiceDiscovery/Laws.antt =====
-- src/iso15118/d20/state/service_discovery.cpp: which services a request is offered.
use libiso.Prelude.{
  ℕ, ◌≡◌, refl, sym, ap, true, ◌&&◌, Option, none, some, List, [], ◌∷◌, map, arith, contains,
  Bool-cases, inl, inr, bytes_eq,
}
use libiso.Message.{ServiceCategory, service_id, ServiceDiscoveryRequest, Service, VasService}
use libiso.Session.{Session}
use libiso.Context.{Env}
use libiso.States.ServiceDiscovery.{
  listed_energy, listed_vas, handle_request, free, free_vas, vas_list_of,
}

listed_vas_lem :
    (ids services : List ℕ) (v : ℕ)
    → contains (listed_vas ids services) v ≡ contains services v && contains ids v
unfolding listed_vas
listed_vas_lem ids [] v = refl
listed_vas_lem ids (w ∷ services) v = ground (arith, listed_vas_lem ids services v)

listed_energy_lem :
    (ids : List ℕ) (services : List ServiceCategory) (n : ℕ)
    → contains (map service_id (listed_energy ids services)) n
      ≡ contains (map service_id services) n && contains ids n
unfolding listed_energy
listed_energy_lem ids [] n = refl
listed_energy_lem ids (s ∷ services) n =
    let rest = listed_energy_lem ids services n in
    elim (Bool-cases (contains ids (service_id s))) [
      | inl listed ↦ rw listed (ground (arith, rest, listed))
      | inr other ↦ rw other (ground (arith, rest, other))
    ]

abbrev pub ids_of : List Service → List ℕ
ids_of [] = []
ids_of (s ∷ ss) = service_id s.service_id ∷ ids_of ss

abbrev pub vas_ids_of : Option (List VasService) → List ℕ
vas_ids_of none = []
vas_ids_of (some []) = []
vas_ids_of (some (v ∷ vs)) = v.service_id ∷ vas_ids_of (some vs)

ids_of-free : (l : List ServiceCategory) → ids_of (map free l) ≡ map service_id l
ids_of-free [] = refl
ids_of-free (s ∷ l) = ap (λ r. service_id s ∷ r) (ids_of-free l)

vas_ids_of-free : (l : List ℕ) → vas_ids_of (some (map free_vas l)) ≡ l
vas_ids_of-free [] = refl
vas_ids_of-free (v ∷ l) = ap (λ r. v ∷ r) (vas_ids_of-free l)

vas_ids_of-vas_list_of : (l : List ℕ) → vas_ids_of (vas_list_of l) ≡ l
vas_ids_of-vas_list_of [] = refl
vas_ids_of-vas_list_of (v ∷ l) = vas_ids_of-free (v ∷ l)

-- With the session's id, a request that lists service ids is answered by the services that are
-- configured and listed, energy and value added services alike, and the session's offers are just
-- those of the answer.
pub handle_request-offers :
    (env : Env) (req : ServiceDiscoveryRequest) (s : Session) (energy : List ServiceCategory)
    (vas : List ℕ) (ev : List ServiceCategory) (ids : List ℕ)
    → bytes_eq s.id req.header.session_id ≡ true
    → req.supported_service_ids ≡ some ids
    → let d = handle_request env req s energy vas ev in
      ((n : ℕ)
        → (contains (ids_of d.res.energy_transfer_service_list) n
            ≡ contains (map service_id energy) n && contains ids n)
          × (contains (vas_ids_of d.res.vas_list) n ≡ contains vas n && contains ids n))
      × (map service_id d.session.offered_services.energy_services
          ≡ ids_of d.res.energy_transfer_service_list)
      × (d.session.offered_services.vas_services ≡ vas_ids_of d.res.vas_list)
unfolding handle_request
handle_request-offers env req s energy vas ev ids valid listed =
    rw (valid, listed)
      (
        λ n. (
          rw (ids_of-free (listed_energy ids energy)) (listed_energy_lem ids energy n),
          rw (vas_ids_of-vas_list_of (listed_vas ids vas)) (listed_vas_lem ids vas n),
        ),
        sym (ids_of-free (listed_energy ids energy)),
        sym (vas_ids_of-vas_list_of (listed_vas ids vas)),
      )

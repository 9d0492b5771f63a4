-- ===== src/States/ServiceDetail/Offers.antt =====
-- src/iso15118/d20/state/service_detail.cpp: the parameter sets that the configuration has for a
-- service. The counter `id` is a uint8_t.
use libiso.Prelude.{ℕ, ◌+◌, ◌%◌, Option, none, some, List, [], ◌∷◌, ◌==◌, if◌then◌else◌}
use libiso.Message.{Port, ParameterSet}
use libiso.Session.{AcDerParameterList, InternetParameterList, OfferedServices, put}
use libiso.Config.{SessionConfig}
use libiso.AcDer.{has_required_ac_der_control_functions}
use libiso.States.ServiceDetail.ParameterSets.{
  ac_set, ac_bpt_set, ac_der_set, dc_set, dc_bpt_set, mcs_set, mcs_bpt_set, internet_set,
  parking_set,
}

-- What is offered from now on, and the parameter sets of the response.
pub record Offer : Type 0 where
  pub offered : OfferedServices
  pub sets : List ParameterSet

-- The loop over the configured parameters of a service, from an id on.
unfoldable pub offer_sets {ℓ} :
    {A : Type ℓ}
    → (ℕ → A → ParameterSet)
    → ℕ
    → List A
    → List (ℕ × A)
    → List (ℕ × A) × List ParameterSet
unfolding put
offer_sets f id [] m = (m, [])
offer_sets f id (p ∷ ps) m =
    let rest = offer_sets f ((id + 1) % 256) ps (put id p m) in (rest.0, f id p ∷ rest.1)

-- The loop for AC DER, which passes over the parameters without the required control functions.
unfoldable pub offer_der_sets :
    ℕ
    → List AcDerParameterList
    → List (ℕ × AcDerParameterList)
    → List (ℕ × AcDerParameterList) × List ParameterSet
unfolding put has_required_ac_der_control_functions ac_der_set
offer_der_sets id [] m = (m, [])
offer_der_sets id (p ∷ ps) m =
    let usable = has_required_ac_der_control_functions p.control_functions in
    let rest =
      offer_der_sets (if usable then (id + 1) % 256 else id) ps
        (if usable then put id p m else m) in
    if usable then (rest.0, ac_der_set id p ∷ rest.1) else rest

-- A port that is none of the four leaves the id of the set before.
abbrev pub internet_id : ℕ → Option Port → ℕ
internet_id id none = id
internet_id id (some Port.port20) = 1
internet_id id (some Port.port21) = 2
internet_id id (some Port.port80) = 3
internet_id id (some Port.port443) = 4

unfoldable pub offer_internet_sets :
    ℕ
    → List InternetParameterList
    → List (ℕ × InternetParameterList)
    → List (ℕ × InternetParameterList) × List ParameterSet
unfolding put internet_set
offer_internet_sets id [] m = (m, [])
offer_internet_sets id (p ∷ ps) m =
    let n = internet_id id p.port in
    let rest = offer_internet_sets n ps (put n p m) in (rest.0, internet_set n p ∷ rest.1)

unfoldable pub offer_ac : SessionConfig → OfferedServices → Offer
unfolding offer_sets ac_set
offer_ac config o =
    let r = offer_sets ac_set 0 config.ac_parameter_list o.ac_parameter_list in
    record { offered = record o { ac_parameter_list = r.0 }; sets = r.1 }

unfoldable pub offer_ac_bpt : SessionConfig → OfferedServices → Offer
unfolding offer_sets ac_bpt_set
offer_ac_bpt config o =
    let r = offer_sets ac_bpt_set 0 config.ac_bpt_parameter_list o.ac_bpt_parameter_list in
    record { offered = record o { ac_bpt_parameter_list = r.0 }; sets = r.1 }

unfoldable pub offer_ac_der : SessionConfig → OfferedServices → Offer
unfolding offer_der_sets
offer_ac_der config o =
    let r = offer_der_sets 0 config.ac_der_parameter_list o.ac_der_parameter_list in
    record { offered = record o { ac_der_parameter_list = r.0 }; sets = r.1 }

unfoldable pub offer_dc : SessionConfig → OfferedServices → Offer
unfolding offer_sets dc_set
offer_dc config o =
    let r = offer_sets dc_set 0 config.dc_parameter_list o.dc_parameter_list in
    record { offered = record o { dc_parameter_list = r.0 }; sets = r.1 }

unfoldable pub offer_dc_bpt : SessionConfig → OfferedServices → Offer
unfolding offer_sets dc_bpt_set
offer_dc_bpt config o =
    let r = offer_sets dc_bpt_set 0 config.dc_bpt_parameter_list o.dc_bpt_parameter_list in
    record { offered = record o { dc_bpt_parameter_list = r.0 }; sets = r.1 }

unfoldable pub offer_mcs : SessionConfig → OfferedServices → Offer
unfolding offer_sets mcs_set
offer_mcs config o =
    let r = offer_sets mcs_set 0 config.mcs_parameter_list o.mcs_parameter_list in
    record { offered = record o { mcs_parameter_list = r.0 }; sets = r.1 }

unfoldable pub offer_mcs_bpt : SessionConfig → OfferedServices → Offer
unfolding offer_sets mcs_bpt_set
offer_mcs_bpt config o =
    let r = offer_sets mcs_bpt_set 0 config.mcs_bpt_parameter_list o.mcs_bpt_parameter_list in
    record { offered = record o { mcs_bpt_parameter_list = r.0 }; sets = r.1 }

unfoldable pub offer_internet : SessionConfig → OfferedServices → Offer
unfolding offer_internet_sets
offer_internet config o =
    let r = offer_internet_sets 0 config.internet_parameter_list o.internet_parameter_list in
    record { offered = record o { internet_parameter_list = r.0 }; sets = r.1 }

unfoldable pub offer_parking : SessionConfig → OfferedServices → Offer
unfolding offer_sets parking_set
offer_parking config o =
    let r = offer_sets parking_set 0 config.parking_parameter_list o.parking_parameter_list in
    record { offered = record o { parking_parameter_list = r.0 }; sets = r.1 }

-- The branches over the ids of the services; another service has no parameters.
unfoldable pub offer_parameters : SessionConfig → ℕ → OfferedServices → Offer
unfolding offer_sets offer_der_sets offer_internet_sets ac_set ac_bpt_set dc_set dc_bpt_set mcs_set
    mcs_bpt_set parking_set
offer_parameters config service o =
    if service == 1
    then offer_ac config o
    else if service == 5
    then offer_ac_bpt config o
    else if service == 10
    then offer_ac_der config o
    else if service == 2
    then offer_dc config o
    else if service == 6
    then offer_dc_bpt config o
    else if service == 8
    then offer_mcs config o
    else if service == 9
    then offer_mcs_bpt config o
    else if service == 65
    then offer_internet config o
    else if service == 66
    then offer_parking config o
    else record { offered = o; sets = [] }

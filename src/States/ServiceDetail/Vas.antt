-- ===== src/States/ServiceDetail/Vas.antt =====
-- src/iso15118/d20/state/service_detail.cpp: the parameters of a value added service, which a callback
-- gives. Those of the services Internet and ParkingStatus replace the configured ones.
use Prim.Native.String.{String}
use text.Mathlib.Text.{◌==◌ as str_eq}
use libiso.Prelude.{
  ℕ, Bool, Option, none, some, List, [], ◌∷◌, ◌==◌, if◌then◌else◌, contains, ◌>>=◌,
}
use libiso.Message.{Protocol, Port, Parameter, ParameterValue, ParameterSet}
use libiso.Session.{InternetParameterList, ParkingParameterList}
use libiso.Config.{SessionConfig}
use libiso.Context.{Env, Context, Feedback, call}

-- Port 0, which no enumerator has, is `none`; Ftp is 0.
abbrev pub internet_parameter : ℕ → InternetParameterList
internet_parameter id =
    if id == 1
    then record { port = some Port.port20; protocol = Protocol.ftp }
    else if id == 2
    then record { port = some Port.port21; protocol = Protocol.ftp }
    else if id == 3
    then record { port = some Port.port80; protocol = Protocol.http }
    else if id == 4
    then record { port = some Port.port443; protocol = Protocol.https }
    else record { port = none; protocol = Protocol.ftp }

unfoldable pub fill_internet_parameter_list : List ParameterSet → List InternetParameterList
fill_internet_parameter_list [] = []
fill_internet_parameter_list (p ∷ ps) = internet_parameter p.id ∷ fill_internet_parameter_list ps

abbrev set_parking : String → ℕ → ParkingParameterList → ParkingParameterList
set_parking name v p =
    if str_eq name "IntendedService"
    then record p { intended_service = v }
    else if str_eq name "ParkingStatusType"
    then record p { parking_status = v }
    else p

-- The loop over the parameters of a set. `none` is the exception of a value of another type.
unfoldable pub parking_parameter :
    List Parameter → ParkingParameterList → Option ParkingParameterList
parking_parameter [] p = some p
parking_parameter (q ∷ qs) p = elim q.value [
  | ParameterValue.int_value v ↦ parking_parameter qs (set_parking q.name v p)
  | _ ↦ none
]

unfoldable pub fill_parking_parameter_list : List ParameterSet → Option (List ParkingParameterList)
unfolding parking_parameter
fill_parking_parameter_list [] = some []
fill_parking_parameter_list (s ∷ ss) = do
  p ← parking_parameter s.parameter (record { intended_service = 0; parking_status = 0 })
  ps ← fill_parking_parameter_list ss
  some (p ∷ ps)

-- What is left of the parameters, and the context with the configuration.
pub record VasParameters : Type 0 where
  pub custom : Option (List ParameterSet)
  pub ctx : Context

abbrev with_config : (SessionConfig → SessionConfig) → Context → Context
with_config f c = record c { session_config = f c.session_config }

unfoldable pub use_vas_parameters : ℕ → Option (List ParameterSet) → Context → Option VasParameters
unfolding fill_internet_parameter_list fill_parking_parameter_list
use_vas_parameters service none c = some (record { custom = none; ctx = c })
use_vas_parameters service (some sets) c =
    if service == 65
    then some (record {
      custom = none;
      ctx =
          with_config
            (λ config. record config {
              internet_parameter_list = fill_internet_parameter_list sets;
            })
            c;
    })
    else if service == 66
    then (fill_parking_parameter_list sets >>= λ l. some (record {
      custom = none;
      ctx = with_config (λ config. record config { parking_parameter_list = l }) c;
    }))
    else some (record { custom = some sets; ctx = c })

-- The ids of the energy services are 1 to 10.
abbrev pub is_energy_service : ℕ → Bool
is_energy_service service = contains (1 ∷ 2 ∷ 3 ∷ 4 ∷ 5 ∷ 6 ∷ 7 ∷ 8 ∷ 9 ∷ 10 ∷ []) service

unfoldable pub get_vas_parameters : Env → ℕ → Context → Option VasParameters
unfolding use_vas_parameters call
get_vas_parameters env service c =
    if is_energy_service service
    then some (record { custom = none; ctx = c })
    else use_vas_parameters service (env.get_vas_parameters service)
        (call (Feedback.get_vas_parameters service) c)

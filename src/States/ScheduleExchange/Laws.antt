-- ===== src/States/ScheduleExchange/Laws.antt =====
-- src/iso15118/d20/state/schedule_exchange.cpp: the schedule that is answered.
use libiso.Prelude.{ℕ, Bool, true, false, some, ◌≡◌, bytes_eq, arith}
use libiso.Message.{
  ResponseCode, RationalNumber, ScheduleReqControlMode, ScheduleResControlMode,
  ScheduleExchangeRequest,
}
use libiso.Session.{Session}
use libiso.Session.Modes.{is_scheduled, is_dynamic}
use libiso.Config.{UpdateDynamicModeParameters}
use libiso.Context.{Env}
use libiso.Context.Header.{setup_header}
use libiso.States.ScheduleExchange.{handle_request, control_mode_for}

-- The control mode that a session has selected, as a request and its response carry it.
abbrev pub IsAgreed : Session → ScheduleReqControlMode → ScheduleResControlMode → Type 0
IsAgreed s (ScheduleReqControlMode.scheduled _) (ScheduleResControlMode.scheduled _) =
    is_scheduled s.selected_services.selected_control_mode ≡ true
IsAgreed s (ScheduleReqControlMode.dynamic _) (ScheduleResControlMode.dynamic _) =
    is_dynamic s.selected_services.selected_control_mode ≡ true
IsAgreed s _ _ = true ≡ false

-- A control mode is answered only if the session has selected the one of the request, and it is that
-- one.
control_mode_for-IsAgreed :
    (env : Env) (s : Session) (max_power : RationalNumber) (p : UpdateDynamicModeParameters)
    (timestamp : ℕ) (mode : ScheduleReqControlMode) (answered : ScheduleResControlMode)
    → control_mode_for env s.selected_services max_power p timestamp mode ≡ some answered
    → IsAgreed s mode answered
unfolding control_mode_for
control_mode_for-IsAgreed env s max_power p timestamp (ScheduleReqControlMode.scheduled _)
      (ScheduleResControlMode.scheduled _) h =
    ground arith
control_mode_for-IsAgreed env s max_power p timestamp (ScheduleReqControlMode.scheduled _)
      (ScheduleResControlMode.dynamic _) h =
    ground arith
control_mode_for-IsAgreed env s max_power p timestamp (ScheduleReqControlMode.dynamic _)
      (ScheduleResControlMode.scheduled _) h =
    ground arith
control_mode_for-IsAgreed env s max_power p timestamp (ScheduleReqControlMode.dynamic _)
      (ScheduleResControlMode.dynamic _) h =
    ground arith

-- A response without an error answers a request of the session before its timeout, in the control
-- mode of the request, which is the one that the session has selected.
pub handle_request-IsAgreed :
    (env : Env) (req : ScheduleExchangeRequest) (s : Session) (max_power : RationalNumber)
    (p : UpdateDynamicModeParameters) (timeout_reached : Bool)
    → (handle_request env req s max_power p timeout_reached).response_code ≡ ResponseCode.ok
    → (bytes_eq s.id req.header.session_id ≡ true)
      × (timeout_reached ≡ false)
      × IsAgreed s req.control_mode
          (handle_request env req s max_power p timeout_reached).control_mode
unfolding handle_request
handle_request-IsAgreed env req s max_power p timeout_reached h = ground (
  arith,
  control_mode_for-IsAgreed env s max_power p (setup_header env s).timestamp req.control_mode,
)

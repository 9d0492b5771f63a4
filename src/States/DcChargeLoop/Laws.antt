-- ===== src/States/DcChargeLoop/Laws.antt =====
-- src/iso15118/d20/state/dc_charge_loop.cpp: which requests of the loop are answered, and with what.
use libiso.Prelude.{
  ℕ, Bool, true, false, not, ◌&&◌, Option, none, some, ◌≡◌, refl, bytes_eq, arith, if◌then◌else◌,
}
use libiso.Message.{
  ControlMode, EvseStatus, EvseNotification, ResponseCode, DcReqControlMode, DcResControlMode,
  DcChargeLoopRequest,
}
use libiso.Session.{Session, SelectedServiceParameters}
use libiso.Session.Modes.{is_scheduled, is_dynamic}
use libiso.Config.{Float, DcTransferLimits, UpdateDynamicModeParameters}
use libiso.Context.{Env}
use libiso.Context.Header.{setup_header}
use libiso.States.DcChargeLoop.{handle_request, evse_status}
use libiso.States.DcChargeLoop.Modes.{control_mode_for, is_plain, is_bpt}

-- The mode of a request and that of its response are the same, and the one that was selected with a
-- service of its kind.
abbrev pub is_agreed : SelectedServiceParameters → DcReqControlMode → DcResControlMode → Bool
is_agreed s (DcReqControlMode.scheduled _) (DcResControlMode.scheduled _) =
    is_scheduled s.selected_control_mode && is_plain s
is_agreed s (DcReqControlMode.bpt_scheduled _) (DcResControlMode.bpt_scheduled _) =
    is_scheduled s.selected_control_mode && is_bpt s
is_agreed s (DcReqControlMode.dynamic _) (DcResControlMode.dynamic _) =
    is_dynamic s.selected_control_mode && is_plain s
is_agreed s (DcReqControlMode.bpt_dynamic _) (DcResControlMode.bpt_dynamic _) =
    is_dynamic s.selected_control_mode && is_bpt s
is_agreed s _ _ = false

control_mode_for-is_agreed :
    (s : SelectedServiceParameters) (l : DcTransferLimits) (p : UpdateDynamicModeParameters)
    (timestamp : ℕ) (mode : DcReqControlMode) (answered : DcResControlMode)
    → control_mode_for s l p timestamp mode ≡ some answered
    → is_agreed s mode answered ≡ true
unfolding control_mode_for
control_mode_for-is_agreed s l p timestamp (DcReqControlMode.scheduled _) answered h = ground arith
control_mode_for-is_agreed s l p timestamp (DcReqControlMode.bpt_scheduled _) answered h =
    ground arith
control_mode_for-is_agreed s l p timestamp (DcReqControlMode.dynamic _) answered h = ground arith
control_mode_for-is_agreed s l p timestamp (DcReqControlMode.bpt_dynamic _) answered h =
    ground arith

-- What a charger asks of an EV, in a loop of AC too: to terminate, whatever else it asks for; else to
-- pause, within 60 seconds in dynamic mode and at once in another; else nothing.
abbrev pub asked_status : (stop pause : Bool) → Option ControlMode → Option EvseStatus
asked_status stop pause m =
    if stop
    then some (record { notification_max_delay = 0; notification = EvseNotification.terminate })
    else if not pause
    then none
    else elim m [
      | some ControlMode.dynamic ↦
          some (record { notification_max_delay = 60; notification = EvseNotification.pause })
      | _ ↦ some (record { notification_max_delay = 0; notification = EvseNotification.pause })
    ]

pub evse_status-asked_status :
    (stop pause : Bool) (m : Option ControlMode)
    → evse_status stop pause m ≡ asked_status stop pause m
unfolding evse_status
evse_status-asked_status true pause m = refl
evse_status-asked_status false false m = refl
evse_status-asked_status false true none = refl
evse_status-asked_status false true (some ControlMode.scheduled) = refl
evse_status-asked_status false true (some ControlMode.dynamic) = refl

-- A response of the DC loop without an error answers a request of the session in the mode of the
-- request, which the session has selected with a service of its kind. Its status is to terminate if
-- the charger asks to stop, else to pause if it asks for that, within 60 seconds in dynamic mode
-- and at once in another, else none.
pub handle_request-is_agreed :
    (env : Env) (req : DcChargeLoopRequest) (s : Session) (voltage current : Float)
    (stop pause : Bool) (limits : DcTransferLimits) (p : UpdateDynamicModeParameters)
    → (handle_request env req s voltage current stop pause limits p).response_code ≡ ResponseCode.ok
    → let res = handle_request env req s voltage current stop pause limits p in
      (bytes_eq s.id req.header.session_id ≡ true)
      × (is_agreed s.selected_services req.control_mode res.control_mode ≡ true)
      × (res.status ≡ asked_status stop pause s.selected_services.selected_control_mode)
unfolding handle_request
handle_request-is_agreed env req s voltage current stop pause limits p h = ground (
  arith,
  control_mode_for-is_agreed s.selected_services limits p (setup_header env s).timestamp
      req.control_mode,
)

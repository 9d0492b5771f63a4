-- ===== src/States/AcChargeLoop/Laws.antt =====
-- src/iso15118/d20/state/ac_charge_loop.cpp: which requests of the loop are answered, and with what.
use libiso.Prelude.{
  ℕ, Bool, true, false, not, ◌&&◌, ◌≡◌, refl, ◌∙◌, ap, sym, bytes_eq, arith, if◌then◌else◌,
}
use libiso.Message.{
  ResponseCode, Header, RationalNumber, ServiceCategory, AcReqControlMode, AcResControlMode,
  AcChargeLoopRequest,
}
use libiso.Session.{Session, SelectedServiceParameters}
use libiso.Session.Modes.{selects, is_scheduled, is_dynamic}
use libiso.Floats.{Float}
use libiso.Config.{AcTransferLimits, AcTargetPower, AcPresentPower, UpdateDynamicModeParameters}
use libiso.AcDer.{AcDerControlProvider, AcDerControlFailureReason}
use libiso.Context.{Env}
use libiso.Context.Header.{setup_header}
use libiso.States.DerControl.{check_der}
use libiso.States.AcChargeLoop.{
  AcChargeLoop, AcChargeLoopResult, failed_with, answer_mode, handle_request_with_diagnostics,
}
use libiso.States.AcChargeLoop.Modes.{ModeOutcome, control_mode_for}
use libiso.States.DcChargeLoop.{evse_status}
use libiso.States.DcChargeLoop.Laws.{asked_status, evse_status-asked_status}

-- The mode of a request and that of its response are the same, and the one that was selected with the
-- service of its kind.
abbrev pub is_agreed : SelectedServiceParameters → AcReqControlMode → AcResControlMode → Bool
is_agreed s (AcReqControlMode.scheduled _) (AcResControlMode.scheduled _) =
    is_scheduled s.selected_control_mode && selects s.selected_energy_service ServiceCategory.ac
is_agreed s (AcReqControlMode.bpt_scheduled _) (AcResControlMode.bpt_scheduled _) =
    is_scheduled s.selected_control_mode && selects s.selected_energy_service ServiceCategory.ac_bpt
is_agreed s (AcReqControlMode.der_scheduled _) (AcResControlMode.der_scheduled _) =
    is_scheduled s.selected_control_mode && selects s.selected_energy_service ServiceCategory.ac_der
is_agreed s (AcReqControlMode.dynamic _) (AcResControlMode.dynamic _) =
    is_dynamic s.selected_control_mode && selects s.selected_energy_service ServiceCategory.ac
is_agreed s (AcReqControlMode.bpt_dynamic _) (AcResControlMode.bpt_dynamic _) =
    is_dynamic s.selected_control_mode && selects s.selected_energy_service ServiceCategory.ac_bpt
is_agreed s (AcReqControlMode.der_dynamic _) (AcResControlMode.der_dynamic _) =
    is_dynamic s.selected_control_mode && selects s.selected_energy_service ServiceCategory.ac_der
is_agreed s _ _ = false

control_mode_for-is_agreed :
    (value_of : RationalNumber → Float) (s : SelectedServiceParameters) (l : AcTransferLimits)
    (t : AcTargetPower) (p : AcPresentPower) (d : UpdateDynamicModeParameters) (timestamp : ℕ)
    (provider : AcDerControlProvider) (mode : AcReqControlMode) (answered : AcResControlMode)
    → control_mode_for value_of s l t p d timestamp provider mode ≡ ModeOutcome.mode answered
    → is_agreed s mode answered ≡ true
unfolding control_mode_for check_der
control_mode_for-is_agreed value_of s l t p d timestamp provider (AcReqControlMode.scheduled _)
      answered h =
    ground arith
control_mode_for-is_agreed value_of s l t p d timestamp provider (AcReqControlMode.bpt_scheduled _)
      answered h =
    ground arith
control_mode_for-is_agreed value_of s l t p d timestamp provider (AcReqControlMode.der_scheduled _)
      answered h =
    ground arith
control_mode_for-is_agreed value_of s l t p d timestamp provider (AcReqControlMode.dynamic _)
      answered h =
    ground arith
control_mode_for-is_agreed value_of s l t p d timestamp provider (AcReqControlMode.bpt_dynamic _)
      answered h =
    ground arith
control_mode_for-is_agreed value_of s l t p d timestamp provider (AcReqControlMode.der_dynamic _)
      answered h =
    ground arith

answered_in_session :
    (known : Bool) (h : Header) (r : AcChargeLoopResult)
    → let unknown =
        failed_with h ResponseCode.failed_unknown_session AcDerControlFailureReason.no_failure in
      (if not known then unknown else r).response.response_code ≡ ResponseCode.ok
      → (known ≡ true) × ((if not known then unknown else r) ≡ r)
answered_in_session true h r e = (refl, refl)
answered_in_session false h r e = absurd (ground arith)

answer_mode-is_agreed :
    (env : Env) (h : Header) (s : SelectedServiceParameters) (loop : AcChargeLoop)
    (mode : AcReqControlMode) (o : ModeOutcome)
    → ((answered : AcResControlMode)
        → o ≡ ModeOutcome.mode answered
        → is_agreed s mode answered ≡ true)
    → let res = (answer_mode env h s loop o).response in
      res.response_code ≡ ResponseCode.ok
      → (is_agreed s mode (answer_mode env h s loop o).response.control_mode ≡ true)
        × ((answer_mode env h s loop o).response.status
            ≡ evse_status loop.stop loop.pause s.selected_control_mode)
unfolding answer_mode
answer_mode-is_agreed env h s loop mode (ModeOutcome.failed reason) f e = absurd (ground arith)
answer_mode-is_agreed env h s loop mode (ModeOutcome.mode m) f e = (f m refl, refl)

-- A response of the AC loop without an error answers a request of the session in the mode of the
-- request, which the session has selected with the service of its kind. Its status is to terminate
-- if the charger asks to stop, else to pause if it asks for that, within 60 seconds in dynamic mode
-- and at once in another, else none.
pub handle_request_with_diagnostics-is_agreed :
    (env : Env) (req : AcChargeLoopRequest) (s : Session) (loop : AcChargeLoop)
    (limits : AcTransferLimits) (provider : AcDerControlProvider)
    → (handle_request_with_diagnostics env req s loop limits provider).response.response_code
      ≡ ResponseCode.ok
    → let res = (handle_request_with_diagnostics env req s loop limits provider).response in
      (bytes_eq s.id req.header.session_id ≡ true)
      × (is_agreed s.selected_services req.control_mode res.control_mode ≡ true)
      × (res.status ≡ asked_status loop.stop loop.pause s.selected_services.selected_control_mode)
unfolding handle_request_with_diagnostics
handle_request_with_diagnostics-is_agreed env req s loop limits provider h =
    let hd = setup_header env s in
    let selected = s.selected_services in
    let outcome =
      control_mode_for env.from_rational selected limits loop.target_powers loop.present_powers
        loop.dynamic_parameters hd.timestamp provider req.control_mode in
    let (known, same) =
      answered_in_session (bytes_eq s.id req.header.session_id) hd
        (answer_mode env hd selected loop outcome) h in
    let (agreed, status) =
      answer_mode-is_agreed env hd selected loop req.control_mode outcome
        (control_mode_for-is_agreed env.from_rational selected limits loop.target_powers
          loop.present_powers loop.dynamic_parameters hd.timestamp provider req.control_mode)
        (ap (λ r. r.response.response_code) (sym same) ∙ h) in
    (
      known,
      ap (λ r. is_agreed selected req.control_mode r.response.control_mode) same ∙ agreed,
      ap (λ r. r.response.status) same
          ∙ status
          ∙ evse_status-asked_status loop.stop loop.pause selected.selected_control_mode,
    )

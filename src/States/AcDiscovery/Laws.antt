-- ===== src/States/AcDiscovery/Laws.antt =====
-- src/iso15118/d20/state/ac_charge_parameter_discovery.cpp: the controls that are sent for AC DER.
use libiso.Prelude.{Bool, true, false, not, ◌≡◌, refl, ◌∙◌, ap, sym, arith, bytes_eq, if◌then◌else◌}
use libiso.Message.{
  ResponseCode, Header, ServiceCategory, DerControlFunctions, DerAcCpdReqEnergyTransferMode,
  DerAcCpdResEnergyTransferMode, AcReqTransferMode, AcResTransferMode,
  AcChargeParameterDiscoveryRequest,
}
use libiso.Session.{Session}
use libiso.Session.Modes.{selects}
use libiso.Config.{AcTransferLimits, AcPresentPower}
use libiso.AcDer.{AcDerControlConfig, AcDerControlFailureReason, AcDerControlProvider}
use libiso.Context.{Env}
use libiso.Context.Header.{setup_header}
use libiso.States.DerControl.{DerOutcome, check_der}
use libiso.States.DerControl.Laws.{IsGranted, check_der-IsGranted}
use libiso.States.AcDiscovery.{
  AcDiscoveryResult, failed_with, der_result, convert_der, discover,
  handle_request_with_diagnostics,
}

-- A response without an error comes from a configuration that was granted.
der_result-granted :
    (h : Header) (l : AcTransferLimits) (p : AcPresentPower) (o : DerOutcome)
    → (der_result h l p o).response.response_code ≡ ResponseCode.ok
    → (controls : DerControlFunctions) × (config : AcDerControlConfig) × (o
        ≡ DerOutcome.granted controls config)
      × ((der_result h l p o).response.transfer_mode
          ≡ AcResTransferMode.der (convert_der l p config.cpd_control))
unfolding der_result
der_result-granted h l p (DerOutcome.refused reason) e = absurd (ground arith)
der_result-granted h l p (DerOutcome.granted controls config) e = (controls, config, refl, refl)

answered_in_session :
    (known : Bool) (h : Header) (r : AcDiscoveryResult)
    → let unknown =
        failed_with h ResponseCode.failed_unknown_session AcDerControlFailureReason.no_failure in
      (if not known then unknown else r).response.response_code ≡ ResponseCode.ok
      → (known ≡ true) × ((if not known then unknown else r) ≡ r)
answered_in_session true h r e = (refl, refl)
answered_in_session false h r e = absurd (ground arith)

sent_controls :
    (l : AcTransferLimits) (p : AcPresentPower) (config : AcDerControlConfig)
    (m : AcResTransferMode)
    → m ≡ AcResTransferMode.der (convert_der l p config.cpd_control)
    → (out : DerAcCpdResEnergyTransferMode) × (m ≡ AcResTransferMode.der out)
      × (out.der_control ≡ config.cpd_control)
      × (out.max_charge_power ≡ l.charge_power.max)
      × (out.min_charge_power ≡ l.charge_power.min)
unfolding convert_der
sent_controls l p config m e = (convert_der l p config.cpd_control, e, refl, refl, refl)

-- A response without an error to a request for AC DER answers a request of the session. It sends
-- the whole control of a configuration that the provider has answered for the selection of the
-- session and that passes its validation, with the configured maximum and minimum of the charge
-- power; the selected control functions contain the mandatory ones.
pub handle_request_with_diagnostics-IsGranted :
    (env : Env) (req : AcChargeParameterDiscoveryRequest) (s : Session) (l : AcTransferLimits)
    (p : AcPresentPower) (provider : AcDerControlProvider) (mode : DerAcCpdReqEnergyTransferMode)
    → req.transfer_mode ≡ AcReqTransferMode.der mode
    → (handle_request_with_diagnostics env req s l p provider).response.response_code
      ≡ ResponseCode.ok
    → (bytes_eq s.id req.header.session_id ≡ true)
      × (controls : DerControlFunctions) × (config : AcDerControlConfig) × IsGranted
          env.from_rational provider s.selected_services
          (selects s.selected_services.selected_energy_service ServiceCategory.ac_der)
          controls
          config
      × (out : DerAcCpdResEnergyTransferMode) × ((handle_request_with_diagnostics env req s l p
            provider).response.transfer_mode
          ≡ AcResTransferMode.der out)
      × (out.der_control ≡ config.cpd_control)
      × (out.max_charge_power ≡ l.charge_power.max)
      × (out.min_charge_power ≡ l.charge_power.min)
unfolding handle_request_with_diagnostics
handle_request_with_diagnostics-IsGranted env req s l p provider mode e h =
    let hd = setup_header env s in
    let selected = s.selected_services in
    let o =
      check_der env.from_rational provider selected
        (selects selected.selected_energy_service ServiceCategory.ac_der) in
    let (known, same) =
      answered_in_session (bytes_eq s.id req.header.session_id) hd
        (discover env.from_rational hd l p provider selected req.transfer_mode) h in
    let whole = same ∙ ap (discover env.from_rational hd l p provider selected) e in
    let (controls, config, granted, sent) =
      der_result-granted hd l p o (ap (λ r. r.response.response_code) (sym whole) ∙ h) in
    let (out, carried, control, maximum, minimum) =
      sent_controls l p config _ (ap (λ r. r.response.transfer_mode) whole ∙ sent) in
    (
      known,
      controls,
      config,
      check_der-IsGranted env.from_rational provider selected
          (selects selected.selected_energy_service ServiceCategory.ac_der) controls config granted,
      out,
      carried,
      control,
      maximum,
      minimum,
    )

-- ===== src/States/DerControl/Laws.antt =====
-- The AC DER checks that src/iso15118/d20/state/ac_charge_parameter_discovery.cpp and ac_charge_loop.cpp
-- share: for what a configuration is granted.
use libiso.Prelude.{Bool, true, some, ◌≡◌, arith}
use libiso.Message.{DerControlFunctions, RationalNumber}
use libiso.Floats.{Float}
use libiso.Session.{SelectedServiceParameters}
use libiso.AcDer.{AcDerControlConfig, AcDerControlProvider, has_required_ac_der_control_functions}
use libiso.AcDer.Validation.{validate_ac_der_control_config}
use libiso.States.DerControl.{DerOutcome, check_der, provider_context}

-- What is known of a configuration that is granted for the selection of a session.
abbrev pub IsGranted :
    (RationalNumber → Float)
    → AcDerControlProvider
    → SelectedServiceParameters
    → Bool
    → DerControlFunctions
    → AcDerControlConfig
    → Type 0
IsGranted value_of provider s matches controls config =
    (matches ≡ true)
    × (s.selected_der_control_functions ≡ some controls)
    × (has_required_ac_der_control_functions controls ≡ true)
    × ((provider (provider_context s)).config ≡ some config)
    × (validate_ac_der_control_config value_of config controls ≡ true)

pub check_der-IsGranted :
    (value_of : RationalNumber → Float) (provider : AcDerControlProvider)
    (s : SelectedServiceParameters) (matches : Bool) (controls : DerControlFunctions)
    (config : AcDerControlConfig)
    → check_der value_of provider s matches ≡ DerOutcome.granted controls config
    → IsGranted value_of provider s matches controls config
unfolding check_der
check_der-IsGranted value_of provider s matches controls config h = ground arith

-- ===== src/States/Machine/Transitions/Allowed.antt =====
-- The states that may follow one in src/iso15118/d20/state, of what the one hands over.
use libiso.Prelude.{◌≡◌, Bool, true, Option, none, some}
use libiso.Session.{Session}
use libiso.Context.{StateId, Fed}
use libiso.States.Machine.Order.{follows}

abbrev pub allowed : Session → StateId → Option StateId → Bool
allowed s a none = true
allowed s a (some b) = follows s a b

abbrev pub IsAllowed : {S : Type 0} → StateId → Option (Fed S) → Type 0
IsAllowed a none = Unit {0}
IsAllowed a (some f) = allowed f.ctx.session a f.result.new_state ≡ true

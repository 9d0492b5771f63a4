-- ===== src/States/ServiceDetail/Laws.antt =====
-- src/iso15118/d20/state/service_detail.cpp: the ids under which parameter sets are offered.
use libiso.Prelude.{ℕ, zero, suc, Option, none, some, List, [], ◌∷◌}
use libiso.Session.{Session}

abbrev pub nth {ℓ} : {A : Type ℓ} → List A → ℕ → Option A
nth [] i = none
nth (x ∷ xs) zero = some x
nth (x ∷ xs) (suc i) = nth xs i

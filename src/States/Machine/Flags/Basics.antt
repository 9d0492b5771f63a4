-- ===== src/States/Machine/Flags/Basics.antt =====
-- The flags `session_stopped` and `session_paused` of a context that is changed in steps.
use libiso.Prelude.{
  ◌≡◌, refl, Bool, true, false, Option, none, some, if◌then◌else◌, inl, inr, Option-cases,
}
use libiso.Message.{Message}
use libiso.Exchange.{pull_request}
use libiso.Context.{Context, Fed, with_request}

-- The flags that are set stay set.
pub record IsStopping (c c' : Context) : Type 0 where
  pub stopped : c.session_stopped ≡ true → c'.session_stopped ≡ true
  pub paused : c.session_paused ≡ true → c'.session_paused ≡ true

abbrev pub AllStopping : {S : Type 0} → Context → Option (Fed S) → Type 0
AllStopping c none = Unit {0}
AllStopping c (some f) = IsStopping c f.ctx

pub IsStopping-refl : (c : Context) → IsStopping c c
IsStopping-refl c = record { stopped = λ h. h; paused = λ h. h }

pub IsStopping-trans : {c d e : Context} → IsStopping c d → IsStopping d e → IsStopping c e
IsStopping-trans h k = record {
  stopped = λ e. k.stopped (h.stopped e);
  paused = λ e. k.paused (h.paused e);
}

pub AllStopping-from :
    {S : Type 0} {c d : Context} (r : Option (Fed S))
    → IsStopping c d
    → AllStopping d r
    → AllStopping c r
AllStopping-from none h k = tt
AllStopping-from (some f) h k = IsStopping-trans h k

pub kept :
    {c d : Context}
    → d.session_stopped ≡ c.session_stopped
    → d.session_paused ≡ c.session_paused
    → IsStopping c d
kept e k = record { stopped = λ h. rw (e, h) refl; paused = λ h. rw (k, h) refl }

-- The fields of a context that one of two branches has made.
pub branch_stopped :
    (b : Bool) (x y : Context)
    → x.session_stopped ≡ y.session_stopped
    → (if b then x else y).session_stopped ≡ y.session_stopped
branch_stopped true x y e = e
branch_stopped false x y e = refl

pub branch_paused :
    (b : Bool) (x y : Context)
    → x.session_paused ≡ y.session_paused
    → (if b then x else y).session_paused ≡ y.session_paused
branch_paused true x y e = e
branch_paused false x y e = refl

-- Handling a request that waits.
pub delivered :
    {S : Type 0} (c : Context) (k : Message → Context → Fed S)
    → ((m : Message) (d : Context) → IsStopping d (k m d).ctx)
    → AllStopping c (with_request c k)
unfolding with_request
delivered c k h = elim (Option-cases c.message_exchange.request) [
  | inl idle ↦ rw (idle, pull_request) tt
  | inr (m, waiting) ↦ rw (waiting, pull_request) (IsStopping-trans (kept refl refl) (h m _))
]

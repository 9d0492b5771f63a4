-- ===== src/States/Machine/Flags/Services.antt =====
-- The flags of the context, over the states of src/iso15118/d20/state that answer for services.
use libiso.Prelude.{
  refl, Bool, true, false, Option, none, some, inl, inr, Option-cases, Bool-cases, arith, ℕ, List,
}
use libiso.Message.{
  Message, ParameterSet, ServiceDetailRequest, ServiceSelectionResponse, VasSelectedService,
}
use libiso.Exchange.{pull_request}
use libiso.Context.{Env, Context, Event, Feedback, Fed, call, try_request}
use libiso.States.Machine.Flags.Basics.{
  IsStopping, AllStopping, AllStopping-from, IsStopping-refl, IsStopping-trans, kept,
  branch_stopped, branch_paused,
}
use libiso.States.ServiceDetail
use libiso.States.ServiceDetail.Vas.{
  VasParameters, use_vas_parameters, get_vas_parameters, fill_parking_parameter_list,
  is_energy_service,
}
use libiso.States.ServiceSelection
use libiso.States.ServiceSelection.{is_ok}

abbrev VasKept : Context → Option VasParameters → Type 0
VasKept c none = Unit {0}
VasKept c (some v) = IsStopping c v.ctx

vas_used :
    (service : ℕ) (sets : Option (List ParameterSet)) (c : Context)
    → VasKept c (use_vas_parameters service sets c)
unfolding use_vas_parameters
vas_used service none c = IsStopping-refl c
vas_used service (some sets) c = elim (Option-cases (fill_parking_parameter_list sets)) [
  | inl h ↦ ground arith
  | inr (l, h) ↦ ground arith
]

VasKept-from :
    {c d : Context} (o : Option VasParameters) → IsStopping c d → VasKept d o → VasKept c o
VasKept-from none h k = tt
VasKept-from (some v) h k = IsStopping-trans h k

vas_given : (env : Env) (service : ℕ) (c : Context) → VasKept c (get_vas_parameters env service c)
unfolding get_vas_parameters
vas_given env service c = elim (Bool-cases (is_energy_service service)) [
  | inl h ↦ rw h (IsStopping-refl c)
  | inr h ↦ rw h (
      VasKept-from _ (kept refl refl) (
        vas_used service (env.get_vas_parameters service)
          (call (Feedback.get_vas_parameters service) c)))
]

abbrev Answered : Context → Option (Bool × Context) → Type 0
Answered c none = Unit {0}
Answered c (some (failed, d)) = IsStopping c d

answer-Answered :
    (env : Env) (req : ServiceDetailRequest) (c : Context)
    → Answered c (ServiceDetail.answer env req c)
unfolding ServiceDetail.answer
answer-Answered env req c = elim (Option-cases (get_vas_parameters env req.service c)) [
  | inl h ↦ rw h tt
  | inr (v, h) ↦ rw h (IsStopping-trans (rw h at (vas_given env req.service c)) (kept refl refl))
]

tried :
    {S : Type 0} (c : Context) (k : Message → Context → Option (Fed S))
    → ((m : Message) (d : Context) → AllStopping d (k m d))
    → AllStopping c (try_request c k)
unfolding try_request
tried c k h = elim (Option-cases c.message_exchange.request) [
  | inl idle ↦ rw (idle, pull_request) tt
  | inr (m, waiting) ↦
      rw (waiting, pull_request) (AllStopping-from (k m _) (kept refl refl) (h m _))
]

detail_message :
    (env : Env) (s : Unit {0}) (m : Message) (c : Context)
    → AllStopping c (ServiceDetail.on_message env s m c)
unfolding ServiceDetail.on_message
detail_message env s (Message.service_detail req) c =
    elim (Option-cases (ServiceDetail.answer env req c)) [
      | inl h ↦ rw h tt
      | inr ((true, d), h) ↦ rw h (
          IsStopping-trans (rw h at (answer-Answered env req c))
            (record { stopped = λ _. refl; paused = λ e. e }))
      | inr ((false, d), h) ↦ rw h (rw h at (answer-Answered env req c))
    ]
detail_message env s _ c = ground arith

pub service_detail :
    (env : Env) (ev : Event) (s : Unit {0}) (c : Context)
    → AllStopping c (ServiceDetail.feed env ev s c)
unfolding ServiceDetail.feed
service_detail env Event.v2gtp_message s c =
    tried c (ServiceDetail.on_message env s) (detail_message env s)
service_detail env _ s c = IsStopping-refl c

concluded :
    (res : ServiceSelectionResponse) (vas : Option (List VasSelectedService)) (c : Context)
    → IsStopping c (ServiceSelection.conclude res vas c).ctx
unfolding ServiceSelection.conclude
concluded res none c = ground arith
concluded res (some vs) c = ground arith

selection_message :
    (env : Env) (s : Unit {0}) (m : Message) (c : Context)
    → AllStopping c (ServiceSelection.on_message env s m c)
unfolding ServiceSelection.on_message
selection_message env s (Message.service_detail req) c =
    elim (Option-cases (ServiceDetail.answer env req c)) [
      | inl h ↦ rw h tt
      | inr ((true, d), h) ↦ rw h (
          IsStopping-trans (rw h at (answer-Answered env req c))
            (record { stopped = λ _. refl; paused = λ e. e }))
      | inr ((false, d), h) ↦ rw h (rw h at (answer-Answered env req c))
    ]
selection_message env s (Message.service_selection req) c =
    let b = is_ok (ServiceSelection.handle_request env req c.session).res.response_code in
    IsStopping-trans (kept (branch_stopped b _ _ refl) (branch_paused b _ _ refl))
      (concluded _ req.selected_vas_list _)
selection_message env s _ c = ground arith

pub service_selection :
    (env : Env) (ev : Event) (s : Unit {0}) (c : Context)
    → AllStopping c (ServiceSelection.feed env ev s c)
unfolding ServiceSelection.feed
service_selection env Event.v2gtp_message s c =
    tried c (ServiceSelection.on_message env s) (selection_message env s)
service_selection env _ s c = IsStopping-refl c

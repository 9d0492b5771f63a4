-- ===== src/States/Machine/Runs.antt =====
-- The sessions that the states of src/iso15118/d20/state make possible. Each step feeds the current
-- state an event, in any environment and with any context that the session may have by then.
use libiso.Prelude.{
  ◌≡◌, ◌≤◌, refl, sym, subst, Bool, true, false, ◌||◌, Option, none, some, List, [], ◌∷◌, length,
  arith, some-injective,
}
use libiso.Session.{Session}
use libiso.Context.{Env, Context, Event, StateId, Fed}
use libiso.States.Machine.{State, create, feed, into}
use libiso.States.Machine.Order.{Follows, rank, rank-Follows, rank_bound}
use libiso.States.Machine.Transitions.{id_of, feed-Follows}

-- A session in the abstract order: the states that it has left, the latest first, and the current one.
pub data Course : List StateId → StateId → Type 0 where
  here : Course [] StateId.supported_app_protocol
  next :
      {ids : List StateId} {a b : StateId} {s : Session}
      → Course ids a
      → Follows s a b
      → Course (a ∷ ids) b

-- A session of the machine, with the ids of the states that it has left.
pub data Run : List StateId → State → Type 0 where
  here : Run [] State.supported_app_protocol
  stays :
      {ids : List StateId} {s : State} (env : Env) (ev : Event) (c : Context) {f : Fed State}
      → Run ids s
      → feed env ev s c ≡ some f
      → f.result.new_state ≡ none
      → Run ids f.self
  enters :
      {ids : List StateId} {s : State} (env : Env) (ev : Event) (c : Context) {f : Fed State}
      (id : StateId)
      → Run ids s
      → feed env ev s c ≡ some f
      → f.result.new_state ≡ some id
      → Run (id_of s ∷ ids) (create id f.ctx)

pub id_of-create : (id : StateId) (c : Context) → id_of (create id c) ≡ id
unfolding create
id_of-create StateId.supported_app_protocol c = refl
id_of-create StateId.session_setup c = refl
id_of-create StateId.authorization_setup c = refl
id_of-create StateId.authorization c = refl
id_of-create StateId.service_discovery c = refl
id_of-create StateId.service_detail c = refl
id_of-create StateId.service_selection c = refl
id_of-create StateId.dc_charge_parameter_discovery c = refl
id_of-create StateId.ac_charge_parameter_discovery c = refl
id_of-create StateId.schedule_exchange c = refl
id_of-create StateId.dc_cable_check c = refl
id_of-create StateId.dc_pre_charge c = refl
id_of-create StateId.power_delivery c = refl
id_of-create StateId.dc_charge_loop c = refl
id_of-create StateId.ac_charge_loop c = refl
id_of-create StateId.dc_welding_detection c = refl
id_of-create StateId.session_stop c = refl

into-id_of :
    {S : Type 0} (a : StateId) (g : S → State) (r : Option (Fed S)) (f : Fed State)
    → ((x : S) → id_of (g x) ≡ a)
    → into g r ≡ some f
    → id_of f.self ≡ a
into-id_of a g none f h e = ground arith
into-id_of a g (some r) f h e =
    subst (λ (t : Fed State). id_of t.self ≡ a) (some-injective e) (h r.self)

pub feed-id_of :
    (env : Env) (ev : Event) (s : State) (c : Context) (f : Fed State)
    → feed env ev s c ≡ some f
    → id_of f.self ≡ id_of s
unfolding feed
feed-id_of env ev State.supported_app_protocol c f e =
    into-id_of StateId.supported_app_protocol _ _ f (λ _. refl) e
feed-id_of env ev State.session_setup c f e = into-id_of StateId.session_setup _ _ f (λ _. refl) e
feed-id_of env ev State.authorization_setup c f e =
    into-id_of StateId.authorization_setup _ _ f (λ _. refl) e
feed-id_of env ev (State.authorization s) c f e =
    into-id_of StateId.authorization _ _ f (λ _. refl) e
feed-id_of env ev State.service_discovery c f e =
    into-id_of StateId.service_discovery _ _ f (λ _. refl) e
feed-id_of env ev State.service_detail c f e = into-id_of StateId.service_detail _ _ f (λ _. refl) e
feed-id_of env ev State.service_selection c f e =
    into-id_of StateId.service_selection _ _ f (λ _. refl) e
feed-id_of env ev State.dc_charge_parameter_discovery c f e =
    into-id_of StateId.dc_charge_parameter_discovery _ _ f (λ _. refl) e
feed-id_of env ev (State.ac_charge_parameter_discovery s) c f e =
    into-id_of StateId.ac_charge_parameter_discovery _ _ f (λ _. refl) e
feed-id_of env ev (State.schedule_exchange s) c f e =
    into-id_of StateId.schedule_exchange _ _ f (λ _. refl) e
feed-id_of env ev (State.dc_cable_check s) c f e =
    into-id_of StateId.dc_cable_check _ _ f (λ _. refl) e
feed-id_of env ev (State.dc_pre_charge s) c f e =
    into-id_of StateId.dc_pre_charge _ _ f (λ _. refl) e
feed-id_of env ev (State.power_delivery s) c f e =
    into-id_of StateId.power_delivery _ _ f (λ _. refl) e
feed-id_of env ev (State.dc_charge_loop s) c f e =
    into-id_of StateId.dc_charge_loop _ _ f (λ _. refl) e
feed-id_of env ev (State.ac_charge_loop s) c f e =
    into-id_of StateId.ac_charge_loop _ _ f (λ _. refl) e
feed-id_of env ev (State.dc_welding_detection s) c f e =
    into-id_of StateId.dc_welding_detection _ _ f (λ _. refl) e
feed-id_of env ev State.session_stop c f e = into-id_of StateId.session_stop _ _ f (λ _. refl) e

-- The states that a session of the machine has left, with the one that it is in, are a session of the
-- abstract order: each of them may follow the one before.
pub Run-Course : {ids : List StateId} {s : State} → Run ids s → Course ids (id_of s)
Run-Course Run.here = Course.here
Run-Course (Run.stays {ids} {s} env ev c {f} r e n) =
    subst (λ i. Course ids i) (sym (feed-id_of env ev s c f e)) (Run-Course r)
Run-Course (Run.enters {ids} {s} env ev c {f} id r e n) =
    subst (λ i. Course (id_of s ∷ ids) i) (sym (id_of-create id f.ctx))
      (Course.next (Run-Course r) (feed-Follows env ev s c e n))

Course-length : {ids : List StateId} {b : StateId} → Course ids b → length ids ≤ rank b
Course-length Course.here = omega arith
Course-length (Course.next p f) = omega (arith, Course-length p, rank-Follows f)

-- A session changes its state at most fourteen times, however long it stays in each.
pub Run-length : {ids : List StateId} {s : State} → Run ids s → length ids ≤ 14
Run-length {ids} {s} r = omega (arith, Course-length (Run-Course r), rank_bound (id_of s))

abbrev is_authorization : StateId → Bool
is_authorization StateId.authorization = true
is_authorization _ = false

abbrev is_join : StateId → StateId → Bool
is_join StateId.session_setup StateId.ac_charge_parameter_discovery = true
is_join StateId.session_setup StateId.dc_charge_parameter_discovery = true
is_join _ _ = false

-- Whether a session has left Authorization, or went from SessionSetup straight to the parameters.
abbrev pub admitted : List StateId → StateId → Bool
admitted [] b = false
admitted (a ∷ ids) b = is_authorization a || is_join a b || admitted ids a

Course-admitted :
    {ids : List StateId} {b : StateId} → Course ids b → 4 ≤ rank b → admitted ids b ≡ true
Course-admitted Course.here h = ground arith
Course-admitted (Course.next p Follows.negotiated) h = ground arith
Course-admitted (Course.next p Follows.set_up) h = ground arith
Course-admitted (Course.next p (Follows.joined_ac _)) h = refl
Course-admitted (Course.next p (Follows.joined_dc _)) h = refl
Course-admitted (Course.next p Follows.offered) h = ground arith
Course-admitted (Course.next p Follows.authorized) h = refl
Course-admitted (Course.next p Follows.discovered) h =
    ground (arith, Course-admitted p (omega arith))
Course-admitted (Course.next p Follows.detailed) h = ground (arith, Course-admitted p (omega arith))
Course-admitted (Course.next p (Follows.selected_ac _)) h =
    ground (arith, Course-admitted p (omega arith))
Course-admitted (Course.next p (Follows.selected_dc _)) h =
    ground (arith, Course-admitted p (omega arith))
Course-admitted (Course.next p Follows.limited_ac) h =
    ground (arith, Course-admitted p (omega arith))
Course-admitted (Course.next p Follows.limited_dc) h =
    ground (arith, Course-admitted p (omega arith))
Course-admitted (Course.next p (Follows.scheduled_ac _)) h =
    ground (arith, Course-admitted p (omega arith))
Course-admitted (Course.next p (Follows.scheduled_dc _)) h =
    ground (arith, Course-admitted p (omega arith))
Course-admitted (Course.next p Follows.checked) h = ground (arith, Course-admitted p (omega arith))
Course-admitted (Course.next p Follows.charged) h = ground (arith, Course-admitted p (omega arith))
Course-admitted (Course.next p Follows.powered_ac) h =
    ground (arith, Course-admitted p (omega arith))
Course-admitted (Course.next p (Follows.powered_dc _)) h =
    ground (arith, Course-admitted p (omega arith))
Course-admitted (Course.next p Follows.finished_dc) h =
    ground (arith, Course-admitted p (omega arith))
Course-admitted (Course.next p Follows.finished_ac) h =
    ground (arith, Course-admitted p (omega arith))
Course-admitted (Course.next p Follows.welded) h = ground (arith, Course-admitted p (omega arith))

-- A session that is past the authorization has left the state Authorization, or has joined an earlier
-- one: then it went from SessionSetup straight to the charge parameters.
pub Run-admitted :
    {ids : List StateId} {s : State}
    → Run ids s
    → 4 ≤ rank (id_of s)
    → admitted ids (id_of s) ≡ true
Run-admitted r h = Course-admitted (Run-Course r) h

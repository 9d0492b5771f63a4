-- ===== src/States/SessionSetup/Laws.antt =====
-- src/iso15118/d20/state/session_setup.cpp: who may join a paused session.
use libiso.Prelude.{
  ℕ, ◌≡◌, ◌≢◌, refl, sym, ap, ◌∙◌, Bool, true, false, Option, none, some, List, [], ◌∷◌, arith,
  bytes_eq, if◌then◌else◌, Option-cases, inl, inr,
}
use libiso.Message.{SessionId, SessionSetupRequest, Message}
use libiso.Session.{PauseContext}
use libiso.Context.{Env, Context, StateId}
use libiso.States.SessionSetup.{
  old_session, session_is_zero, cert_session_id_hash, on_message, join, report_ev,
}

bytes_eq_sound : (a b : List ℕ) → bytes_eq a b ≡ true → a ≡ b
bytes_eq_sound [] [] e = refl
bytes_eq_sound [] (_ ∷ _) e = ground arith
bytes_eq_sound (_ ∷ _) [] e = ground arith
bytes_eq_sound (x ∷ xs) (y ∷ ys) e = grind (arith, bytes_eq_sound xs ys)

pub bytes_eq_refl : (a : List ℕ) → bytes_eq a a ≡ true
bytes_eq_refl [] = refl
bytes_eq_refl (x ∷ xs) = ground (arith, bytes_eq_refl xs)

guarded :
    {A : Type 0} (a b : Bool) (q p : A)
    → (if a then none else if b then some q else none) ≡ some p
    → (a ≡ false) × (b ≡ true) × (q ≡ p)
guarded a b q p e = ground arith

-- A paused session is joined only with its pause context, under an id that is not all zeros, and
-- with the certificate that it was paused with: the stored hash is the one of this certificate and
-- this id.
pub old_session_sound :
    (env : Env) (id : SessionId) (cert : Option (List ℕ)) (pause : Option PauseContext)
    (p : PauseContext)
    → old_session env id cert pause ≡ some p
    → (pause ≡ some p)
      × (session_is_zero id ≡ false)
      × (h : List ℕ) × (cert ≡ some h)
      × (p.vehicle_cert_session_id_hash ≡ cert_session_id_hash env h id)
unfolding old_session
old_session_sound env id none pause p e = ground arith
old_session_sound env id (some h) none p e = ground arith
old_session_sound env id (some h) (some q) p e =
    let (nonzero, equal, same) =
      guarded (session_is_zero id)
        (bytes_eq q.vehicle_cert_session_id_hash (cert_session_id_hash env h id)) q p e in
    (
      ap some same,
      nonzero,
      h,
      refl,
      ap (λ (t : PauseContext). t.vehicle_cert_session_id_hash) (sym same)
          ∙ bytes_eq_sound q.vehicle_cert_session_id_hash (cert_session_id_hash env h id) equal,
    )

join-id :
    (env : Env) (p : PauseContext) (c : Context)
    → (join env (some p) c).ctx.session.id ≡ p.old_session_id
unfolding join
join-id env p c = ground arith

-- A SessionSetupReq that leads anywhere but to the authorization has joined a paused session: the
-- context held a pause context whose hash is that of the connection's certificate and the request's
-- id, and the session goes on under the id that it had.
pub on_message_joins :
    (env : Env) (req : SessionSetupRequest) (c : Context)
    → (on_message env tt (Message.session_setup req) c).result.new_state
      ≢ some StateId.authorization_setup
    → (p : PauseContext) × (h : List ℕ) × (c.pause_ctx ≡ some p)
      × (c.vehicle_cert_hash ≡ some h)
      × (p.vehicle_cert_session_id_hash ≡ cert_session_id_hash env h req.header.session_id)
      × ((on_message env tt (Message.session_setup req) c).ctx.session.id ≡ p.old_session_id)
unfolding on_message
on_message_joins env req c moved =
    let id = req.header.session_id in
    elim (Option-cases (old_session env id c.vehicle_cert_hash c.pause_ctx)) [
      | inl new ↦ elim (moved (rw new refl)) [ ]
      | inr (p, old) ↦
          let (paused, _, h, cert, hash) =
            old_session_sound env id c.vehicle_cert_hash c.pause_ctx p old in
          (p, h, paused, cert, hash, rw old (join-id env p (report_ev req.evccid c)))
    ]

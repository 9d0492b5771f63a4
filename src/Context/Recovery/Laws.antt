-- ===== src/Context/Recovery/Laws.antt =====
-- src/iso15118/d20/context_helper.cpp: the callbacks during the answer to an unexpected request.
use libiso.Prelude.{◌≡◌, refl, Option, none, some}
use libiso.Message.{MessageType, Response}
use libiso.Context.Types.{Env, Context}
use libiso.Context.Recovery.{respond_if, send_sequence_error}

calls-respond_if :
    (env : Env) (r : Option Response) (c : Context) → (respond_if env r c).calls ≡ c.calls
unfolding respond_if
calls-respond_if env none c = refl
calls-respond_if env (some r) c = refl

pub calls-send_sequence_error :
    (env : Env) (t : MessageType) (c : Context) → (send_sequence_error env t c).calls ≡ c.calls
unfolding send_sequence_error
calls-send_sequence_error env t c = calls-respond_if env _ c

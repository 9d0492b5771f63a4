-- ===== src/Context/Header.antt =====
-- src/iso15118/d20/context_helper.cpp: the header of a response and the check of a request's
-- session id.
use libiso.Prelude.{Bool, bytes_eq}
use libiso.Message.{SessionId, Header}
use libiso.Session.{Session}
use libiso.Context.Types.{Env}

unfoldable pub setup_header : Env → Session → Header
setup_header env s = record { session_id = s.id; timestamp = env.time_s }

-- `validate_and_setup_header` fills the header by `setup_header` in either case, and returns this.
unfoldable pub validate_header : Session → SessionId → Bool
validate_header s req_session_id = bytes_eq s.id req_session_id

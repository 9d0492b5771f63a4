-- ===== src/Context/Requests.antt =====
-- What taking the waiting request does.
use libiso.Prelude.{◌≡◌, none, some}
use libiso.Message.{Message}
use libiso.Exchange
use libiso.Context.Types.{Context, Fed}
use libiso.Context.Access.{with_request}

-- The context after its request was pulled.
abbrev pub pulled : Context → Context
pulled c = let e = c.message_exchange in record c { message_exchange = record e { request = none } }

pub with_request-some :
    {S : Type 0} (c : Context) (f : Message → Context → Fed S) (m : Message)
    → c.message_exchange.request ≡ some m
    → with_request c f ≡ some (f m (pulled c))
unfolding with_request
with_request-some c f m e = rw (e, Exchange.pull_request)

pub with_request-none :
    {S : Type 0} (c : Context) (f : Message → Context → Fed S)
    → c.message_exchange.request ≡ none
    → with_request c f ≡ none
unfolding with_request
with_request-none c f e = rw (e, Exchange.pull_request)

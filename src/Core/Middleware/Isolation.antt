-- ===== src/Core/Middleware/Isolation.antt =====
-- No request leaves its ids in the context variables.
use qdrant_database.Prelude.{◌≡◌, refl, false, Text}
use qdrant_database.Core.Context.{RequestContext}
use qdrant_database.Core.Middleware.{
  Site, HttpRequest, Handler, request_id_middleware, starts_with_any, requestid_excluded_paths,
}

-- What the four variables of a request hold.
abbrev pub SameIds : RequestContext → RequestContext → Type 0
SameIds c d =
    (c.request_id ≡ d.request_id)
    × (c.tenant_id ≡ d.tenant_id)
    × (c.bot_id ≡ d.bot_id)
    × (c.doc_id ≡ d.doc_id)

-- Whatever the stack below does, a request outside the static paths leaves the ids of the context as
-- they were before it.
pub request_ids_restored :
    {S : Type 0} (uuid4 : Text) (get_response : Handler S) (request : HttpRequest) (s : Site S)
    → starts_with_any requestid_excluded_paths request.path ≡ false
    → SameIds (request_id_middleware uuid4 get_response request s).1.context s.context
unfolding request_id_middleware
request_ids_restored uuid4 get_response request s h = rw h (refl, refl, refl, refl)

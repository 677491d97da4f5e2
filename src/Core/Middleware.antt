-- ===== src/Core/Middleware.antt =====
-- The two middlewares of apps/core/middleware.py, around the rest of the stack. Durations of
-- requests are not modelled; the phase durations are.
pub mod Isolation
pub mod Stack
use qdrant_database.Prelude.{
  ℕ, Bool, false, ◌||◌, Option, none, some, List, [], ◌∷◌, ◌++◌, Text, codes, is_empty, strip, take,
  starts_with, if◌then◌else◌,
}
use qdrant_database.Exec.{◌>>=◌, Outcome, ok, raised, Exec, pure, try_finally, ◌>>◌}
use qdrant_database.Core.Context.{
  RequestContext, Phases, reset_phase_durations, get_phase_durations,
}

abbrev pub max_request_id_len : ℕ
max_request_id_len = 100

abbrev pub requestid_excluded_paths : List Text
requestid_excluded_paths = codes "/static/" ∷ []

abbrev pub accesslog_excluded_paths : List Text
accesslog_excluded_paths =
    codes "/metrics" ∷ codes "/healthz" ∷ codes "/static/" ∷ codes "/admin/" ∷ []

-- `s.startswith(prefixes)`, for a tuple of prefixes.
unfoldable pub starts_with_any : List Text → Text → Bool
unfolding starts_with
starts_with_any [] s = false
starts_with_any (p ∷ ps) s = starts_with p s || starts_with_any ps s

pub record HttpRequest : Type 0 where
  pub method : Text
  pub path : Text
  pub request_id_header : Option Text
  pub url_name : Option Text

-- A response of the stack below, with its `X-Request-ID` header.
pub record HttpResponse : Type 0 where
  pub status_code : ℕ
  pub request_id_header : Option Text

-- `(header or "").strip()[:100] or str(uuid4())`
unfoldable pub request_id_of : Text → Option Text → Text
request_id_of uuid4 none = uuid4
request_id_of uuid4 (some header) =
    let incoming = take max_request_id_len (strip header) in
    if is_empty incoming then uuid4 else incoming

-- One `request_completed` line, and what the recorders count for the request.
pub record AccessRecord : Type 0 where
  pub method : Text
  pub path : Text
  pub status_code : ℕ
  pub phases : Phases
  pub tenant_id : Option Text
  pub bot_id : Option Text
  pub doc_id : Option Text
  pub endpoint : Text

-- The context variables of the request's context, the access log, and the rest `S`.
pub record Site (S : Type 0) : Type 0 where
  pub context : RequestContext
  pub access_log : List AccessRecord
  pub rest : S

-- `if tid:`; an empty text is left out.
abbrev pub nonempty : Option Text → Option Text
nonempty none = none
nonempty (some t) = if is_empty t then none else some t

abbrev pub endpoint_of : Option Text → Text
endpoint_of none = codes "unknown"
endpoint_of (some name) = if is_empty name then codes "unknown" else name

abbrev pub status_of : Outcome HttpResponse → ℕ
status_of (ok response) = response.status_code
status_of (raised e) = 500

-- A request handler over the rest `S` of the state.
abbrev pub Handler : Type 0 → Type 0
Handler S = HttpRequest → Exec (Site S) HttpResponse

-- The four `set` calls at the start of a request.
abbrev pub begin_context : Text → RequestContext → RequestContext
begin_context rid c = record c {
  request_id = some rid;
  tenant_id = none;
  bot_id = none;
  doc_id = none;
}

-- The four `reset` calls: each variable gets back what it held when its token was made.
abbrev pub restore_context : RequestContext → RequestContext → RequestContext
restore_context old c = record c {
  request_id = old.request_id;
  tenant_id = old.tenant_id;
  bot_id = old.bot_id;
  doc_id = old.doc_id;
}

abbrev pub modify_context :
    {S : Type 0} → (RequestContext → RequestContext) → Exec (Site S) (Unit {0})
modify_context f s = (ok tt, record s { context = f s.context })

-- `RequestIDMiddleware.__call__`
unfoldable pub request_id_middleware : {S : Type 0} → Text → Handler S → Handler S
request_id_middleware uuid4 get_response request s =
    let rid = request_id_of uuid4 request.request_id_header in
    if starts_with_any requestid_excluded_paths request.path
    then get_response request s
    else (modify_context (begin_context rid)
          >> try_finally
              (do
                response ← get_response request
                pure (record response { request_id_header = some rid }))
              (modify_context (restore_context s.context)))
        s

-- The `finally` of the access log, for the outcome of the request.
unfoldable pub access_record : HttpRequest → Outcome HttpResponse → RequestContext → AccessRecord
access_record request r c = record {
  method = request.method;
  path = request.path;
  status_code = status_of r;
  phases = get_phase_durations c;
  tenant_id = nonempty c.tenant_id;
  bot_id = nonempty c.bot_id;
  doc_id = nonempty c.doc_id;
  endpoint = endpoint_of request.url_name;
}

logged : {S : Type 0} → HttpRequest → Outcome HttpResponse → Site S → Site S
logged request r s = record s {
  access_log = s.access_log ++ access_record request r s.context ∷ [];
}

-- `AccessLogMiddleware.__call__`
unfoldable pub access_log_middleware : {S : Type 0} → Handler S → Handler S
unfolding access_record logged
access_log_middleware get_response request s =
    if starts_with_any accesslog_excluded_paths request.path
    then get_response request s
    else let (r, s') =
        get_response request (record s { context = reset_phase_durations s.context }) in
      (r, logged request r s')

-- ===== src/Core/Middleware/Stack.antt =====
-- The two middlewares in the order of MIDDLEWARE in config/settings.py, around a view.
use qdrant_database.Prelude.{◌≡◌, refl, false, [], ◌∷◌, ◌++◌, Text, some}
use qdrant_database.Exec.{Outcome, ok, raised}
use qdrant_database.Core.Context.{reset_phase_durations}
use qdrant_database.Core.Middleware.{
  Site, HttpRequest, HttpResponse, Handler, request_id_middleware, access_log_middleware,
  access_record, starts_with_any, requestid_excluded_paths, accesslog_excluded_paths, request_id_of,
  begin_context,
}
use qdrant_database.Core.Middleware.Isolation.{SameIds}

unfoldable pub stack : {S : Type 0} → Text → Handler S → Handler S
stack uuid4 view = request_id_middleware uuid4 (access_log_middleware view)

-- What the view finds.
abbrev pub prepared : {S : Type 0} → Text → HttpRequest → Site S → Site S
prepared uuid4 request s = record s {
  context =
      reset_phase_durations
        (begin_context (request_id_of uuid4 request.request_id_header) s.context);
}

abbrev pub with_request_id : Text → Outcome HttpResponse → Outcome HttpResponse
with_request_id rid (ok response) = ok (record response { request_id_header = some rid })
with_request_id rid (raised e) = raised e

-- A request outside the excluded paths is logged once, after what the view logged, with the status of
-- the response, or 500 if the view raised, and with the ids that the view left in the context. Its
-- response carries the request id, an exception goes on, the ids of the context are those from
-- before the request, and the rest of the state is as the view left it.
pub stack_lem :
    {S : Type 0} (uuid4 : Text) (view : Handler S) (request : HttpRequest) (s t : Site S)
    (r : Outcome HttpResponse)
    → starts_with_any requestid_excluded_paths request.path ≡ false
    → starts_with_any accesslog_excluded_paths request.path ≡ false
    → view request (prepared uuid4 request s) ≡ (r, t)
    → let (out, after) = stack uuid4 view request s in
      (out ≡ with_request_id (request_id_of uuid4 request.request_id_header) r)
      × (after.access_log ≡ t.access_log ++ access_record request r t.context ∷ [])
      × SameIds after.context s.context
      × (after.rest ≡ t.rest)
unfolding stack request_id_middleware access_log_middleware reset_phase_durations
stack_lem uuid4 view request s t (ok response) h k e =
    rw (h, k, e) (refl, refl, (refl, refl, refl, refl), refl)
stack_lem uuid4 view request s t (raised x) h k e =
    rw (h, k, e) (refl, refl, (refl, refl, refl, refl), refl)

-- ===== src/Documents/Views.antt =====
-- apps/documents/views.py: the three HTTP views. Routing and log lines are not modelled.
pub mod Statuses
pub mod Searches
use qdrant_database.Prelude.{
  ℕ, Option, none, some, List, [], ◌∷◌, String, Text, is_empty, strip, if◌then◌else◌,
}
use qdrant_database.Core.Context.{RequestContext, set_request_context}
use qdrant_database.Errors.{
  Exc, UploadError, upload_error, qdrant_error, collection_not_found_error, qdrant_connection_error,
  concurrent_upload_error, http_status, error_code, error_details, Details,
}
use qdrant_database.Exec.{◌>>=◌, Outcome, ok, raised, and_then, Exec, pure, raise, try_except, ◌>>◌}
use qdrant_database.Tenants.{normalize_slug, validate_slug}
use qdrant_database.Ingestion.World.{World, Env, on_qdrant}
use qdrant_database.Ingestion.Pipeline.Upload.{
  UploadResult, UploadStatus, no_change, replaced, created, upload,
}
use qdrant_database.Ingestion.Pipeline.Delete.{delete_document}
use qdrant_database.Documents.Models.{UploadBody}
use qdrant_database.Documents.Serializers.{
  Checked, valid, invalid, Errors, Forms, SearchBody, check_upload, check_search,
}
use qdrant_database.Qdrant.Search.{SearchArgs, SearchResult, search_documents}

-- `details` of an error response: those of an exception, or a serializer's errors.
pub data ErrorDetails : Type 0 where
  no_details : ErrorDetails
  exception_details : Details → ErrorDetails
  serializer_errors : Errors → ErrorDetails

pub data ResponseBody : Type 0 where
  error_body : String → ErrorDetails → ResponseBody
  upload_body : UploadResult → ResponseBody
  search_body : SearchResult → ResponseBody
  no_body : ResponseBody

-- A response, with its `Retry-After` header.
pub record Response : Type 0 where
  pub status : ℕ
  pub body : ResponseBody
  pub retry_after : Option ℕ

-- `_error_response`; an empty dict of details is left out.
abbrev present : ErrorDetails → ErrorDetails
present (exception_details d) = if is_empty d then no_details else exception_details d
present d = d

unfoldable pub error_response : ℕ → String → ErrorDetails → Response
error_response http_status code details = record {
  status = http_status;
  body = error_body code (present details);
  retry_after = none;
}

-- The `Retry-After` of a `ConcurrentUploadError`.
abbrev retry_of : UploadError → Option ℕ
retry_of (concurrent_upload_error n _) = some n
retry_of _ = none

-- The response to an `UploadError`.
unfoldable pub upload_error_response : UploadError → Response
upload_error_response e =
    record (error_response (http_status e) (error_code e) (exception_details (error_details e))) {
      retry_after = retry_of e;
    }

-- `except Exception` around a whole view.
unfoldable pub internal_error : Response
internal_error = error_response 500 "internal_error" no_details

unfoldable pub invalid_slug : Response
invalid_slug = error_response 400 "invalid_slug" no_details

unfoldable pub success_status : UploadStatus → ℕ
success_status no_change = 200
success_status replaced = 201
success_status created = 201

-- The two checks of the path parameters.
unfoldable pub validate_slugs : Text → Text → Outcome (Unit {0})
validate_slugs tenant_id bot_id = and_then (validate_slug tenant_id) λ _. validate_slug bot_id

-- The response to a successful upload.
unfoldable pub upload_response : UploadResult → Response
upload_response r = record {
  status = success_status r.status;
  body = upload_body r;
  retry_after = none;
}

unfoldable pub deleted_response : Response
deleted_response = record { status = 204; body = no_body; retry_after = none }

-- The state that a view works on: the services, and the request's context variables.
pub record App (D L Q : Type 0) : Type 0 where
  pub world : World D L Q
  pub context : RequestContext

module _ {D L Q : Type 0} where
  abbrev pub on_world : {A : Type 0} → Exec (World D L Q) A → Exec (App D L Q) A
  on_world m a = let (r, w) = m a.world in (r, record a { world = w })

  abbrev pub set_context : Option Text → Option Text → Option Text → Exec (App D L Q) (Unit {0})
  set_context t b d a = (ok tt, record a { context = set_request_context t b d a.context })

  -- `except UploadError`; any other exception goes on.
  abbrev pub on_upload_error : Exc → Exec (App D L Q) Response
  on_upload_error (upload_error e) = pure (upload_error_response e)
  on_upload_error e = raise e

  -- `except Exception as exc`
  abbrev pub on_any_error : Exc → Exec (App D L Q) Response
  on_any_error e = pure internal_error

  -- The guard of the path parameters, before the rest of a view.
  abbrev pub with_slugs : Text → Text → Exec (App D L Q) Response → Exec (App D L Q) Response
  with_slugs t b rest = elim (validate_slugs t b) [ ok _ ↦ rest | raised _ ↦ pure invalid_slug ]

module _ {D L Q Data : Type 0} (env : Env D L Q) (forms : Forms Data) (uuid4 : Text) where
  -- The request's own id for the document, or a new one.
  unfoldable pub chosen_doc_id : UploadBody → Text
  chosen_doc_id body = elim body.doc_id [ none ↦ uuid4 | some d ↦ if is_empty d then uuid4 else d ]

  unfoldable pub post_checked : Text → Text → Checked UploadBody → Exec (App D L Q) Response
  post_checked tenant_id bot_id (invalid errors) =
      pure (error_response 400 "invalid_payload" (serializer_errors errors))
  post_checked tenant_id bot_id (valid body) = do
    set_context none none (some (chosen_doc_id body))
    try_except
        (do
          result ← on_world (
              upload env (record {
                tenant_id = tenant_id;
                bot_id = bot_id;
                doc_id = chosen_doc_id body;
                body = body;
              }))
          pure (upload_response result))
        on_upload_error

  -- `UploadDocumentView.post`
  unfoldable pub post_upload : Text → Text → Data → Exec (App D L Q) Response
  post_upload tenant_id bot_id data_ =
      let t = normalize_slug tenant_id in
      let b = normalize_slug bot_id in
      try_except
        (with_slugs t b
          (set_context (some t) (some b) none >> post_checked t b (check_upload forms data_)))
        on_any_error

module _ {D L Q : Type 0} (env : Env D L Q) where
  -- `DeleteDocumentView.delete`
  unfoldable pub delete_view : Text → Text → Text → Exec (App D L Q) Response
  delete_view tenant_id bot_id doc_id =
      let t = normalize_slug tenant_id in
      let b = normalize_slug bot_id in
      try_except
        (with_slugs t b (do
          set_context (some t) (some b) (some doc_id)
          try_except (do on_world (delete_document env t b doc_id); pure deleted_response)
              on_upload_error))
        on_any_error

-- `list(xs or []) or None`
abbrev pub texts_or_none : List Text → Option (List Text)
texts_or_none [] = none
texts_or_none (x ∷ xs) = some (x ∷ xs)

-- `x or None`
abbrev pub text_or_none : Option Text → Option Text
text_or_none none = none
text_or_none (some t) = if is_empty t then none else some t

-- The arguments that the search view passes on.
unfoldable pub search_args : Text → Text → SearchBody → SearchArgs
search_args tenant_id bot_id body = record {
  tenant_id = tenant_id;
  bot_id = bot_id;
  query = strip body.query;
  top_k = body.top_k;
  source_types = elim body.filters [ none ↦ none | some f ↦ texts_or_none f.source_types ];
  tags = elim body.filters [ none ↦ none | some f ↦ texts_or_none f.tags ];
  category = elim body.filters [ none ↦ none | some f ↦ text_or_none f.category ];
}

-- The three `except` clauses around the search.
unfoldable pub search_error_response : Exc → Response
search_error_response (qdrant_error collection_not_found_error) =
    error_response 404 "collection_not_found" no_details
search_error_response (qdrant_error qdrant_connection_error) =
    error_response 503 "qdrant_unavailable" no_details
search_error_response e = error_response 500 "internal_error" no_details

unfoldable pub search_response : SearchResult → Response
search_response r = record { status = 200; body = search_body r; retry_after = none }

module _ {D L Q Data : Type 0} (env : Env D L Q) (forms : Forms Data) where
  unfoldable pub search_checked : Text → Text → Checked SearchBody → Exec (App D L Q) Response
  search_checked tenant_id bot_id (invalid errors) =
      pure (error_response 400 "invalid_payload" (serializer_errors errors))
  search_checked tenant_id bot_id (valid body) =
      try_except
        (do
          result ← on_world (
              on_qdrant (search_documents env.client env.model (search_args tenant_id bot_id body)))
          pure (search_response result))
        (λ e. pure (search_error_response e))

  -- `SearchDocumentsView.post`
  unfoldable pub post_search : Text → Text → Data → Exec (App D L Q) Response
  post_search tenant_id bot_id data_ =
      let t = normalize_slug tenant_id in
      let b = normalize_slug bot_id in
      try_except
        (with_slugs t b
          (set_context (some t) (some b) none >> search_checked t b (check_search forms data_)))
        on_any_error

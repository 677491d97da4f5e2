-- ===== src/Documents/Views/Statuses.antt =====
-- The views over the pipelines answer every request.
use qdrant_database.Prelude.{
  ◌≡◌, refl, sym, ℕ, Bool, true, false, Option, none, some, Text, ◌==◌, ◌||◌,
}
use qdrant_database.Errors.{
  Exc, UploadError, upload_error, invalid_payload_error, no_embeddable_content_error,
  qdrant_write_error, embedder_error, concurrent_upload_error, document_too_large_error,
  document_not_found_error, http_status, qdrant_error,
}
use qdrant_database.Errors
use qdrant_database.Exec.{Outcome, ok, raised, Exec, pure, try_except, ◌>>◌}
use qdrant_database.Exec.Gives.{
  Gives, Answers, Gives-pure, Gives-raise, Answers-try_except, gives_rules,
}
use qdrant_database.Tenants.{normalize_slug}
use qdrant_database.Ingestion.World.{Env}
use qdrant_database.Ingestion.Pipeline.Upload.{
  UploadResult, UploadStatus, no_change, replaced, created,
}
use qdrant_database.Ingestion.Pipeline.Delete.{delete_document}
use qdrant_database.Documents.Models.{UploadBody}
use qdrant_database.Documents.Serializers.{Checked, valid, invalid, Forms, check_upload}
use qdrant_database.Documents.Views.{
  on_upload_error, on_any_error, with_slugs, deleted_response, Response, error_response,
  upload_error_response, internal_error, invalid_slug, success_status, validate_slugs,
  upload_response, App, on_world, set_context, post_checked, post_upload, delete_view,
}

-- Statuses of the two views over the pipelines; the 409 has a `Retry-After`, no other has one.
abbrev pub is_pipeline_status : ℕ → Bool
is_pipeline_status n =
    n == 200 || n == 201 || n == 204 || n == 400 || n == 404 || n == 409 || n == 422 || n == 500

abbrev has_retry : Option ℕ → Bool
has_retry none = false
has_retry (some n) = true

abbrev pub IsPipelineResponse : Response → Type 0
IsPipelineResponse r =
    (is_pipeline_status r.status ≡ true) × (has_retry r.retry_after ≡ (r.status == 409))

upload_error-response : (e : UploadError) → IsPipelineResponse (upload_error_response e)
unfolding upload_error_response error_response http_status
upload_error-response (invalid_payload_error _) = (refl, refl)
upload_error-response (no_embeddable_content_error _) = (refl, refl)
upload_error-response (qdrant_write_error _) = (refl, refl)
upload_error-response (embedder_error _) = (refl, refl)
upload_error-response (concurrent_upload_error _ _) = (refl, refl)
upload_error-response (document_too_large_error _) = (refl, refl)
upload_error-response (document_not_found_error _) = (refl, refl)

success-status :
    (s : UploadStatus)
    → (is_pipeline_status (success_status s) ≡ true) × (success_status s == 409 ≡ false)
unfolding success_status
success-status no_change = (refl, refl)
success-status replaced = (refl, refl)
success-status created = (refl, refl)

success-response : (r : UploadResult) → IsPipelineResponse (upload_response r)
unfolding upload_response
success-response r = let (fine, other) = success-status r.status in (fine, sym other)

deleted-response : IsPipelineResponse deleted_response
unfolding deleted_response
deleted-response = (refl, refl)

-- A plain error response carries no `Retry-After`.
internal-response : IsPipelineResponse internal_error
unfolding internal_error error_response
internal-response = (refl, refl)

invalid_slug-response : IsPipelineResponse invalid_slug
unfolding invalid_slug error_response
invalid_slug-response = (refl, refl)

module _ {D L Q : Type 0} where
  slugs-Gives :
      (P : Response → Type 0) (t b : Text) (rest : Exec (App D L Q) Response)
      → P invalid_slug
      → Gives P rest
      → Gives P (with_slugs t b rest)
  slugs-Gives P t b rest p k = go (validate_slugs t b)
    where
      go :
          (o : Outcome (Unit {0})) → Gives P (elim o [ ok _ ↦ rest | raised _ ↦ pure invalid_slug ])
      go (ok _) = k
      go (raised _) = Gives-pure _ p

  on_upload_error-Gives : (e : Exc) → Gives {S = App D L Q} IsPipelineResponse (on_upload_error e)
  on_upload_error-Gives (upload_error u) = Gives-pure _ (upload_error-response u)
  on_upload_error-Gives (qdrant_error q) = Gives-raise _
  on_upload_error-Gives Errors.invalid_identifier_error = Gives-raise _
  on_upload_error-Gives Errors.value_error = Gives-raise _
  on_upload_error-Gives Errors.integrity_error = Gives-raise _
  on_upload_error-Gives Errors.does_not_exist = Gives-raise _
  on_upload_error-Gives (Errors.rpc_error _) = Gives-raise _
  on_upload_error-Gives (Errors.unexpected_response _) = Gives-raise _
  on_upload_error-Gives (Errors.other _) = Gives-raise _

  view-Answers :
      (P : Response → Type 0) (t b : Text) (rest : Exec (App D L Q) Response)
      → P invalid_slug
      → P internal_error
      → Gives P rest
      → (s : App D L Q) → Answers P (try_except (with_slugs t b rest) on_any_error) s
  view-Answers P t b rest p q k s =
      Answers-try_except (with_slugs t b rest) on_any_error (slugs-Gives P t b rest p k)
        (λ e u. (internal_error, u, refl, q)) s

module _ {D L Q Data : Type 0} (env : Env D L Q) (forms : Forms Data) (uuid4 : Text) where
  post_checked-Gives :
      (t b : Text) (c : Checked UploadBody)
      → Gives {S = App D L Q} IsPipelineResponse (post_checked env forms uuid4 t b c)
  unfolding post_checked error_response
  post_checked-Gives t b (invalid errors) = Gives-pure _ (refl, refl)
  post_checked-Gives t b (valid body) =
      search (gives_rules, on_upload_error-Gives, success-response)

  -- The upload view answers every request: no exception leaves it, the status is one of the
  -- pipeline's, and there is a `Retry-After` header exactly on a 409.
  pub post_upload-Answers :
      (t b : Text) (data_ : Data) (s : App D L Q)
      → Answers IsPipelineResponse (post_upload env forms uuid4 t b data_) s
  unfolding post_upload
  post_upload-Answers t b data_ s =
      view-Answers IsPipelineResponse (normalize_slug t) (normalize_slug b)
        (set_context (some (normalize_slug t)) (some (normalize_slug b)) none
          >> post_checked env forms uuid4 (normalize_slug t) (normalize_slug b)
              (check_upload forms data_))
        invalid_slug-response internal-response (search (gives_rules, post_checked-Gives)) s

module _ {D L Q : Type 0} (env : Env D L Q) where
  -- The view that deletes a document answers every request: no exception leaves it, the status is
  -- one of the pipeline's, and there is a `Retry-After` header exactly on a 409.
  pub delete_view-Answers :
      (t b d : Text) (s : App D L Q) → Answers IsPipelineResponse (delete_view env t b d) s
  unfolding delete_view
  delete_view-Answers t b d s =
      view-Answers IsPipelineResponse (normalize_slug t) (normalize_slug b)
        (set_context (some (normalize_slug t)) (some (normalize_slug b)) (some d)
          >> try_except
              (on_world (delete_document env (normalize_slug t) (normalize_slug b) d)
                >> pure deleted_response)
              on_upload_error)
        invalid_slug-response internal-response
        (search (gives_rules, on_upload_error-Gives, deleted-response)) s

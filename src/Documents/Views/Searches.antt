-- ===== src/Documents/Views/Searches.antt =====
-- What `SearchDocumentsView.post` answers, by what the slugs, the body and the search come to.
use qdrant_database.Prelude.{◌≡◌, none, Text}
use qdrant_database.Errors.{Exc, qdrant_error, collection_not_found_error, qdrant_connection_error}
use qdrant_database.Errors
use qdrant_database.Exec.{Outcome, ok, raised}
use qdrant_database.Tenants.{normalize_slug}
use qdrant_database.Ingestion.World.{Env}
use qdrant_database.Documents.Serializers.{valid, invalid, Forms, SearchBody, check_search}
use qdrant_database.Documents.Serializers
use qdrant_database.Qdrant.Search.{SearchResult, search_documents}
use qdrant_database.Documents.Views.{
  App, Response, error_body, search_body, no_details, serializer_errors, validate_slugs,
  search_args,
}

-- Neither of the exceptions that the view knows by name.
abbrev pub IsUnexpected : Exc → Type 0
IsUnexpected (qdrant_error collection_not_found_error) = ⊥
IsUnexpected (qdrant_error qdrant_connection_error) = ⊥
IsUnexpected e = Unit

module _ {D L Q Data : Type 0} (env : Env D L Q) (forms : Forms Data) (t b : Text) (data_ : Data)
    (s : App D L Q) where
  abbrev pub slugs : Outcome (Unit {0})
  slugs = validate_slugs (normalize_slug t) (normalize_slug b)

  -- What the search of a body comes to.
  abbrev pub searched : SearchBody → Outcome SearchResult
  searched body =
      (search_documents env.client env.model
        (search_args (normalize_slug t) (normalize_slug b) body) s.world.qdrant).0

  -- The response by its cause; the six causes exclude each other.
  pub data IsAnswer : Response → Type 0 where
    bad_slug :
        (e : Exc)
        → slugs ≡ raised e
        → IsAnswer (record {
          status = 400;
          body = error_body "invalid_slug" no_details;
          retry_after = none;
        })
    bad_body :
        (errors : Serializers.Errors)
        → slugs ≡ ok tt
        → check_search forms data_ ≡ invalid errors
        → IsAnswer (record {
          status = 400;
          body = error_body "invalid_payload" (serializer_errors errors);
          retry_after = none;
        })
    found :
        (body : SearchBody) (r : SearchResult)
        → slugs ≡ ok tt
        → check_search forms data_ ≡ valid body
        → searched body ≡ ok r
        → IsAnswer (record { status = 200; body = search_body r; retry_after = none })
    no_collection :
        (body : SearchBody)
        → slugs ≡ ok tt
        → check_search forms data_ ≡ valid body
        → searched body ≡ raised (qdrant_error collection_not_found_error)
        → IsAnswer (record {
          status = 404;
          body = error_body "collection_not_found" no_details;
          retry_after = none;
        })
    unreachable :
        (body : SearchBody)
        → slugs ≡ ok tt
        → check_search forms data_ ≡ valid body
        → searched body ≡ raised (qdrant_error qdrant_connection_error)
        → IsAnswer (record {
          status = 503;
          body = error_body "qdrant_unavailable" no_details;
          retry_after = none;
        })
    failed :
        (body : SearchBody) (e : Exc)
        → slugs ≡ ok tt
        → check_search forms data_ ≡ valid body
        → searched body ≡ raised e
        → IsUnexpected e
        → IsAnswer (record {
          status = 500;
          body = error_body "internal_error" no_details;
          retry_after = none;
        })

  -- The code answers with the response of its cause, and has changed no table and no lock.
  Settles : Outcome Response × App D L Q → Type 0
  Settles end =
      (r : Response) × (u : App D L Q) × (end ≡ (ok r, u))
      × IsAnswer r
      × (u.world.database ≡ s.world.database)
      × (u.world.locks ≡ s.world.locks)

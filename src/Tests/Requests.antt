-- ===== src/Tests/Requests.antt =====
-- Runs of requests: bodies, views, the RPC, the middleware and the health endpoint.
use qdrant_database.Prelude.{
  ◌≡◌, ◌≢◌, ◌↔◌, refl, true, Option, none, some, List, [], ◌∷◌, codes, arith, All, remove_char,
}
use qdrant_database.Errors.{StatusCode, internal, invalid_argument, other}
use qdrant_database.Exec.Gives.{Answers}
use qdrant_database.Core.Context.{RequestContext}
use qdrant_database.Documents.Models.{UploadBody}
use qdrant_database.Documents.Serializers.{
  valid, Forms, SearchBody, SearchFilters, validate_upload, removed_fields, id_fields,
}
use qdrant_database.Documents.Serializers.Accepted.{Avoids, CleanItem, validate_upload_iff}
use qdrant_database.Documents.Views.{App, post_upload, search_args}
use qdrant_database.Documents.Views.Statuses.{IsPipelineResponse, post_upload-Answers}
use qdrant_database.Grpc.{
  ServicerContext, RpcState, SearchRequest, checked_top_k, rpc_search_args, search_rpc,
  record_metrics,
}
use qdrant_database.Grpc.Metrics.{AbortLaws, IsRejected, rejected_recorded_internal}
use qdrant_database.Grpc.SameSearch.{as_rpc, same_search_args}
use qdrant_database.Tenants.{normalize_slug, validate_slug, slug_fullmatch, is_slug_char}
use qdrant_database.Ingestion.Locks.{LockKey}
use qdrant_database.Tests.Memory.{Table, Server, server, env, world, acme, help, doc_2}

abbrev body : UploadBody
body = record {
  doc_id = none;
  source_type = codes "text";
  source_filename = none;
  source_url = none;
  content_hash = none;
  items = record { content = help; section_path = []; page_number = none; item_index = none } ∷ [];
}

abbrev filters : SearchFilters
filters = record { source_types = []; tags = []; category = none; only_active = true }

abbrev search_body : SearchBody
search_body = record { query = help; top_k = 5; filters = some filters }

-- The framework takes the one upload and the one search, whatever was sent.
abbrev forms : Forms (Unit {0})
forms = record {
  keys = λ d. codes "items" ∷ [];
  raw_items = λ d. [];
  upload_fields = λ d. valid body;
  search_fields = λ d. valid search_body;
}

abbrev no_context : RequestContext
no_context = record {
  request_id = none;
  tenant_id = none;
  bot_id = none;
  doc_id = none;
  phase_durations = none;
}

abbrev app : App Table (List LockKey) Server
app = record { world = world; context = no_context }

upload_view_example : Answers IsPipelineResponse (post_upload env forms doc_2 acme help tt) app
upload_view_example = post_upload-Answers env forms doc_2 acme help tt app

validate_upload_example : (validate_upload (codes "items" ∷ []) [] body ≡ valid body) ↔ (
    Avoids removed_fields (codes "items" ∷ [])
    × Avoids id_fields (codes "items" ∷ [])
    × All CleanItem []
    × (body.items ≢ []))
validate_upload_example = validate_upload_iff (codes "items" ∷ []) [] body

-- The context of a call is the code that it was aborted with.
abbrev rpc : ServicerContext (Option StatusCode)
rpc = record { abort = λ code c. (other (codes "Exception"), some code); code = λ c. c }

rpc_laws : AbortLaws rpc
rpc_laws = record { name = codes "Exception"; raises = λ code c. refl; sets = λ code c. refl }

abbrev call : RpcState (Option StatusCode) Server
call = record { context = none; qdrant = λ n. []; grpc_requests = [] }

-- A search with a slug that is too short.
abbrev bad_search : SearchRequest
bad_search = as_rpc (codes "x") help search_body filters

bad_slug : IsRejected bad_search
unfolding normalize_slug remove_char validate_slug slug_fullmatch is_slug_char
bad_slug = tt

internal_example :
    ((record_metrics rpc "Search" (search_rpc rpc server env.model bad_search) call).1.grpc_requests
      ≡ ("Search", internal) ∷ [])
    × (rpc.code
          (record_metrics rpc "Search" (search_rpc rpc server env.model bad_search) call).1.context
        ≡ some invalid_argument)
internal_example =
    rejected_recorded_internal rpc server env.model rpc_laws "Search" bad_search call bad_slug

same_args_example :
    (checked_top_k (as_rpc acme help search_body filters).top_k ≡ some search_body.top_k)
    × (rpc_search_args (as_rpc acme help search_body filters) search_body.top_k
        ≡ search_args (normalize_slug acme) (normalize_slug help) search_body)
same_args_example = same_search_args acme help search_body filters refl (omega arith) (omega arith)

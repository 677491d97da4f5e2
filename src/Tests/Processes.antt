-- ===== src/Tests/Processes.antt =====
-- Runs of what stands around the requests: middlewares, metrics, log events, locks, the processes
-- that start, and the scripts.
use qdrant_database.Prelude.{
  ℕ, suc, ◌+◌, ◌*◌, ◌≤◌, ◌≡◌, refl, true, false, Option, none, some, List, [], ◌∷◌, ◌++◌, Text,
  codes, arith, map, strip, rstrip, lstrip, is_space,
}
use qdrant_database.Errors.{Exc, other}
use qdrant_database.Exec.{ok, raised, raise}
use qdrant_database.Naming.{collection_name, joined_name}
use qdrant_database.Tenants.{validate_slug, slug_fullmatch, is_slug_char}
use qdrant_database.Core.Context.{RequestContext}
use qdrant_database.Core.Middleware.{
  HttpRequest, Handler, Site, AccessRecord, starts_with_any, requestid_excluded_paths,
  accesslog_excluded_paths, access_record,
}
use qdrant_database.Core.Middleware.Isolation.{SameIds}
use qdrant_database.Core.Middleware.Stack.{stack, prepared, stack_lem}
use qdrant_database.Core.Metrics.{
  Metric, Labels, Registry, http_requests_total, http_request_duration_seconds, http_labels,
  duration_labels, record_all,
}
use qdrant_database.Core.Metrics.Counted.{RegistryLaws, is_child, one_if, requests_counted}
use qdrant_database.Core.Logging.{value, foreign, EventDict, request_context_processor}
use qdrant_database.Core.Logging.Enriched.{lookup-request_context_processor}
use qdrant_database.Ingestion.Embedder.Loading.{
  EmbedderState, unloaded, Constructor, warmup, get_model, get_tokenizer,
}
use qdrant_database.Ingestion.Embedder.Loading.Once.{
  model_used, tokenizer_used, warmed, uses, warmed_for_good,
}
use qdrant_database.Ingestion.Start.{truthy}
use qdrant_database.Ingestion.Locks.{LockKey, poll}
use qdrant_database.Ingestion.Locks.Waiting.{here, again, poll_decided}
use qdrant_database.Grpc.Server.{Environ, ServerConfig, serve, server_config, int_or}
use qdrant_database.Grpc.Server.Serving.{
  Call, logging_server, reflection_of, binding, serving, serve_calls,
}
use qdrant_database.Qdrant.Client.{lookup}
use qdrant_database.Scripts.LoadTest.{UploadAnswer, SearchSummary, upload_one, upload_chunks, run}
use qdrant_database.Scripts.LoadTest
use qdrant_database.Scripts.LoadTest.Counting.{run_fails_without_loss}
use qdrant_database.Scripts.VerifySetup.{passed, dummy_point, roundtrip_collection}
use qdrant_database.Scripts.VerifySetup.RoundTrip.{IsCalm, roundtrip_passes}
use qdrant_database.Naming.{pos}
use qdrant_database.Tests.Memory.{Server, server, locks, acme, help, doc_1}
use qdrant_database.Tests.Memory.Server.{server_laws}

abbrev no_context : RequestContext
no_context = record {
  request_id = none;
  tenant_id = none;
  bot_id = none;
  doc_id = none;
  phase_durations = none;
}

-- A view that raises.
abbrev broken : Handler (Unit {0})
broken r = raise (other [])

abbrev request : HttpRequest
request = record {
  method = codes "GET";
  path = codes "/v1/tenants";
  request_id_header = none;
  url_name = none;
}

abbrev site : Site (Unit {0})
site = record { context = no_context; access_log = []; rest = tt }

dynamic_path : starts_with_any requestid_excluded_paths request.path ≡ false
unfolding starts_with_any
dynamic_path = refl

logged_path : starts_with_any accesslog_excluded_paths request.path ≡ false
unfolding starts_with_any
logged_path = refl

stack_example :
    let (out, after) = stack doc_1 broken request site in
    (out ≡ raised (other []))
    × (after.access_log
        ≡ access_record request (raised (other [])) (prepared doc_1 request site).context ∷ [])
    × SameIds after.context no_context
    × (after.rest ≡ tt)
stack_example =
    stack_lem doc_1 broken request site (prepared doc_1 request site) (raised (other []))
      dynamic_path logged_path refl

-- The calls on a registry, the newest first.
abbrev Tally : Type 0
Tally = List (Metric × Labels)

abbrev tally : Registry Tally
tally = record { inc = λ m ls r. (m, ls) ∷ r; observe = λ m ls x r. (m, ls) ∷ r; set = λ m x r. r }

abbrev amount : Tally → Metric → Labels → ℕ
amount [] n ks = 0
amount ((m, ls) ∷ r) n ks = one_if (is_child m ls n ks) + amount r n ks

tally_laws : RegistryLaws tally
tally_laws = record {
  amount = amount;
  inc_counts = λ m n ls ks r. refl;
  observe_counts = λ m n ls ks x r. refl;
}

abbrev access : AccessRecord
access = record {
  method = codes "GET";
  path = codes "/v1";
  status_code = 200;
  phases = ("embed", 12) ∷ [];
  tenant_id = none;
  bot_id = none;
  doc_id = none;
  endpoint = codes "search";
}

counted_example :
    (tally_laws.amount
        (record_all tally (λ n. n) ((access, 3) ∷ (access, 4) ∷ []) [])
        http_requests_total
        (http_labels (codes "GET") (codes "search") 200)
      ≡ 2
        + tally_laws.amount [] http_requests_total (http_labels (codes "GET") (codes "search") 200))
    × (tally_laws.amount
          (record_all tally (λ n. n) ((access, 3) ∷ (access, 4) ∷ []) [])
          http_request_duration_seconds
          (duration_labels (codes "GET") (codes "search"))
        ≡ 2
          + tally_laws.amount [] http_request_duration_seconds
              (duration_labels (codes "GET") (codes "search")))
counted_example =
    requests_counted tally tally_laws (λ n. n) ((access, 3) ∷ (access, 4) ∷ []) (codes "GET")
      (codes "search") 200 []

abbrev event : EventDict
event = ("request_id", value (codes "own")) ∷ ("n", foreign) ∷ []

abbrev in_request : RequestContext
in_request = record no_context { request_id = some (codes "r1"); bot_id = some help }

log_example : lookup "bot_id" (request_context_processor in_request event) ≡ some (value help)
log_example = lookup-request_context_processor in_request event "bot_id"

abbrev gunicorn : List Text
gunicorn = codes "/usr/bin/gunicorn" ∷ codes "config.wsgi" ∷ []

abbrev unset : Environ
unset = record {
  grpc_port = none;
  grpc_max_workers = none;
  grpc_shutdown_grace_seconds = none;
  grpc_enable_reflection = some (codes "true");
}

abbrev defaults : ServerConfig
defaults = record { port = 50051; max_workers = 10; grace_s = 10; enable_reflection = true }

defaults_read : server_config {S = List Call} (λ t. t) unset [] ≡ (ok defaults, [])
unfolding server_config int_or truthy strip rstrip lstrip is_space
defaults_read = refl

serve_example :
    serve (logging_server (reflection_of false) 50051) (λ t. t) unset []
    ≡ (ok tt, binding defaults ++ serving defaults)
serve_example = serve_calls (λ t. t) unset defaults false 50051 defaults_read

abbrev load : Constructor ℕ
load n = ok 7

abbrev loaded : EmbedderState ℕ ℕ
loaded = record {
  model = some 7;
  tokenizer = some 7;
  model_constructions = 1;
  tokenizer_constructions = 1;
  embedder_loaded = 1;
}

run_warmup : warmup load load unloaded ≡ (ok tt, loaded)
unfolding warmup get_model get_tokenizer
run_warmup = refl

warmed_example : uses load load (model_used ∷ tokenizer_used ∷ warmed ∷ []) loaded ≡ loaded
warmed_example =
    warmed_for_good load load unloaded loaded (model_used ∷ tokenizer_used ∷ warmed ∷ []) run_warmup

abbrev held : List LockKey
held = (pos 1, pos 1) ∷ []

abbrev late : Exc
late = other (codes "late")

waiting_example :
    ((u : List LockKey)
      → locks.try_lock (pos 0, pos 0) held ≡ (ok true, u)
      → poll locks (λ n. n * 50) 5000 (suc (1 + 99)) 0 (pos 0, pos 0) late held ≡ some (ok tt, u))
    × ((u : List LockKey)
        → locks.try_lock (pos 0, pos 0) held ≡ (ok false, u)
        → 5000 ≤ 1 * 50
        → poll locks (λ n. n * 50) 5000 (suc (1 + 99)) 0 (pos 0, pos 0) late held
          ≡ some (raised late, u))
waiting_example =
    poll_decided locks (λ n. n * 50) 5000 (pos 0, pos 0) 1 99 late (again refl (omega arith) here)

server-IsCalm : IsCalm server
server-IsCalm = record {
  creates = λ n c s. (tt, s, refl);
  indexes = λ n f k s. (tt, s, refl);
  upserts = λ n ps s. (tt, _, refl);
  finds = λ n s. (_, s, refl);
  counts = λ n f s. (_, s, refl);
  deletes = λ n f s. (tt, _, refl);
  drops = λ n s. (tt, _, refl);
}

named : collection_name acme help ≡ ok (joined_name acme help)
unfolding collection_name validate_slug slug_fullmatch is_slug_char
named = refl

abbrev nowhere : Server
nowhere n = []

roundtrip_example :
    (u : Server) × (roundtrip_collection server acme help doc_1
        (dummy_point doc_1 acme help doc_1 [] [] [])
        nowhere
      ≡ (ok passed, u))
unfolding server_laws
roundtrip_example =
    roundtrip_passes server server_laws server-IsCalm acme help (joined_name acme help) named doc_1
      doc_1 [] [] [] nowhere refl

abbrev answer : Option UploadAnswer
answer = some (record { status_code = 201; chunks_created = 3 })

abbrev searches : SearchSummary
searches = record { failed = 0; any_latency = true; within_limits = true }

warm : LoadTest.warmup (answer ∷ []) ≡ some 3
unfolding LoadTest.warmup upload_one
warm = refl

load_test_example :
    run
      (answer ∷ [])
      (answer ∷ [])
      searches
      (some (3 + upload_chunks (map upload_one (answer ∷ []))))
    ≡ 1
load_test_example = run_fails_without_loss (answer ∷ []) (answer ∷ []) searches 3 warm (omega arith)

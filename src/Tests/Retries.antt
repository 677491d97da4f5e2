-- ===== src/Tests/Retries.antt =====
-- Runs of retries, collections, the comparison of schemas, and warmup.
use qdrant_database.Prelude.{
  false, none, some, length, strip, ◌≡◌, ◌↔◌, refl, ℕ, suc, true, List, [], ◌∷◌, Text, codes, arith,
  ltb, if◌then◌else◌,
}
use qdrant_database.Errors.{unexpected_response, Exc, rpc_error, unavailable}
use qdrant_database.Exec.{ok, raised, Exec}
use qdrant_database.Naming.{collection_name, joined_name}
use qdrant_database.Tenants.{validate_slug, slug_fullmatch, is_slug_char}
use qdrant_database.Qdrant.Retry.{with_retry, retry, is_transient}
use qdrant_database.Qdrant.Retry.Attempts.{Failures, none_yet, one_more, retry_decided}
use qdrant_database.Qdrant.Client.{QdrantClient, QueryPoints, ScoredPoint, float}
use qdrant_database.Qdrant.Client
use qdrant_database.Qdrant.Schema.{expected_params, compare_schema}
use qdrant_database.Qdrant.Schema.Comparison.{Passes, compare_schema-nil_iff}
use qdrant_database.Qdrant.Collection.{get_or_create_collection}
use qdrant_database.Qdrant.Collection.Interrupted.{get_or_create_without_indexes}
use qdrant_database.Qdrant.Search.{
  SearchArgs, SearchResult, search_documents, request_of, execute_query, result_of, chunk_dict,
  set_key,
}
use qdrant_database.Qdrant.Search.Chunks.{AreChunksOf}
use qdrant_database.Qdrant.Search.Requests.{IsRequestOf, search_documents_lem}
use qdrant_database.Ingestion.Embedder.{
  embed_query, embed_passages, is_blank, Float, sparse_to_qdrant, parse_int,
}
use qdrant_database.Ingestion.Warmup.{
  here, next, start, finish, initial, start_warmup_in_background, do_warmup, WarmupState,
}
use qdrant_database.Ingestion.Warmup.Readiness.{IsConsistent, Reach-IsConsistent}
use qdrant_database.Tests.Memory.{env, Server, server, acme, help}

-- A service that is down for its first two calls; the state counts the calls.
abbrev unavailable_error : Exc
unavailable_error = rpc_error unavailable

abbrev flaky : Exec ℕ ℕ
flaky s = if ltb s 2 then (raised unavailable_error, suc s) else (ok s, suc s)

transient : is_transient unavailable_error ≡ true
unfolding is_transient
transient = refl

two-Failures : Failures flaky 0 2 2
two-Failures =
    one_more unavailable_error refl transient (one_more unavailable_error refl transient none_yet)

decided_example : retry 3 flaky 0 ≡ (ok 2, 3)
decided_example = retry_decided flaky 3 (ok 2) two-Failures (omega arith) refl tt

abbrev one_point : Server
one_point n =
    record {
      id = [];
      dense = [];
      bm25 = record { indices = []; values = [] };
      colbert = [];
      payload = [];
    }
    ∷ []

named : collection_name acme help ≡ ok (joined_name acme help)
unfolding collection_name validate_slug slug_fullmatch is_slug_char
named = refl

schema_example : (compare_schema expected_params ≡ []) ↔ Passes expected_params
schema_example = compare_schema-nil_iff expected_params

abbrev weights : List (Text × Float)
weights = (codes "12", 5) ∷ (codes "7", 6) ∷ []

converted : sparse_to_qdrant weights ≡ ok (record { indices = 12 ∷ 7 ∷ []; values = 5 ∷ 6 ∷ [] })
unfolding sparse_to_qdrant parse_int
converted = refl

-- Two requests to start, the failure of the thread, and one more request.
abbrev failed_once : WarmupState
failed_once = start_warmup_in_background (
    do_warmup false
      (record (start_warmup_in_background (start_warmup_in_background initial)) { threads = 0 }))

one_runs : (start_warmup_in_background (start_warmup_in_background initial)).threads ≡ 1
unfolding start_warmup_in_background
one_runs = refl

warm_example : IsConsistent failed_once
warm_example =
    Reach-IsConsistent (next (next (next (next here start) start) (finish false 0 one_runs)) start)

abbrev search_args : SearchArgs
search_args = record {
  tenant_id = acme;
  bot_id = help;
  query = codes "hours";
  top_k = 5;
  source_types = none;
  tags = none;
  category = none;
}

-- A server that answers every query with one point.
abbrev hit : ScoredPoint
hit = record { payload = some (("text", Client.text help) ∷ []); score = 7 }

abbrev answering : QdrantClient Server
answering = record server { query_points = λ r s. (ok (hit ∷ []), s) }

abbrev one_hit : SearchResult
one_hit = record {
  chunks = (("text", Client.text help) ∷ ("score", float 7) ∷ []) ∷ [];
  total_candidates = 1;
  threshold_used = 0;
}

run_search : search_documents answering env.model search_args one_point ≡ (ok one_hit, one_point)
unfolding search_documents collection_name validate_slug slug_fullmatch is_slug_char request_of
    embed_query is_blank embed_passages strip sparse_to_qdrant execute_query with_retry retry
    result_of chunk_dict set_key
run_search = refl

search_example :
    (request : QueryPoints) × (hits : List ScoredPoint) × (t : Server) × IsRequestOf env.model
      (joined_name acme help)
      search_args
      request
    × (answering.query_points request t ≡ (ok hits, one_point))
    × (one_hit.total_candidates ≡ length hits)
    × AreChunksOf hits one_hit.chunks
search_example =
    search_documents_lem answering env.model search_args (joined_name acme help) one_point one_point
      one_hit named run_search

-- A server on which the collection comes into being and no index can be made; the state counts the
-- collections.
abbrev without_indexes : QdrantClient ℕ
without_indexes = record {
  collection_exists = λ n s. (ok false, s);
  get_collection = λ n s. (ok expected_params, s);
  create_collection =
      λ n c s. if ltb 0 s then (raised (unexpected_response 409), s) else (ok tt, suc s);
  create_payload_index = λ n f k s. (raised unavailable_error, s);
  delete_collection = λ n s. (ok tt, s);
  count = λ n f s. (ok 0, s);
  delete = λ n f s. (ok tt, s);
  upsert = λ n ps s. (ok tt, s);
  query_points = λ r s. (ok [], s);
  get_collections = λ s. (ok tt, s);
}

expected_passes : compare_schema expected_params ≡ []
unfolding compare_schema
expected_passes = refl

interrupted_example :
    get_or_create_collection without_indexes acme help 0 ≡ (ok (joined_name acme help), 1)
interrupted_example =
    get_or_create_without_indexes without_indexes acme help (joined_name acme help) named
      unavailable_error expected_params 0 0 1 1 1 1 refl refl refl transient refl refl
      expected_passes

-- ===== src/Qdrant/Search.antt =====
-- The hybrid search of apps/qdrant_core/search.py: filter, prefetches, query and result.
-- The two metrics that a search records are not modelled.
pub mod Chunks
pub mod Requests
use package.text.Mathlib.Text.{◌==◌ as str_eq}
use qdrant_database.Prelude.{
  ℕ, true, false, Option, none, some, List, [], ◌∷◌, ◌++◌, map, String, Text, is_empty, length,
  replicate, if◌then◌else◌,
}
use qdrant_database.Errors.{qdrant_error, collection_not_found_error}
use qdrant_database.Exec.{◌>>=◌, Outcome, Exec, pure, raise, lift}
use qdrant_database.Naming.{collection_name}
use qdrant_database.Ingestion.Embedder.{
  Float, Embeddings, SparseVector, embed_query, sparse_to_qdrant, colbert_to_qdrant,
}
use qdrant_database.Qdrant.Client.{
  QdrantClient, Payload, Value, Filter, match_value, match_any, Prefetch, by_dense, by_sparse,
  FusionPrefetch, QueryPoints, ScoredPoint,
}
use qdrant_database.Qdrant.Client
use qdrant_database.Qdrant.Retry.{with_retry}
use qdrant_database.Qdrant.Schema.{dense_vector_name, sparse_vector_name, colbert_vector_name}

abbrev pub default_top_k : ℕ
default_top_k = 5

abbrev pub max_top_k : ℕ
max_top_k = 20

-- The bit pattern of 0.0.
abbrev pub score_threshold : Float
score_threshold = 0

abbrev pub prefetch_limit : ℕ
prefetch_limit = 50

abbrev pub fusion_limit : ℕ
fusion_limit = 100

abbrev pub rrf_dense_weight : ℕ
rrf_dense_weight = 3

abbrev pub rrf_sparse_weight : ℕ
rrf_sparse_weight = 1

abbrev pub any_condition : String → Option (List Text) → Filter
any_condition key none = []
any_condition key (some xs) =
    if is_empty xs then [] else record { key = key; match = match_any xs } ∷ []

abbrev pub value_condition : String → Option Text → Filter
value_condition key none = []
value_condition key (some x) =
    if is_empty x then [] else record { key = key; match = match_value (Client.text x) } ∷ []

unfoldable pub build_filter : Option (List Text) → Option (List Text) → Option Text → Filter
build_filter source_types tags category =
    record { key = "is_active"; match = match_value (Client.bool true) }
    ∷ (any_condition "source_type" source_types
        ++ (any_condition "tags" tags ++ value_condition "category" category))

abbrev pub dense_prefetch : List Float → Filter → Prefetch
dense_prefetch dense_vec qfilter = record {
  query = by_dense dense_vec;
  using = dense_vector_name;
  limit = prefetch_limit;
  filter = qfilter;
}

abbrev pub sparse_prefetch : SparseVector → Filter → Prefetch
sparse_prefetch sparse_qd qfilter = record {
  query = by_sparse sparse_qd;
  using = sparse_vector_name;
  limit = prefetch_limit;
  filter = qfilter;
}

unfoldable pub build_inner_prefetches : List Float → SparseVector → Filter → List Prefetch
build_inner_prefetches dense_vec sparse_qd qfilter =
    replicate rrf_dense_weight (dense_prefetch dense_vec qfilter)
    ++ replicate rrf_sparse_weight (sparse_prefetch sparse_qd qfilter)

-- The dict that `_execute_query` returns.
pub record SearchResult : Type 0 where
  pub chunks : List Payload
  pub total_candidates : ℕ
  pub threshold_used : Float

-- `payload["score"] = …` on a copy of the payload: an assignment keeps the place of an old key.
unfoldable pub set_key : String → Value → Payload → Payload
set_key k v [] = (k, v) ∷ []
set_key k v ((j, w) ∷ d) = if str_eq j k then (j, v) ∷ d else (j, w) ∷ set_key k v d

-- One round of the loop over the points.
unfoldable pub chunk_dict : ScoredPoint → Payload
chunk_dict p = elim p.payload [
  | none ↦ set_key "score" (Client.float p.score) []
  | some d ↦ set_key "score" (Client.float p.score) d
]

unfoldable pub result_of : List ScoredPoint → SearchResult
result_of points = record {
  chunks = map chunk_dict points;
  total_candidates = length points;
  threshold_used = score_threshold;
}

-- The call of `query_points`.
unfoldable pub query_request :
    Text → List FusionPrefetch → List (List Float) → Filter → ℕ → QueryPoints
query_request collection prefetch colbert_vec qfilter top_k = record {
  collection = collection;
  prefetch = prefetch;
  query = colbert_vec;
  using = colbert_vector_name;
  limit = top_k;
  score_threshold = score_threshold;
  with_payload = true;
  with_vectors = false;
  query_filter = qfilter;
}

-- The keyword arguments of `search`.
pub record SearchArgs : Type 0 where
  pub tenant_id : Text
  pub bot_id : Text
  pub query : Text
  pub top_k : ℕ
  pub source_types : Option (List Text)
  pub tags : Option (List Text)
  pub category : Option Text

module _ {Q : Type 0} (q : QdrantClient Q) where
  unfoldable pub execute_query : QueryPoints → Exec Q SearchResult
  execute_query request = with_retry (do points ← q.query_points request; pure (result_of points))

  module _ (model : List Text → Outcome Embeddings) where
    -- The query that `search` builds from its arguments, or the error of embedding them.
    unfoldable pub request_of : Text → SearchArgs → Exec Q QueryPoints
    request_of name args = do
      embeddings ← lift (embed_query model args.query)
      sparse_qd ← lift (sparse_to_qdrant embeddings.sparse)
      let qfilter = build_filter args.source_types args.tags args.category
      let inner = build_inner_prefetches embeddings.dense sparse_qd qfilter
      pure (
          query_request name (record { prefetch = inner; limit = fusion_limit } ∷ [])
            (colbert_to_qdrant embeddings.colbert) qfilter args.top_k)

    unfoldable pub search_documents : SearchArgs → Exec Q SearchResult
    search_documents args = do
      name ← lift (collection_name args.tenant_id args.bot_id)
      there ← q.collection_exists name
      if there
          then (do request ← request_of name args; execute_query request)
          else raise (qdrant_error collection_not_found_error)

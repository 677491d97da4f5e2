-- ===== src/Qdrant/Search/Requests.antt =====
-- The query that a search sends, and what its result says of the hits.
use qdrant_database.Prelude.{
  ◌≡◌, refl, ap, subst, ◌∙◌, Bool, true, false, List, [], ◌∷◌, String, Text, length, keep, All,
  if◌then◌else◌,
}
use qdrant_database.Errors.{qdrant_error, collection_not_found_error}
use qdrant_database.Exec.{Outcome, ok, pure, raise, lift, ◌>>=◌}
use qdrant_database.Exec.Outcomes.{bind-eq-ok, ok-injective}
use qdrant_database.Naming.{collection_name}
use qdrant_database.Ingestion.Embedder.{
  Embeddings, QueryEmbedding, embed_query, sparse_to_qdrant, colbert_to_qdrant, Float, SparseVector,
}
use qdrant_database.Qdrant.Client.{
  QdrantClient, QueryPoints, ScoredPoint, Prefetch, FusionPrefetch, PrefetchQuery, by_dense,
  by_sparse, Filter,
}
use qdrant_database.Qdrant.Retry.{with_retry}
use qdrant_database.Qdrant.Retry.Attempts.{retry-ok}
use qdrant_database.Qdrant.Search.{
  SearchArgs, SearchResult, build_filter, build_inner_prefetches, query_request, result_of,
  execute_query, request_of, search_documents, fusion_limit, prefetch_limit,
}
use qdrant_database.Qdrant.Search.Chunks.{AreChunksOf, map-AreChunksOf}
use qdrant_database.Qdrant.Schema.{dense_vector_name, sparse_vector_name, colbert_vector_name}

abbrev is_dense : Prefetch → Bool
is_dense p = elim p.query [ by_dense v ↦ true | by_sparse v ↦ false ]

abbrev is_sparse : Prefetch → Bool
is_sparse p = elim p.query [ by_dense v ↦ false | by_sparse v ↦ true ]

-- A branch goes by the dense or by the sparse vector of the query's embedding, in the vector space of
-- that name.
abbrev pub IsQueryBy : List Float → SparseVector → PrefetchQuery → String → Type 0
IsQueryBy dense sparse (by_dense v) using = (v ≡ dense) × (using ≡ dense_vector_name)
IsQueryBy dense sparse (by_sparse v) using = (v ≡ sparse) × (using ≡ sparse_vector_name)

abbrev pub IsBranch : Filter → List Float → SparseVector → Prefetch → Type 0
IsBranch f dense sparse p =
    (p.filter ≡ f) × (p.limit ≡ prefetch_limit) × IsQueryBy dense sparse p.query p.using

-- Three dense branches and a sparse one, all with the filter `f`.
pub record IsWeighted (f : Filter) (dense : List Float) (sparse : SparseVector)
    (fusion : FusionPrefetch) : Type 0 where
  pub dense_branches : length (keep is_dense fusion.prefetch) ≡ 3
  pub sparse_branches : length (keep is_sparse fusion.prefetch) ≡ 1
  pub branches : All (IsBranch f dense sparse) fusion.prefetch
  pub fused : fusion.limit ≡ fusion_limit

-- The request asks the collection `name` for what the arguments ask for: one fusion over the vectors
-- of the query's embedding, ranked again by its ColBERT vectors, with payloads.
pub record IsRequestOf (model : List Text → Outcome Embeddings) (name : Text) (args : SearchArgs)
    (request : QueryPoints) : Type 0 where
  pub embedding : QueryEmbedding
  pub embedded : embed_query model args.query ≡ ok embedding
  pub sparse : SparseVector
  pub converted : sparse_to_qdrant embedding.sparse ≡ ok sparse
  pub collection : request.collection ≡ name
  pub limit : request.limit ≡ args.top_k
  pub ranked : request.query ≡ colbert_to_qdrant embedding.colbert
  pub using : request.using ≡ colbert_vector_name
  pub with_payload : request.with_payload ≡ true
  pub filtered : request.query_filter ≡ build_filter args.source_types args.tags args.category
  pub fusion : FusionPrefetch
  pub one_fusion : request.prefetch ≡ fusion ∷ []
  pub weighted :
      IsWeighted
        (build_filter args.source_types args.tags args.category)
        embedding.dense
        sparse
        fusion

module _ {Q : Type 0} (q : QdrantClient Q) (model : List Text → Outcome Embeddings) where
  branches-IsWeighted :
      (f : Filter) (dense : List Float) (sparse : SparseVector)
      → IsWeighted f dense sparse
          (record { prefetch = build_inner_prefetches dense sparse f; limit = fusion_limit })
  unfolding build_inner_prefetches
  branches-IsWeighted f dense sparse = record {
    dense_branches = refl;
    sparse_branches = refl;
    branches = (
      (refl, refl, (refl, refl)),
      ((refl, refl, (refl, refl)), ((refl, refl, (refl, refl)), ((refl, refl, (refl, refl)), tt))),
    );
    fused = refl;
  }

  request-IsRequestOf :
      (name : Text) (args : SearchArgs) (s u : Q) (request : QueryPoints)
      → request_of q model name args s ≡ (ok request, u)
      → IsRequestOf model name args request
  unfolding request_of query_request
  request-IsRequestOf name args s u request h =
      let (e, s₁, embedded, rest) = bind-eq-ok (lift (embed_query model args.query)) _ s h in
      let (sparse, s₂, converted, last) = bind-eq-ok (lift (sparse_to_qdrant e.sparse)) _ s₁ rest in
      let f = build_filter args.source_types args.tags args.category in
      rw (← ok-injective (ap (λ (r : Outcome QueryPoints × Q). r.0) last)) (record {
        embedding = e;
        embedded = ap (λ (r : Outcome QueryEmbedding × Q). r.0) embedded;
        sparse = sparse;
        converted = ap (λ (r : Outcome SparseVector × Q). r.0) converted;
        collection = refl;
        limit = refl;
        ranked = refl;
        using = refl;
        with_payload = refl;
        filtered = refl;
        fusion = record {
          prefetch = build_inner_prefetches e.dense sparse f;
          limit = fusion_limit;
        };
        one_fusion = refl;
        weighted = branches-IsWeighted f e.dense sparse;
      })

  executed :
      (request : QueryPoints) (s u : Q) (r : SearchResult)
      → execute_query q request s ≡ (ok r, u)
      → (hits : List ScoredPoint) × (t : Q) × (q.query_points request t ≡ (ok hits, u))
        × (r.total_candidates ≡ length hits)
        × AreChunksOf hits r.chunks
  unfolding execute_query with_retry result_of
  executed request s u r h =
      let (t, once) =
        retry-ok (q.query_points request >>= λ points. pure (result_of points)) 3 s h in
      let (hits, v, asked, last) = bind-eq-ok (q.query_points request) _ t once in
      let same : result_of hits ≡ r =
        ok-injective (ap (λ (x : Outcome SearchResult × Q). x.0) last) in
      let still : v ≡ u = ap (λ (x : Outcome SearchResult × Q). x.1) last in
      (
        hits,
        t,
        asked ∙ ap (λ (x : Q). (ok hits, x)) still,
        subst (λ (x : SearchResult). x.total_candidates ≡ length hits) same refl,
        subst (λ (x : SearchResult). AreChunksOf hits x.chunks) same (map-AreChunksOf hits),
      )

  -- A search that returns has asked the server for points of the bot's own collection, at most
  -- `top_k` of them, in one fusion of three branches by the dense vector of the query's embedding and
  -- one by its sparse vector, ranked again by its ColBERT vectors, with the filter of its arguments on
  -- the query and on each branch; its result counts the hits of that query, and has one chunk for each
  -- hit, in their order, which holds the score of the hit and, at every other key, what the payload of
  -- the hit holds.
  pub search_documents_lem :
      (args : SearchArgs) (name : Text) (s u : Q) (r : SearchResult)
      → collection_name args.tenant_id args.bot_id ≡ ok name
      → search_documents q model args s ≡ (ok r, u)
      → (request : QueryPoints) × (hits : List ScoredPoint) × (t : Q) × IsRequestOf model name args
          request
        × (q.query_points request t ≡ (ok hits, u))
        × (r.total_candidates ≡ length hits)
        × AreChunksOf hits r.chunks
  unfolding search_documents
  search_documents_lem args name s u r named h =
      let (there, s₁, _, rest) =
        bind-eq-ok (q.collection_exists name) _ s (rw (named, search_documents) at h) in
      go there s₁ rest
    where
      go :
          (there : Bool) (s₁ : Q)
          → (if there
                then request_of q model name args >>= execute_query q
                else raise (qdrant_error collection_not_found_error))
              s₁
            ≡ (ok r, u)
          → (request : QueryPoints) × (hits : List ScoredPoint) × (t : Q) × IsRequestOf model name
              args request
            × (q.query_points request t ≡ (ok hits, u))
            × (r.total_candidates ≡ length hits)
            × AreChunksOf hits r.chunks
      go true s₁ k =
          let (request, v, built, run) = bind-eq-ok (request_of q model name args) _ s₁ k in
          let (hits, t, asked, counted, one_each) = executed request v u r run in
          (
            request,
            hits,
            t,
            request-IsRequestOf name args s₁ v request built,
            asked,
            counted,
            one_each,
          )
      go false s₁ k = cc k

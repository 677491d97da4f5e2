-- ===== src/Grpc/Metrics.antt =====
-- How `Search` refuses a request, and what the metrics say of it.
use qdrant_database.Prelude.{
  ℕ, ◌≡◌, refl, Bool, true, false, not, Option, none, some, List, [], ◌∷◌, ◌++◌, String, Text,
  is_empty, strip,
}
use qdrant_database.Errors.{StatusCode, internal, invalid_argument, other}
use qdrant_database.Exec.{◌>>=◌, ◌>>◌, Outcome, ok, raised, and_then, Exec}
use qdrant_database.Tenants.{normalize_slug, validate_slug}
use qdrant_database.Ingestion.Embedder.{Embeddings}
use qdrant_database.Qdrant.Client.{QdrantClient}
use qdrant_database.Grpc.{
  ServicerContext, RpcState, SearchRequest, SearchResponse, checked_top_k, abort, abort_if,
  abort_raised, or_abort, search_rpc, recorded_status, record_metrics,
}

-- As documented by grpc: `abort` sets the code of the call and raises a plain `Exception`.
pub record AbortLaws {C : Type 0} (rpc : ServicerContext C) : Type 0 where
  pub name : Text
  pub raises : (code : StatusCode) (c : C) → (rpc.abort code c).0 ≡ other name
  pub sets : (code : StatusCode) (c : C) → rpc.code (rpc.abort code c).1 ≡ some code

-- One of the four checks fails: slugs, query, `top_k`, `only_active`.
abbrev pub OneFails : Outcome (Unit {0}) → Bool → Option ℕ → Bool → Type 0
OneFails (raised e) blank top_k inactive = Unit
OneFails (ok _) true top_k inactive = Unit
OneFails (ok _) false none inactive = Unit
OneFails (ok _) false (some n) true = Unit
OneFails (ok _) false (some n) false = ⊥

abbrev pub slugs_of : SearchRequest → Outcome (Unit {0})
slugs_of request =
    and_then (validate_slug (normalize_slug request.tenant_id))
      λ _. validate_slug (normalize_slug request.bot_id)

abbrev pub IsRejected : SearchRequest → Type 0
IsRejected request =
    OneFails (slugs_of request) (is_empty (strip request.query)) (checked_top_k request.top_k)
      (not request.filters.only_active)

module _ {C Q : Type 0} (rpc : ServicerContext C) where
  checks_abort :
      (v : Outcome (Unit {0})) (blank : Bool) (top_k : Option ℕ) (inactive : Bool)
      (rest : ℕ → Exec (RpcState C Q) SearchResponse) (s : RpcState C Q)
      → OneFails v blank top_k inactive
      → (do
        abort_raised rpc v invalid_argument
        abort_if rpc blank invalid_argument
        n ← or_abort rpc top_k invalid_argument
        abort_if rpc inactive invalid_argument
        rest n)
          s
        ≡ abort rpc invalid_argument s
  checks_abort (raised e) blank top_k inactive rest s h = refl
  checks_abort (ok _) true top_k inactive rest s h = refl
  checks_abort (ok _) false none inactive rest s h = refl
  checks_abort (ok _) false (some n) true rest s h = refl
  checks_abort (ok _) false (some n) false rest s h = absurd h

  module _ (client : QdrantClient Q) (model : List Text → Outcome Embeddings) where
    -- A request with an invalid slug, a blank query, a `top_k` out of range or `only_active` not set
    -- is aborted with INVALID_ARGUMENT, and nothing is embedded or asked of the server.
    pub search_rpc_rejects :
        (request : SearchRequest) (s : RpcState C Q)
        → IsRejected request
        → search_rpc rpc client model request s ≡ abort rpc invalid_argument s
    unfolding search_rpc
    search_rpc_rejects request s h =
        checks_abort (slugs_of request) (is_empty (strip request.query))
          (checked_top_k request.top_k) (not request.filters.only_active) _ s h

    -- For a request with an invalid slug, a blank query, a `top_k` out of range or `only_active` not
    -- set, the metrics count the status INTERNAL, while the caller is told INVALID_ARGUMENT, where
    -- `abort` raises a plain exception and sets the code of the call.
    pub rejected_recorded_internal :
        (laws : AbortLaws rpc) (rpc_name : String) (request : SearchRequest) (s : RpcState C Q)
        → IsRejected request
        → let after = (record_metrics rpc rpc_name (search_rpc rpc client model request) s).1 in
          (after.grpc_requests ≡ s.grpc_requests ++ (rpc_name, internal) ∷ [])
          × (rpc.code after.context ≡ some invalid_argument)
    unfolding record_metrics recorded_status
    rejected_recorded_internal laws rpc_name request s h =
        rw (search_rpc_rejects request s h)
          (rw (laws.raises invalid_argument s.context) refl, laws.sets invalid_argument s.context)

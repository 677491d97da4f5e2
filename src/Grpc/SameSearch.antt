-- ===== src/Grpc/SameSearch.antt =====
-- The HTTP view and the RPC make the same search of the same request.
use qdrant_database.Prelude.{
  ℕ, zero, suc, List, [], ◌∷◌, ◌≤◌, ◌≡◌, refl, Option, some, none, Text, le→leb, arith,
}
use qdrant_database.Naming.{pos}
use qdrant_database.Tenants.{normalize_slug}
use qdrant_database.Documents.Serializers.{SearchBody, SearchFilters}
use qdrant_database.Documents.Views.{search_args}
use qdrant_database.Qdrant.Search.{max_top_k}
use qdrant_database.Documents.Views
use qdrant_database.Grpc
use qdrant_database.Grpc.{SearchRequest, checked_top_k, rpc_search_args}

-- The RPC request of an HTTP search with filters; a missing category is the empty text.
abbrev or_empty : Option Text → Text
or_empty none = []
or_empty (some t) = t

abbrev pub as_rpc : Text → Text → SearchBody → SearchFilters → SearchRequest
as_rpc tenant_id bot_id body f = record {
  tenant_id = tenant_id;
  bot_id = bot_id;
  query = body.query;
  top_k = pos body.top_k;
  filters = record {
    source_types = f.source_types;
    tags = f.tags;
    category = or_empty f.category;
    only_active = f.only_active;
  };
}

category_same : (c : Option Text) → Grpc.text_or_none (or_empty c) ≡ Views.text_or_none c
category_same none = refl
category_same (some t) = refl

texts_same : (xs : List Text) → Grpc.texts_or_none xs ≡ Views.texts_or_none xs
texts_same [] = refl
texts_same (x ∷ xs) = refl

top_k_same : (k : ℕ) → 1 ≤ k → k ≤ max_top_k → checked_top_k (pos k) ≡ some k
unfolding checked_top_k
top_k_same zero low high = absurd (omega arith)
top_k_same (suc k) low high = rw (le→leb (suc k) max_top_k high) refl

-- For a request that both front ends accept, `top_k` between 1 and 20, the RPC takes the same
-- `top_k` and calls `search` with the same arguments as the HTTP view.
pub same_search_args :
    (tenant_id bot_id : Text) (body : SearchBody) (f : SearchFilters)
    → body.filters ≡ some f
    → 1 ≤ body.top_k
    → body.top_k ≤ max_top_k
    → (checked_top_k (as_rpc tenant_id bot_id body f).top_k ≡ some body.top_k)
      × (rpc_search_args (as_rpc tenant_id bot_id body f) body.top_k
          ≡ search_args (normalize_slug tenant_id) (normalize_slug bot_id) body)
unfolding rpc_search_args search_args
same_search_args tenant_id bot_id body f e low high = (
  top_k_same body.top_k low high,
  rw e (rw (texts_same f.source_types, texts_same f.tags, category_same f.category) refl),
)

-- ===== src/Grpc.antt =====
-- apps/grpc_service/handler.py: the two RPCs and the metrics around them.
pub mod Metrics
pub mod SameSearch
pub mod Server
use qdrant_database.Prelude.{
  ℕ, zero, suc, Bool, true, false, not, Option, none, some, List, [], ◌∷◌, ◌++◌, String, Text,
  codes, is_empty, strip, leb, if◌then◌else◌,
}
use qdrant_database.Errors.{
  Exc, StatusCode, ok_status, invalid_argument, not_found, unavailable, internal, rpc_error,
  qdrant_error, collection_not_found_error, qdrant_connection_error, other,
}
use qdrant_database.Exec.{◌>>=◌, ◌>>◌, Outcome, ok, raised, and_then, Exec, pure, lift, try_except}
use qdrant_database.Tenants.{normalize_slug, validate_slug}
use qdrant_database.Naming.{ℤ, pos, negsuc}
use qdrant_database.Ingestion.Embedder.{Float, Embeddings}
use qdrant_database.Qdrant.Client.{QdrantClient, Payload, Value, lookup, null, number, texts}
use qdrant_database.Qdrant.Client
use qdrant_database.Qdrant.Search.{default_top_k, max_top_k, SearchArgs, search_documents}

-- The messages of proto/search.proto.
pub record Filters : Type 0 where
  pub source_types : List Text
  pub tags : List Text
  pub category : Text
  pub only_active : Bool

pub record SearchRequest : Type 0 where
  pub tenant_id : Text
  pub bot_id : Text
  pub query : Text
  pub top_k : ℤ
  pub filters : Filters

pub record ChunkMessage : Type 0 where
  pub chunk_id : Text
  pub doc_id : Text
  pub text : Text
  pub source_type : Text
  pub source_filename : Text
  pub source_url : Text
  pub section_path : List Text
  pub page_number : ℕ
  pub score : Float

pub record SearchResponse : Type 0 where
  pub chunks : List ChunkMessage
  pub total_candidates : ℕ
  pub threshold_used : Float

pub record HealthCheckResponse : Type 0 where
  pub qdrant_ok : Bool
  pub embedder_loaded : Bool

-- `grpc.ServicerContext`: `abort` records its code and gives the exception that it raises.
pub record ServicerContext (C : Type 0) : Type 0 where
  pub abort : StatusCode → C → Exc × C
  pub code : C → Option StatusCode

pub record RpcState (C Q : Type 0) : Type 0 where
  pub context : C
  pub qdrant : Q
  pub grpc_requests : List (String × StatusCode)

-- `d.get(key, "")`, which the message takes only if it is a text.
abbrev text_field : Option Value → Outcome Text
text_field none = ok []
text_field (some (Client.text t)) = ok t
text_field (some _) = raised (other (codes "TypeError"))

-- `d.get(key) or ""`
abbrev text_or_empty : Option Value → Outcome Text
text_or_empty (some null) = ok []
text_or_empty v = text_field v

-- `d.get("page_number") or 0`
abbrev number_or_zero : Option Value → Outcome ℕ
number_or_zero none = ok 0
number_or_zero (some null) = ok 0
number_or_zero (some (number n)) = ok n
number_or_zero (some _) = raised (other (codes "TypeError"))

-- `list(d.get("section_path") or [])`
abbrev texts_or_empty : Option Value → Outcome (List Text)
texts_or_empty none = ok []
texts_or_empty (some null) = ok []
texts_or_empty (some (texts ts)) = ok ts
texts_or_empty (some _) = raised (other (codes "TypeError"))

-- `float(d.get("score", 0.0))`
abbrev score_of : Option Value → Outcome Float
score_of none = ok 0
score_of (some (Client.float x)) = ok x
score_of (some _) = raised (other (codes "TypeError"))

unfoldable pub chunk_message : Payload → Outcome ChunkMessage
chunk_message d = and_then (text_field (lookup "chunk_id" d)) λ chunk_id.
    and_then (text_field (lookup "doc_id" d)) λ doc_id.
      and_then (text_field (lookup "text" d)) λ text.
        and_then (text_field (lookup "source_type" d)) λ source_type.
          and_then (text_or_empty (lookup "source_filename" d)) λ source_filename.
            and_then (text_or_empty (lookup "source_url" d)) λ source_url.
              and_then (texts_or_empty (lookup "section_path" d)) λ section_path.
                and_then (number_or_zero (lookup "page_number" d)) λ page_number.
                  and_then (score_of (lookup "score" d)) λ score. ok (record {
                    chunk_id = chunk_id;
                    doc_id = doc_id;
                    text = text;
                    source_type = source_type;
                    source_filename = source_filename;
                    source_url = source_url;
                    section_path = section_path;
                    page_number = page_number;
                    score = score;
                  })

unfoldable pub chunk_messages : List Payload → Outcome (List ChunkMessage)
chunk_messages [] = ok []
chunk_messages (d ∷ ds) =
    let rest = chunk_messages ds in and_then (chunk_message d) λ m. and_then rest λ ms. ok (m ∷ ms)

-- `request.top_k or DEFAULT_TOP_K`, if it is in range.
unfoldable pub checked_top_k : ℤ → Option ℕ
checked_top_k (pos zero) = some default_top_k
checked_top_k (pos (suc n)) = if leb (suc n) max_top_k then some (suc n) else none
checked_top_k (negsuc n) = none

-- `list(xs) or None` and `x or None`
abbrev pub texts_or_none : List Text → Option (List Text)
texts_or_none [] = none
texts_or_none (x ∷ xs) = some (x ∷ xs)

abbrev pub text_or_none : Text → Option Text
text_or_none t = if is_empty t then none else some t

-- The keyword arguments of the handler's call of `search`.
unfoldable pub rpc_search_args : SearchRequest → ℕ → SearchArgs
rpc_search_args request top_k = record {
  tenant_id = normalize_slug request.tenant_id;
  bot_id = normalize_slug request.bot_id;
  query = strip request.query;
  top_k = top_k;
  source_types = texts_or_none request.filters.source_types;
  tags = texts_or_none request.filters.tags;
  category = text_or_none request.filters.category;
}

-- The status of the `abort` in each `except` clause around the search.
unfoldable pub search_abort_code : Exc → StatusCode
search_abort_code (qdrant_error collection_not_found_error) = not_found
search_abort_code (qdrant_error qdrant_connection_error) = unavailable
search_abort_code e = internal

-- The status that `_record_metrics` records for a call.
unfoldable pub recorded_status : {A C : Type 0} → ServicerContext C → Outcome A → C → StatusCode
recorded_status rpc (ok a) c = elim (rpc.code c) [ none ↦ ok_status | some code ↦ code ]
recorded_status rpc (raised (rpc_error code)) c = code
recorded_status rpc (raised e) c = internal

module _ {C Q : Type 0} (rpc : ServicerContext C) where
  -- `context.abort(code, …)`
  abbrev pub abort : {A : Type 0} → StatusCode → Exec (RpcState C Q) A
  abort code s = let (e, c) = rpc.abort code s.context in (raised e, record s { context = c })

  abbrev pub abort_if : Bool → StatusCode → Exec (RpcState C Q) (Unit {0})
  abort_if b code = if b then abort code else pure tt

  abbrev pub abort_raised : Outcome (Unit {0}) → StatusCode → Exec (RpcState C Q) (Unit {0})
  abort_raised (ok _) code = pure tt
  abort_raised (raised e) code = abort code

  abbrev pub or_abort : Option ℕ → StatusCode → Exec (RpcState C Q) ℕ
  or_abort none code = abort code
  or_abort (some n) code = pure n

  abbrev pub on_server : {A : Type 0} → Exec Q A → Exec (RpcState C Q) A
  on_server m s = let (r, q) = m s.qdrant in (r, record s { qdrant = q })

  module _ (client : QdrantClient Q) (model : List Text → Outcome Embeddings) where
    -- `VectorSearchService.Search`
    unfoldable pub search_rpc : SearchRequest → Exec (RpcState C Q) SearchResponse
    search_rpc request = do
      let tenant_id = normalize_slug request.tenant_id
      let bot_id = normalize_slug request.bot_id
      abort_raised (and_then (validate_slug tenant_id) λ _. validate_slug bot_id) invalid_argument
      abort_if (is_empty (strip request.query)) invalid_argument
      top_k ← or_abort (checked_top_k request.top_k) invalid_argument
      abort_if (not request.filters.only_active) invalid_argument
      result ←
          try_except (on_server (search_documents client model (rpc_search_args request top_k)))
            (λ e. abort (search_abort_code e))
      chunks ← lift (chunk_messages result.chunks)
      pure (record {
        chunks = chunks;
        total_candidates = result.total_candidates;
        threshold_used = result.threshold_used;
      })

    -- `VectorSearchService.HealthCheck`, given the warmup flag.
    unfoldable pub health_check_rpc : Bool → Exec (RpcState C Q) HealthCheckResponse
    health_check_rpc embedder_loaded = do
      qdrant_ok ← try_except (do on_server client.get_collections; pure true) (λ e. pure false)
      pure (record { qdrant_ok = qdrant_ok; embedder_loaded = embedder_loaded })

  -- `_record_metrics(rpc_name)` around an RPC.
  unfoldable pub record_metrics :
      {A : Type 0} → String → Exec (RpcState C Q) A → Exec (RpcState C Q) A
  record_metrics rpc_name fn s =
      let (r, s') = fn s in
      let status = recorded_status rpc r s'.context in
      (r, record s' { grpc_requests = s'.grpc_requests ++ (rpc_name, status) ∷ [] })

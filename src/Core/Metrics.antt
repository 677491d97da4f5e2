-- ===== src/Core/Metrics.antt =====
-- apps/core/metrics.py and apps/core/metrics_recorders.py: the collectors and what the recorders do
-- with them. prometheus_client is an interface over its registry; buckets and the exposition of
-- `metrics_view` belong to it.
pub mod Counted
use qdrant_database.Prelude.{ℕ, Bool, List, [], ◌∷◌, String, Text, codes, decimal, if◌then◌else◌}
use qdrant_database.Core.Context.{Phases}
use qdrant_database.Core.Middleware.{AccessRecord}
use qdrant_database.Ingestion.Embedder.{Float}

-- The module-level collectors.
pub data Metric : Type 0 where
  http_requests_total http_request_duration_seconds pipeline_phase_duration_seconds : Metric
  grpc_requests_total grpc_request_duration_seconds search_results_count : Metric
  search_threshold_used embedder_loaded : Metric

abbrev pub metric_name : Metric → String
metric_name http_requests_total = "qdrant_rag_http_requests_total"
metric_name http_request_duration_seconds = "qdrant_rag_http_request_duration_seconds"
metric_name pipeline_phase_duration_seconds = "qdrant_rag_pipeline_phase_duration_seconds"
metric_name grpc_requests_total = "qdrant_rag_grpc_requests_total"
metric_name grpc_request_duration_seconds = "qdrant_rag_grpc_request_duration_seconds"
metric_name search_results_count = "qdrant_rag_search_results_count"
metric_name search_threshold_used = "qdrant_rag_search_threshold_used"
metric_name embedder_loaded = "qdrant_rag_embedder_loaded"

-- Names with values, in the order of `labelnames`.
abbrev pub Labels : Type 0
Labels = List (String × Text)

-- `inc`, `observe` and `set` on the child of a collector with the given labels.
pub record Registry (R : Type 0) : Type 0 where
  pub inc : Metric → Labels → R → R
  pub observe : Metric → Labels → Float → R → R
  pub set : Metric → Float → R → R

abbrev pub http_labels : Text → Text → ℕ → Labels
http_labels method endpoint status_code =
    ("method", method) ∷ ("endpoint", endpoint) ∷ ("status_code", decimal status_code) ∷ []

abbrev pub duration_labels : Text → Text → Labels
duration_labels method endpoint = ("method", method) ∷ ("endpoint", endpoint) ∷ []

module _ {R : Type 0} (g : Registry R) where
  unfoldable pub record_http_request : Text → Text → ℕ → Float → R → R
  record_http_request method endpoint status_code duration_seconds r =
      g.observe http_request_duration_seconds (duration_labels method endpoint) duration_seconds
        (g.inc http_requests_total (http_labels method endpoint status_code) r)

  unfoldable pub record_pipeline_phase : Text → Float → R → R
  record_pipeline_phase phase seconds =
      g.observe pipeline_phase_duration_seconds (("phase", phase) ∷ []) seconds

  unfoldable pub record_grpc_request : Text → Text → Float → R → R
  record_grpc_request rpc status_code duration_seconds r =
      g.observe grpc_request_duration_seconds (("rpc", rpc) ∷ []) duration_seconds
        (g.inc grpc_requests_total (("rpc", rpc) ∷ ("status_code", status_code) ∷ []) r)

  -- `float(…)` of the number of candidates is the parameter.
  unfoldable pub record_search_results : (ℕ → Float) → ℕ → Float → R → R
  record_search_results float total_candidates threshold_used r =
      g.set search_threshold_used threshold_used
        (g.observe search_results_count [] (float total_candidates) r)

  -- `set(1 if loaded else 0)`; the numbers stand for themselves.
  unfoldable pub set_embedder_loaded : Bool → R → R
  set_embedder_loaded loaded = g.set embedder_loaded (if loaded then 1 else 0)

  -- The loop over `phases.items()`; the division by 1000 is the parameter.
  unfoldable pub record_phases : (ℕ → Float) → Phases → R → R
  record_phases seconds [] r = r
  record_phases seconds ((phase, ms) ∷ rest) r =
      record_phases seconds rest (record_pipeline_phase (codes phase) (seconds ms) r)

  -- The `try` at the end of `AccessLogMiddleware.__call__`, for one request and its duration.
  unfoldable pub record_access : (ℕ → Float) → AccessRecord → Float → R → R
  record_access seconds a duration_seconds r =
      record_phases seconds a.phases
        (record_http_request a.method a.endpoint a.status_code duration_seconds r)

  -- One request after the other.
  unfoldable pub record_all : (ℕ → Float) → List (AccessRecord × Float) → R → R
  record_all seconds [] r = r
  record_all seconds ((a, duration) ∷ rest) r =
      record_all seconds rest (record_access seconds a duration r)

-- ===== src/Core/Metrics/Counted.antt =====
-- What the HTTP metrics say of the requests that were served.
use qdrant_database.Prelude.{
  ℕ, ◌+◌, ◌≡◌, refl, sym, ◌∙◌, Bool, true, false, ◌&&◌, List, [], ◌∷◌, Text, decimal, text_eq,
  text_eq_refl, text_eq_sound, ◌==◌, if◌then◌else◌, arith, Bool-cases, inl, inr, keep, length,
}
use package.text.Mathlib.Text.{◌==◌ as str_eq}
use qdrant_database.Core.Context.{Phases}
use qdrant_database.Core.Middleware.{AccessRecord}
use qdrant_database.Core.Metrics.{
  Metric, metric_name, Labels, Registry, http_requests_total, http_request_duration_seconds,
  pipeline_phase_duration_seconds, http_labels, duration_labels, record_http_request,
  record_pipeline_phase, record_phases, record_access, record_all,
}
use qdrant_database.Ingestion.Embedder.{Float}
use qdrant_database.Ingestion.Payload.ChunkIds.{decimal-injective}

abbrev pub labels_eq : Labels → Labels → Bool
labels_eq [] [] = true
labels_eq [] (y ∷ ys) = false
labels_eq (x ∷ xs) [] = false
labels_eq ((k, v) ∷ xs) ((l, w) ∷ ys) = str_eq k l && text_eq v w && labels_eq xs ys

-- The child of the collector `m` with the labels `ls` is the one at `n` and `ks`.
abbrev pub is_child : Metric → Labels → Metric → Labels → Bool
is_child m ls n ks = str_eq (metric_name m) (metric_name n) && labels_eq ls ks

abbrev pub one_if : Bool → ℕ
one_if b = if b then 1 else 0

-- As documented by prometheus_client: `amount` is the value of a counter's child, or the number of
-- observations of a histogram's child, and a call counts for its own child only.
pub record RegistryLaws {R : Type 0} (g : Registry R) : Type 0 where
  pub amount : R → Metric → Labels → ℕ
  pub inc_counts :
      (m n : Metric) (ls ks : Labels) (r : R)
      → amount (g.inc m ls r) n ks ≡ one_if (is_child m ls n ks) + amount r n ks
  pub observe_counts :
      (m n : Metric) (ls ks : Labels) (x : Float) (r : R)
      → amount (g.observe m ls x r) n ks ≡ one_if (is_child m ls n ks) + amount r n ks

text_eq-decimal : (m n : ℕ) → text_eq (decimal m) (decimal n) ≡ (m == n)
text_eq-decimal m n = elim (Bool-cases (text_eq (decimal m) (decimal n))) [
  | inl same ↦
      let e = decimal-injective m n (text_eq_sound (decimal m) (decimal n) same) in
      same ∙ ground arith
  | inr differ ↦ elim (Bool-cases (m == n)) [
    | inl e ↦
        let same : m ≡ n = ground arith in
        let bad : text_eq (decimal m) (decimal n) ≡ true = rw same (text_eq_refl (decimal n)) in
        cc bad
    | inr e ↦ differ ∙ sym e
  ]
]

-- The requests that one child counts.
abbrev pub is_counted : Text → Text → ℕ → AccessRecord × Float → Bool
is_counted method endpoint status_code (a, x) =
    text_eq a.method method && text_eq a.endpoint endpoint && a.status_code == status_code

abbrev pub is_timed : Text → Text → AccessRecord × Float → Bool
is_timed method endpoint (a, x) = text_eq a.method method && text_eq a.endpoint endpoint

module _ {R : Type 0} (g : Registry R) (laws : RegistryLaws g) (seconds : ℕ → Float) where
  phases_apart :
      (phases : Phases) (n : Metric) (ks : Labels) (r : R)
      → str_eq (metric_name pipeline_phase_duration_seconds) (metric_name n) ≡ false
      → laws.amount (record_phases g seconds phases r) n ks ≡ laws.amount r n ks
  unfolding record_phases record_pipeline_phase
  phases_apart [] n ks r h = refl
  phases_apart ((p, ms) ∷ rest) n ks r h =
      phases_apart rest n ks _ h
      ∙ laws.observe_counts pipeline_phase_duration_seconds n _ ks (seconds ms) r
      ∙ rw h (omega arith)

  requests-access :
      (a : AccessRecord) (x : Float) (m e : Text) (s : ℕ) (r : R)
      → laws.amount (record_access g seconds a x r) http_requests_total (http_labels m e s)
        ≡ one_if (is_counted m e s (a, x)) + laws.amount r http_requests_total (http_labels m e s)
  unfolding record_access record_http_request
  requests-access a x m e s r =
      phases_apart a.phases http_requests_total _ _ refl
      ∙ laws.observe_counts http_request_duration_seconds http_requests_total _ _ x _
      ∙ ground (
        arith,
        text_eq-decimal a.status_code s,
        laws.inc_counts http_requests_total http_requests_total
            (http_labels a.method a.endpoint a.status_code) (http_labels m e s) r,
      )

  durations-access :
      (a : AccessRecord) (x : Float) (m e : Text) (r : R)
      → laws.amount
          (record_access g seconds a x r)
          http_request_duration_seconds
          (duration_labels m e)
        ≡ one_if (is_timed m e (a, x))
          + laws.amount r http_request_duration_seconds (duration_labels m e)
  unfolding record_access record_http_request
  durations-access a x m e r =
      phases_apart a.phases http_request_duration_seconds _ _ refl
      ∙ laws.observe_counts http_request_duration_seconds http_request_duration_seconds _ _ x _
      ∙ ground (
        arith,
        laws.inc_counts http_requests_total http_request_duration_seconds
            (http_labels a.method a.endpoint a.status_code) (duration_labels m e) r,
      )

  -- After the recording of any sequence of requests, the request counter of a method, an endpoint and
  -- a status has grown by the number of those requests with all three, and the duration histogram of
  -- the method and the endpoint by the number of those with both, whatever phases they recorded.
  pub requests_counted :
      (log : List (AccessRecord × Float)) (m e : Text) (s : ℕ) (r : R)
      → (laws.amount (record_all g seconds log r) http_requests_total (http_labels m e s)
          ≡ length (keep (is_counted m e s) log)
            + laws.amount r http_requests_total (http_labels m e s))
        × (laws.amount
              (record_all g seconds log r)
              http_request_duration_seconds
              (duration_labels m e)
            ≡ length (keep (is_timed m e) log)
              + laws.amount r http_request_duration_seconds (duration_labels m e))
  unfolding record_all
  requests_counted [] m e s r = (omega arith, omega arith)
  requests_counted ((a, x) ∷ log) m e s r =
      let (counted, timed) = requests_counted log m e s (record_access g seconds a x r) in
      (
        ground (arith, counted, requests-access a x m e s r),
        ground (arith, timed, durations-access a x m e r),
      )

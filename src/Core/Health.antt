-- ===== src/Core/Health.antt =====
-- apps/core/views.py: the health endpoint. `str.lower` is a parameter where foreign text meets it.
pub mod Verdicts
use qdrant_database.Prelude.{
  ℕ, Bool, ◌&&◌, ◌||◌, ◌++◌, Text, codes, text_eq, take, has_substring, if◌then◌else◌,
}
use qdrant_database.Errors.{Exc, type_name}

-- How a probe that runs in the executor ends; an exception comes with its `str`.
pub data Probe : Type 0 where
  answered : Probe
  timed_out : Probe
  failed : Exc → Text → Probe

unfoldable pub ping_postgres : Probe → Text
ping_postgres answered = codes "ok"
ping_postgres timed_out = codes "error: timeout after 2s"
ping_postgres (failed e message) =
    codes "error: " ++ (type_name e ++ (codes ": " ++ take 120 message))

abbrev unauthorized : Text
unauthorized = codes "error: unauthorized — check QDRANT_API_KEY"

unfoldable pub classify_qdrant_error : (Text → Text) → Exc → Text → Text
classify_qdrant_error lower e message =
    let msg = lower message in
    if has_substring (codes "401") msg
      || has_substring (codes "unauthorized") msg
      || has_substring (codes "authentication") msg
    then unauthorized
    else if has_substring (codes "unauthenticated") msg
    then unauthorized
    else codes "error: unreachable — " ++ type_name e

unfoldable pub ping_qdrant : (Text → Text) → Probe → Text
ping_qdrant lower answered = codes "ok"
ping_qdrant lower timed_out = codes "error: timeout after 2s"
ping_qdrant lower (failed e message) = classify_qdrant_error lower e message

-- The JSON body, without the constant version, and the status code.
pub record Health : Type 0 where
  pub status : Text
  pub postgres : Text
  pub qdrant : Text
  pub embedder : Text
  pub embedder_loaded : Bool
  pub status_code : ℕ

abbrev is_ok : Text → Bool
is_ok t = text_eq t (codes "ok")

-- `healthz`, from the two pings and the warmup flag.
unfoldable pub health_of : Text → Text → Bool → Health
health_of pg qd embedder_ready =
    let all_ok = is_ok pg && is_ok qd && embedder_ready in
    record {
      status =
          if all_ok
          then codes "ok"
          else if is_ok pg && is_ok qd
          then codes "warming"
          else codes "degraded";
      postgres = pg;
      qdrant = qd;
      embedder = if embedder_ready then codes "ok" else codes "warming";
      embedder_loaded = embedder_ready;
      status_code = if all_ok then 200 else 503;
    }

unfoldable pub healthz : (Text → Text) → Probe → Probe → Bool → Health
healthz lower postgres qdrant embedder_ready =
    health_of (ping_postgres postgres) (ping_qdrant lower qdrant) embedder_ready

-- ===== src/Settings.antt =====
-- config/settings.py: what the service reads from its environment. django-environ is an interface;
-- Django's own settings (templates, applications, validators, static files) are left out.
pub mod Loaded
use qdrant_database.Prelude.{ℕ, Bool, true, false, List, [], ◌∷◌, String, Text, codes}
use qdrant_database.Exec.{Outcome, ok, and_then}
use qdrant_database.Ingestion.Embedder.{Float}

-- `env(name)` of a variable without a default, which raises if it is missing; and the typed readings
-- with the defaults of `environ.Env(…)`, which raise if the text does not parse. Floats have their
-- default written as a text.
pub record Environ : Type 0 where
  pub required : String → Outcome Text
  pub text_or : String → Text → Outcome Text
  pub int_or : String → ℕ → Outcome ℕ
  pub bool_or : String → Bool → Outcome Bool
  pub float_or : String → String → Outcome Float
  pub list_or : String → List Text → Outcome (List Text)

pub record DatabaseSettings : Type 0 where
  pub host : Text
  pub port : ℕ
  pub name : Text
  pub user : Text
  pub password : Text
  pub conn_max_age : ℕ
  pub connect_timeout : ℕ

pub record QdrantSettings : Type 0 where
  pub host : Text
  pub grpc_port : ℕ
  pub http_port : ℕ
  pub prefer_grpc : Bool
  pub api_key : Text

pub record BgeSettings : Type 0 where
  pub model_name : Text
  pub cache_dir : Text
  pub use_fp16 : Bool
  pub device : Text
  pub batch_size : ℕ

pub record SearchSettings : Type 0 where
  pub default_top_k : ℕ
  pub max_top_k : ℕ
  pub threshold : Float
  pub prefetch_dense : ℕ
  pub prefetch_sparse : ℕ
  pub rrf_dense_weight : Float
  pub rrf_sparse_weight : Float

pub record Settings : Type 0 where
  pub secret_key : Text
  pub debug : Bool
  pub allowed_hosts : List Text
  pub csrf_trusted_origins : List Text
  pub database : DatabaseSettings
  pub qdrant : QdrantSettings
  pub bge : BgeSettings
  pub search : SearchSettings
  pub celery_broker_url : Text
  pub celery_result_backend : Text
  pub log_level : Text

module _ (env : Environ) where
  unfoldable pub database_settings : Outcome DatabaseSettings
  database_settings = and_then (env.required "POSTGRES_HOST") λ host.
      and_then (env.int_or "POSTGRES_PORT" 5432) λ port.
        and_then (env.required "POSTGRES_DB") λ name.
          and_then (env.required "POSTGRES_USER") λ user.
            and_then (env.required "POSTGRES_PASSWORD") λ password. ok (record {
              host = host;
              port = port;
              name = name;
              user = user;
              password = password;
              conn_max_age = 60;
              connect_timeout = 2;
            })

  unfoldable pub qdrant_settings : Outcome QdrantSettings
  qdrant_settings = and_then (env.required "QDRANT_HOST") λ host.
      and_then (env.int_or "QDRANT_GRPC_PORT" 6334) λ grpc_port.
        and_then (env.int_or "QDRANT_HTTP_PORT" 6333) λ http_port.
          and_then (env.bool_or "QDRANT_PREFER_GRPC" true) λ prefer_grpc.
            and_then (env.required "QDRANT_API_KEY") λ api_key. ok (record {
              host = host;
              grpc_port = grpc_port;
              http_port = http_port;
              prefer_grpc = prefer_grpc;
              api_key = api_key;
            })

  unfoldable pub bge_settings : Outcome BgeSettings
  bge_settings = and_then (env.text_or "BGE_MODEL_NAME" (codes "BAAI/bge-m3")) λ model_name.
      and_then (env.text_or "BGE_CACHE_DIR" (codes "/app/.cache/bge")) λ cache_dir.
        and_then (env.bool_or "BGE_USE_FP16" true) λ use_fp16.
          and_then (env.text_or "BGE_DEVICE" (codes "cpu")) λ device.
            and_then (env.int_or "BGE_BATCH_SIZE" 8) λ batch_size. ok (record {
              model_name = model_name;
              cache_dir = cache_dir;
              use_fp16 = use_fp16;
              device = device;
              batch_size = batch_size;
            })

  unfoldable pub search_settings : Outcome SearchSettings
  search_settings = and_then (env.int_or "SEARCH_DEFAULT_TOP_K" 5) λ default_top_k.
      and_then (env.int_or "SEARCH_MAX_TOP_K" 20) λ max_top_k.
        and_then (env.float_or "SEARCH_THRESHOLD" "0.65") λ threshold.
          and_then (env.int_or "SEARCH_PREFETCH_DENSE" 50) λ prefetch_dense.
            and_then (env.int_or "SEARCH_PREFETCH_SPARSE" 50) λ prefetch_sparse.
              and_then (env.float_or "SEARCH_RRF_DENSE_WEIGHT" "3.0") λ rrf_dense_weight.
                and_then (env.float_or "SEARCH_RRF_SPARSE_WEIGHT" "1.0") λ rrf_sparse_weight.
                  ok (record {
                    default_top_k = default_top_k;
                    max_top_k = max_top_k;
                    threshold = threshold;
                    prefetch_dense = prefetch_dense;
                    prefetch_sparse = prefetch_sparse;
                    rrf_dense_weight = rrf_dense_weight;
                    rrf_sparse_weight = rrf_sparse_weight;
                  })

  -- The module, from top to bottom.
  unfoldable pub settings : Outcome Settings
  settings = and_then (env.required "DJANGO_SECRET_KEY") λ secret_key.
      and_then (env.bool_or "DJANGO_DEBUG" false) λ debug.
        and_then
          (env.list_or "DJANGO_ALLOWED_HOSTS"
            (codes "localhost" ∷ codes "127.0.0.1" ∷ codes "web" ∷ []))
          λ allowed_hosts.
            and_then
              (env.list_or "DJANGO_CSRF_TRUSTED_ORIGINS" (codes "https://quadrant.bol7.com" ∷ []))
              λ csrf_trusted_origins. and_then database_settings λ database.
                and_then qdrant_settings λ qdrant. and_then bge_settings λ bge.
                  and_then search_settings λ search. and_then (env.required "REDIS_URL") λ broker.
                    and_then (env.required "REDIS_URL") λ backend.
                      and_then (env.text_or "DJANGO_LOG_LEVEL" (codes "INFO")) λ log_level.
                        ok (record {
                          secret_key = secret_key;
                          debug = debug;
                          allowed_hosts = allowed_hosts;
                          csrf_trusted_origins = csrf_trusted_origins;
                          database = database;
                          qdrant = qdrant;
                          bge = bge;
                          search = search;
                          celery_broker_url = broker;
                          celery_result_backend = backend;
                          log_level = log_level;
                        })

-- ===== src/Grpc/Server.antt =====
-- apps/grpc_service/server.py: how the server process starts and how it ends. grpc's server, the
-- signal handlers and the environment are an interface.
pub mod Serving
use qdrant_database.Prelude.{
  ℕ, ◌==◌, Bool, Option, none, some, [], ◌∷◌, ◌++◌, Text, codes, decimal, contains, if◌then◌else◌,
}
use qdrant_database.Errors.{Exc, other}
use qdrant_database.Errors
use qdrant_database.Exec.{◌>>=◌, ◌>>◌, Outcome, ok, Exec, pure, raise, lift, try_except, raise_if}
use qdrant_database.Ingestion.Embedder.{parse_int}
use qdrant_database.Ingestion.Start.{truthy}

abbrev pub default_port : ℕ
default_port = 50051

abbrev pub default_max_workers : ℕ
default_max_workers = 10

abbrev pub default_graceful_shutdown : ℕ
default_graceful_shutdown = 10

-- The four variables of the environment that are read.
pub record Environ : Type 0 where
  pub grpc_port : Option Text
  pub grpc_max_workers : Option Text
  pub grpc_shutdown_grace_seconds : Option Text
  pub grpc_enable_reflection : Option Text

pub data Signal : Type 0 where
  sigterm sigint : Signal

pub record ServerConfig : Type 0 where
  pub port : ℕ
  pub max_workers : ℕ
  pub grace_s : ℕ
  pub enable_reflection : Bool

-- What is called on the server, over its state `G`. `stop` stands for `stop(grace=…)` with the wait
-- for its event.
pub record GrpcServer (G : Type 0) : Type 0 where
  pub create : ℕ → Exec G (Unit {0})
  pub add_servicer : Exec G (Unit {0})
  pub enable_reflection : Exec G (Unit {0})
  pub add_insecure_port : Text → Exec G ℕ
  pub install_handler : Signal → ℕ → Exec G (Unit {0})
  pub start : Exec G (Unit {0})
  pub wait_for_termination : Exec G (Unit {0})
  pub stop : ℕ → Exec G (Unit {0})

-- `int(os.environ.get(key, default))`
unfoldable pub int_or : ℕ → Option Text → Outcome ℕ
int_or default none = ok default
int_or default (some t) = parse_int t

unfoldable pub server_config : {S : Type 0} → (Text → Text) → Environ → Exec S ServerConfig
server_config lower e = do
  port ← lift (int_or default_port e.grpc_port)
  max_workers ← lift (int_or default_max_workers e.grpc_max_workers)
  grace_s ← lift (int_or default_graceful_shutdown e.grpc_shutdown_grace_seconds)
  pure (record {
    port = port;
    max_workers = max_workers;
    grace_s = grace_s;
    enable_reflection = truthy lower e.grpc_enable_reflection;
  })

-- `except ImportError`, with its subclass.
unfoldable pub on_reflection_error : {S : Type 0} → Exc → Exec S (Unit {0})
on_reflection_error (other name) =
    if contains name (codes "ImportError" ∷ codes "ModuleNotFoundError" ∷ [])
    then pure tt
    else raise (other name)
on_reflection_error e = raise e

module _ {G : Type 0} (server : GrpcServer G) where
  -- Up to the bound port.
  unfoldable pub bind_server : ServerConfig → Exec G ℕ
  bind_server c = do
    server.create c.max_workers
    server.add_servicer
    if c.enable_reflection then try_except server.enable_reflection on_reflection_error else pure tt
    server.add_insecure_port (codes "0.0.0.0:" ++ decimal c.port)

  -- From the check of the bound port on.
  unfoldable pub run_server : ServerConfig → ℕ → Exec G (Unit {0})
  run_server c bound_port = do
    raise_if (bound_port == 0) (other (codes "SystemExit"))
    server.install_handler sigterm c.grace_s
    server.install_handler sigint c.grace_s
    server.start
    server.wait_for_termination

  unfoldable pub serve : (Text → Text) → Environ → Exec G (Unit {0})
  serve lower e = do c ← server_config lower e; bound_port ← bind_server c; run_server c bound_port

  -- `_shutdown`, which ends with `sys.exit(0)`.
  unfoldable pub shutdown : ℕ → Exec G (Unit {0})
  shutdown grace_s = do server.stop grace_s; raise (other (codes "SystemExit"))

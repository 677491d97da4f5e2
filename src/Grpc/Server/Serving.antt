-- ===== src/Grpc/Server/Serving.antt =====
-- The order of the calls of `serve`.
use qdrant_database.Prelude.{
  ℕ, ◌==◌, ◌≡◌, refl, Bool, true, false, List, [], ◌∷◌, ◌++◌, Text, codes, decimal, append_assoc,
  if◌then◌else◌, Bool-cases, inl, inr,
}
use qdrant_database.Errors.{Exc, other}
use qdrant_database.Exec.{Outcome, ok, raised, Exec}
use qdrant_database.Grpc.Server.{
  Environ, Signal, sigterm, sigint, ServerConfig, GrpcServer, server_config, bind_server,
  run_server, serve, on_reflection_error,
}

-- What the process asked of the server, in order.
pub data Call : Type 0 where
  created : ℕ → Call
  servicer_added : Call
  reflection_asked : Call
  port_asked : Text → Call
  handler_installed : Signal → ℕ → Call
  started waited : Call
  stopped : ℕ → Call

abbrev log_call : {A : Type 0} → Call → Outcome A → Exec (List Call) A
log_call c r calls = (r, calls ++ c ∷ [])

-- A server that writes down its calls: whether reflection can be imported, and the port that it
-- gives; waiting ends.
abbrev pub logging_server : Outcome (Unit {0}) → ℕ → GrpcServer (List Call)
logging_server reflection port = record {
  create = λ n. log_call (created n) (ok tt);
  add_servicer = log_call servicer_added (ok tt);
  enable_reflection = log_call reflection_asked reflection;
  add_insecure_port = λ address. log_call (port_asked address) (ok port);
  install_handler = λ s grace. log_call (handler_installed s grace) (ok tt);
  start = log_call started (ok tt);
  wait_for_termination = log_call waited (ok tt);
  stop = λ grace. log_call (stopped grace) (ok tt);
}

-- What the import of a package that is missing raises.
abbrev pub import_error : Exc
import_error = other (codes "ModuleNotFoundError")

abbrev pub reflection_of : Bool → Outcome (Unit {0})
reflection_of available = if available then ok tt else raised import_error

abbrev pub binding : ServerConfig → List Call
binding c =
    created c.max_workers
    ∷ servicer_added
    ∷ ((if c.enable_reflection then reflection_asked ∷ [] else [])
        ++ port_asked (codes "0.0.0.0:" ++ decimal c.port) ∷ [])

-- The calls once the port is bound.
abbrev pub serving : ServerConfig → List Call
serving c =
    handler_installed sigterm c.grace_s ∷ handler_installed sigint c.grace_s ∷ started ∷ waited ∷ []

ending :
    (r : Outcome (Unit {0})) (c : ServerConfig) (port : ℕ) (calls : List Call)
    → run_server (logging_server r port) c port calls ≡ (
        if port == 0
        then (raised (other (codes "SystemExit")), calls)
        else (ok tt, calls ++ serving c))
unfolding run_server
ending r c port calls = elim (Bool-cases (port == 0)) [
  | inl none ↦ rw none refl
  | inr some ↦ rw some (simp append_assoc)
]

binds :
    (c : ServerConfig) (available : Bool) (port : ℕ)
    → bind_server (logging_server (reflection_of available) port) c [] ≡ (ok port, binding c)
unfolding bind_server on_reflection_error
binds c true port = elim (Bool-cases c.enable_reflection) [
  | inl asked ↦ rw asked refl
  | inr silent ↦ rw silent refl
]
binds c false port = elim (Bool-cases c.enable_reflection) [
  | inl asked ↦ rw asked refl
  | inr silent ↦ rw silent refl
]

-- With the environment read as `c`, the server is created, gets its service and, if asked, its
-- reflection, and then the port, whether or not reflection can be imported. If no port is bound, the
-- process exits there. Otherwise both signals have their handlers before the server starts.
pub serve_calls :
    (lower : Text → Text) (e : Environ) (c : ServerConfig) (available : Bool) (port : ℕ)
    → server_config {S = List Call} lower e [] ≡ (ok c, [])
    → serve (logging_server (reflection_of available) port) lower e [] ≡ (
        if port == 0
        then (raised (other (codes "SystemExit")), binding c)
        else (ok tt, binding c ++ serving c))
unfolding serve
serve_calls lower e c available port h =
    rw (h, binds c available port) (ending (reflection_of available) c port (binding c))

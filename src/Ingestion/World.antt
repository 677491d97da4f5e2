-- ===== src/Ingestion/World.antt =====
-- What the pipelines stand on: the services of the deployment as interfaces over one state, and
-- the functions of libraries that they call.
use qdrant_database.Prelude.{ℕ, List, Text}
use qdrant_database.Exec.{Outcome, Exec}
use qdrant_database.Ingestion.Embedder.{Embeddings}
use qdrant_database.Ingestion.Locks.{AdvisoryLocks}
use qdrant_database.Documents.Models.{Database}
use qdrant_database.Qdrant.Client.{QdrantClient}

-- The tables, the advisory locks (which transactions and rows do not touch), and the Qdrant server.
pub record World (D L Q : Type 0) : Type 0 where
  pub database : D
  pub locks : L
  pub qdrant : Q

pub record Env (D L Q : Type 0) : Type 0 where
  pub db : Database D
  pub advisory : AdvisoryLocks L
  pub client : QdrantClient Q
  -- `model.encode`, the length of `tokenizer.encode`, and `splitter.split_text`
  pub model : List Text → Outcome Embeddings
  pub tokenizer : Text → ℕ
  pub split_text : ℕ → ℕ → Text → List Text
  -- `hashlib.sha256(…).digest()`, `uuid.uuid5(NAMESPACE_OID, …)`
  pub sha256 : List ℕ → List ℕ
  pub uuid5 : Text → Text
  -- `time.monotonic()` when a lock is asked for and in each round, and `now.isoformat()` for the
  -- i-th point
  pub start : ℕ
  pub clock : ℕ → ℕ
  pub now : ℕ → Text

module _ {D L Q A : Type 0} where
  abbrev pub on_database : Exec D A → Exec (World D L Q) A
  on_database m w = let (r, d) = m w.database in (r, record w { database = d })

  abbrev pub on_locks : Exec L A → Exec (World D L Q) A
  on_locks m w = let (r, l) = m w.locks in (r, record w { locks = l })

  abbrev pub on_qdrant : Exec Q A → Exec (World D L Q) A
  on_qdrant m w = let (r, s) = m w.qdrant in (r, record w { qdrant = s })

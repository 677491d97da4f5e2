-- ===== src/Ingestion/Pipeline/Locked/Yielded.antt =====
-- What a body establishes of tables and points, it establishes under its lock.
use qdrant_database.Prelude.{Text}
use qdrant_database.Exec.{Exec, lift}
use qdrant_database.Exec.Keeps.{Keeps}
use qdrant_database.Exec.Yields.{Yields, Yields-bind, Yields-lift, Yields-kept, Yields-try_finally}
use qdrant_database.Naming.{advisory_lock_key}
use qdrant_database.Ingestion.World.{World, Env, on_locks}
use qdrant_database.Ingestion.Pipeline.Locked.{acquire, upload_lock}

-- A statement about tables and points.
abbrev pub Served : {D L Q : Type 0} → (D → Q → Type 0) → World D L Q → Type 0
Served p w = p w.database w.qdrant

abbrev pub Anything : {D Q : Type 0} → D → Q → Type 0
Anything d q = Unit

module _ {D L Q A : Type 0} (env : Env D L Q) (p : D → Q → Type 0) (r : A → D → Q → Type 0) where
  locks_keep :
      {B : Type 0} (q : D → Q → Type 0) (m : Exec L B)
      → Keeps {S = World D L Q} (Served q) (on_locks m)
  locks_keep q m = record { at = λ w h. h }

  pub upload_lock-Yields :
      (t b d : Text) (body : Exec (World D L Q) A)
      → Yields (Served p) body (λ a. Served (r a))
      → Yields (Served p) (upload_lock env t b d body) (λ a. Served (r a))
  unfolding upload_lock
  upload_lock-Yields t b d body y =
      Yields-bind (λ key. Served p) (lift (advisory_lock_key env.sha256 t b d)) _ (Yields-lift _)
        λ key.
          Yields-bind (λ u. Served p) (on_locks (acquire env t b d key)) _
            (Yields-kept _ (locks_keep p _))
            λ u.
              Yields-try_finally body (on_locks (env.advisory.unlock key)) y
                (λ a. locks_keep (r a) _)

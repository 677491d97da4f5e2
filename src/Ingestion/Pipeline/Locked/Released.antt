-- ===== src/Ingestion/Pipeline/Locked/Released.antt =====
-- The lock is given back on every path.
use qdrant_database.Prelude.{◌≡◌, refl, Text}
use qdrant_database.Exec.{ok, Exec}
use qdrant_database.Exec.Keeps.{Keeps}
use qdrant_database.Naming.{advisory_lock_key}
use qdrant_database.Ingestion.Locks.{LockKey}
use qdrant_database.Ingestion.World.{World, Env}
use qdrant_database.Ingestion.Pipeline.Locked.{acquire, upload_lock}

module _ {D L Q A : Type 0} (env : Env D L Q) where
  -- Once the lock is acquired, the locks end as the one unlock call leaves them, whether the body
  -- returns or raises, if the body itself touches no lock.
  pub upload_lock_released :
      (t b d : Text) (key : LockKey) (body : Exec (World D L Q) A) (w : World D L Q) (l : L)
      → advisory_lock_key env.sha256 t b d ≡ ok key
      → acquire env t b d key w.locks ≡ (ok tt, l)
      → Keeps (λ v. v.locks ≡ l) body
      → (upload_lock env t b d body w).1.locks ≡ (env.advisory.unlock key l).1
  unfolding upload_lock
  upload_lock_released t b d key body w l named got keeps =
      rw (named, got) (rw (keeps.at (record w { locks = l }) refl) refl)

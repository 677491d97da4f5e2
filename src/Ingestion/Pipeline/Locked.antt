-- ===== src/Ingestion/Pipeline/Locked.antt =====
-- `upload_lock` of apps/ingestion/locks.py around a body that works on the world.
pub mod Released
pub mod Yielded
use qdrant_database.Prelude.{◌+◌, none, some, Text, codes}
use qdrant_database.Errors.{upload_error, other}
use qdrant_database.Exec.{◌>>=◌, ◌>>◌, raised, Exec, lift, try_finally}
use qdrant_database.Naming.{advisory_lock_key}
use qdrant_database.Ingestion.Locks.{
  LockKey, poll, poll_rounds, default_acquire_timeout, concurrent_upload,
}
use qdrant_database.Ingestion.World.{World, Env, on_locks}

module _ {D L Q : Type 0} (env : Env D L Q) where
  -- The loop with its deadline. The `none` of the fuel does not occur (Locks.Polling).
  unfoldable pub acquire : Text → Text → Text → LockKey → Exec L (Unit {0})
  acquire tenant_id bot_id doc_id key l =
      let late = upload_error (concurrent_upload tenant_id bot_id doc_id) in
      let deadline = env.start + default_acquire_timeout in
      elim (poll env.advisory env.clock deadline poll_rounds 0 key late l) [
        | none ↦ (raised (other (codes "OutOfFuel")), l)
        | some end ↦ end
      ]

  -- `with upload_lock(tenant_id, bot_id, doc_id): body`
  unfoldable pub upload_lock :
      {A : Type 0} → Text → Text → Text → Exec (World D L Q) A → Exec (World D L Q) A
  upload_lock tenant_id bot_id doc_id body = do
    key ← lift (advisory_lock_key env.sha256 tenant_id bot_id doc_id)
    on_locks (acquire tenant_id bot_id doc_id key)
    try_finally body (on_locks (env.advisory.unlock key))

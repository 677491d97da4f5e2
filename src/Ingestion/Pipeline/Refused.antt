-- ===== src/Ingestion/Pipeline/Refused.antt =====
-- What the two pipelines do while other sessions hold the lock of their document.
use qdrant_database.Prelude.{
  ℕ, zero, suc, ◌+◌, ◌≡◌, refl, false, none, some, Text, leb, ◌⊎◌, inl, inr, Bool-cases,
}
use qdrant_database.Errors.{Exc, upload_error}
use qdrant_database.Exec.{ok, raised, Exec}
use qdrant_database.Naming.{advisory_lock_key}
use qdrant_database.Ingestion.Locks.{
  AdvisoryLocks, LockKey, poll, poll_rounds, default_acquire_timeout, concurrent_upload,
}
use qdrant_database.Ingestion.Locks.Polling.{IsClock, poll_ends}
use qdrant_database.Ingestion.World.{World, Env}
use qdrant_database.Ingestion.Pipeline.Locked.{acquire, upload_lock}
use qdrant_database.Ingestion.Pipeline.Upload.{UploadArgs, upload, upload_body}
use qdrant_database.Ingestion.Pipeline.Delete.{delete_document, delete_document_body}

-- The lock is refused in every round; `rounds n` are the locks at the beginning of round `n`.
abbrev pub StaysTaken : {L : Type 0} → AdvisoryLocks L → LockKey → (ℕ → L) → Type 0
StaysTaken locks key rounds = (n : ℕ) → locks.try_lock key (rounds n) ≡ (ok false, rounds (suc n))

module _ {L : Type 0} (locks : AdvisoryLocks L) (clock : ℕ → ℕ) (deadline : ℕ) (key : LockKey)
    (rounds : ℕ → L) (taken : StaysTaken locks key rounds) (late : Exc) where
  -- The loop runs out of its fuel, or raises the timeout.
  poll-refused :
      (fuel n : ℕ)
      → (poll locks clock deadline fuel n key late (rounds n) ≡ none)
        ⊎ ((m : ℕ) × (poll locks clock deadline fuel n key late (rounds n)
              ≡ some (raised late, rounds m)))
  unfolding poll
  poll-refused zero n = inl refl
  poll-refused (suc fuel) n = elim (Bool-cases (leb deadline (clock n))) [
    | inl over ↦ inr (suc n, rw (taken n, over) refl)
    | inr early ↦ rw (taken n, early) (poll-refused fuel (suc n))
  ]

module _ {D L Q : Type 0} (env : Env D L Q) where
  acquire_late :
      (t b d : Text) (key : LockKey) (rounds : ℕ → L)
      → IsClock env.advisory env.clock env.start
      → StaysTaken env.advisory key rounds
      → (m : ℕ) × (acquire env t b d key (rounds 0)
          ≡ (raised (upload_error (concurrent_upload t b d)), rounds m))
  unfolding acquire
  acquire_late t b d key rounds c taken =
      elim (poll-refused env.advisory env.clock (env.start + default_acquire_timeout) key rounds
        taken (upload_error (concurrent_upload t b d)) poll_rounds 0) [
          | inl ran_out ↦ absurd (
              poll_ends env.advisory env.clock env.start c key
                (upload_error (concurrent_upload t b d)) (rounds 0) ran_out)
          | inr (m, timed_out) ↦ (m, rw (acquire, timed_out) refl)
        ]

  locked_out :
      {A : Type 0} (t b d : Text) (key : LockKey) (body : Exec (World D L Q) A) (w : World D L Q)
      (l : L) (e : Exc)
      → advisory_lock_key env.sha256 t b d ≡ ok key
      → acquire env t b d key w.locks ≡ (raised e, l)
      → upload_lock env t b d body w ≡ (raised e, record w { locks = l })
  unfolding upload_lock
  locked_out t b d key body w l e named got = rw (named, got) refl

  -- While other sessions hold the lock of a document, an upload of it and a deletion of it both raise
  -- the `ConcurrentUploadError` of the document, whatever the clock does within the rules for
  -- `time.sleep`, and leave every row and every point as it was.
  pub pipelines_refused :
      (c : IsClock env.advisory env.clock env.start) (a : UploadArgs) (key : LockKey)
      (w : World D L Q) (rounds : ℕ → L)
      → advisory_lock_key env.sha256 a.tenant_id a.bot_id a.doc_id ≡ ok key
      → w.locks ≡ rounds 0
      → StaysTaken env.advisory key rounds
      → let late = upload_error (concurrent_upload a.tenant_id a.bot_id a.doc_id) in
        (m : ℕ) × (upload env a w ≡ (raised late, record w { locks = rounds m }))
        × (delete_document env a.tenant_id a.bot_id a.doc_id w
            ≡ (raised late, record w { locks = rounds m }))
  unfolding upload delete_document
  pipelines_refused c a key w rounds named first taken =
      let (m, timed_out) = acquire_late a.tenant_id a.bot_id a.doc_id key rounds c taken in
      let got = rw (← first) at timed_out in
      (
        m,
        locked_out a.tenant_id a.bot_id a.doc_id key (upload_body env a) w (rounds m) _ named got,
        locked_out a.tenant_id a.bot_id a.doc_id key
            (delete_document_body env a.tenant_id a.bot_id a.doc_id) w (rounds m) _ named got,
      )

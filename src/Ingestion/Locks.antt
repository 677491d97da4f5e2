-- ===== src/Ingestion/Locks.antt =====
-- apps/ingestion/locks.py: an advisory lock of Postgres around an upload or a deletion.
-- Times are in milliseconds.
pub mod Polling
pub mod Waiting
pub mod Sessions
use qdrant_database.Prelude.{
  ℕ, zero, suc, ◌/◌, Bool, true, false, Option, none, some, [], ◌∷◌, Text, leb, if◌then◌else◌,
}
use qdrant_database.Errors.{Exc, UploadError, text, concurrent_upload_error}
use qdrant_database.Exec.{Outcome, ok, raised, Exec}
use qdrant_database.Naming.{ℤ}

abbrev pub default_acquire_timeout : ℕ
default_acquire_timeout = 5000

abbrev pub poll_interval : ℕ
poll_interval = 50

abbrev pub LockKey : Type 0
LockKey = ℤ × ℤ

-- `pg_try_advisory_lock` and `pg_advisory_unlock` over the locks `L` of the session. A row that is
-- missing reads as `false`.
pub record AdvisoryLocks (L : Type 0) : Type 0 where
  pub try_lock : LockKey → Exec L Bool
  pub unlock : LockKey → Exec L (Unit {0})

-- `int(timeout_s)`, for the default.
abbrev pub concurrent_upload : Text → Text → Text → UploadError
concurrent_upload tenant_id bot_id doc_id =
    concurrent_upload_error (default_acquire_timeout / 1000)
      (("tenant_id", text tenant_id) ∷ ("bot_id", text bot_id) ∷ ("doc_id", text doc_id) ∷ [])

abbrev pub after_poll :
    {L : Type 0}
    → Outcome Bool
    → L
    → Bool
    → Exc
    → Option (Outcome (Unit {0}) × L)
    → Option (Outcome (Unit {0}) × L)
after_poll (raised e) l expired late again = some (raised e, l)
after_poll (ok true) l expired late again = some (ok tt, l)
after_poll (ok false) l expired late again = if expired then some (raised late, l) else again

module _ {L : Type 0} (locks : AdvisoryLocks L) (clock : ℕ → ℕ) (deadline : ℕ) where
  -- The `while True` loop from its round `n`, on fuel; `clock n` is what `time.monotonic()` says in
  -- round `n`, and `none` means that the fuel ran out. `late` is the exception of a timeout.
  unfoldable pub poll : ℕ → ℕ → LockKey → Exc → L → Option (Outcome (Unit {0}) × L)
  poll zero n key late l = none
  poll (suc fuel) n key late l =
      let (r, l') = locks.try_lock key l in
      let again = poll fuel (suc n) key late l' in
      after_poll r l' (leb deadline (clock n)) late again

-- Rounds that always suffice: 5000 / 50, and one more.
abbrev pub poll_rounds : ℕ
poll_rounds = 101

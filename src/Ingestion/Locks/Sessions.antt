-- ===== src/Ingestion/Locks/Sessions.antt =====
-- apps/ingestion/locks.py for many requests at once: each on a database session of its own, their
-- statements in any order. Times are what the requests find when they compare with their deadlines.
pub mod Serial
pub mod Held
pub mod Exclusion
pub mod Bodies
use qdrant_database.Prelude.{
  ℕ, ◌≡◌, ◌==◌, Bool, Option, none, some, List, [], ◌∷◌, Text, if◌then◌else◌,
}
use qdrant_database.Errors.{upload_error}
use qdrant_database.Exec.{Outcome, ok, raised}
use qdrant_database.Naming.{advisory_lock_key}
use qdrant_database.Ingestion.Locks.{LockKey, AdvisoryLocks, after_poll, concurrent_upload}

-- What a session is in: no `upload_lock`, the `while True` of one, or the body of one.
pub data Activity : Type 0 where
  idle : Activity
  waiting inside : Text → Text → Text → LockKey → Activity

-- What the bodies do: the first statement, the later ones, and the end, by session and key.
pub data Event : Type 0 where
  entered worked left : ℕ → LockKey → Event

-- The sessions, the lock table of Postgres, and the events so far, the latest first.
pub record Site (T : Type 0) : Type 0 where
  pub activities : ℕ → Activity
  pub locks : T
  pub history : List Event

unfoldable pub set_activity : ℕ → Activity → (ℕ → Activity) → ℕ → Activity
set_activity s a activities r = if r == s then a else activities r

-- After the statement of a round: the `break`, the exception, or the next round.
unfoldable pub activity_after :
    {T : Type 0} → Text → Text → Text → LockKey → Option (Outcome (Unit {0}) × T) → Activity
activity_after tenant_id bot_id doc_id key none = waiting tenant_id bot_id doc_id key
activity_after tenant_id bot_id doc_id key (some (ok u, t)) = inside tenant_id bot_id doc_id key
activity_after tenant_id bot_id doc_id key (some (raised e, t)) = idle

unfoldable pub events_after :
    {T : Type 0} → ℕ → LockKey → Option (Outcome (Unit {0}) × T) → List Event → List Event
events_after s key none es = es
events_after s key (some (ok u, t)) es = entered s key ∷ es
events_after s key (some (raised e, t)) es = es

module _ {T : Type 0} (session : ℕ → AdvisoryLocks T) where
  -- One round of the loop of session `s`; `expired` is its comparison with the deadline.
  unfoldable pub attempt : ℕ → Text → Text → Text → LockKey → Bool → Site T → Site T
  attempt s tenant_id bot_id doc_id key expired w =
      let (r, t) = (session s).try_lock key w.locks in
      let late = upload_error (concurrent_upload tenant_id bot_id doc_id) in
      let end = after_poll r t expired late none in
      record {
        activities = set_activity s (activity_after tenant_id bot_id doc_id key end) w.activities;
        locks = t;
        history = events_after s key end w.history;
      }

  -- The `finally`, however the body ended and whether or not the statement raises.
  unfoldable pub leave : ℕ → LockKey → Site T → Site T
  leave s key w = record {
    activities = set_activity s idle w.activities;
    locks = ((session s).unlock key w.locks).1;
    history = left s key ∷ w.history;
  }

  module _ (sha256 : List ℕ → List ℕ) where
    -- The beginning of an upload or a deletion, a round of its loop, a statement of its body, and the
    -- end of the body.
    pub data Step (w : Site T) : Site T → Type 0 where
      begin :
          (s : ℕ) (tenant_id bot_id doc_id : Text) (key : LockKey)
          → w.activities s ≡ idle
          → advisory_lock_key sha256 tenant_id bot_id doc_id ≡ ok key
          → Step w (record w {
            activities = set_activity s (waiting tenant_id bot_id doc_id key) w.activities;
          })
      poll :
          (s : ℕ) (tenant_id bot_id doc_id : Text) (key : LockKey) (expired : Bool)
          → w.activities s ≡ waiting tenant_id bot_id doc_id key
          → Step w (attempt s tenant_id bot_id doc_id key expired w)
      work :
          (s : ℕ) (tenant_id bot_id doc_id : Text) (key : LockKey)
          → w.activities s ≡ inside tenant_id bot_id doc_id key
          → Step w (record w { history = worked s key ∷ w.history })
      finish :
          (s : ℕ) (tenant_id bot_id doc_id : Text) (key : LockKey)
          → w.activities s ≡ inside tenant_id bot_id doc_id key
          → Step w (leave s key w)

    -- What is reached when every session is idle at first.
    pub data Reach : Site T → Type 0 where
      here : (t : T) → Reach (record { activities = λ s. idle; locks = t; history = [] })
      next : {w v : Site T} → Reach w → Step w v → Reach v

-- ===== src/Ingestion/Locks/Polling.antt =====
-- The polling loop ends: by the lock, by an error of the database, or by the timeout.
use qdrant_database.Prelude.{
  ℕ, zero, suc, ◌+◌, ◌*◌, ◌≤◌, ◌≡◌, ◌≢◌, Bool, true, false, Option, none, arith, ◌⊎◌, inl, inr,
  le→leb,
}
use qdrant_database.Errors.{Exc}
use qdrant_database.Exec.{Outcome, ok, raised}
use qdrant_database.Ingestion.Locks.{
  AdvisoryLocks, LockKey, poll, after_poll, poll_interval, poll_rounds, default_acquire_timeout,
}

module _ {L : Type 0} (locks : AdvisoryLocks L) (clock : ℕ → ℕ) (start : ℕ) where
  -- The clock starts at `start` or later, and a sleep lasts at least its interval.
  pub record IsClock : Type 0 where
    pub begins : start ≤ clock 0
    pub advances : (n : ℕ) → clock n + poll_interval ≤ clock (suc n)

  clock_bound : IsClock → (n : ℕ) → start + n * poll_interval ≤ clock n
  clock_bound c zero = omega (arith, c.begins)
  clock_bound c (suc n) = omega (arith, clock_bound c n, c.advances n)

  after_poll-ne-none :
      (r : Outcome Bool) (l : L) (expired : Bool) (late : Exc)
      (again : Option (Outcome (Unit {0}) × L))
      → (expired ≡ true) ⊎ (again ≢ none)
      → after_poll r l expired late again ≢ none
  after_poll-ne-none (raised e) l expired late again h = λ e'. cc
  after_poll-ne-none (ok true) l expired late again h = λ e'. cc
  after_poll-ne-none (ok false) l expired late again (inl over) = rw over (λ e'. cc)
  after_poll-ne-none (ok false) l true late again (inr more) = λ e'. cc
  after_poll-ne-none (ok false) l false late again (inr more) = more

  poll-ne-none :
      (c : IsClock) (timeout fuel n : ℕ) (key : LockKey) (late : Exc) (l : L)
      → timeout ≤ (n + fuel) * poll_interval
      → poll locks clock (start + timeout) (suc fuel) n key late l ≢ none
  unfolding poll
  poll-ne-none c timeout zero n key late l h =
      after_poll-ne-none (locks.try_lock key l).0 (locks.try_lock key l).1 _ late none
        (inl (le→leb _ _ (omega (arith, clock_bound c n))))
  poll-ne-none c timeout (suc fuel) n key late l h =
      after_poll-ne-none (locks.try_lock key l).0 (locks.try_lock key l).1 _ late _
        (inr (poll-ne-none c timeout fuel (suc n) key late (locks.try_lock key l).1 (omega arith)))

  -- With a clock that a sleep of 50 ms advances by 50 ms or more, the loop ends within 101 rounds,
  -- whatever the database answers, for the timeout of 5 seconds.
  pub poll_ends :
      (c : IsClock) (key : LockKey) (late : Exc) (l : L)
      → poll locks clock (start + default_acquire_timeout) poll_rounds 0 key late l ≢ none
  poll_ends c key late l = poll-ne-none c default_acquire_timeout 100 0 key late l (omega arith)

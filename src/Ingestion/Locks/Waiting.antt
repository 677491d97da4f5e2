-- ===== src/Ingestion/Locks/Waiting.antt =====
-- Who waits for a lock gets it, or is told that it is late.
use qdrant_database.Prelude.{
  ℕ, zero, suc, ◌+◌, ◌<◌, ◌≤◌, ◌≡◌, refl, true, false, some, arith, leb, le→leb,
}
use qdrant_database.Errors.{Exc}
use qdrant_database.Exec.{ok, raised}
use qdrant_database.Ingestion.Locks.{AdvisoryLocks, LockKey, poll}

module _ {L : Type 0} (locks : AdvisoryLocks L) (clock : ℕ → ℕ) (deadline : ℕ) (key : LockKey) where
  -- In rounds `n`, …, `m - 1` the lock is refused before the deadline, and `l` becomes `l'`.
  pub data Refused : ℕ → L → ℕ → L → Type 0 where
    here : {n : ℕ} {l : L} → Refused n l n l
    again :
        {n m : ℕ} {l l' l'' : L}
        → locks.try_lock key l ≡ (ok false, l')
        → clock n < deadline
        → Refused (suc n) l' m l''
        → Refused n l m l''

  late_false : (a b : ℕ) → b < a → leb a b ≡ false
  late_false a b h = ground arith

  -- With fuel for the rounds that refuse, the loop ends as it does in the round after them.
  after_refusals :
      {n m : ℕ} {l l' : L} (fuel extra : ℕ) (late : Exc)
      → Refused n l m l'
      → n + fuel ≡ m + extra
      → poll locks clock deadline (suc fuel) n key late l
        ≡ poll locks clock deadline (suc extra) m key late l'
  unfolding poll
  after_refusals fuel extra late here e = let same : fuel ≡ extra = omega arith in rw same refl
  after_refusals zero extra late (again {n} {m} refused early rest) e =
      absurd (omega (arith, after rest))
    where
      after : {n m : ℕ} {l l' : L} → Refused n l m l' → n ≤ m
      after here = omega arith
      after (again refused early rest) = omega (arith, after rest)
  after_refusals (suc fuel) extra late (again {n} refused early rest) e =
      rw (refused, late_false deadline (clock n) early)
        (after_refusals fuel extra late rest (omega arith))

  -- If the lock is refused in the first rounds, each before the deadline, and the next round finds it
  -- free, the loop returns with the lock; if that round is refused too and at the deadline or after
  -- it, the loop raises its timeout.
  pub poll_decided :
      {l l' : L} (m extra : ℕ) (late : Exc)
      → Refused 0 l m l'
      → ((u : L)
          → locks.try_lock key l' ≡ (ok true, u)
          → poll locks clock deadline (suc (m + extra)) 0 key late l ≡ some (ok tt, u))
        × ((u : L)
            → locks.try_lock key l' ≡ (ok false, u)
            → deadline ≤ clock m
            → poll locks clock deadline (suc (m + extra)) 0 key late l ≡ some (raised late, u))
  poll_decided {l} {l'} m extra late r =
      let same = after_refusals (m + extra) extra late r (omega arith) in
      (
        λ u free. rw same (unfold poll in rw free refl),
        λ u busy over. rw same (unfold poll in rw (busy, le→leb deadline (clock m) over) refl),
      )

-- ===== src/Ingestion/Warmup/Readiness.antt =====
-- The flags over every interleaving of starts and threads.
use qdrant_database.Prelude.{Bool, true, false, ◌≡◌, ℕ, suc, ◌+◌, ◌≤◌, arith, ltb, if◌then◌else◌}
use qdrant_database.Ingestion.Warmup.{
  WarmupState, start_warmup_in_background, do_warmup, start, finish, Reach, here, next,
  is_embedder_loaded,
}

-- One thread was ever started if one was asked for, and none else; the threads that run and those
-- that succeeded are among the started ones; the flag tells whether a pass succeeded.
pub record IsConsistent (s : WarmupState) : Type 0 where
  pub one_thread : s.started ≡ (if s.warmup_started then 1 else 0)
  pub accounted : s.threads + s.passes ≤ s.started
  pub loaded : is_embedder_loaded s ≡ ltb 0 s.passes

start-IsConsistent :
    (s : WarmupState) → IsConsistent s → IsConsistent (start_warmup_in_background s)
unfolding start_warmup_in_background is_embedder_loaded
start-IsConsistent s h = ground arith

finish-IsConsistent :
    (s : WarmupState) (succeeds : Bool) (n : ℕ)
    → s.threads ≡ suc n
    → IsConsistent s
    → IsConsistent (do_warmup succeeds (record s { threads = n }))
unfolding do_warmup is_embedder_loaded
finish-IsConsistent s true n e h = ground arith
finish-IsConsistent s false n e h = ground arith

-- Over every interleaving of start requests and ends of warmup threads, of those that succeed and
-- those that fail, the number of warmup threads ever started is one after the first request and zero
-- before it, no more threads run or have succeeded than were started, and the embedder counts as
-- loaded exactly if a forward pass has succeeded.
pub Reach-IsConsistent : {s : WarmupState} → Reach s → IsConsistent s
unfolding is_embedder_loaded
Reach-IsConsistent here = ground arith
Reach-IsConsistent (next {s} r start) = start-IsConsistent s (Reach-IsConsistent r)
Reach-IsConsistent (next {s} r (finish succeeds n e)) =
    finish-IsConsistent s succeeds n e (Reach-IsConsistent r)

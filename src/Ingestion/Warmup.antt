-- ===== src/Ingestion/Warmup.antt =====
-- apps/ingestion/_warmup.py: the two flags, and a step relation for the requests and threads that
-- read and write them. Each constructor is one atomic step.
pub mod Readiness
use qdrant_database.Prelude.{Bool, true, false, ◌≡◌, ℕ, suc}

pub record WarmupState : Type 0 where
  pub embedder_loaded : Bool
  pub warmup_started : Bool
  -- the threads that run `_do_warmup`, those ever started, and the passes that succeeded
  pub threads : ℕ
  pub started : ℕ
  pub passes : ℕ

abbrev pub initial : WarmupState
initial = record {
  embedder_loaded = false;
  warmup_started = false;
  threads = 0;
  started = 0;
  passes = 0;
}

unfoldable pub is_embedder_loaded : WarmupState → Bool
is_embedder_loaded s = s.embedder_loaded

-- `start_warmup_in_background`, of which the lock makes the test and the write one step.
unfoldable pub start_warmup_in_background : WarmupState → WarmupState
start_warmup_in_background s = elim s.warmup_started [
  | true ↦ s
  | false ↦ record s { warmup_started = true; threads = suc s.threads; started = suc s.started }
]

-- The end of `_do_warmup`, by whether `embed_query("warmup")` returned or raised.
unfoldable pub do_warmup : Bool → WarmupState → WarmupState
do_warmup true s = record s { embedder_loaded = true; passes = suc s.passes }
do_warmup false s = s

-- A request to start, or the end of one running thread.
pub data Step (s : WarmupState) : WarmupState → Type 0 where
  start : Step s (start_warmup_in_background s)
  finish :
      (succeeds : Bool) (n : ℕ)
      → s.threads ≡ suc n
      → Step s (do_warmup succeeds (record s { threads = n }))

pub data Reach : WarmupState → Type 0 where
  here : Reach initial
  next : {s t : WarmupState} → Reach s → Step s t → Reach t

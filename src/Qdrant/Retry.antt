-- ===== src/Qdrant/Retry.antt =====
-- `with_retry` of apps/qdrant_core/client.py. The sleeps between the attempts are not modelled.
pub mod Attempts
use qdrant_database.Prelude.{if◌then◌else◌}
use qdrant_database.Prelude.{ℕ, zero, suc, Bool, true, false, List, [], ◌∷◌, Text, codes, contains}
use qdrant_database.Errors.{
  Exc, StatusCode, rpc_error, qdrant_error, qdrant_connection_error, type_name,
}
use qdrant_database.Errors
use qdrant_database.Exec.{Outcome, ok, raised, Exec}

-- `_RETRYABLE_GRPC_CODES`
unfoldable pub is_retryable : StatusCode → Bool
is_retryable Errors.unavailable = true
is_retryable Errors.deadline_exceeded = true
is_retryable Errors.resource_exhausted = true
is_retryable _ = false

abbrev transient_names : List Text
transient_names =
    codes "ResponseHandlingException" ∷ codes "ConnectionError" ∷ codes "TimeoutException" ∷ []

unfoldable pub is_transient : Exc → Bool
unfolding is_retryable
is_transient (rpc_error code) = is_retryable code
is_transient e = contains (type_name e) transient_names

module _ {S A : Type 0} where
  -- The body of the wrapper's loop after one call of `fn`, with the later rounds at hand.
  after_attempt : Outcome A → Exec S A → Exec S A
  after_attempt (ok a) later s = (ok a, s)
  after_attempt (raised e) later s = if is_transient e then later s else (raised e, s)

  -- `attempts` rounds; the calls of `fn` go on from the state that the failed one left.
  unfoldable pub retry : ℕ → Exec S A → Exec S A
  unfolding after_attempt
  retry zero fn s = (raised (qdrant_error qdrant_connection_error), s)
  retry (suc attempts) fn s = let (r, s') = fn s in after_attempt r (retry attempts fn) s'

-- The default of `attempts`.
abbrev pub default_attempts : ℕ
default_attempts = 3

unfoldable pub with_retry : {S A : Type 0} → Exec S A → Exec S A
with_retry fn = retry default_attempts fn

-- ===== src/Qdrant/Retry/Attempts.antt =====
-- What `with_retry` returns, by how the calls of the function go.
use qdrant_database.Prelude.{
  ℕ, zero, suc, ◌<◌, ◌≡◌, refl, ◌∙◌, true, false, inl, inr, arith, Bool-cases,
}
use qdrant_database.Errors.{Exc, qdrant_error, qdrant_connection_error, type_name}
use qdrant_database.Exec.{Outcome, ok, raised, Exec}
use qdrant_database.Exec.Keeps.{Keeps}
use qdrant_database.Qdrant.Retry.{is_transient, after_attempt, retry}

-- `n` calls in a row, each failing with a transient error, lead from one state to another.
pub data Failures {S A : Type 0} (fn : Exec S A) : S → ℕ → S → Type 0 where
  none_yet : {s : S} → Failures fn s zero s
  one_more :
      {s t u : S} {n : ℕ} (e : Exc)
      → fn s ≡ (raised e, t)
      → is_transient e ≡ true
      → Failures fn t n u
      → Failures fn s (suc n) u

-- An outcome that ends the loop: a value, or an error that is not transient.
abbrev pub IsFinal : {A : Type 0} → Outcome A → Type 0
IsFinal (ok a) = Unit
IsFinal (raised e) = is_transient e ≡ false

connection-final : is_transient (qdrant_error qdrant_connection_error) ≡ false
unfolding is_transient type_name
connection-final = refl

after_attempt-keeps :
    {S A : Type 0} (P : S → Type 0) (r : Outcome A) (later : Exec S A) (s : S)
    → Keeps P later
    → P s
    → P (after_attempt r later s).1
unfolding after_attempt
after_attempt-keeps P (ok a) later s k h = h
after_attempt-keeps P (raised e) later s k h = elim (Bool-cases (is_transient e)) [
  | inl again ↦ rw again (k.at s h)
  | inr final ↦ rw final h
]

module _ {S A : Type 0} (fn : Exec S A) where
  after-final :
      (r : Outcome A) (later : Exec S A) (s : S) → IsFinal r → after_attempt r later s ≡ (r, s)
  unfolding after_attempt
  after-final (ok a) later s h = refl
  after-final (raised e) later s h = rw h refl

  -- If the first k calls fail with transient errors, k < n, and the next one returns a value or
  -- fails otherwise, then n attempts end with that outcome, in the state that it left.
  pub retry_decided :
      {s t u : S} {k : ℕ} (n : ℕ) (r : Outcome A)
      → Failures fn s k t
      → k < n
      → fn t ≡ (r, u)
      → IsFinal r
      → retry n fn s ≡ (r, u)
  unfolding retry
  retry_decided zero r f h e final = absurd (omega arith)
  retry_decided {u = u} (suc n) r none_yet h e final = rw e (after-final r (retry n fn) u final)
  retry_decided {s = s} {t = t} {u = u} (suc n) r (one_more {t = t'} x failed transient more) h e
        final =
      rw (failed, transient) (retry_decided {s = t'} n r more (omega arith) e final)

  -- If n calls in a row fail with transient errors, n attempts end with a connection error.
  pub retry_exhausted :
      {s t : S} {n : ℕ}
      → Failures fn s n t
      → retry n fn s ≡ (raised (qdrant_error qdrant_connection_error), t)
  unfolding retry
  retry_exhausted none_yet = refl
  retry_exhausted (one_more x failed transient more) = rw (failed, transient) (retry_exhausted more)

  retry-IsFinal : (n : ℕ) (s : S) → IsFinal (retry n fn s).0
  unfolding retry
  retry-IsFinal zero s = connection-final
  retry-IsFinal (suc n) s = let (r, t) = fn s in go r t (retry-IsFinal n t)
    where
      go :
          (r : Outcome A) (t : S)
          → IsFinal (retry n fn t).0
          → IsFinal (after_attempt r (retry n fn) t).0
      go (ok a) t h = tt
      go (raised e) t h = elim (Bool-cases (is_transient e)) [
        | inl again ↦ rw again h
        | inr final ↦ rw final final
      ]

  -- A value that the attempts return was returned by one of the calls.
  pub retry-ok :
      (n : ℕ) (s : S) {u : S} {a : A} → retry n fn s ≡ (ok a, u) → (t : S) × (fn t ≡ (ok a, u))
  unfolding retry
  retry-ok zero s h = cc
  retry-ok (suc n) s {u} {a} h = go (fn s).0 (fn s).1 refl (retry-ok n (fn s).1) h
    where
      go :
          (r : Outcome A) (t : S)
          → fn s ≡ (r, t)
          → (retry n fn t ≡ (ok a, u) → (t' : S) × (fn t' ≡ (ok a, u)))
          → after_attempt r (retry n fn) t ≡ (ok a, u)
          → (t' : S) × (fn t' ≡ (ok a, u))
      go (ok b) t e later k = (s, e ∙ k)
      go (raised x) t e later k = elim (Bool-cases (is_transient x)) [
        | inl again ↦ later (rw again at k)
        | inr final ↦ let bad : (raised x, t) ≡ (ok a, u) = rw final at k in cc bad
      ]

  -- A function that retries by itself is called once by a further `with_retry` around it: the
  -- outcome of the inner one is final.
  pub retry_nested : (m n : ℕ) → (s : S) → retry (suc m) (retry n fn) s ≡ retry n fn s
  unfolding retry
  retry_nested m n s =
      after-final (retry n fn s).0 (retry m (retry n fn)) (retry n fn s).1 (retry-IsFinal n s)

  pub Keeps-retry : (P : S → Type 0) (n : ℕ) → Keeps P fn → Keeps P (retry n fn)
  unfolding retry
  Keeps-retry P zero k = record { at = λ s h. h }
  Keeps-retry P (suc n) k = record {
    at = λ s h. after_attempt-keeps P (fn s).0 (retry n fn) (fn s).1 (Keeps-retry P n k) (k.at s h);
  }

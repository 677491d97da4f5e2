-- ===== src/Ingestion/Locks/Sessions/Serial.antt =====
-- The bodies under one key, over every interleaving of sessions.
use native.Mathlib.Decide.{ℕ_discrete}
use qdrant_database.Prelude.{
  ℕ, ◌≡◌, ◌≢◌, refl, subst, ◌↔◌, ◌==◌, Bool, true, false, Option, none, some, List, [], ◌∷◌, arith,
  Bool-cases, inl, inr,
}
use qdrant_database.Exec.{ok}
use qdrant_database.Ingestion.Locks.{LockKey, AdvisoryLocks}
use qdrant_database.Ingestion.Locks.Sessions.{
  Activity, idle, waiting, inside, Event, entered, worked, left, Site, set_activity,
}

-- What Postgres says of its advisory locks, where `holds s k t` is that session `s` holds `k`.
pub record LockLaws {T : Type 0} (session : ℕ → AdvisoryLocks T) : Type 0 where
  pub holds : ℕ → LockKey → T → Bool
  -- a lock is granted only if no other session holds it, and then it is held
  pub granted_free :
      (s r : ℕ) (k : LockKey) (t t' : T)
      → (session s).try_lock k t ≡ (ok true, t')
      → r ≢ s
      → holds r k t ≡ false
  pub granted_held :
      (s : ℕ) (k : LockKey) (t t' : T)
      → (session s).try_lock k t ≡ (ok true, t')
      → holds s k t' ≡ true
  -- asking takes no lock away, and unlocking none of another session
  pub try_keeps :
      (s r : ℕ) (k j : LockKey) (t : T)
      → holds r j t ≡ true
      → holds r j ((session s).try_lock k t).1 ≡ true
  pub unlock_keeps :
      (s r : ℕ) (k j : LockKey) (t : T)
      → r ≢ s
      → holds r j t ≡ true
      → holds r j ((session s).unlock k t).1 ≡ true

abbrev pub event_key : Event → LockKey
event_key (entered s k) = k
event_key (worked s k) = k
event_key (left s k) = k

-- The events of key `k` are bodies one after the other, each from its first statement to its end by
-- one session; the index is the session of a body that has not ended.
pub data Serial (k : LockKey) : List Event → Option ℕ → Type 0 where
  start : Serial k [] none
  enters : {s : ℕ} {es : List Event} → Serial k es none → Serial k (entered s k ∷ es) (some s)
  works : {s : ℕ} {es : List Event} → Serial k es (some s) → Serial k (worked s k ∷ es) (some s)
  leaves : {s : ℕ} {es : List Event} → Serial k es (some s) → Serial k (left s k ∷ es) none
  others :
      {e : Event} {es : List Event} {o : Option ℕ}
      → event_key e ≢ k
      → Serial k es o
      → Serial k (e ∷ es) o

abbrev pub InBody : LockKey → Activity → Type 0
InBody k idle = ⊥
InBody k (waiting tenant_id bot_id doc_id key) = ⊥
InBody k (inside tenant_id bot_id doc_id key) = key ≡ k

-- The bodies under `k` ran one after the other, and the one that has not ended, if any, is the only
-- one that runs.
pub record IsSerial {T : Type 0} (k : LockKey) (w : Site T) : Type 0 where
  pub owner : Option ℕ
  pub serial : Serial k w.history owner
  pub runs : (s : ℕ) → InBody k (w.activities s) ↔ (owner ≡ some s)

pub LockKey-discrete : Discrete LockKey
LockKey-discrete = hlevel ℕ_discrete

unfoldable pub Runs : LockKey → (ℕ → Activity) → Option ℕ → Type 0
Runs k activities o = (r : ℕ) → InBody k (activities r) ↔ (o ≡ some r)

-- A session outside the bodies of `k` stays outside.
pub set-outside :
    (k : LockKey) (s : ℕ) (a : Activity) (activities : ℕ → Activity) (o : Option ℕ)
    → Runs k activities o
    → ¬ InBody k (activities s)
    → ¬ InBody k a
    → Runs k (set_activity s a activities) o
unfolding Runs set_activity
set-outside k s a activities o h before after r = elim (Bool-cases (r == s)) [
  | inl e ↦
      let same : r ≡ s = ground arith in
      rw e (
        λ i. absurd (after i),
        λ p. absurd (before (subst (λ (x : ℕ). InBody k (activities x)) same ((h r).1 p))),
      )
  | inr e ↦ rw e (h r)
]

-- It enters where nobody is.
pub set-enters :
    (k : LockKey) (s : ℕ) (a : Activity) (activities : ℕ → Activity)
    → Runs k activities none
    → InBody k a
    → Runs k (set_activity s a activities) (some s)
unfolding Runs set_activity
set-enters k s a activities h i r = elim (Bool-cases (r == s)) [
  | inl e ↦ let same : r ≡ s = ground arith in rw (e, same) (λ j. refl, λ p. i)
  | inr e ↦ rw e (λ j. cc ((h r).0 j), λ p. ground arith)
]

-- It leaves, and nobody is there.
pub set-leaves :
    (k : LockKey) (s : ℕ) (a : Activity) (activities : ℕ → Activity)
    → Runs k activities (some s)
    → ¬ InBody k a
    → Runs k (set_activity s a activities) none
unfolding Runs set_activity
set-leaves k s a activities h out r = elim (Bool-cases (r == s)) [
  | inl e ↦ rw e (λ i. absurd (out i), λ p. cc p)
  | inr e ↦ rw e (λ i. let p = (h r).0 i in ground arith, λ p. cc p)
]

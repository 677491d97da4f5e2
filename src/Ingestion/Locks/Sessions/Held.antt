-- ===== src/Ingestion/Locks/Sessions/Held.antt =====
-- Who runs the body of a lock holds it.
use qdrant_database.Prelude.{
  ℕ, ◌≡◌, ◌≢◌, refl, subst, ◌==◌, Bool, true, Option, none, some, List, ◌∷◌, Text, arith,
  Bool-cases, inl, inr,
}
use qdrant_database.Exec.{ok, Outcome}
use qdrant_database.Ingestion.Locks.{LockKey, AdvisoryLocks}
use qdrant_database.Ingestion.Locks.Sessions.{
  Activity, idle, waiting, inside, Event, entered, Site, set_activity,
}
use qdrant_database.Ingestion.Locks.Sessions.Serial.{LockLaws, InBody, IsSerial}

module _ {T : Type 0} (session : ℕ → AdvisoryLocks T) (laws : LockLaws session) where
  -- Who is in a body holds its key.
  unfoldable pub Holding : Site T → Type 0
  Holding w = (r : ℕ) (k : LockKey) → InBody k (w.activities r) → laws.holds r k w.locks ≡ true

  pub outside_waiting :
      (k : LockKey) {a : Activity} (tenant_id bot_id doc_id : Text) (key : LockKey)
      → a ≡ waiting tenant_id bot_id doc_id key
      → ¬ InBody k a
  outside_waiting k tenant_id bot_id doc_id key e i = subst (λ (a : Activity). InBody k a) e i

  pub outside_idle : (k : LockKey) {a : Activity} → a ≡ idle → ¬ InBody k a
  outside_idle k e i = subst (λ (a : Activity). InBody k a) e i

  -- What the sessions hold is kept by a step of `s` that leaves `s` outside the bodies.
  pub outside-Holding :
      (w : Site T) (s : ℕ) (a : Activity) (t : T) (es : List Event)
      → Holding w
      → ((k : LockKey) → ¬ InBody k a)
      → ((r : ℕ) (k : LockKey) → r ≢ s → laws.holds r k w.locks ≡ true → laws.holds r k t ≡ true)
      → Holding (record { activities = set_activity s a w.activities; locks = t; history = es })
  unfolding Holding set_activity
  outside-Holding w s a t es h out keeps r k = elim (Bool-cases (r == s)) [
    | inl e ↦ rw e (λ i. absurd (out k i))
    | inr e ↦ rw e (λ i. keeps r k (λ p. ground arith) (h r k i))
  ]

  pub enters-Holding :
      (w : Site T) (s : ℕ) (tenant_id bot_id doc_id : Text) (key : LockKey) (t : T)
      → Holding w
      → (session s).try_lock key w.locks ≡ (ok true, t)
      → Holding (record {
        activities = set_activity s (inside tenant_id bot_id doc_id key) w.activities;
        locks = t;
        history = entered s key ∷ w.history;
      })
  unfolding Holding set_activity
  enters-Holding w s tenant_id bot_id doc_id key t h granted r k = elim (Bool-cases (r == s)) [
    | inl e ↦
        let same : r ≡ s = ground arith in
        rw (e, same)
          (λ p.
            subst (λ (j : LockKey). laws.holds s j t ≡ true) p
              (laws.granted_held s key w.locks t granted))
    | inr e ↦ rw e (λ i.
        subst (λ (p : Outcome Bool × T). laws.holds r k p.1 ≡ true) granted
          (laws.try_keeps s r key k w.locks (h r k i)))
  ]

  -- Nobody else is in a body of a key that is granted.
  pub nobody :
      (k : LockKey) (w : Site T) (s : ℕ) (t : T)
      → Holding w
      → ¬ InBody k (w.activities s)
      → (session s).try_lock k w.locks ≡ (ok true, t)
      → (i : IsSerial k w) → i.owner ≡ none
  unfolding Holding
  nobody k w s t h out granted i = go i.owner refl
    where
      go : (o : Option ℕ) → i.owner ≡ o → i.owner ≡ none
      go none e = e
      go (some r) e =
          let body : InBody k (w.activities r) = (i.runs r).1 e in
          let other : r ≢ s = λ p. out (subst (λ (x : ℕ). InBody k (w.activities x)) p body) in
          let free = laws.granted_free s r k w.locks t granted other in
          let held = h r k body in cc (free, held)

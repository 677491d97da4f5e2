-- ===== src/Ingestion/Locks/Sessions/Exclusion.antt =====
-- The lock keeps the bodies under one key apart.
use qdrant_database.Prelude.{
  ℕ, ◌≡◌, ◌≢◌, refl, sym, subst, Bool, true, false, Option, none, some, List, ◌∷◌, Text,
}
use qdrant_database.Exec.{ok, raised, Outcome}
use qdrant_database.Ingestion.Locks.{LockKey, AdvisoryLocks}
use qdrant_database.Ingestion.Locks.Sessions.{
  Activity, idle, waiting, inside, entered, worked, left, Site, set_activity, activity_after,
  events_after, attempt, leave, Step, begin, poll, work, finish, Reach, here, next,
}
use qdrant_database.Ingestion.Locks.Sessions.Serial.{
  LockLaws, Serial, start, enters, works, leaves, others, InBody, IsSerial, LockKey-discrete, Runs,
  set-outside, set-enters, set-leaves,
}
use qdrant_database.Ingestion.Locks.Sessions.Held.{
  Holding, outside_waiting, outside_idle, outside-Holding, enters-Holding, nobody,
}

module _ {T : Type 0} (session : ℕ → AdvisoryLocks T) (laws : LockLaws session) where
  -- A session that comes from or goes to the outside of every body changes no run.
  outside-IsSerial :
      (k : LockKey) (w : Site T) (s : ℕ) (a : Activity) (t : T)
      → ¬ InBody k (w.activities s)
      → ¬ InBody k a
      → IsSerial k w
      → IsSerial k
          (record { activities = set_activity s a w.activities; locks = t; history = w.history })
  unfolding Runs
  outside-IsSerial k w s a t before after i = record {
    owner = i.owner;
    serial = i.serial;
    runs = set-outside k s a w.activities i.owner i.runs before after;
  }

  enter-IsSerial :
      (k : LockKey) (w : Site T) (s : ℕ) (tenant_id bot_id doc_id : Text) (key : LockKey) (t : T)
      → Holding session laws w
      → ((j : LockKey) → ¬ InBody j (w.activities s))
      → (session s).try_lock key w.locks ≡ (ok true, t)
      → IsSerial k w
      → IsSerial k (record {
        activities = set_activity s (inside tenant_id bot_id doc_id key) w.activities;
        locks = t;
        history = entered s key ∷ w.history;
      })
  unfolding Runs
  enter-IsSerial k w s tenant_id bot_id doc_id key t h out granted i =
      elim (LockKey-discrete key k) [
        | yes e ↦
            let free =
              subst (λ (j : LockKey). (session s).try_lock j w.locks ≡ (ok true, t)) e granted in
            let alone = nobody session laws k w s t h (out k) free i in
            record {
              owner = some s;
              serial =
                  subst (λ (j : LockKey). Serial k (entered s j ∷ w.history) (some s)) (sym e)
                    (enters (subst (λ (o : Option ℕ). Serial k w.history o) alone i.serial));
              runs =
                  set-enters k s (inside tenant_id bot_id doc_id key) w.activities
                    (subst (λ (o : Option ℕ). Runs k w.activities o) alone i.runs) e;
            }
        | no other ↦ record {
          owner = i.owner;
          serial = others other i.serial;
          runs =
              set-outside k s (inside tenant_id bot_id doc_id key) w.activities i.owner i.runs
                (out k) other;
        }
      ]

  inside_body :
      {a : Activity} (tenant_id bot_id doc_id : Text) (key : LockKey)
      → a ≡ inside tenant_id bot_id doc_id key
      → InBody key a
  inside_body tenant_id bot_id doc_id key e = subst (λ (a : Activity). InBody key a) (sym e) refl

  work-IsSerial :
      (k : LockKey) (w : Site T) (s : ℕ) (key : LockKey)
      → InBody key (w.activities s)
      → IsSerial k w
      → IsSerial k (record w { history = worked s key ∷ w.history })
  work-IsSerial k w s key body i = elim (LockKey-discrete key k) [
    | yes e ↦
        let own = (i.runs s).0 (subst (λ (j : LockKey). InBody j (w.activities s)) e body) in
        record {
          owner = i.owner;
          serial =
              subst (λ (o : Option ℕ). Serial k (worked s key ∷ w.history) o) (sym own)
                (subst (λ (j : LockKey). Serial k (worked s j ∷ w.history) (some s)) (sym e)
                  (works (subst (λ (o : Option ℕ). Serial k w.history o) own i.serial)));
          runs = i.runs;
        }
    | no other ↦ record { owner = i.owner; serial = others other i.serial; runs = i.runs }
  ]

  leave-IsSerial :
      (k : LockKey) (w : Site T) (s : ℕ) (tenant_id bot_id doc_id : Text) (key : LockKey)
      → w.activities s ≡ inside tenant_id bot_id doc_id key
      → IsSerial k w
      → IsSerial k (leave session s key w)
  unfolding leave Runs
  leave-IsSerial k w s tenant_id bot_id doc_id key at i =
      let body = inside_body tenant_id bot_id doc_id key at in
      elim (LockKey-discrete key k) [
        | yes e ↦
            let own = (i.runs s).0 (subst (λ (j : LockKey). InBody j (w.activities s)) e body) in
            record {
              owner = none;
              serial =
                  subst (λ (j : LockKey). Serial k (left s j ∷ w.history) none) (sym e)
                    (leaves (subst (λ (o : Option ℕ). Serial k w.history o) own i.serial));
              runs =
                  set-leaves k s idle w.activities
                    (subst (λ (o : Option ℕ). Runs k w.activities o) own i.runs) (λ z. z);
            }
        | no other ↦ record {
          owner = i.owner;
          serial = others other i.serial;
          runs =
              set-outside k s idle w.activities i.owner i.runs
                (λ z. other (subst (λ (a : Activity). InBody k a) at z)) (λ z. z);
        }
      ]

  Safe : Site T → Type 0
  Safe w = Holding session laws w × ((k : LockKey) → IsSerial k w)

  -- A step of `s` from outside the bodies to outside.
  outside-Safe :
      (w : Site T) (s : ℕ) (a : Activity) (t : T)
      → ((k : LockKey) → ¬ InBody k (w.activities s))
      → ((k : LockKey) → ¬ InBody k a)
      → ((r : ℕ) (k : LockKey) → r ≢ s → laws.holds r k w.locks ≡ true → laws.holds r k t ≡ true)
      → Safe w
      → Safe (record { activities = set_activity s a w.activities; locks = t; history = w.history })
  unfolding Safe
  outside-Safe w s a t before after keeps (h, i) = (
    outside-Holding session laws w s a t w.history h after keeps,
    λ k. outside-IsSerial k w s a t (before k) (after k) (i k),
  )

  try_keeps :
      (w : Site T) (s : ℕ) (key : LockKey) (b : Outcome Bool) (t : T)
      → (session s).try_lock key w.locks ≡ (b, t)
      → (r : ℕ) (k : LockKey) → r ≢ s
      → laws.holds r k w.locks ≡ true
      → laws.holds r k t ≡ true
  try_keeps w s key b t e r k other held =
      subst (λ (p : Outcome Bool × T). laws.holds r k p.1 ≡ true) e
        (laws.try_keeps s r key k w.locks held)

  -- A round of a waiting session, by what its statement gives.
  attempt-Safe :
      (w : Site T) (s : ℕ) (tenant_id bot_id doc_id : Text) (key : LockKey) (expired : Bool)
      → w.activities s ≡ waiting tenant_id bot_id doc_id key
      → Safe w
      → (p : Outcome Bool × T) → (session s).try_lock key w.locks ≡ p
      → Safe (attempt session s tenant_id bot_id doc_id key expired w)
  unfolding attempt activity_after events_after
  attempt-Safe w s tenant_id bot_id doc_id key expired at i (raised x, t) e = rw e (
      outside-Safe w s idle t (λ k. outside_waiting session laws k tenant_id bot_id doc_id key at)
        (λ k z. z) (try_keeps w s key (raised x) t e) i)
  attempt-Safe w s tenant_id bot_id doc_id key expired at i (ok true, t) e = rw e (
      unfold Safe in
      (
        enters-Holding session laws w s tenant_id bot_id doc_id key t i.0 e,
        λ k.
            enter-IsSerial k w s tenant_id bot_id doc_id key t i.0
              (λ j. outside_waiting session laws j tenant_id bot_id doc_id key at) e (i.1 k),
      ))
  attempt-Safe w s tenant_id bot_id doc_id key true at i (ok false, t) e = rw e (
      outside-Safe w s idle t (λ k. outside_waiting session laws k tenant_id bot_id doc_id key at)
        (λ k z. z) (try_keeps w s key (ok false) t e) i)
  attempt-Safe w s tenant_id bot_id doc_id key false at i (ok false, t) e = rw e (
      outside-Safe w s (waiting tenant_id bot_id doc_id key) t
        (λ k. outside_waiting session laws k tenant_id bot_id doc_id key at) (λ k z. z)
        (try_keeps w s key (ok false) t e) i)

  finish-Safe :
      (w : Site T) (s : ℕ) (tenant_id bot_id doc_id : Text) (key : LockKey)
      → w.activities s ≡ inside tenant_id bot_id doc_id key
      → Safe w
      → Safe (leave session s key w)
  unfolding Safe leave
  finish-Safe w s tenant_id bot_id doc_id key at (h, i) = (
    outside-Holding session laws w s idle ((session s).unlock key w.locks).1 _ h (λ k z. z)
        (λ r k other held. laws.unlock_keeps s r key k w.locks other held),
    λ k. leave-IsSerial k w s tenant_id bot_id doc_id key at (i k),
  )

  work-Safe :
      (w : Site T) (s : ℕ) (tenant_id bot_id doc_id : Text) (key : LockKey)
      → w.activities s ≡ inside tenant_id bot_id doc_id key
      → Safe w
      → Safe (record w { history = worked s key ∷ w.history })
  unfolding Safe Holding
  work-Safe w s tenant_id bot_id doc_id key at (h, i) =
      (h, λ k. work-IsSerial k w s key (inside_body tenant_id bot_id doc_id key at) (i k))

  module _ (sha256 : List ℕ → List ℕ) where
    step-Safe : {w v : Site T} → Safe w → Step session sha256 w v → Safe v
    step-Safe {w} i (begin s tenant_id bot_id doc_id key at made) =
        outside-Safe w s (waiting tenant_id bot_id doc_id key) w.locks
          (λ k. outside_idle session laws k at) (λ k z. z) (λ r k other held. held) i
    step-Safe {w} i (poll s tenant_id bot_id doc_id key expired at) =
        attempt-Safe w s tenant_id bot_id doc_id key expired at i _ refl
    step-Safe {w} i (work s tenant_id bot_id doc_id key at) =
        work-Safe w s tenant_id bot_id doc_id key at i
    step-Safe {w} i (finish s tenant_id bot_id doc_id key at) =
        finish-Safe w s tenant_id bot_id doc_id key at i

    Reach-Safe : {w : Site T} → Reach session sha256 w → Safe w
    unfolding Safe Holding
    Reach-Safe (here t) = (
      λ r k i. absurd i,
      λ k. record { owner = none; serial = start; runs = λ s. (λ i. absurd i, λ p. cc p) },
    )
    Reach-Safe (next r step) = step-Safe (Reach-Safe r) step

    -- Over every interleaving of the statements of uploads and deletions, each on a session of its
    -- own, where Postgres grants a lock only if no other session holds it, the bodies under one lock
    -- key run one after the other: between the first statement of a body and its end no other body
    -- under that key does anything, and the session of the body that has not ended, if there is one,
    -- is the only session in a body under that key.
    pub Reach-IsSerial : {w : Site T} → Reach session sha256 w → (key : LockKey) → IsSerial key w
    unfolding Safe
    Reach-IsSerial r = (Reach-Safe r).1

-- ===== src/Ingestion/Locks/Sessions/Bodies.antt =====
-- Two requests for one document are never in their bodies together.
use qdrant_database.Prelude.{
  ℕ, ◌≡◌, ◌≢◌, refl, sym, subst, ◌∙◌, Option, none, some, List, Text, Bool-cases, inl, inr, ◌==◌,
}
use qdrant_database.Exec.{ok, raised, Outcome}
use qdrant_database.Exec.Outcomes.{ok-injective}
use qdrant_database.Naming.{advisory_lock_key}
use qdrant_database.Ingestion.Locks.{LockKey, AdvisoryLocks}
use qdrant_database.Ingestion.Locks.Sessions.{
  Activity, idle, waiting, inside, Site, set_activity, activity_after, attempt, leave, Step, begin,
  poll, work, finish, Reach, here, next,
}
use qdrant_database.Ingestion.Locks.Sessions.Serial.{LockLaws, InBody}
use qdrant_database.Ingestion.Locks.Sessions.Exclusion.{Reach-IsSerial}

some_injective : {A : Type 0} {x y : A} → some x ≡ some y → x ≡ y
some_injective e = cc e

module _ {T : Type 0} (session : ℕ → AdvisoryLocks T) (sha256 : List ℕ → List ℕ) where
  -- The key of a request is that of its document.
  HasKey : Activity → Type 0
  HasKey idle = Unit
  HasKey (waiting tenant_id bot_id doc_id key) =
      advisory_lock_key sha256 tenant_id bot_id doc_id ≡ ok key
  HasKey (inside tenant_id bot_id doc_id key) =
      advisory_lock_key sha256 tenant_id bot_id doc_id ≡ ok key

  set-HasKey :
      (s : ℕ) (a : Activity) (activities : ℕ → Activity)
      → ((r : ℕ) → HasKey (activities r))
      → HasKey a
      → (r : ℕ) → HasKey (set_activity s a activities r)
  unfolding set_activity
  set-HasKey s a activities h new r = elim (Bool-cases (r == s)) [
    | inl e ↦ rw e new
    | inr e ↦ rw e (h r)
  ]

  after-HasKey :
      (tenant_id bot_id doc_id : Text) (key : LockKey) (end : Option (Outcome (Unit {0}) × T))
      → advisory_lock_key sha256 tenant_id bot_id doc_id ≡ ok key
      → HasKey (activity_after tenant_id bot_id doc_id key end)
  unfolding HasKey activity_after
  after-HasKey tenant_id bot_id doc_id key none e = e
  after-HasKey tenant_id bot_id doc_id key (some (ok u, t)) e = e
  after-HasKey tenant_id bot_id doc_id key (some (raised x, t)) e = tt

  step-HasKey :
      {w v : Site T}
      → ((r : ℕ) → HasKey (w.activities r))
      → Step session sha256 w v
      → (r : ℕ) → HasKey (v.activities r)
  unfolding HasKey attempt leave
  step-HasKey {w} h (begin s tenant_id bot_id doc_id key at made) =
      set-HasKey s (waiting tenant_id bot_id doc_id key) w.activities h made
  step-HasKey {w} h (poll s tenant_id bot_id doc_id key expired at) =
      set-HasKey s _ w.activities h
        (after-HasKey tenant_id bot_id doc_id key _ (subst (λ (a : Activity). HasKey a) at (h s)))
  step-HasKey {w} h (work s tenant_id bot_id doc_id key at) = h
  step-HasKey {w} h (finish s tenant_id bot_id doc_id key at) = set-HasKey s idle w.activities h tt

  Reach-HasKey : {w : Site T} → Reach session sha256 w → (r : ℕ) → HasKey (w.activities r)
  unfolding HasKey
  Reach-HasKey (here t) r = tt
  Reach-HasKey (next before step) r = step-HasKey (Reach-HasKey before) step r

  -- Over every interleaving, where Postgres grants a lock only if no other session holds it, while a
  -- session is in the body of an upload or a deletion of a document, no other session is in the body
  -- of an upload or a deletion of that document.
  pub one_body_per_document :
      (laws : LockLaws session) {w : Site T}
      → Reach session sha256 w
      → (r s : ℕ) (tenant_id bot_id doc_id : Text) (j k : LockKey)
      → w.activities r ≡ inside tenant_id bot_id doc_id j
      → s ≢ r
      → w.activities s ≢ inside tenant_id bot_id doc_id k
  unfolding HasKey
  one_body_per_document laws {w} reached r s tenant_id bot_id doc_id j k at_r other at_s =
      let key_r = subst (λ (a : Activity). HasKey a) at_r (Reach-HasKey reached r) in
      let key_s = subst (λ (a : Activity). HasKey a) at_s (Reach-HasKey reached s) in
      let same : j ≡ k = ok-injective (sym key_r ∙ key_s) in
      let serial = Reach-IsSerial session laws sha256 reached k in
      let body_r = subst (λ (a : Activity). InBody k a) (sym at_r) same in
      let body_s = subst (λ (a : Activity). InBody k a) (sym at_s) refl in
      other (some_injective (sym ((serial.runs s).0 body_s) ∙ (serial.runs r).0 body_r))

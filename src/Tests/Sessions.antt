-- ===== src/Tests/Sessions.antt =====
-- A lock table in memory, and two sessions that want the lock of one document.
use qdrant_database.Prelude.{
  ℕ, ◌≡◌, ◌≢◌, refl, ◌==◌, ◌&&◌, ◌||◌, not, Bool, true, false, List, [], ◌∷◌, Bool-cases, inl, inr,
  arith, if◌then◌else◌, ap,
}
use qdrant_database.Exec.{ok, Outcome}
use qdrant_database.Exec.Outcomes.{ok-injective}
use qdrant_database.Naming.{ℤ, pos, negsuc, advisory_lock_key, unpack_keys, unpack_int}
use qdrant_database.Tenants.{validate_slug, slug_fullmatch, is_slug_char}
use qdrant_database.Tests.Memory.{acme, help, doc_1, zero_digest}
use qdrant_database.Ingestion.Locks.{LockKey, AdvisoryLocks}
use qdrant_database.Ingestion.Locks.Sessions.{
  waiting, inside, idle, worked, Site, set_activity, attempt, leave, activity_after, events_after,
  Reach, here, next, begin, poll, work, finish,
}
use qdrant_database.Ingestion.Locks.Sessions.Serial.{LockLaws, IsSerial}
use qdrant_database.Ingestion.Locks.Sessions.Exclusion.{Reach-IsSerial}
use qdrant_database.Ingestion.Locks.Sessions.Bodies.{one_body_per_document}

unfoldable same_int : ℤ → ℤ → Bool
same_int (pos m) (pos n) = m == n
same_int (negsuc m) (negsuc n) = m == n
same_int _ _ = false

unfoldable same_key : LockKey → LockKey → Bool
same_key (a, b) (c, d) = same_int a c && same_int b d

same_int_refl : (m : ℤ) → same_int m m ≡ true
unfolding same_int
same_int_refl (pos m) = ground arith
same_int_refl (negsuc m) = ground arith

same_key_refl : (k : LockKey) → same_key k k ≡ true
unfolding same_key
same_key_refl (a, b) = rw (same_int_refl a, same_int_refl b) refl

-- The granted locks, with their sessions.
abbrev Table : Type 0
Table = List (ℕ × LockKey)

unfoldable has : ℕ → LockKey → Table → Bool
has r j [] = false
has r j ((s, k) ∷ t) = (s == r && same_key k j) || has r j t

unfoldable taken : ℕ → LockKey → Table → Bool
taken s k [] = false
taken s k ((r, j) ∷ t) = (not (r == s) && same_key j k) || taken s k t

unfoldable released : ℕ → LockKey → Table → Table
released s k [] = []
released s k ((r, j) ∷ t) =
    let rest = released s k t in if r == s && same_key j k then rest else (r, j) ∷ rest

unfoldable postgres : ℕ → AdvisoryLocks Table
postgres s = record {
  try_lock = λ k t. (ok (not (taken s k t)), if taken s k t then t else (s, k) ∷ t);
  unlock = λ k t. (ok tt, released s k t);
}

free_of_others :
    (s r : ℕ) (k : LockKey) (t : Table) → r ≢ s → taken s k t ≡ false → has r k t ≡ false
unfolding has taken
free_of_others s r k [] other free = refl
free_of_others s r k ((q, j) ∷ t) other free = ground (arith, free_of_others s r k t other)

kept_by_release :
    (s r : ℕ) (k j : LockKey) (t : Table)
    → r ≢ s
    → has r j t ≡ true
    → has r j (released s k t) ≡ true
unfolding has released
kept_by_release s r k j [] other held = held
kept_by_release s r k j ((q, i) ∷ t) other held = ground (arith, kept_by_release s r k j t other)

granted :
    (s : ℕ) (k : LockKey) (t t' : Table)
    → (postgres s).try_lock k t ≡ (ok true, t')
    → taken s k t ≡ false
unfolding postgres
granted s k t t' e = elim (Bool-cases (taken s k t)) [
  | inl busy ↦ cc (ok-injective (ap (λ (p : Outcome Bool × Table). p.0) (rw busy at e)))
  | inr free ↦ free
]

postgres_laws : LockLaws postgres
unfolding postgres
postgres_laws = record {
  holds = has;
  granted_free = λ s r k t t' e other. free_of_others s r k t other (granted s k t t' e);
  granted_held = λ s k t t' e.
      rw (← ap (λ (p : Outcome Bool × Table). p.1) e, granted s k t t' e) (now_held s k t);
  try_keeps = λ s r k j t held. elim (Bool-cases (taken s k t)) [
    | inl busy ↦ rw busy held
    | inr free ↦ rw free (unfold has in ground (arith, held))
  ];
  unlock_keeps = λ s r k j t other held. kept_by_release s r k j t other held;
}
  where
    now_held : (s : ℕ) (k : LockKey) (t : Table) → has s k ((s, k) ∷ t) ≡ true
    now_held s k t = unfold has in rw (same_key_refl k) (ground arith)

abbrev key : LockKey
key = (pos 0, pos 0)

key_made : advisory_lock_key zero_digest acme help doc_1 ≡ ok key
unfolding advisory_lock_key unpack_keys unpack_int validate_slug slug_fullmatch is_slug_char
key_made = refl

-- Both wait, the first gets the lock, the second does not, the first works and ends, and the second
-- gets the lock.
abbrev begun : Site Table
begun = record {
  activities =
      set_activity 1 (waiting acme help doc_1 key)
        (set_activity 0 (waiting acme help doc_1 key) (λ s. idle));
  locks = [];
  history = [];
}

abbrev one_inside : Site Table
one_inside =
    attempt postgres 1 acme help doc_1 key false
      (attempt postgres 0 acme help doc_1 key false begun)

abbrev other_inside : Site Table
other_inside =
    attempt postgres 1 acme help doc_1 key false
      (leave postgres 0 key (record one_inside { history = worked 0 key ∷ one_inside.history }))

two_requests : Reach postgres zero_digest other_inside
unfolding set_activity attempt leave activity_after events_after postgres has taken released
    same_key same_int
two_requests =
    next
      (next
        (next
          (next
            (next
              (next (next (here []) (begin 0 acme help doc_1 key refl key_made))
                (begin 1 acme help doc_1 key refl key_made))
              (poll 0 acme help doc_1 key false refl))
            (poll 1 acme help doc_1 key false refl))
          (work 0 acme help doc_1 key refl))
        (finish 0 acme help doc_1 key refl))
      (poll 1 acme help doc_1 key false refl)

second_inside : other_inside.activities 1 ≡ inside acme help doc_1 key
unfolding set_activity attempt leave activity_after events_after postgres has taken released
    same_key same_int
second_inside = refl

serial_example : IsSerial key other_inside
serial_example = Reach-IsSerial postgres postgres_laws zero_digest two_requests key

one_body_example : other_inside.activities 0 ≢ inside acme help doc_1 key
one_body_example =
    one_body_per_document postgres zero_digest postgres_laws two_requests 1 0 acme help doc_1 key
      key second_inside (ground arith)

-- ===== src/Core/Health/Verdicts.antt =====
-- When the service reports itself ready.
use qdrant_database.Prelude.{
  ◌≡◌, ◌↔◌, refl, Bool, true, false, ◌&&◌, if◌then◌else◌, Text, codes, text_eq, arith, ℕ,
}
use qdrant_database.Core.Health.{
  Probe, answered, timed_out, failed, ping_postgres, ping_qdrant, classify_qdrant_error, health_of,
  healthz,
}

answers : Probe → Bool
answers answered = true
answers timed_out = false
answers (failed e m) = false

postgres_ok : (p : Probe) → text_eq (ping_postgres p) (codes "ok") ≡ answers p
unfolding ping_postgres answers
postgres_ok answered = refl
postgres_ok timed_out = refl
postgres_ok (failed e m) = refl

qdrant_ok :
    (lower : Text → Text) (p : Probe) → text_eq (ping_qdrant lower p) (codes "ok") ≡ answers p
unfolding ping_qdrant answers classify_qdrant_error
qdrant_ok lower answered = refl
qdrant_ok lower timed_out = refl
qdrant_ok lower (failed e m) = ground arith

answers_iff : (p : Probe) → (answers p ≡ true) ↔ (p ≡ answered)
unfolding answers
answers_iff answered = (λ _. refl, λ _. refl)
answers_iff timed_out = (λ e. cc, λ e. cc)
answers_iff (failed x m) = (λ e. cc, λ e. cc)

abbrev code_of : Bool → ℕ
code_of all_ok = if all_ok then 200 else 503

code_of_iff :
    (a b l : Bool) → (code_of (a && b && l) ≡ 200) ↔ ((a ≡ true) × (b ≡ true) × (l ≡ true))
code_of_iff a b l = (λ h. (ground arith, ground arith, ground arith), λ h. rw (h.0, h.1, h.2) refl)

-- The endpoint answers 200 exactly if both probes answered and the embedder is loaded, whatever
-- the text of an error.
pub healthz_status :
    (lower : Text → Text) (pg qd : Probe) (loaded : Bool)
    → ((healthz lower pg qd loaded).status_code ≡ 200)
      ↔ ((pg ≡ answered) × (qd ≡ answered) × (loaded ≡ true))
unfolding healthz health_of
healthz_status lower pg qd loaded =
    rw (postgres_ok pg, qdrant_ok lower qd)
      (let (to, from) = code_of_iff (answers pg) (answers qd) loaded in
        (
          λ h. let (a, b, l) = to h in ((answers_iff pg).0 a, (answers_iff qd).0 b, l),
          λ h. from ((answers_iff pg).1 h.0, (answers_iff qd).1 h.1, h.2),
        ))

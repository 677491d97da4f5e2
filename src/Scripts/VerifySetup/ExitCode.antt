-- ===== src/Scripts/VerifySetup/ExitCode.antt =====
-- When the setup is declared sound.
use qdrant_database.Prelude.{◌≡◌, ◌↔◌, refl, ℕ, Bool, true, false}
use qdrant_database.Exec.{ok, Outcome, Exec, ◌>>=◌}
use qdrant_database.Exec.Outcomes.{bind-eq-ok}
use qdrant_database.Scripts.VerifySetup.{
  Verdict, passed, failed, Checks, unless_failed, full_checks, main,
}

module _ {S : Type 0} (c : Checks S) where
  -- The checks of `--full` have passed, one after the other.
  abbrev pub FullPassed : Bool → S → S → Type 0
  FullPassed false s t = s ≡ t
  FullPassed true s t =
      (u : S) × (v : S) × (c.roundtrip s ≡ (ok passed, u))
      × (c.embedder u ≡ (ok passed, v))
      × (c.search v ≡ (ok passed, t))

  go_on :
      (v : Verdict) (rest : Exec S ℕ) (s t : S)
      → unless_failed v rest s ≡ (ok 0, t)
      → (v ≡ passed) × (rest s ≡ (ok 0, t))
  unfolding unless_failed
  go_on passed rest s t h = (refl, h)
  go_on (failed m) rest s t h = absurd (one_is_not (λ (x : Outcome ℕ × S). x.0) h)
    where
      one_is_not : (f : Outcome ℕ × S → Outcome ℕ) → ◌≡◌ {A = Outcome ℕ × S} (ok 1, s) (ok 0, t) → ⊥
      one_is_not f e = cc e

  step_on :
      (m : Exec S Verdict) (rest : Exec S ℕ) (s t : S)
      → (m >>= λ v. unless_failed v rest) s ≡ (ok 0, t)
      → (u : S) × (m s ≡ (ok passed, u)) × (rest u ≡ (ok 0, t))
  step_on m rest s t h =
      let (v, u, first, more) = bind-eq-ok m (λ v. unless_failed v rest) s h in
      let (pass, last) = go_on v rest u t more in (u, rw pass at first, last)

  full_passed : (full : Bool) (s t : S) → full_checks c full s ≡ (ok 0, t) → FullPassed full s t
  unfolding full_checks
  full_passed false s t h = cc h
  full_passed true s t h =
      let (u, roundtrip, h₁) = step_on c.roundtrip _ s t h in
      let (v, embedder, h₂) = step_on c.embedder _ u t h₁ in
      let (w, search, h₃) = step_on c.search _ v t h₂ in
      let same : w ≡ t = cc h₃ in (u, v, roundtrip, embedder, rw same at search)

  full_exits : (full : Bool) (s t : S) → FullPassed full s t → full_checks c full s ≡ (ok 0, t)
  unfolding full_checks unless_failed
  full_exits false s t e = rw e refl
  full_exits true s t (u, v, roundtrip, embedder, search) = rw (roundtrip, embedder, search) refl

  -- The exit code is 0 exactly if the probe of Postgres and then that of Qdrant have passed and, with
  -- `--full`, after them the round trip, the embedder and the search.
  pub main_passes_iff :
      (full : Bool) (s t : S)
      → (main c full s ≡ (ok 0, t)) ↔ (
          (u : S) × (v : S) × (c.postgres s ≡ (ok passed, u))
          × (c.qdrant u ≡ (ok passed, v))
          × FullPassed full v t)
  unfolding main
  main_passes_iff full s t = (
    λ h.
        let (u, postgres, h₁) = step_on c.postgres _ s t h in
        let (v, qdrant, h₂) = step_on c.qdrant _ u t h₁ in
        (u, v, postgres, qdrant, full_passed full v t h₂),
    λ (u, v, postgres, qdrant, rest).
        unfold unless_failed in rw (postgres, qdrant) (full_exits full v t rest),
  )

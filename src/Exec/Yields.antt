-- ===== src/Exec/Yields.antt =====
-- What a piece of code establishes where it returns.
use qdrant_database.Prelude.{◌≡◌, refl, subst, ap, ◌∙◌, Bool, true, false, if◌then◌else◌}
use qdrant_database.Errors.{Exc}
use qdrant_database.Exec.{
  Outcome, ok, raised, Exec, pure, raise, lift, handle, ◌>>=◌, try_except, try_finally, raise_if,
  settle,
}
use qdrant_database.Exec.Outcomes.{bind-eq-ok}
use qdrant_database.Exec.Keeps.{Keeps}

-- From a state with `P`, a return of `m` has `R` of its value and its state.
pub record Yields {S A : Type 0} (P : S → Type 0) (m : Exec S A) (R : A → S → Type 0) : Type 0 where
  pub at : (s : S) (a : A) (t : S) → P s → m s ≡ (ok a, t) → R a t

module _ {S A : Type 0} {P : S → Type 0} {R : A → S → Type 0} where
  pub Yields-pure : (a : A) → ((s : S) → P s → R a s) → Yields P (pure a) R
  Yields-pure a k = record {
    at = λ s b t p e.
        let same : a ≡ b = cc e in
        let still : s ≡ t = ap (λ (x : Outcome A × S). x.1) e in rw (← same, ← still) (k s p);
  }

  pub Yields-raise : (e : Exc) → Yields P (raise e) R
  Yields-raise e = record { at = λ s b t p h. cc h }

  pub Yields-if :
      (b : Bool) (m n : Exec S A)
      → (b ≡ true → Yields P m R)
      → (b ≡ false → Yields P n R)
      → Yields P (if b then m else n) R
  Yields-if true m n km kn = km refl
  Yields-if false m n km kn = kn refl

  pub Yields-try_except :
      (m : Exec S A) (h : Exc → Exec S A)
      → Yields P m R
      → ((e : Exc) → Yields (λ s. Unit {0}) (h e) R)
      → Yields P (try_except m h) R
  Yields-try_except m h km kh = record { at = λ s a t p e. go s (m s).0 (m s).1 a t p refl e }
    where
      go :
          (s : S) (r : Outcome A) (u : S) (a : A) (t : S)
          → P s
          → m s ≡ (r, u)
          → handle r h u ≡ (ok a, t)
          → R a t
      go s (ok b) u a t p e k = km.at s a t p (e ∙ k)
      go s (raised x) u a t p e k = (kh x).at u a t tt k

  pub Yields-guard :
      (b : Bool) (e : Exc) (m : Exec S A)
      → (b ≡ false → Yields P m R)
      → Yields P (raise_if b e >>= λ _. m) R
  Yields-guard true e m k = record { at = λ s a t p h. cc h }
  Yields-guard false e m k = record { at = λ s a t p h. (k refl).at s a t p h }

pub Yields-bind :
    {S A B : Type 0} {P : S → Type 0} {R : B → S → Type 0} (Q : A → S → Type 0) (m : Exec S A)
    (f : A → Exec S B)
    → Yields P m Q
    → ((a : A) → Yields (Q a) (f a) R)
    → Yields P (m >>= f) R
Yields-bind Q m f km kf = record {
  at = λ s b t p e.
      let (a, u, first, rest) = bind-eq-ok m f s e in (kf a).at u b t (km.at s a u p first) rest;
}

module _ {S A : Type 0} {P : S → Type 0} where
  -- What a step keeps holds after it.
  pub Yields-kept : (m : Exec S A) → Keeps P m → Yields P m (λ a. P)
  Yields-kept m k = record {
    at = λ s a t p e. subst P (ap (λ (x : Outcome A × S). x.1) e) (k.at s p);
  }

  pub Yields-lift : (r : Outcome A) → Yields P (lift r) (λ a. P)
  Yields-lift r = Yields-kept (lift r) (record { at = λ s p. p })

  pub Yields-try_finally :
      {R : A → S → Type 0} (m : Exec S A) (f : Exec S (Unit {0}))
      → Yields P m R
      → ((a : A) → Keeps (R a) f)
      → Yields P (try_finally m f) R
  Yields-try_finally {R = R} m f km kf = record {
    at = λ s a t p e. go s a t p (m s).0 (m s).1 refl e;
  }
    where
      settled :
          (s : S) (a : A) (t : S) (b : A) (u : S) (q : Outcome (Unit {0})) (v : S)
          → R b u
          → f u ≡ (q, v)
          → ◌≡◌ {A = Outcome A × S} (settle (ok b) q, v) (ok a, t)
          → R a t
      settled s a t b u (ok _) v r e k =
          let here = subst (R b) (ap (λ (x : Outcome (Unit {0}) × S). x.1) e) ((kf b).at u r) in
          let same : b ≡ a = cc k in
          let still : v ≡ t = ap (λ (x : Outcome A × S). x.1) k in rw (← same, ← still) here
      settled s a t b u (raised x) v r e k = cc k

      go :
          (s : S) (a : A) (t : S)
          → P s
          → (r : Outcome A) (u : S) → m s ≡ (r, u)
          → ◌≡◌ {A = Outcome A × S} (settle r (f u).0, (f u).1) (ok a, t)
          → R a t
      go s a t p (ok b) u e k = settled s a t b u (f u).0 (f u).1 (km.at s b u p e) refl k
      go s a t p (raised x) u e k = raised_stays (f u).0 (f u).1 k
        where
          raised_stays :
              (q : Outcome (Unit {0})) (v : S)
              → ◌≡◌ {A = Outcome A × S} (settle (raised x) q, v) (ok a, t)
              → R a t
          raised_stays (ok _) v k = cc k
          raised_stays (raised y) v k = cc k

-- ===== src/Exec/Keeps.antt =====
-- Invariants of effectful code, one rule for each way to build it.
use qdrant_database.Prelude.{◌≡◌, refl, Bool, true, false, if◌then◌else◌}
use qdrant_database.Errors.{Exc}
use qdrant_database.Exec.{
  Outcome, ok, raised, Exec, pure, raise, lift, continue, handle, ◌>>=◌, try_except, raise_if,
  try_finally,
}

-- `m` keeps `P`, whether it returns or raises.
pub record Keeps {S A : Type 0} (P : S → Type 0) (m : Exec S A) : Type 0 where
  pub at : (s : S) → P s → P (m s).1

module _ {S A : Type 0} {P : S → Type 0} where
  pub Keeps-pure : (a : A) → Keeps P (pure a)
  Keeps-pure a = record { at = λ s h. h }

  pub Keeps-raise : (e : Exc) → Keeps P (raise {A = A} e)
  Keeps-raise e = record { at = λ s h. h }

  pub Keeps-lift : (r : Outcome A) → Keeps P (lift r)
  Keeps-lift r = record { at = λ s h. h }

  pub Keeps-if : (b : Bool) (m n : Exec S A) → Keeps P m → Keeps P n → Keeps P (if b then m else n)
  Keeps-if true m n km kn = km
  Keeps-if false m n km kn = kn

  pub Keeps-handle :
      (r : Outcome A) (h : Exc → Exec S A) → ((e : Exc) → Keeps P (h e)) → Keeps P (handle r h)
  Keeps-handle (ok a) h k = record { at = λ s p. p }
  Keeps-handle (raised e) h k = record { at = λ s p. (k e).at s p }

  pub Keeps-try_except :
      (m : Exec S A) (h : Exc → Exec S A)
      → Keeps P m
      → ((e : Exc) → Keeps P (h e))
      → Keeps P (try_except m h)
  Keeps-try_except m h km k = record {
    at = λ s p. let (r, s') = m s in (Keeps-handle r h k).at s' (km.at s p);
  }

module _ {S A B : Type 0} {P : S → Type 0} where
  pub Keeps-continue :
      (r : Outcome A) (f : A → Exec S B) → ((a : A) → Keeps P (f a)) → Keeps P (continue r f)
  Keeps-continue (ok a) f k = record { at = λ s p. (k a).at s p }
  Keeps-continue (raised e) f k = record { at = λ s p. p }

  pub Keeps-bind :
      (m : Exec S A) (f : A → Exec S B) → Keeps P m → ((a : A) → Keeps P (f a)) → Keeps P (m >>= f)
  Keeps-bind m f km k = record {
    at = λ s p. let (r, s') = m s in (Keeps-continue r f k).at s' (km.at s p);
  }

pub Keeps-raise_if : {S : Type 0} {P : S → Type 0} (b : Bool) (e : Exc) → Keeps P (raise_if b e)
Keeps-raise_if b e = record { at = λ s h. h }

pub Keeps-try_finally :
    {S A : Type 0} {P : S → Type 0} (m : Exec S A) (f : Exec S (Unit {0}))
    → Keeps P m
    → Keeps P f
    → Keeps P (try_finally m f)
Keeps-try_finally m f km kf = record { at = λ s p. kf.at _ (km.at s p) }

-- What follows a guard may use that the guard has passed.
pub Keeps-guard :
    {S A : Type 0} {P : S → Type 0} (b : Bool) (e : Exc) (m : Exec S A)
    → (b ≡ false → Keeps P m)
    → Keeps P (raise_if b e >>= λ _. m)
Keeps-guard true e m k = record { at = λ s h. h }
Keeps-guard false e m k = record { at = λ s h. (k refl).at s h }

pub Keeps-unless :
    {S A : Type 0} {P : S → Type 0} (b : Bool) (e : Exc) (m : Exec S A)
    → (b ≡ false → Keeps P m)
    → Keeps P (if b then raise e else m)
Keeps-unless true e m k = record { at = λ s h. h }
Keeps-unless false e m k = k refl

pub ruleset keeps_rules =
    (Keeps-pure, Keeps-raise, Keeps-lift, Keeps-if, Keeps-try_except, Keeps-bind, Keeps-raise_if)

-- The rest may use what a successful first step establishes.
pub Keeps-bind_post :
    {S A B : Type 0} {P : S → Type 0} (R : A → Type 0) (m : Exec S A) (f : A → Exec S B)
    → Keeps P m
    → ((s : S) (a : A) (t : S) → P s → m s ≡ (ok a, t) → R a)
    → ((a : A) → R a → Keeps P (f a))
    → Keeps P (m >>= f)
Keeps-bind_post {S} {A} {B} {P} R m f km post kf = record { at = step }
  where
    go : (s : S) (r : Outcome A) (t : S) → m s ≡ (r, t) → P s → P t → P (continue r f t).1
    go s (ok a) t e p q = (kf a (post s a t p e)).at t q
    go s (raised x) t e p q = q

    step : (s : S) → P s → P ((m >>= f) s).1
    step s p = go s (m s).0 (m s).1 refl p (km.at s p)

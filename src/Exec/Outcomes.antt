-- ===== src/Exec/Outcomes.antt =====
-- Inversion of a successful chain.
use qdrant_database.Prelude.{◌≡◌, refl}
use qdrant_database.Exec.{Outcome, ok, raised, and_then, Exec, continue, ◌>>=◌}

pub ok-injective : {A : Type 0} {a b : A} → ok a ≡ ok b → a ≡ b
ok-injective h = cc

pub and_then-eq-ok :
    {A B : Type 0} (m : Outcome A) (f : A → Outcome B) {b : B}
    → and_then m f ≡ ok b
    → (a : A) × (m ≡ ok a) × (f a ≡ ok b)
and_then-eq-ok (ok a) f h = (a, refl, h)
and_then-eq-ok (raised e) f h = cc

-- Of a successful `m >>= f`, both halves succeed.
pub bind-eq-ok :
    {S A B : Type 0} (m : Exec S A) (f : A → Exec S B) (s : S) {b : B} {u : S}
    → (m >>= f) s ≡ (ok b, u)
    → (a : A) × (t : S) × (m s ≡ (ok a, t)) × (f a t ≡ (ok b, u))
bind-eq-ok {S} {A} {B} m f s {b} {u} h = go (m s).0 (m s).1 refl h
  where
    go :
        (r : Outcome A) (t : S)
        → m s ≡ (r, t)
        → continue r f t ≡ (ok b, u)
        → (a : A) × (t : S) × (m s ≡ (ok a, t)) × (f a t ≡ (ok b, u))
    go (ok a) t e k = (a, t, e, k)
    go (raised x) t e k = let bad : (raised x, t) ≡ (ok b, u) = k in cc bad

-- ===== src/Exec/Gives.antt =====
-- What a piece of code returns, where the state does not matter.
use qdrant_database.Prelude.{◌≡◌, refl, Bool, true, false, if◌then◌else◌}
use qdrant_database.Errors.{Exc}
use qdrant_database.Exec.{Outcome, ok, raised, Exec, pure, raise, handle, ◌>>=◌, try_except}
use qdrant_database.Exec.Outcomes.{bind-eq-ok}

-- Every value that `m` returns satisfies `P`.
pub record Gives {S A : Type 0} (P : A → Type 0) (m : Exec S A) : Type 0 where
  pub at : (s : S) (a : A) (t : S) → m s ≡ (ok a, t) → P a

-- `m` returns, with a value that satisfies `P`.
abbrev pub Answers : {S A : Type 0} → (A → Type 0) → Exec S A → S → Type 0
Answers {S} {A} P m s = (a : A) × (t : S) × (m s ≡ (ok a, t)) × P a

module _ {S A : Type 0} {P : A → Type 0} where
  pub Gives-pure : (a : A) → P a → Gives {S = S} P (pure a)
  Gives-pure a p = record { at = λ s b t h. let same : a ≡ b = cc h in rw (← same) p }

  pub Gives-raise : (e : Exc) → Gives {S = S} P (raise e)
  Gives-raise e = record { at = λ s b t h. cc h }

  pub Gives-if : (b : Bool) (m n : Exec S A) → Gives P m → Gives P n → Gives P (if b then m else n)
  Gives-if true m n km kn = km
  Gives-if false m n km kn = kn

  pub Gives-then :
      {B : Type 0} (m : Exec S B) (f : B → Exec S A) → ((b : B) → Gives P (f b)) → Gives P (m >>= f)
  Gives-then m f k = record {
    at = λ s b t h. let (x, u, _, rest) = bind-eq-ok m f s h in (k x).at u b t rest;
  }

  pub Gives-try_except :
      (m : Exec S A) (h : Exc → Exec S A)
      → Gives P m
      → ((e : Exc) → Gives P (h e))
      → Gives P (try_except m h)
  Gives-try_except m h km kh = record { at = λ s a t e. go s (m s).0 (m s).1 a t refl e }
    where
      go :
          (s : S) (r : Outcome A) (u : S) (a : A) (t : S)
          → m s ≡ (r, u)
          → handle r h u ≡ (ok a, t)
          → P a
      go s (ok b) u a t e k = let same : b ≡ a = cc k in rw (← same) (km.at s b u e)
      go s (raised x) u a t e k = (kh x).at u a t k

  -- A handler that answers every exception makes the code answer.
  pub Answers-try_except :
      (m : Exec S A) (h : Exc → Exec S A)
      → Gives P m
      → ((e : Exc) (s : S) → Answers P (h e) s)
      → (s : S) → Answers P (try_except m h) s
  Answers-try_except m h y k s = go (m s).0 (m s).1 refl
    where
      go :
          (r : Outcome A) (t : S)
          → m s ≡ (r, t)
          → (a : A) × (u : S) × (handle r h t ≡ (ok a, u)) × P a
      go (ok a) t e = (a, t, refl, y.at s a t e)
      go (raised x) t e = k x t

pub ruleset gives_rules = (Gives-pure, Gives-raise, Gives-if, Gives-then, Gives-try_except)

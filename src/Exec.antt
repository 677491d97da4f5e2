-- ===== src/Exec.antt =====
-- Python code that changes state and may raise. What was written before a raise stays written,
-- so the state comes back beside the exception too.
pub mod Keeps
pub mod Outcomes
pub mod Yields
pub mod Gives
use qdrant_database.Prelude.{Bool, if◌then◌else◌}
use qdrant_database.Errors.{Exc}

pub data Outcome (A : Type 0) : Type 0 where
  ok : A → Outcome A
  raised : Exc → Outcome A

-- A computation that touches no state, and then another.
abbrev pub and_then : {A B : Type 0} → Outcome A → (A → Outcome B) → Outcome B
and_then (ok a) f = f a
and_then (raised e) f = raised e

abbrev pub Exec : Type 0 → Type 0 → Type 0
Exec S A = S → Outcome A × S

module _ {S A : Type 0} where
  abbrev pub pure : A → Exec S A
  pure a s = (ok a, s)

  abbrev pub raise : Exc → Exec S A
  raise e s = (raised e, s)

  -- A computation that touches no state.
  abbrev pub lift : Outcome A → Exec S A
  lift r s = (r, s)

abbrev pub continue : {S A B : Type 0} → Outcome A → (A → Exec S B) → Exec S B
continue (ok a) f s = f a s
continue (raised e) f s = (raised e, s)

infixl 5 ◌>>=◌ ◌>>◌
abbrev pub ◌>>=◌ : {S A B : Type 0} → Exec S A → (A → Exec S B) → Exec S B
◌>>=◌ m f s = let (r, s') = m s in continue r f s'

abbrev pub ◌>>◌ : {S A B : Type 0} → Exec S A → Exec S B → Exec S B
m >> k = m >>= λ _. k

abbrev pub handle : {S A : Type 0} → Outcome A → (Exc → Exec S A) → Exec S A
handle (ok a) h s = (ok a, s)
handle (raised e) h s = h e s

-- `try: m  except Exception as e: h(e)`
abbrev pub try_except : {S A : Type 0} → Exec S A → (Exc → Exec S A) → Exec S A
try_except m h s = let (r, s') = m s in handle r h s'

-- How a `finally` clause ends: with its own exception, or as the block that it follows did.
abbrev pub settle : {A : Type 0} → Outcome A → Outcome (Unit {0}) → Outcome A
settle r (ok _) = r
settle r (raised e) = raised e

-- `try: m  finally: f`
abbrev pub try_finally : {S A : Type 0} → Exec S A → Exec S (Unit {0}) → Exec S A
try_finally m f s = let (r, s') = m s in let (q, s'') = f s' in (settle r q, s'')

abbrev pub raise_if : {S : Type 0} → Bool → Exc → Exec S (Unit {0})
raise_if b e s = ((if b then raised e else ok tt), s)

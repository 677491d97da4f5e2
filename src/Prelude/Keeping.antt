-- ===== src/Prelude/Keeping.antt =====
-- Lemmas on `keep`.
use mathlib.Core.Path.{◌≡◌, refl, ap}
use mathlib.Core.Bool.{Bool, true, false}
use mathlib.Core.List.{List, [], ◌∷◌, ◌++◌}
use native.Mathlib.Omega.{arith}
use qdrant_database.Prelude.Lists.{keep, All}

module _ {ℓ} {A : Type ℓ} (p : A → Bool) where
  pub keep-append : (xs ys : List A) → keep p (xs ++ ys) ≡ keep p xs ++ keep p ys
  keep-append [] ys = refl
  keep-append (x ∷ xs) ys = ground (arith, keep-append xs ys)

  pub keep_comm : (q : A → Bool) (xs : List A) → keep p (keep q xs) ≡ keep q (keep p xs)
  keep_comm q [] = refl
  keep_comm q (x ∷ xs) = ground (arith, keep_comm q xs)

  -- All pass, or none does.
  pub keep-All : (xs : List A) → All (λ x. p x ≡ true) xs → keep p xs ≡ xs
  keep-All [] h = refl
  keep-All (x ∷ xs) h = rw h.0 (ap (λ ys. x ∷ ys) (keep-All xs h.1))

  pub keep_none : (xs : List A) → All (λ x. p x ≡ false) xs → keep p xs ≡ []
  keep_none [] h = refl
  keep_none (x ∷ xs) h = rw h.0 (keep_none xs h.1)

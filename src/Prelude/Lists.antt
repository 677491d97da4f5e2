-- ===== src/Prelude/Lists.antt =====
-- Lists over the native numbers: lengths, tests, predicates, and lemmas on them.
use Prim.Native.Nat.{ℕ, zero, suc, ◌+◌, ◌≤◌}
use mathlib.Core.Path.{◌≡◌, refl}
use mathlib.Core.Bool.{Bool, true, false, ◌&&◌}
use mathlib.Core.Option.{Option, none, some}
use mathlib.Core.List.{List, [], ◌∷◌, ◌++◌, map, reverse, reverse-cons}
use native.Mathlib.Omega.{arith}
use qdrant_database.Prelude.Tests.{if◌then◌else◌}

module _ {ℓ} {A : Type ℓ} where
  abbrev pub length : List A → ℕ
  length [] = 0
  length (x ∷ xs) = suc (length xs)

  abbrev pub is_empty : List A → Bool
  is_empty [] = true
  is_empty (x ∷ xs) = false

  abbrev pub all : (A → Bool) → List A → Bool
  all p [] = true
  all p (x ∷ xs) = p x && all p xs

  abbrev pub take : ℕ → List A → List A
  take zero xs = []
  take (suc n) [] = []
  take (suc n) (x ∷ xs) = x ∷ take n xs

  abbrev pub replicate : ℕ → A → List A
  replicate zero x = []
  replicate (suc n) x = x ∷ replicate n x

  -- Python's `xs[i]`, with `none` for the `IndexError`.
  abbrev pub get_elem? : List A → ℕ → Option A
  get_elem? [] i = none
  get_elem? (x ∷ xs) zero = some x
  get_elem? (x ∷ xs) (suc i) = get_elem? xs i

  -- The elements that pass a test, in order.
  abbrev pub keep : (A → Bool) → List A → List A
  keep p [] = []
  keep p (x ∷ xs) = if p x then x ∷ keep p xs else keep p xs

  pub is_empty-nil : (xs : List A) → is_empty xs ≡ true → xs ≡ []
  is_empty-nil [] h = refl
  is_empty-nil (x ∷ xs) h = cc

  pub length-append : (xs ys : List A) → length (xs ++ ys) ≡ length xs + length ys
  length-append [] ys = omega arith
  length-append (x ∷ xs) ys = omega (arith, length-append xs ys)

  pub length-take : (n : ℕ) (xs : List A) → length (take n xs) ≤ n
  length-take zero xs = omega arith
  length-take (suc n) [] = omega arith
  length-take (suc n) (x ∷ xs) = omega (arith, length-take n xs)

module _ {ℓ κ} {A : Type ℓ} {B : Type κ} where
  pub length-map : (f : A → B) (xs : List A) → length (map f xs) ≡ length xs
  length-map f [] = refl
  length-map f (x ∷ xs) = omega (arith, length-map f xs)

module _ {ℓ κ} {A : Type ℓ} (P : A → Type κ) where
  abbrev pub All : List A → Type κ
  All [] = Unit
  All (x ∷ xs) = P x × All xs

  pub All-append : (xs ys : List A) → All xs → All ys → All (xs ++ ys)
  All-append [] ys h k = k
  All-append (x ∷ xs) ys h k = (h.0, All-append xs ys h.1 k)

  pub All-split : (xs ys : List A) → All (xs ++ ys) → All xs × All ys
  All-split [] ys h = (tt, h)
  All-split (x ∷ xs) ys h = let (front, back) = All-split xs ys h.1 in ((h.0, front), back)

  pub All-reverse : (xs : List A) → All xs → All (reverse xs)
  All-reverse [] h = tt
  All-reverse (x ∷ xs) h =
      rw (reverse-cons x xs) (All-append (reverse xs) (x ∷ []) (All-reverse xs h.1) (h.0, tt))

-- Cut at the first separator, where the parts before it hold none.
pub split_unique :
    (P : ℕ → Type 0) (sep : ℕ)
    → ¬ P sep
    → (s t b d : List ℕ) → All P s
    → All P t
    → s ++ sep ∷ b ≡ t ++ sep ∷ d
    → (s ≡ t) × (b ≡ d)
split_unique P sep no_sep [] [] b d hs ht e = (refl, cc)
split_unique P sep no_sep [] (y ∷ t) b d hs ht e =
    let same : y ≡ sep = cc in absurd (no_sep (rw same at ht.0))
split_unique P sep no_sep (x ∷ s) [] b d hs ht e =
    let same : x ≡ sep = cc in absurd (no_sep (rw same at hs.0))
split_unique P sep no_sep (x ∷ s) (y ∷ t) b d hs ht e =
    let (heads, tails) = split_unique P sep no_sep s t b d hs.1 ht.1 (cc) in (cc, tails)

module _ {ℓ} {A : Type ℓ} where
  -- Of two equal concatenations with first parts of one length, the parts are equal.
  pub append_inj : (s t b d : List A) → length s ≡ length t → s ++ b ≡ t ++ d → (s ≡ t) × (b ≡ d)
  append_inj [] [] b d h e = (refl, e)
  append_inj [] (y ∷ t) b d h e = absurd (omega arith)
  append_inj (x ∷ s) [] b d h e = absurd (omega arith)
  append_inj (x ∷ s) (y ∷ t) b d h e =
      let (same, rest) = append_inj s t b d (omega arith) (cc) in (cc, rest)

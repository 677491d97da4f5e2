-- ===== src/Tests/Memory/Server.antt =====
-- The server in memory obeys the laws of the client.
use qdrant_database.Prelude.{
  ◌≡◌, ◌≢◌, refl, ap, sym, ℕ, Bool, true, false, not, List, [], ◌∷◌, Text, text_eq, text_eq_refl,
  text_eq_sound, keep, if◌then◌else◌, is_empty,
}
use qdrant_database.Exec.{Outcome}
use qdrant_database.Exec.Outcomes.{ok-injective}
use qdrant_database.Qdrant.Client.{Point}
use qdrant_database.Qdrant.Collection.Laws.{QdrantLaws, of_doc, not_of_doc}
use qdrant_database.Tests.Memory.{Server, server}

pub keep_twice : {A : Type 0} (p : A → Bool) (xs : List A) → keep p (keep p xs) ≡ keep p xs
keep_twice p [] = refl
keep_twice p (x ∷ xs) = go (keep_twice p xs) (p x) refl
  where
    go :
        keep p (keep p xs) ≡ keep p xs
        → (b : Bool) → p x ≡ b
        → keep p (if b then x ∷ keep p xs else keep p xs) ≡ (if b then x ∷ keep p xs else keep p xs)
    go ih true e = rw e (ap (λ ys. x ∷ ys) ih)
    go ih false e = ih

pub keep_neither :
    {A : Type 0} (p : A → Bool) (xs : List A) → keep p (keep (λ x. not (p x)) xs) ≡ []
keep_neither p [] = refl
keep_neither p (x ∷ xs) = go (keep_neither p xs) (p x) refl
  where
    go :
        keep p (keep (λ x. not (p x)) xs) ≡ []
        → (b : Bool) → p x ≡ b
        → keep p (if not b then x ∷ keep (λ x. not (p x)) xs else keep (λ x. not (p x)) xs) ≡ []
    go ih true e = ih
    go ih false e = rw e ih

pub elsewhere : {A : Type 0} (m n : Text) (x y : A) → m ≢ n → (if text_eq m n then x else y) ≡ y
elsewhere m n x y other = go (text_eq m n) refl
  where
    go : (b : Bool) → text_eq m n ≡ b → (if b then x else y) ≡ y
    go true e = absurd (other (text_eq_sound m n e))
    go false e = refl

pub nothing_there : (ps : List Point) → not (is_empty ps) ≡ false → ps ≡ []
nothing_there [] h = refl
nothing_there (p ∷ ps) h = cc h

unfoldable pub server_laws : QdrantLaws server
server_laws = record {
  points = λ s n. s n;
  exists_keeps = λ n m s. refl;
  exists_false = λ n s s' e.
      rw (← ap (λ (r : Outcome Bool × Server). r.1) e)
        (nothing_there (s n) (ok-injective (ap (λ (r : Outcome Bool × Server). r.0) e)));
  get_keeps = λ n m s. refl;
  create_keeps = λ n m c s. refl;
  index_keeps = λ n m f k s. refl;
  count_keeps = λ n d m s. refl;
  count_done = λ n d s s' k e. sym (ok-injective (ap (λ (r : Outcome ℕ × Server). r.0) e));
  delete_other = λ n d m s other. elsewhere m n _ _ other;
  delete_rest = λ n d s. rw (text_eq_refl n) (keep_twice (not_of_doc d) (s n));
  delete_done = λ n d s s' e.
      rw (← ap (λ (r : Outcome (Unit {0}) × Server). r.1) e)
        (rw (text_eq_refl n) (keep_neither (of_doc d) (s n)));
  upsert_other = λ n m new s other. elsewhere m n _ _ other;
  upsert_done = λ n new s s' distinct e.
      rw (← ap (λ (r : Outcome (Unit {0}) × Server). r.1) e) (rw (text_eq_refl n) refl);
}

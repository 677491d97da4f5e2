-- ===== src/Tests/Memory/Tables.antt =====
-- The tables in memory obey the laws of the database.
use qdrant_database.Prelude.{
  ◌≡◌, ◌≢◌, refl, ap, sym, ◌∙◌, subst, ℕ, Bool, true, false, Option, none, some, [], ◌∷◌, Text,
  text_eq, text_eq_refl, text_eq_sound, if◌then◌else◌,
}
use qdrant_database.Errors.{does_not_exist, integrity_error}
use qdrant_database.Exec.{Outcome, ok, raised, raise, Exec}
use qdrant_database.Exec.Outcomes.{ok-injective}
use qdrant_database.Documents.Models.{Document}
use qdrant_database.Documents.Models.Laws.{DatabaseLaws, FirstRow}
use qdrant_database.Tests.Memory.{Table, row, without, first_row_of, put, write, tables}

pub row_key : (s : Table) (id : Text) (d : Document) → row s id ≡ some d → d.doc_id ≡ id
row_key [] id d h = cc h
row_key (x ∷ s) id d h = go (row_key s id d) (text_eq x.doc_id id) refl h
  where
    go :
        (row s id ≡ some d → d.doc_id ≡ id)
        → (b : Bool) → text_eq x.doc_id id ≡ b
        → (if b then some x else row s id) ≡ some d
        → d.doc_id ≡ id
    go older true e k = let same : x ≡ d = cc k in rw (← same) (text_eq_sound x.doc_id id e)
    go older false e k = older k

first_none :
    (p : Document → Bool) (s : Table) (id : Text) (d : Document)
    → first_row_of p s ≡ none
    → row s id ≡ some d
    → p d ≡ false
first_none p [] id d e h = cc h
first_none p (x ∷ s) id d e h =
    go (first_none (without x.doc_id p) s id d) (p x) (text_eq x.doc_id id) refl refl e h
  where
    older :
        (b : Bool)
        → text_eq d.doc_id x.doc_id ≡ b
        → text_eq x.doc_id id ≡ false
        → d.doc_id ≡ id
        → (if b then false else p d) ≡ false
        → p d ≡ false
    older true e ne key k =
        let same : x.doc_id ≡ id = sym (text_eq_sound d.doc_id x.doc_id e) ∙ key in
        let bad : text_eq x.doc_id id ≡ true = rw same (text_eq_refl id) in cc (bad, ne)
    older false e ne key k = k

    go :
        (first_row_of (without x.doc_id p) s ≡ none
          → row s id ≡ some d
          → without x.doc_id p d ≡ false)
        → (b c : Bool) → p x ≡ b
        → text_eq x.doc_id id ≡ c
        → (if b then some x else first_row_of (without x.doc_id p) s) ≡ none
        → (if c then some x else row s id) ≡ some d
        → p d ≡ false
    go ih true c eb ec k l = cc k
    go ih false true eb ec k l = let same : x ≡ d = cc l in rw (← same) eb
    go ih false false eb ec k l =
        older (text_eq d.doc_id x.doc_id) refl ec (row_key s id d l) (ih k l)

first_some :
    (p : Document → Bool) (s : Table) (d : Document)
    → first_row_of p s ≡ some d
    → (row s d.doc_id ≡ some d) × (p d ≡ true)
first_some p [] d e = cc e
first_some p (x ∷ s) d e = go (first_some (without x.doc_id p) s d) (p x) refl e
  where
    newer :
        (b c : Bool)
        → text_eq d.doc_id x.doc_id ≡ b
        → text_eq x.doc_id d.doc_id ≡ c
        → row s d.doc_id ≡ some d
        → (if b then false else p d) ≡ true
        → ((if c then some x else row s d.doc_id) ≡ some d) × (p d ≡ true)
    newer true c eb ec r k = cc k
    newer false true eb ec r k =
        let same = text_eq_sound x.doc_id d.doc_id ec in
        let bad : text_eq d.doc_id x.doc_id ≡ true = rw same (text_eq_refl d.doc_id) in cc (bad, eb)
    newer false false eb ec r k = (r, k)

    go :
        (first_row_of (without x.doc_id p) s ≡ some d
          → (row s d.doc_id ≡ some d) × (without x.doc_id p d ≡ true))
        → (b : Bool) → p x ≡ b
        → (if b then some x else first_row_of (without x.doc_id p) s) ≡ some d
        → ((if text_eq x.doc_id d.doc_id then some x else row s d.doc_id) ≡ some d) × (p d ≡ true)
    go ih true e k = let same : x ≡ d = cc k in rw (← same) (rw (text_eq_refl x.doc_id) refl, e)
    go ih false e k =
        let (there, hit) = ih k in
        newer (text_eq d.doc_id x.doc_id) (text_eq x.doc_id d.doc_id) refl refl there hit

pub put_other : (id j : Text) (x : Document) (s : Table) → j ≢ id → row (put id x s).1 j ≡ row s j
put_other id j x s n = go (text_eq x.doc_id id) (text_eq x.doc_id j) refl refl
  where
    go :
        (b c : Bool)
        → text_eq x.doc_id id ≡ b
        → text_eq x.doc_id j ≡ c
        → row
            (if◌then◌else◌ {A = Outcome (Unit {0}) × Table} b
              (ok tt, x ∷ s)
              (raised integrity_error, s)).1
            j
          ≡ row s j
    go true true eb ec =
        absurd (n (sym (text_eq_sound x.doc_id j ec) ∙ text_eq_sound x.doc_id id eb))
    go true false eb ec = rw ec refl
    go false c eb ec = refl

pub put_done :
    (id : Text) (x : Document) (s s' : Table) → put id x s ≡ (ok tt, s') → row s' id ≡ some x
put_done id x s s' h = go (text_eq x.doc_id id) refl h
  where
    go :
        (b : Bool)
        → text_eq x.doc_id id ≡ b
        → ◌≡◌ {A = Outcome (Unit {0}) × Table}
            (if b then (ok tt, x ∷ s) else (raised integrity_error, s))
            (ok tt, s')
        → row s' id ≡ some x
    go true e k = rw (← ap (λ (r : Outcome (Unit {0}) × Table). r.1) k) (rw e refl)
    go false e k = cc k

pub write_other :
    (o : Option Document) (id j : Text) (f : ℕ → Document → Document) (m : Exec Table (Unit {0}))
    (s : Table)
    → j ≢ id
    → row (m s).1 j ≡ row s j
    → row (write o id f m s).1 j ≡ row s j
write_other none id j f m s n h = h
write_other (some d) id j f m s n h = put_other id j (f 0 d) s n

pub write_done :
    (id : Text) (f : ℕ → Document → Document) (m : Exec Table (Unit {0})) (d : Document)
    (s s' : Table)
    → row s id ≡ some d
    → write (row s id) id f m s ≡ (ok tt, s')
    → row s' id ≡ some (f 0 d)
write_done id f m d s s' here e =
    put_done id (f 0 d) s s'
      (subst (λ (o : Option Document). write o id f m s ≡ (ok tt, s')) here e)

pub query_done :
    (p : Document → Bool) (o : Option Document) (s s' : Table)
    → tables.document_first p s ≡ (ok o, s')
    → FirstRow o p (row s)
query_done p none s s' h =
    let found : first_row_of p s ≡ none =
      ok-injective (ap (λ (r : Outcome (Option Document) × Table). r.0) h) in
    λ id d here. first_none p s id d found here
query_done p (some x) s s' h =
    first_some p s x (ok-injective (ap (λ (r : Outcome (Option Document) × Table). r.0) h))

unfoldable pub tables_laws : DatabaseLaws tables
tables_laws = record {
  row = row;
  row_key = row_key;
  tenant_create_keeps = λ t n id s. refl;
  tenant_get_keeps = λ t id s. refl;
  bot_create_keeps = λ f t b n id s. refl;
  bot_get_keeps = λ t b id s. refl;
  first_keeps = λ p id s. refl;
  first_done = query_done;
  save_other = λ id j f s n. write_other (row s id) id j f (raise does_not_exist) s n refl;
  save_done = λ id f d s s' here e. (0, write_done id f (raise does_not_exist) d s s' here e);
  update_or_create_other =
      λ id j f g s n. write_other (row s id) id j f (put id (g 0)) s n (put_other id j (g 0) s n);
  update_done = λ id f g d s s' here e. (0, write_done id f (put id (g 0)) d s s' here e);
  create_done = λ id f g s s' here e. (
    0,
    put_done id (g 0) s s'
        (subst (λ (o : Option Document). write o id f (put id (g 0)) s ≡ (ok tt, s')) here e),
  );
}

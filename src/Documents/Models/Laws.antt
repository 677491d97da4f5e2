-- ===== src/Documents/Models/Laws.antt =====
-- What the program relies on of the document table: rows by primary key.
use qdrant_database.Prelude.{ℕ, ◌≡◌, ◌≢◌, Bool, true, false, Option, none, some, Text}
use qdrant_database.Exec.{Outcome, ok}
use qdrant_database.Documents.Models.{Bot, Tenant, Document, Database}

abbrev pub FirstRow : Option Document → (Document → Bool) → (Text → Option Document) → Type 0
FirstRow none p row = (id : Text) (d : Document) → row id ≡ some d → p d ≡ false
FirstRow (some d) p row = (row d.doc_id ≡ some d) × (p d ≡ true)

-- `row s id` is the row with that primary key. Calls on tenants and bots leave documents alone.
pub record DatabaseLaws {D : Type 0} (db : Database D) : Type 0 where
  pub row : D → Text → Option Document
  pub row_key : (s : D) (id : Text) (d : Document) → row s id ≡ some d → d.doc_id ≡ id
  pub tenant_create_keeps :
      (t n id : Text) (s : D) → row (db.tenant_get_or_create t n s).1 id ≡ row s id
  pub tenant_get_keeps : (t id : Text) (s : D) → row (db.tenant_get t s).1 id ≡ row s id
  pub bot_create_keeps :
      (f : Bot → Outcome Bot) (t : Tenant) (b n id : Text) (s : D)
      → row (db.bot_get_or_create f t b n s).1 id ≡ row s id
  pub bot_get_keeps : (t : Tenant) (b id : Text) (s : D) → row (db.bot_get t b s).1 id ≡ row s id
  pub first_keeps :
      (p : Document → Bool) (id : Text) (s : D) → row (db.document_first p s).1 id ≡ row s id
  pub first_done :
      (p : Document → Bool) (o : Option Document) (s s' : D)
      → db.document_first p s ≡ (ok o, s')
      → FirstRow o p (row s)
  pub save_other :
      (id j : Text) (f : ℕ → Document → Document) (s : D)
      → j ≢ id
      → row (db.document_save id f s).1 j ≡ row s j
  pub save_done :
      (id : Text) (f : ℕ → Document → Document) (d : Document) (s s' : D)
      → row s id ≡ some d
      → db.document_save id f s ≡ (ok tt, s')
      → (now : ℕ) × (row s' id ≡ some (f now d))
  pub update_or_create_other :
      (id j : Text) (f : ℕ → Document → Document) (g : ℕ → Document) (s : D)
      → j ≢ id
      → row (db.document_update_or_create id f g s).1 j ≡ row s j
  pub update_done :
      (id : Text) (f : ℕ → Document → Document) (g : ℕ → Document) (d : Document) (s s' : D)
      → row s id ≡ some d
      → db.document_update_or_create id f g s ≡ (ok tt, s')
      → (now : ℕ) × (row s' id ≡ some (f now d))
  pub create_done :
      (id : Text) (f : ℕ → Document → Document) (g : ℕ → Document) (s s' : D)
      → row s id ≡ none
      → db.document_update_or_create id f g s ≡ (ok tt, s')
      → (now : ℕ) × (row s' id ≡ some (g now))

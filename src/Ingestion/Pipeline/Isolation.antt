-- ===== src/Ingestion/Pipeline/Isolation.antt =====
-- An upload or a deletion for one bot leaves the rows of all other bots alone.
pub mod Others
use qdrant_database.Prelude.{
  ℕ, ◌≡◌, ◌≢◌, sym, Bool, true, subst, none, some, Text, text_eq, text_eq_refl,
}
use qdrant_database.Errors.{Exc, integrity_error}
use qdrant_database.Exec.{ok}
use qdrant_database.Exec.Keeps.{Keeps, Keeps-try_except}
use qdrant_database.Documents.Models.{Tenant, bot_save, Document, Database}
use qdrant_database.Documents.Models.Laws.{DatabaseLaws}
use qdrant_database.Ingestion.Pipeline.Rows.{
  get_or_create_tenant, get_or_create_bot, on_tenant_error, on_bot_error, has_doc_id,
}

-- The row `d` stands under `id` in the table of documents.
module _ {D : Type 0} (db : Database D) (laws : DatabaseLaws db) (id : Text) (d : Document) where
  abbrev pub Stays : D → Type 0
  Stays s = laws.row s id ≡ some d

  tenant_error-Stays : (t : Text) (e : Exc) → Keeps Stays (on_tenant_error db t e)
  unfolding on_tenant_error
  tenant_error-Stays t integrity_error = record { at = λ s h. rw (laws.tenant_get_keeps t id s) h }
  tenant_error-Stays t _ = record { at = λ s h. h }

  pub tenant-Stays : (t : Text) → Keeps Stays (get_or_create_tenant db t)
  unfolding get_or_create_tenant
  tenant-Stays t =
      Keeps-try_except _ _ (record { at = λ s h. rw (laws.tenant_create_keeps t t id s) h })
        (tenant_error-Stays t)

  bot_error-Stays : (t : Tenant) (b : Text) (e : Exc) → Keeps Stays (on_bot_error db t b e)
  unfolding on_bot_error
  bot_error-Stays t b integrity_error = record { at = λ s h. rw (laws.bot_get_keeps t b id s) h }
  bot_error-Stays t b _ = record { at = λ s h. h }

  pub bot-Stays : (t : Tenant) (b : Text) → Keeps Stays (get_or_create_bot db t b)
  unfolding get_or_create_bot
  bot-Stays t b =
      Keeps-try_except _ _ (record { at = λ s h. rw (laws.bot_create_keeps bot_save t b b id s) h })
        (bot_error-Stays t b)

  pub first-Stays : (p : Document → Bool) → Keeps Stays (db.document_first p)
  first-Stays p = record { at = λ s h. rw (laws.first_keeps p id s) h }

  -- A row that a query finds under `id` is `d`.
  pub found_is :
      (p : Document → Bool) (x : Document) (s s' : D)
      → Stays s
      → db.document_first p s ≡ (ok (some x), s')
      → x.doc_id ≡ id
      → x ≡ d
  found_is p x s s' h e same =
      let (there, _) = laws.first_done p (some x) s s' e in
      let here : laws.row s id ≡ some x = subst (λ (j : Text). laws.row s j ≡ some x) same there in
      cc

  -- Where a query for an id finds nothing, the id is another one.
  pub none_found :
      (j : Text) (s s' : D) → Stays s → db.document_first (has_doc_id j) s ≡ (ok none, s') → j ≢ id
  none_found j s s' h e same =
      let missing = laws.first_done (has_doc_id j) none s s' e id d h in
      let key = laws.row_key s id d h in
      let hit : text_eq d.doc_id j ≡ true = rw (key, same) (text_eq_refl id) in cc (missing, hit)

  pub save-Stays :
      (j : Text) (f : ℕ → Document → Document) → j ≢ id → Keeps Stays (db.document_save j f)
  save-Stays j f n = record { at = λ s h. rw (laws.save_other j id f s (λ e. n (sym e))) h }

  pub update-Stays :
      (j : Text) (f : ℕ → Document → Document) (g : ℕ → Document)
      → j ≢ id
      → Keeps Stays (db.document_update_or_create j f g)
  update-Stays j f g n = record {
    at = λ s h. rw (laws.update_or_create_other j id f g s (λ e. n (sym e))) h;
  }

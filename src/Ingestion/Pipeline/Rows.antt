-- ===== src/Ingestion/Pipeline/Rows.antt =====
-- Tenants, bots, and the queries for documents of apps/ingestion/pipeline.py.
use qdrant_database.Prelude.{ℕ, Bool, ◌&&◌, ◌||◌, not, true, false, none, Text, text_eq, ltb}
use qdrant_database.Errors.{Exc, integrity_error}
use qdrant_database.Exec.{Exec, raise, try_except}
use qdrant_database.Documents.Models.{
  Tenant, Bot, bot_save, Document, Status, active, deleted, Database,
}

module _ {D : Type 0} (db : Database D) where
  -- `except IntegrityError`: another request was first.
  unfoldable pub on_tenant_error : Text → Exc → Exec D Tenant
  on_tenant_error tenant_id integrity_error = db.tenant_get tenant_id
  on_tenant_error tenant_id e = raise e

  unfoldable pub get_or_create_tenant : Text → Exec D Tenant
  unfolding on_tenant_error
  get_or_create_tenant tenant_id =
      try_except (db.tenant_get_or_create tenant_id tenant_id) (on_tenant_error tenant_id)

  unfoldable pub on_bot_error : Tenant → Text → Exc → Exec D Bot
  on_bot_error tenant bot_id integrity_error = db.bot_get tenant bot_id
  on_bot_error tenant bot_id e = raise e

  unfoldable pub get_or_create_bot : Tenant → Text → Exec D Bot
  unfolding on_bot_error
  get_or_create_bot tenant bot_id =
      try_except (db.bot_get_or_create bot_save tenant bot_id bot_id) (on_bot_error tenant bot_id)

abbrev pub is_active : Status → Bool
is_active active = true
is_active _ = false

abbrev pub is_deleted : Status → Bool
is_deleted deleted = true
is_deleted _ = false

-- `Document.objects.filter(doc_id=doc_id)`
abbrev pub has_doc_id : Text → Document → Bool
has_doc_id doc_id d = text_eq d.doc_id doc_id

-- `existing.tenant_id != tenant_id or existing.bot_id != bot_id`
abbrev pub is_foreign : Text → Text → Document → Bool
is_foreign tenant_id bot_id d = not (text_eq d.tenant_id tenant_id) || not (text_eq d.bot_id bot_id)

-- `existing.chunk_count > 0 and existing.content_hash == incoming_hash`
abbrev pub is_unchanged : Text → Document → Bool
is_unchanged incoming_hash d = ltb 0 d.chunk_count && text_eq d.content_hash incoming_hash

-- The query for another document of the bot with the same content.
unfoldable pub is_content_match : Text → Text → Text → Text → Document → Bool
is_content_match tenant_id bot_id doc_id incoming_hash d =
    text_eq d.tenant_id tenant_id
    && text_eq d.bot_id bot_id
    && text_eq d.content_hash incoming_hash
    && is_active d.status
    && ltb 0 d.chunk_count
    && not (has_doc_id doc_id d)

-- `save(update_fields=["last_refreshed_at"])`
abbrev pub touched : ℕ → Document → Document
touched now d = record d { last_refreshed_at = now }

-- The three assignments of a deletion, with `last_refreshed_at`.
abbrev pub marked_deleted : ℕ → Document → Document
marked_deleted now d = record d {
  status = deleted;
  chunk_count = 0;
  error_message = none;
  last_refreshed_at = now;
}

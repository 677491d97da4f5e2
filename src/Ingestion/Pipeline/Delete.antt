-- ===== src/Ingestion/Pipeline/Delete.antt =====
-- `DeletePipeline.execute` of apps/ingestion/pipeline.py.
pub mod Effects
pub mod Points
use qdrant_database.Prelude.{ℕ, Bool, Option, none, some, [], ◌∷◌, Text, if◌then◌else◌}
use qdrant_database.Errors.{upload_error, document_not_found_error, text, Exc}
use qdrant_database.Exec.{◌>>=◌, ◌>>◌, Exec, pure, raise, try_except}
use qdrant_database.Ingestion.World.{World, Env, on_database, on_qdrant}
use qdrant_database.Ingestion.Pipeline.Rows.{has_doc_id, is_foreign, is_deleted, marked_deleted}
use qdrant_database.Ingestion.Pipeline.Locked.{upload_lock}
use qdrant_database.Ingestion.Pipeline.Upload.{as_write_error}
use qdrant_database.Documents.Models.{Document}
use qdrant_database.Qdrant.Collection.{delete_by_doc_id}

pub record DeleteResult : Type 0 where
  pub doc_id : Text
  pub chunks_deleted : ℕ
  pub was_already_deleted : Bool

abbrev pub not_found : Text → Text → Text → Exc
not_found tenant_id bot_id doc_id = upload_error (
    document_not_found_error
      (("tenant_id", text tenant_id) ∷ ("bot_id", text bot_id) ∷ ("doc_id", text doc_id) ∷ []))

module _ {D L Q : Type 0} (env : Env D L Q) where
  -- From the check of the row on: the points go, then the row is marked.
  unfoldable pub delete_existing : Text → Text → Text → Document → Exec (World D L Q) DeleteResult
  delete_existing tenant_id bot_id doc_id existing = do
    chunks_deleted ←
        try_except (on_qdrant (delete_by_doc_id env.client tenant_id bot_id doc_id))
          (as_write_error (("doc_id", text doc_id) ∷ []))
    on_database (env.db.document_save existing.doc_id marked_deleted)
    pure (record {
      doc_id = doc_id;
      chunks_deleted = chunks_deleted;
      was_already_deleted = is_deleted existing.status;
    })

  unfoldable pub delete_found :
      Text → Text → Text → Option Document → Exec (World D L Q) DeleteResult
  delete_found tenant_id bot_id doc_id none = raise (not_found tenant_id bot_id doc_id)
  delete_found tenant_id bot_id doc_id (some existing) =
      if is_foreign tenant_id bot_id existing
      then raise (not_found tenant_id bot_id doc_id)
      else delete_existing tenant_id bot_id doc_id existing

  unfoldable pub delete_document_body : Text → Text → Text → Exec (World D L Q) DeleteResult
  delete_document_body tenant_id bot_id doc_id = do
    existing ← on_database (env.db.document_first (has_doc_id doc_id))
    delete_found tenant_id bot_id doc_id existing

  -- `DeletePipeline.execute`
  unfoldable pub delete_document : Text → Text → Text → Exec (World D L Q) DeleteResult
  delete_document tenant_id bot_id doc_id =
      upload_lock env tenant_id bot_id doc_id (delete_document_body tenant_id bot_id doc_id)

-- ===== src/Ingestion/Pipeline/Upload.antt =====
-- `UploadPipeline.execute` of apps/ingestion/pipeline.py, in the steps of its body. The timers and
-- the log lines are not modelled.
pub mod Rules
pub mod Stored
pub mod Reports
pub mod Points
pub mod Effects
pub mod Again
pub mod Repeated
use qdrant_database.Prelude.{
  ℕ, Bool, true, false, Option, none, some, List, [], ◌∷◌, map, Text, is_empty, length, ltb,
  if◌then◌else◌,
}
use qdrant_database.Errors.{
  Exc, UploadError, upload_error, qdrant_error, qdrant_write_error, no_embeddable_content_error,
  document_too_large_error, embedder_error, text, number, Details,
}
use qdrant_database.Exec.{◌>>=◌, Exec, pure, raise, lift, try_except, raise_if, ◌>>◌}
use qdrant_database.Naming.{collection_name}
use qdrant_database.Ingestion.Embedder.{embed_passages}
use qdrant_database.Ingestion.World.{World, Env, on_database, on_qdrant}
use qdrant_database.Ingestion.Pipeline.Rows.{
  get_or_create_tenant, get_or_create_bot, has_doc_id, is_foreign, is_unchanged, is_content_match,
  touched,
}
use qdrant_database.Ingestion.Pipeline.Hashing.{incoming_hash}
use qdrant_database.Ingestion.Pipeline.Points.{flatten_from, build_points_from}
use qdrant_database.Ingestion.Pipeline.Locked.{upload_lock}
use qdrant_database.Documents.Models.{Bot, Document, active, UploadBody}
use qdrant_database.Qdrant.Client.{Point}
use qdrant_database.Qdrant.Collection.{get_or_create_collection, delete_by_doc_id}

abbrev pub max_chunks_per_doc : ℕ
max_chunks_per_doc = 5000

pub data UploadStatus : Type 0 where
  no_change replaced created : UploadStatus

pub record UploadResult : Type 0 where
  pub doc_id : Text
  pub chunks_created : ℕ
  pub items_processed : ℕ
  pub collection_name : Text
  pub status : UploadStatus

-- The path parameters of a request, and its validated body.
pub record UploadArgs : Type 0 where
  pub tenant_id : Text
  pub bot_id : Text
  pub doc_id : Text
  pub body : UploadBody

abbrev is_some : Option Document → Bool
is_some none = false
is_some (some _) = true

-- `except QdrantError as exc: raise QdrantWriteError(…)`
abbrev pub as_write_error : {S A : Type 0} → Details → Exc → Exec S A
as_write_error details (qdrant_error _) = raise (upload_error (qdrant_write_error details))
as_write_error details e = raise e

-- `except Exception as exc: raise …`
abbrev pub always_as : {S A : Type 0} → UploadError → Exc → Exec S A
always_as u e = raise (upload_error u)

abbrev collision : UploadArgs → Document → Exc
collision a existing = upload_error (
    qdrant_write_error (
      ("doc_id", text a.doc_id)
      ∷ ("expected_tenant", text a.tenant_id)
      ∷ ("found_tenant", text existing.tenant_id)
      ∷ []))

-- The defaults of `update_or_create`, on an existing row; `auto_now` writes the time.
abbrev pub saved : UploadArgs → Bot → Text → ℕ → ℕ → Document → Document
saved a bot hash chunk_count now d = record d {
  bot_ref = bot;
  tenant_id = a.tenant_id;
  bot_id = a.bot_id;
  source_type = a.body.source_type;
  source_filename = a.body.source_filename;
  source_url = a.body.source_url;
  content_hash = hash;
  chunk_count = chunk_count;
  item_count = length a.body.items;
  status = active;
  error_message = none;
  raw_payload = some a.body;
  last_refreshed_at = now;
}

-- The same on a new row.
abbrev pub fresh : UploadArgs → Bot → Text → ℕ → ℕ → Document
fresh a bot hash chunk_count now = record {
  doc_id = a.doc_id;
  bot_ref = bot;
  tenant_id = a.tenant_id;
  bot_id = a.bot_id;
  source_type = a.body.source_type;
  source_filename = a.body.source_filename;
  source_url = a.body.source_url;
  content_hash = hash;
  chunk_count = chunk_count;
  item_count = length a.body.items;
  status = active;
  error_message = none;
  raw_payload = some a.body;
  uploaded_at = now;
  last_refreshed_at = now;
}

module _ {D L Q : Type 0} (env : Env D L Q) where
  -- The refusal to overwrite a document of another tenant or bot.
  unfoldable pub check_owner : UploadArgs → Option Document → Exec (World D L Q) (Unit {0})
  check_owner a none = pure tt
  check_owner a (some existing) =
      raise_if (is_foreign a.tenant_id a.bot_id existing) (collision a existing)

  -- The answer for content that is there already, under the id to report, after the touch of its
  -- row.
  unfoldable pub no_change_result : UploadArgs → Text → Document → Exec (World D L Q) UploadResult
  no_change_result a doc_id d = do
    on_database (env.db.document_save d.doc_id touched)
    name ← lift (collection_name a.tenant_id a.bot_id)
    pure (record {
      doc_id = doc_id;
      chunks_created = d.chunk_count;
      items_processed = d.item_count;
      collection_name = name;
      status = no_change;
    })

  -- `get_or_create_collection` with its `except QdrantError`.
  unfoldable pub open_collection : UploadArgs → Exec (World D L Q) Text
  open_collection a =
      try_except (on_qdrant (get_or_create_collection env.client a.tenant_id a.bot_id))
        (as_write_error (("tenant_id", text a.tenant_id) ∷ ("bot_id", text a.bot_id) ∷ []))

  -- Chunks, the two checks on their number, embeddings, and points.
  unfoldable pub prepare_points : UploadArgs → Text → Exec (World D L Q) (List Point)
  prepare_points a hash = do
    let flat = flatten_from env a.body.source_type 0 a.body.items
    let n = length flat
    raise_if (is_empty flat) (
        upload_error
          (no_embeddable_content_error (("items_count", number (length a.body.items)) ∷ [])))
    raise_if (ltb max_chunks_per_doc n) (
        upload_error (
          document_too_large_error
            (("chunk_count", number n) ∷ ("max", number max_chunks_per_doc) ∷ [])))
    embeddings ←
        try_except (lift (embed_passages env.model (map (λ f. f.chunk.text) flat)))
          (always_as (embedder_error (("chunk_count", number n) ∷ [])))
    lift (
        build_points_from env a.tenant_id a.bot_id a.doc_id
          (record {
            type = a.body.source_type;
            filename = a.body.source_filename;
            url = a.body.source_url;
            content_hash = hash;
          })
          embeddings 0 flat)

  -- `if is_replace`: the old points go first.
  unfoldable pub delete_old : UploadArgs → Bool → Exec (World D L Q) (Unit {0})
  delete_old a is_replace =
      if is_replace
      then (try_except (on_qdrant (delete_by_doc_id env.client a.tenant_id a.bot_id a.doc_id))
            (as_write_error (("doc_id", text a.doc_id) ∷ []))
          >> pure tt)
      else pure tt

  unfoldable pub upsert_points : UploadArgs → Text → List Point → Exec (World D L Q) (Unit {0})
  upsert_points a name points = try_except (on_qdrant (env.client.upsert name points)) (
      always_as
        (qdrant_write_error (("doc_id", text a.doc_id) ∷ ("chunks", number (length points)) ∷ [])))

  -- Deleting the old points, writing the new ones, and saving the row.
  unfoldable pub store_points :
      UploadArgs → Bot → Text → Bool → Text → List Point → Exec (World D L Q) UploadResult
  store_points a bot hash is_replace name points = do
    delete_old a is_replace
    upsert_points a name points
    on_database (
        env.db.document_update_or_create a.doc_id (saved a bot hash (length points))
          (fresh a bot hash (length points)))
    pure (record {
      doc_id = a.doc_id;
      chunks_created = length points;
      items_processed = length a.body.items;
      collection_name = name;
      status = if is_replace then replaced else created;
    })

  unfoldable pub ingest : UploadArgs → Bot → Text → Bool → Exec (World D L Q) UploadResult
  ingest a bot hash is_replace = do
    name ← open_collection a
    points ← prepare_points a hash
    store_points a bot hash is_replace name points

  -- What follows the query for another document with the same content.
  unfoldable pub unless_matched :
      UploadArgs → Bot → Text → Bool → Option Document → Exec (World D L Q) UploadResult
  unless_matched a bot hash is_replace none = ingest a bot hash is_replace
  unless_matched a bot hash is_replace (some match) = no_change_result a match.doc_id match

  unfoldable pub match_content : UploadArgs → Bot → Text → Bool → Exec (World D L Q) UploadResult
  match_content a bot hash is_replace = do
    match ←
        on_database (env.db.document_first (is_content_match a.tenant_id a.bot_id a.doc_id hash))
    unless_matched a bot hash is_replace match

  -- What follows the owner check.
  unfoldable pub unless_unchanged :
      UploadArgs → Bot → Text → Option Document → Exec (World D L Q) UploadResult
  unless_unchanged a bot hash none = match_content a bot hash false
  unless_unchanged a bot hash (some existing) =
      if is_unchanged hash existing
      then no_change_result a a.doc_id existing
      else match_content a bot hash true

  -- The body of the `with upload_lock(…)`.
  unfoldable pub upload_body : UploadArgs → Exec (World D L Q) UploadResult
  upload_body a = do
    tenant ← on_database (get_or_create_tenant env.db a.tenant_id)
    bot ← on_database (get_or_create_bot env.db tenant a.bot_id)
    existing ← on_database (env.db.document_first (has_doc_id a.doc_id))
    check_owner a existing
    unless_unchanged a bot (incoming_hash env.sha256 a.body) existing

  -- `UploadPipeline.execute`
  unfoldable pub upload : UploadArgs → Exec (World D L Q) UploadResult
  upload a = upload_lock env a.tenant_id a.bot_id a.doc_id (upload_body a)

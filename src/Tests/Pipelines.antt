-- ===== src/Tests/Pipelines.antt =====
-- Runs of uploads and deletions on the services in memory.
use qdrant_database.Prelude.{
  ℕ, ◌≡◌, ◌≢◌, refl, ◌+◌, false, none, some, List, [], ◌∷◌, Text, codes, keep, text_eq,
  if◌then◌else◌, arith, strip,
}
use qdrant_database.Errors.{Exc, upload_error}
use qdrant_database.Exec.{ok, raised}
use qdrant_database.Naming.{pos, collection_name, joined_name, advisory_lock_key, unpack_keys}
use qdrant_database.Tenants.{validate_slug, slug_fullmatch, is_slug_char}
use qdrant_database.Documents.Models.{UploadBody, bot_save}
use qdrant_database.Ingestion.Locks.{
  LockKey, poll, poll_rounds, default_acquire_timeout, concurrent_upload,
}
use qdrant_database.Ingestion.Locks.Polling.{IsClock, poll_ends}
use qdrant_database.Ingestion.World.{World}
use qdrant_database.Ingestion.Pipeline.Rows.{
  marked_deleted, get_or_create_tenant, get_or_create_bot,
}
use qdrant_database.Ingestion.Pipeline.Hashing.{incoming_hash}
use qdrant_database.Ingestion.Pipeline.Isolation.Others.{pipelines_keep_foreign}
use qdrant_database.Ingestion.Pipeline.Locked.{acquire, upload_lock}
use qdrant_database.Ingestion.Pipeline.Refused.{pipelines_refused}
use qdrant_database.Ingestion.Pipeline.Locking.{pipelines_release_lock}
use qdrant_database.Ingestion.Pipeline.Upload.{
  UploadArgs, UploadResult, no_change, upload, upload_body, unless_unchanged, check_owner,
  no_change_result,
}
use qdrant_database.Ingestion.Pipeline.Upload.Rules.{Reported}
use qdrant_database.Ingestion.Pipeline.Upload.Reports.{upload_reports}
use qdrant_database.Ingestion.Pipeline.Delete.{
  DeleteResult, delete_document, delete_document_body, delete_found, delete_existing,
}
use qdrant_database.Ingestion.Pipeline.Delete.Effects.{Deleted, delete_document_done}
use qdrant_database.Qdrant.Collection.{doc_selector, delete_by_doc_id, delete_body}
use qdrant_database.Qdrant.Client.{Point, text}
use qdrant_database.Qdrant.Retry.{with_retry, retry}
use qdrant_database.Qdrant.Collection.Deletion.{delete_by_doc_id_lem}
use qdrant_database.Qdrant.Collection.Laws.{of_doc, not_of_doc}
use qdrant_database.Tests.Memory.{
  Table, Server, server, env, world, row, document, acme, help, other_tenant, doc_1, doc_2,
  zero_digest, locks,
}
use qdrant_database.Tests.Memory.Tables.{tables_laws}
use qdrant_database.Tests.Memory.Server.{server_laws}

abbrev body : UploadBody
body = record {
  doc_id = some doc_1;
  source_type = codes "text";
  source_filename = none;
  source_url = none;
  content_hash = some (codes "abc");
  items = record { content = help; section_path = []; page_number = none; item_index = none } ∷ [];
}

abbrev to : Text → UploadArgs
to doc = record { tenant_id = acme; bot_id = help; doc_id = doc; body = body }

-- The upload and the deletion are for the id of the other tenant's document.
foreign_example :
    (row (upload env (to doc_2) world).1.database doc_2 ≡ some (document other_tenant doc_2))
    × (row (delete_document env acme help doc_2 world).1.database doc_2
        ≡ some (document other_tenant doc_2))
unfolding tables_laws
foreign_example =
    pipelines_keep_foreign env tables_laws (to doc_2) doc_2 doc_2 (document other_tenant doc_2)
      world refl refl

abbrev unchanged : UploadResult
unchanged = record {
  doc_id = doc_1;
  chunks_created = 2;
  items_processed = 1;
  collection_name = joined_name acme help;
  status = no_change;
}

abbrev World' : Type 0
World' = World Table (List LockKey) Server

-- The table after the upload of content that is there.
abbrev touched_world : World'
touched_world = record world { database = document acme doc_1 ∷ world.database }

run_unchanged : upload env (to doc_1) world ≡ (ok unchanged, touched_world)
unfolding upload upload_lock acquire poll upload_body get_or_create_tenant get_or_create_bot
    unless_unchanged check_owner no_change_result collection_name validate_slug slug_fullmatch
    is_slug_char bot_save incoming_hash strip advisory_lock_key unpack_keys
run_unchanged = refl

reports_example :
    Reported env tables_laws (to doc_1) unchanged touched_world.database touched_world.qdrant
reports_example =
    upload_reports env tables_laws (to doc_1) world touched_world unchanged run_unchanged

acme_key : advisory_lock_key zero_digest acme help doc_1 ≡ ok (pos 0, pos 0)
unfolding advisory_lock_key unpack_keys validate_slug slug_fullmatch is_slug_char
acme_key = refl

acme-acquire : acquire env acme help doc_1 (pos 0, pos 0) [] ≡ (ok tt, (pos 0, pos 0) ∷ [])
unfolding acquire poll
acme-acquire = refl

lock_example :
    ((upload env (to doc_1) world).1.locks
      ≡ (env.advisory.unlock (pos 0, pos 0) ((pos 0, pos 0) ∷ [])).1)
    × ((delete_document env acme help doc_1 world).1.locks
        ≡ (env.advisory.unlock (pos 0, pos 0) ((pos 0, pos 0) ∷ [])).1)
lock_example =
    pipelines_release_lock env (to doc_1) (pos 0, pos 0) world ((pos 0, pos 0) ∷ []) acme_key
      acme-acquire

-- A world in which somebody holds a lock.
abbrev busy : World'
busy = record world { locks = (pos 1, pos 1) ∷ [] }

abbrev late : Exc
late = upload_error (concurrent_upload acme help doc_1)

abbrev deletion : DeleteResult
deletion = record { doc_id = doc_1; chunks_deleted = 0; was_already_deleted = false }

abbrev deleted_world : World'
deleted_world = record world { database = marked_deleted 0 (document acme doc_1) ∷ world.database }

run_delete : delete_document env acme help doc_1 world ≡ (ok deletion, deleted_world)
unfolding delete_document upload_lock acquire poll delete_document_body delete_found delete_existing
    delete_by_doc_id with_retry retry delete_body collection_name validate_slug slug_fullmatch
    is_slug_char advisory_lock_key unpack_keys
run_delete = refl

named : collection_name acme help ≡ ok (joined_name acme help)
unfolding collection_name validate_slug slug_fullmatch is_slug_char
named = refl

delete_example :
    Deleted env tables_laws server_laws acme help doc_1
      (joined_name acme help)
      (some (document acme doc_1))
      deletion
      deleted_world.database
      deleted_world.qdrant
unfolding tables_laws
delete_example =
    delete_document_done env tables_laws server_laws acme help doc_1 (joined_name acme help) world
      deleted_world deletion named run_delete

abbrev point : Text → Point
point doc = record {
  id = doc;
  dense = [];
  bm25 = record { indices = []; values = [] };
  colbert = [];
  payload = ("doc_id", text doc) ∷ [];
}

abbrev stored : Server
stored n = if text_eq n (joined_name acme help) then point doc_1 ∷ point doc_2 ∷ [] else []

abbrev emptied : Server
emptied = (server.delete (joined_name acme help) (doc_selector doc_1) stored).1

run_points : delete_by_doc_id server acme help doc_1 stored ≡ (ok 1, emptied)
unfolding delete_by_doc_id with_retry retry delete_body collection_name validate_slug slug_fullmatch
    is_slug_char
run_points = refl

points_example :
    (keep (of_doc doc_1) (emptied (joined_name acme help)) ≡ [])
    × (keep (not_of_doc doc_1) (emptied (joined_name acme help))
        ≡ keep (not_of_doc doc_1) (stored (joined_name acme help)))
unfolding server_laws
points_example =
    delete_by_doc_id_lem server server_laws acme help doc_1 (joined_name acme help) stored emptied 1
      named run_points

clock_is : IsClock locks env.clock 0
clock_is = record { begins = omega arith; advances = λ n. omega arith }

poll_example :
    poll locks env.clock (0 + default_acquire_timeout) poll_rounds 0 (pos 0, pos 0) late busy.locks
    ≢ none
poll_example = poll_ends locks env.clock 0 clock_is (pos 0, pos 0) late busy.locks

refused_example :
    (m : ℕ) × (upload env (to doc_1) busy ≡ (raised late, busy))
    × (delete_document env acme help doc_1 busy ≡ (raised late, busy))
refused_example =
    pipelines_refused env clock_is (to doc_1) (pos 0, pos 0) busy (λ n. busy.locks) acme_key refl
      (λ n. refl)

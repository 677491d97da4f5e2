-- ===== src/Tests/Storing.antt =====
-- Runs that store documents on the services in memory.
use qdrant_database.Prelude.{
  ◌≡◌, refl, none, some, List, [], ◌∷◌, Text, codes, strip, rstrip, lstrip, is_space,
}
use qdrant_database.Exec.{ok, Exec}
use qdrant_database.Naming.{collection_name, joined_name, advisory_lock_key, unpack_keys}
use qdrant_database.Tenants.{validate_slug, slug_fullmatch, is_slug_char}
use qdrant_database.Documents.Models.{UploadBody, bot_save}
use qdrant_database.Ingestion.Chunker.{
  chunk_item, raw_chunks, config_get, chunk_loop, add_raw, truncate_to_max_tokens, merge_or_append,
  last?, or_whole, chunk_of, shrink, replace_last,
}
use qdrant_database.Ingestion.Embedder.{
  embed_passages, count_tokens, is_blank, sparse_to_qdrant, colbert_to_qdrant,
}
use qdrant_database.Ingestion.Payload.{build_payload, build_chunk_id}
use qdrant_database.Ingestion.Locks.{LockKey, poll}
use qdrant_database.Ingestion.World.{World}
use qdrant_database.Ingestion.Pipeline.Rows.{
  get_or_create_tenant, get_or_create_bot, is_content_match,
}
use qdrant_database.Ingestion.Pipeline.Hashing.{incoming_hash}
use qdrant_database.Ingestion.Pipeline.Points.{flatten_from, build_points_from, build_point}
use qdrant_database.Ingestion.Pipeline.Locked.{acquire, upload_lock}
use qdrant_database.Ingestion.Pipeline.Upload.{
  UploadArgs, UploadResult, no_change, created, upload, upload_body, unless_unchanged, check_owner,
  no_change_result, match_content, unless_matched, ingest, open_collection, prepare_points,
  store_points, delete_old, upsert_points,
}
use qdrant_database.Ingestion.Pipeline.Upload.Points.{Effect, flat}
use qdrant_database.Ingestion.Pipeline.Upload.Effects.{upload_stores_points}
use qdrant_database.Ingestion.Pipeline.Upload.Repeated.{upload_twice}
use qdrant_database.Ingestion.Pipeline.Points.Distinct.{IsApart}
use qdrant_database.Ingestion.Pipeline.Delete.{
  delete_document, delete_document_body, delete_found, delete_existing,
}
use qdrant_database.Ingestion.Shelf.{
  Op, put, remove, Event, uploaded, removed, replay, run_ops, run_op,
}
use qdrant_database.Ingestion.Shelf.Refines.{shelf, run_ops_refines}
use qdrant_database.Qdrant.Collection.{
  delete_by_doc_id, delete_body, get_or_create_collection, get_or_create_body,
  create_collection_for_bot, create_body, create_indexes, verify_schema,
}
use qdrant_database.Qdrant.Retry.{with_retry, retry}
use qdrant_database.Tests.Memory.{Table, Server, env, world, acme, help}
use qdrant_database.Tests.Memory.Tables.{tables_laws}
use qdrant_database.Tests.Memory.Server.{server_laws}

abbrev doc_3 : Text
doc_3 = codes "doc-3"

-- A body with content that is in the table under no id.
abbrev new_body : UploadBody
new_body = record {
  doc_id = some doc_3;
  source_type = codes "text";
  source_filename = none;
  source_url = none;
  content_hash = some (codes "def");
  items = record { content = help; section_path = []; page_number = none; item_index = none } ∷ [];
}

abbrev new_args : UploadArgs
new_args = record { tenant_id = acme; bot_id = help; doc_id = doc_3; body = new_body }

abbrev storing : UploadResult
storing = record {
  doc_id = doc_3;
  chunks_created = 1;
  items_processed = 1;
  collection_name = joined_name acme help;
  status = created;
}

abbrev again : UploadResult
again = record storing { status = no_change }

abbrev after : World Table (List LockKey) Server
after = (upload env new_args world).1

-- Names all that an upload computes with.
upload_in_memory : UploadArgs → Exec (World Table (List LockKey) Server) UploadResult
unfolding upload upload_lock acquire poll upload_body get_or_create_tenant get_or_create_bot
    unless_unchanged check_owner no_change_result collection_name validate_slug slug_fullmatch
    is_slug_char bot_save incoming_hash strip rstrip lstrip is_space advisory_lock_key unpack_keys
    match_content unless_matched ingest open_collection prepare_points store_points delete_old
    upsert_points get_or_create_collection get_or_create_body create_collection_for_bot create_body
    create_indexes verify_schema with_retry retry flatten_from build_points_from build_point
    embed_passages count_tokens is_blank sparse_to_qdrant colbert_to_qdrant build_payload
    build_chunk_id is_content_match chunk_item raw_chunks config_get chunk_loop add_raw
    truncate_to_max_tokens merge_or_append last? or_whole chunk_of shrink replace_last
upload_in_memory = upload env

run_created : upload env new_args world ≡ (ok storing, after)
unfolding upload_in_memory
run_created = refl

run_again : upload env new_args after ≡ (ok again, (upload env new_args after).1)
unfolding upload_in_memory
run_again = refl

named : collection_name acme help ≡ ok (joined_name acme help)
unfolding collection_name validate_slug slug_fullmatch is_slug_char
named = refl

one_chunk : IsApart env.uuid5 doc_3 (flat env new_args)
unfolding flatten_from chunk_item raw_chunks config_get chunk_loop add_raw truncate_to_max_tokens
    merge_or_append last? or_whole chunk_of count_tokens strip rstrip lstrip is_space shrink
one_chunk = (tt, tt)

stores_example :
    Effect env new_args
      (incoming_hash env.sha256 new_body)
      (server_laws.points world.qdrant (joined_name acme help))
      created
      1
      (server_laws.points after.qdrant (joined_name acme help))
stores_example =
    upload_stores_points env server_laws new_args (joined_name acme help) world after storing named
      one_chunk run_created

twice_example : again.status ≡ no_change
twice_example =
    upload_twice env tables_laws new_args world after (upload env new_args after).1 storing again
      run_created run_again

abbrev ops : List Op
ops = put doc_3 new_body ∷ remove doc_3 ∷ []

abbrev events : List Event
events = uploaded new_args created ∷ removed doc_3 ∷ []

abbrev end : World Table (List LockKey) Server
end = (run_ops env acme help ops world).1

run_both : run_ops env acme help ops world ≡ (ok events, end)
unfolding upload_in_memory run_ops run_op delete_document delete_document_body delete_found
    delete_existing delete_by_doc_id delete_body
run_both = refl

shelf_example :
    shelf env server_laws acme help (joined_name acme help) named end doc_3
    ≡ replay env events (shelf env server_laws acme help (joined_name acme help) named world) doc_3
shelf_example =
    run_ops_refines env server_laws acme help (joined_name acme help) named ops world end events
      (one_chunk, tt) run_both doc_3

-- ===== src/Qdrant/Collection.antt =====
-- The collection of a bot: create, verify, delete a document's points, drop
-- (apps/qdrant_core/collection.py). `get_qdrant_client()` is the interface `q`.
pub mod Laws
pub mod Deletion
pub mod Existing
pub mod Interrupted
pub mod Kept
use qdrant_database.Prelude.{
  ℕ, ◌==◌, Bool, true, false, List, [], ◌∷◌, String, Text, is_empty, if◌then◌else◌,
}
use qdrant_database.Errors.{
  Exc, qdrant_error, collection_schema_mismatch_error, qdrant_operation_error, unexpected_response,
}
use qdrant_database.Exec.{◌>>=◌, Exec, pure, raise, lift, try_except, ◌>>◌}
use qdrant_database.Naming.{collection_name}
use qdrant_database.Qdrant.Client.{QdrantClient, Filter, match_value, PayloadSchema}
use qdrant_database.Qdrant.Client
use qdrant_database.Qdrant.Retry.{with_retry}
use qdrant_database.Qdrant.Schema.{expected_params, payload_indexes, compare_schema}

-- `Filter(must=[FieldCondition(key="doc_id", match=MatchValue(value=doc_id))])`
abbrev pub doc_selector : Text → Filter
doc_selector doc_id = record { key = "doc_id"; match = match_value (Client.text doc_id) } ∷ []

module _ {Q : Type 0} (q : QdrantClient Q) where
  unfoldable pub create_indexes : Text → List (String × PayloadSchema) → Exec Q (Unit {0})
  create_indexes name [] = pure tt
  create_indexes name ((field_name, schema) ∷ rest) =
      q.create_payload_index name field_name schema >> create_indexes name rest

  unfoldable pub create_body : Text → Text → Exec Q Text
  create_body tenant_id bot_id = do
    name ← lift (collection_name tenant_id bot_id)
    q.create_collection name expected_params
    create_indexes name payload_indexes
    pure name

  unfoldable pub create_collection_for_bot : Text → Text → Exec Q Text
  create_collection_for_bot tenant_id bot_id = with_retry (create_body tenant_id bot_id)

  -- `diff = _compare_schema(client, name)`, and the raise where it is not empty.
  unfoldable pub verify_schema : Text → Exec Q Text
  verify_schema name = do
    actual ← q.get_collection name
    if is_empty (compare_schema actual)
        then pure name
        else raise (qdrant_error (collection_schema_mismatch_error (compare_schema actual)))

  -- `except UnexpectedResponse`: a conflict means that another worker was first.
  unfoldable pub on_create_error : Text → Exc → Exec Q Text
  on_create_error name (unexpected_response status_code) =
      if status_code == 409 then verify_schema name else raise (qdrant_error qdrant_operation_error)
  on_create_error name e = raise e

  unfoldable pub get_or_create_body : Text → Text → Exec Q Text
  get_or_create_body tenant_id bot_id = do
    name ← lift (collection_name tenant_id bot_id)
    there ← q.collection_exists name
    if there
        then verify_schema name
        else try_except (create_collection_for_bot tenant_id bot_id) (on_create_error name)

  unfoldable pub get_or_create_collection : Text → Text → Exec Q Text
  get_or_create_collection tenant_id bot_id = with_retry (get_or_create_body tenant_id bot_id)

  unfoldable pub delete_body : Text → Text → Text → Exec Q ℕ
  delete_body tenant_id bot_id doc_id = do
    name ← lift (collection_name tenant_id bot_id)
    there ← q.collection_exists name
    if there
        then (do
          count_before ← q.count name (doc_selector doc_id)
          q.delete name (doc_selector doc_id)
          pure count_before)
        else pure 0

  unfoldable pub delete_by_doc_id : Text → Text → Text → Exec Q ℕ
  delete_by_doc_id tenant_id bot_id doc_id = with_retry (delete_body tenant_id bot_id doc_id)

  unfoldable pub drop_body : Text → Text → Exec Q Bool
  drop_body tenant_id bot_id = do
    name ← lift (collection_name tenant_id bot_id)
    there ← q.collection_exists name
    if there then (q.delete_collection name >> pure true) else pure false

  unfoldable pub drop_collection : Text → Text → Exec Q Bool
  drop_collection tenant_id bot_id = with_retry (drop_body tenant_id bot_id)

-- ===== src/Errors.antt =====
-- The exceptions of the program as one type of values: apps/documents/exceptions.py,
-- apps/qdrant_core/exceptions.py, the two declared elsewhere (InvalidIdentifierError,
-- CollectionNotFoundError), and the foreign ones that the code tells apart.
-- The texts of messages are not modelled; the `details` of an error are.
use qdrant_database.Prelude.{ℕ, String, Text, codes, List}

pub data Detail : Type 0 where
  text : Text → Detail
  number : ℕ → Detail

abbrev pub Details : Type 0
Details = List (String × Detail)

-- The subclasses of `UploadError`; only one of them carries more than `details`.
pub data UploadError : Type 0 where
  invalid_payload_error : Details → UploadError
  no_embeddable_content_error : Details → UploadError
  qdrant_write_error : Details → UploadError
  embedder_error : Details → UploadError
  concurrent_upload_error : ℕ → Details → UploadError
  document_too_large_error : Details → UploadError
  document_not_found_error : Details → UploadError

unfoldable pub http_status : UploadError → ℕ
http_status (invalid_payload_error _) = 400
http_status (no_embeddable_content_error _) = 422
http_status (qdrant_write_error _) = 500
http_status (embedder_error _) = 500
http_status (concurrent_upload_error _ _) = 409
http_status (document_too_large_error _) = 422
http_status (document_not_found_error _) = 404

unfoldable pub error_code : UploadError → String
error_code (invalid_payload_error _) = "invalid_payload"
error_code (no_embeddable_content_error _) = "no_embeddable_content"
error_code (qdrant_write_error _) = "qdrant_write_failed"
error_code (embedder_error _) = "embedder_failed"
error_code (concurrent_upload_error _ _) = "concurrent_upload"
error_code (document_too_large_error _) = "too_many_chunks"
error_code (document_not_found_error _) = "document_not_found"

unfoldable pub error_details : UploadError → Details
error_details (invalid_payload_error d) = d
error_details (no_embeddable_content_error d) = d
error_details (qdrant_write_error d) = d
error_details (embedder_error d) = d
error_details (concurrent_upload_error _ d) = d
error_details (document_too_large_error d) = d
error_details (document_not_found_error d) = d

-- The subclasses of `QdrantError`. A schema mismatch carries the keys of its diff.
pub data QdrantError : Type 0 where
  qdrant_connection_error : QdrantError
  collection_schema_mismatch_error : List String → QdrantError
  qdrant_operation_error : QdrantError
  collection_not_found_error : QdrantError

-- `grpc.StatusCode`
pub data StatusCode : Type 0 where
  ok_status cancelled unknown invalid_argument deadline_exceeded not_found : StatusCode
  already_exists permission_denied resource_exhausted failed_precondition aborted : StatusCode
  out_of_range unimplemented internal unavailable data_loss unauthenticated : StatusCode

-- An exception on its way up. `other` is an exception of any further class, by its class name.
pub data Exc : Type 0 where
  upload_error : UploadError → Exc
  qdrant_error : QdrantError → Exc
  invalid_identifier_error : Exc
  value_error integrity_error does_not_exist : Exc
  rpc_error : StatusCode → Exc
  unexpected_response : ℕ → Exc
  other : Text → Exc

upload_error_name : UploadError → String
upload_error_name (invalid_payload_error _) = "InvalidPayloadError"
upload_error_name (no_embeddable_content_error _) = "NoEmbeddableContentError"
upload_error_name (qdrant_write_error _) = "QdrantWriteError"
upload_error_name (embedder_error _) = "EmbedderError"
upload_error_name (concurrent_upload_error _ _) = "ConcurrentUploadError"
upload_error_name (document_too_large_error _) = "DocumentTooLargeError"
upload_error_name (document_not_found_error _) = "DocumentNotFoundError"

qdrant_error_name : QdrantError → String
qdrant_error_name qdrant_connection_error = "QdrantConnectionError"
qdrant_error_name (collection_schema_mismatch_error _) = "CollectionSchemaMismatchError"
qdrant_error_name qdrant_operation_error = "QdrantOperationError"
qdrant_error_name collection_not_found_error = "CollectionNotFoundError"

-- `type(exc).__name__`
unfoldable pub type_name : Exc → Text
unfolding upload_error_name qdrant_error_name
type_name (upload_error e) = codes (upload_error_name e)
type_name (qdrant_error e) = codes (qdrant_error_name e)
type_name invalid_identifier_error = codes "InvalidIdentifierError"
type_name value_error = codes "ValueError"
type_name integrity_error = codes "IntegrityError"
type_name does_not_exist = codes "DoesNotExist"
type_name (rpc_error _) = codes "RpcError"
type_name (unexpected_response _) = codes "UnexpectedResponse"
type_name (other name) = name

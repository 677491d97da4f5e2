-- ===== src/Documents/Models.antt =====
-- apps/tenants/models.py and apps/documents/models.py, with Django's ORM over Postgres as an
-- interface. Timestamps are numbers; only their writes matter here.
pub mod Laws
use qdrant_database.Prelude.{ℕ, Bool, Option, List, Text}
use qdrant_database.Exec.{Outcome, ok, Exec, and_then}
use qdrant_database.Naming.{collection_name}

pub record Tenant : Type 0 where
  pub tenant_id : Text
  pub name : Text

pub record Bot : Type 0 where
  pub tenant_id : Text
  pub bot_id : Text
  pub name : Text
  pub collection_name : Text

-- `Bot.save` up to `super().save`: the row as it is written.
unfoldable pub bot_save : Bot → Outcome Bot
bot_save b =
    and_then (collection_name b.tenant_id b.bot_id) λ name. ok (record b { collection_name = name })

-- `STATUS_CHOICES`
pub data Status : Type 0 where
  pending active deleted failed : Status

-- One item of a validated upload body.
pub record UploadItem : Type 0 where
  pub content : Text
  pub section_path : List Text
  pub page_number : Option ℕ
  pub item_index : Option ℕ

-- `serializer.validated_data` of an upload.
pub record UploadBody : Type 0 where
  pub doc_id : Option Text
  pub source_type : Text
  pub source_filename : Option Text
  pub source_url : Option Text
  pub content_hash : Option Text
  pub items : List UploadItem

pub record Document : Type 0 where
  pub doc_id : Text
  pub bot_ref : Bot
  pub tenant_id : Text
  pub bot_id : Text
  pub source_type : Text
  pub source_filename : Option Text
  pub source_url : Option Text
  pub content_hash : Text
  pub chunk_count : ℕ
  pub item_count : ℕ
  pub status : Status
  pub error_message : Option Text
  pub raw_payload : Option UploadBody
  pub uploaded_at : ℕ
  pub last_refreshed_at : ℕ

-- The ORM calls of the program over the state `D` of the database. A query is given by the test
-- that a row must pass; a save by what it does to the row, given the time that `auto_now` writes.
pub record Database (D : Type 0) : Type 0 where
  pub tenant_get_or_create : Text → Text → Exec D Tenant
  pub tenant_get : Text → Exec D Tenant
  pub bot_get_or_create : (Bot → Outcome Bot) → Tenant → Text → Text → Exec D Bot
  pub bot_get : Tenant → Text → Exec D Bot
  pub document_first : (Document → Bool) → Exec D (Option Document)
  pub document_save : Text → (ℕ → Document → Document) → Exec D (Unit {0})
  pub document_update_or_create :
      Text → (ℕ → Document → Document) → (ℕ → Document) → Exec D (Unit {0})

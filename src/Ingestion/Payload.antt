-- ===== src/Ingestion/Payload.antt =====
-- apps/ingestion/payload.py: chunk ids and the payload of a point.
pub mod ChunkIds
pub mod Filters
pub mod Indexed
use qdrant_database.Prelude.{ℕ, true, Option, none, some, List, [], ◌∷◌, ◌++◌, Text, codes, decimal}
use qdrant_database.Ingestion.Chunker.{Chunk}
use qdrant_database.Qdrant.Client.{Value, null, number, bool, texts, Payload}
use qdrant_database.Qdrant.Client

pub record ScrapedSource : Type 0 where
  pub type : Text
  pub filename : Option Text
  pub url : Option Text
  pub content_hash : Text

pub record ScrapedItem : Type 0 where
  pub item_index : ℕ
  pub section_path : List Text
  pub page_number : Option ℕ

unfoldable pub build_chunk_id : Text → ℕ → ℕ → Text
build_chunk_id doc_id item_index chunk_index =
    doc_id ++ (codes "__i" ++ (decimal item_index ++ (codes "__c" ++ decimal chunk_index)))

abbrev pub optional_text : Option Text → Value
optional_text none = null
optional_text (some t) = Client.text t

abbrev pub optional_number : Option ℕ → Value
optional_number none = null
optional_number (some n) = number n

-- `uploaded_at` is the text of `now.isoformat()`.
unfoldable pub build_payload :
    Chunk → Text → Text → Text → ScrapedItem → ScrapedSource → Text → Payload
build_payload chunk tenant_id bot_id doc_id item source uploaded_at =
    ("tenant_id", Client.text tenant_id)
    ∷ ("bot_id", Client.text bot_id)
    ∷ ("doc_id", Client.text doc_id)
    ∷ ("chunk_id", Client.text (build_chunk_id doc_id item.item_index chunk.chunk_index))
    ∷ ("version", number 1)
    ∷ ("is_active", bool true)
    ∷ ("uploaded_at", Client.text uploaded_at)
    ∷ ("source_type", Client.text source.type)
    ∷ ("source_filename", optional_text source.filename)
    ∷ ("source_url", optional_text source.url)
    ∷ ("source_item_index", number item.item_index)
    ∷ ("source_content_hash", Client.text source.content_hash)
    ∷ ("section_path", texts item.section_path)
    ∷ ("page_number", optional_number item.page_number)
    ∷ ("text", Client.text chunk.text)
    ∷ ("char_count", number chunk.char_count)
    ∷ ("token_count", number chunk.token_count)
    ∷ []

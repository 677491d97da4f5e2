-- ===== src/Tests/Chunking.antt =====
-- Runs of chunking, truncation and payloads.
use qdrant_database.Ingestion.Payload.Indexed.{FitsIndex, UsesIndex, indexes_fit}
use qdrant_database.Qdrant.Schema.{payload_indexes}
use qdrant_database.Qdrant.Collection.{doc_selector}
use qdrant_database.Prelude.{◌≡◌, ◌↔◌, ℕ, ◌≤◌, none, some, [], ◌∷◌, Text, codes, length, All}
use qdrant_database.Ingestion.Chunker.{Chunk, chunk_item, truncate_to_max_tokens, max_chunk_tokens}
use qdrant_database.Ingestion.Chunker.Truncation.{StartsWith, truncate_to_max_tokens_lem}
use qdrant_database.Ingestion.Chunker.Chunks.{IsChunking, chunk_item-IsChunking}
use qdrant_database.Ingestion.Embedder.{count_tokens}
use qdrant_database.Ingestion.Payload.{build_payload, ScrapedItem, ScrapedSource}
use qdrant_database.Ingestion.Payload.Filters.{HasKey, NoTexts, NoText, build_filter_keys_iff}
use qdrant_database.Qdrant.Search.{build_filter}
use qdrant_database.Tests.Memory.{acme, help, doc_1, env}

chunks_example : IsChunking length (chunk_item length env.split_text help (codes "text"))
chunks_example = chunk_item-IsChunking length env.split_text help (codes "text")

-- A tokenizer that counts 700 tokens in each character.
abbrev wordy : Text → ℕ
wordy t = 700

truncate_example :
    (count_tokens wordy (truncate_to_max_tokens wordy help) ≤ max_chunk_tokens)
    × StartsWith help (truncate_to_max_tokens wordy help)
    × (truncate_to_max_tokens wordy (truncate_to_max_tokens wordy help)
        ≡ truncate_to_max_tokens wordy help)
truncate_example = truncate_to_max_tokens_lem wordy help

abbrev chunk : Chunk
chunk = record { text = help; chunk_index = 0; char_count = 4; token_count = 4 }

abbrev item : ScrapedItem
item = record { item_index = 0; section_path = []; page_number = none }

abbrev source : ScrapedSource
source = record { type = codes "text"; filename = none; url = none; content_hash = codes "abc" }

filters_example :
    All
      (HasKey (build_payload chunk acme help doc_1 item source []))
      (build_filter none (some (codes "news" ∷ [])) none)
    ↔ (NoTexts (some (codes "news" ∷ [])) × NoText none)
filters_example =
    build_filter_keys_iff chunk acme help doc_1 item source [] none (some (codes "news" ∷ [])) none

indexes_example :
    All (FitsIndex (build_payload chunk acme help doc_1 item source [])) payload_indexes
    × All UsesIndex (build_filter none (some (codes "news" ∷ [])) none)
    × All UsesIndex (doc_selector doc_1)
indexes_example =
    indexes_fit chunk acme help doc_1 item source [] none (some (codes "news" ∷ [])) none

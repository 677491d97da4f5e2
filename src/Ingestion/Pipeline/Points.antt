-- ===== src/Ingestion/Pipeline/Points.antt =====
-- Chunking all items of a body and building the points: the pure middle of `UploadPipeline.execute`.
pub mod Built
pub mod Ordered
pub mod Distinct
use qdrant_database.Prelude.{ℕ, suc, none, some, List, [], ◌∷◌, ◌++◌, map, Text, codes, get_elem?}
use qdrant_database.Errors.{other}
use qdrant_database.Exec.{Outcome, ok, raised, and_then}
use qdrant_database.Ingestion.Embedder.{Embeddings, sparse_to_qdrant, colbert_to_qdrant}
use qdrant_database.Ingestion.Chunker.{Chunk, chunk_item}
use qdrant_database.Ingestion.Payload.{ScrapedItem, ScrapedSource, build_payload, build_chunk_id}
use qdrant_database.Ingestion.World.{Env}
use qdrant_database.Documents.Models.{UploadItem}
use qdrant_database.Qdrant.Client.{Point}

-- `(auto_idx, item_data, chunk)`
pub record FlatChunk : Type 0 where
  pub auto_idx : ℕ
  pub item : UploadItem
  pub chunk : Chunk

abbrev pub tag : ℕ → UploadItem → Chunk → FlatChunk
tag auto_idx item chunk = record { auto_idx = auto_idx; item = item; chunk = chunk }

-- `xs[i]`
abbrev pub at : {A : Type 0} → List A → ℕ → Outcome A
at xs i = elim (get_elem? xs i) [ none ↦ raised (other (codes "IndexError")) | some x ↦ ok x ]

module _ {D L Q : Type 0} (env : Env D L Q) where
  -- The loop over `enumerate(items_data)`, from an index on.
  unfoldable pub flatten_from : Text → ℕ → List UploadItem → List FlatChunk
  flatten_from source_type auto_idx [] = []
  flatten_from source_type auto_idx (item ∷ items) =
      map (tag auto_idx item) (chunk_item env.tokenizer env.split_text item.content source_type)
      ++ flatten_from source_type (suc auto_idx) items

  -- The point of the i-th flat chunk.
  unfoldable pub build_point :
      Text → Text → Text → ScrapedSource → Embeddings → ℕ → FlatChunk → Outcome Point
  build_point tenant_id bot_id doc_id source embeddings i f =
      let item : ScrapedItem = record {
        item_index = f.auto_idx;
        section_path = f.item.section_path;
        page_number = f.item.page_number;
      } in
      and_then (at embeddings.sparse i) λ sparse. and_then (sparse_to_qdrant sparse) λ sparse_qd.
        and_then (at embeddings.dense i) λ dense. and_then (at embeddings.colbert i) λ colbert.
          ok (record {
            id = env.uuid5 (build_chunk_id doc_id f.auto_idx f.chunk.chunk_index);
            dense = dense;
            bm25 = sparse_qd;
            colbert = colbert_to_qdrant colbert;
            payload = build_payload f.chunk tenant_id bot_id doc_id item source (env.now i);
          })

  -- The loop over `enumerate(flat)`, from an index on.
  unfoldable pub build_points_from :
      Text → Text → Text → ScrapedSource → Embeddings → ℕ → List FlatChunk → Outcome (List Point)
  build_points_from tenant_id bot_id doc_id source embeddings i [] = ok []
  build_points_from tenant_id bot_id doc_id source embeddings i (f ∷ fs) =
      let rest = build_points_from tenant_id bot_id doc_id source embeddings (suc i) fs in
      and_then (build_point tenant_id bot_id doc_id source embeddings i f)
        λ p. and_then rest λ ps. ok (p ∷ ps)

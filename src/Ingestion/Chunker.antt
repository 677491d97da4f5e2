-- ===== src/Ingestion/Chunker.antt =====
-- apps/ingestion/chunker.py. The tokenizer and langchain's splitter are parameters.
pub mod Truncation
pub mod Chunks
use qdrant_database.Prelude.{
  ℕ, zero, suc, ◌*◌, ◌/◌, not, ◌&&◌, Option, none, some, List, [], ◌∷◌, ◌++◌, map, Text, codes,
  text_eq, is_empty, strip, rstrip, take, length, keep, leb, ltb, if◌then◌else◌,
}
use qdrant_database.Ingestion.Embedder.{count_tokens}

-- One value of `CHUNK_CONFIG`; the overlap in hundredths.
pub record ChunkConfig : Type 0 where
  pub size : ℕ
  pub overlap_pct : ℕ

abbrev config_of : ℕ → ℕ → ChunkConfig
config_of s o = record { size = s; overlap_pct = o }

abbrev pub chunk_config : List (Text × ChunkConfig)
chunk_config =
    (codes "pdf", config_of 500 15)
    ∷ (codes "docx", config_of 500 15)
    ∷ (codes "url", config_of 400 10)
    ∷ (codes "html", config_of 400 10)
    ∷ (codes "csv", config_of 200 10)
    ∷ (codes "faq", config_of 200 10)
    ∷ (codes "image", config_of 300 10)
    ∷ (codes "text", config_of 200 15)
    ∷ []

abbrev pub default_chunk_config : ChunkConfig
default_chunk_config = config_of 400 10

abbrev pub min_chunk_chars : ℕ
min_chunk_chars = 50

abbrev pub max_chunk_tokens : ℕ
max_chunk_tokens = 600

abbrev pub chars_per_token : ℕ
chars_per_token = 4

-- `d.get(key, default)`
unfoldable pub config_get : List (Text × ChunkConfig) → Text → ChunkConfig → ChunkConfig
config_get [] key default = default
config_get ((k, c) ∷ rest) key default = if text_eq k key then c else config_get rest key default

pub record Chunk : Type 0 where
  pub text : Text
  pub chunk_index : ℕ
  pub char_count : ℕ
  pub token_count : ℕ

-- `chunks[-1]`
unfoldable pub last? : List Chunk → Option Chunk
last? [] = none
last? (c ∷ []) = some c
last? (c ∷ d ∷ cs) = last? (d ∷ cs)

-- `chunks[-1] = q`
unfoldable pub replace_last : List Chunk → Chunk → List Chunk
replace_last [] q = []
replace_last (c ∷ []) q = q ∷ []
replace_last (c ∷ d ∷ cs) q = c ∷ replace_last (d ∷ cs) q

module _ (tokenizer : Text → ℕ) where
  -- The `while` loop of `_truncate_to_max_tokens`; `int(n * 0.95)` is `n * 95 // 100` at every n.
  unfoldable pub shrink : ℕ → Text → Text
  shrink zero truncated = truncated
  shrink (suc fuel) truncated =
      let shorter = shrink fuel (rstrip (take (length truncated * 95 / 100) truncated)) in
      if ltb max_chunk_tokens (count_tokens tokenizer truncated) && not (is_empty truncated)
      then shorter
      else truncated

  unfoldable pub truncate_to_max_tokens : Text → Text
  truncate_to_max_tokens text =
      let n = count_tokens tokenizer text in
      let start = rstrip (take (length text * max_chunk_tokens / n) text) in
      if is_empty text
      then text
      else if leb n max_chunk_tokens
      then text
      else shrink (length start) start

  -- `Chunk(text=…, chunk_index=…, char_count=len(text), token_count=count_tokens(text))`
  unfoldable pub chunk_of : Text → ℕ → Chunk
  chunk_of text index = record {
    text = text;
    chunk_index = index;
    char_count = length text;
    token_count = count_tokens tokenizer text;
  }

  -- Joins a short text to the chunk before it, where the sum is not too long.
  unfoldable pub merge_or_append : List Chunk → Text → Option Chunk → List Chunk
  unfolding chunk_of
  merge_or_append chunks text none = chunks ++ chunk_of text (length chunks) ∷ []
  merge_or_append chunks text (some prev) =
      let merged = prev.text ++ (codes " " ++ text) in
      if ltb (length text) min_chunk_chars && leb (count_tokens tokenizer merged) max_chunk_tokens
      then replace_last chunks (chunk_of merged prev.chunk_index)
      else chunks ++ chunk_of text (length chunks) ∷ []

  -- One round of the loop over `raw_chunks`.
  unfoldable pub add_raw : List Chunk → Text → List Chunk
  add_raw chunks raw_text =
      let text = truncate_to_max_tokens raw_text in
      if is_empty text then chunks else merge_or_append chunks text (last? chunks)

  unfoldable pub chunk_loop : List Chunk → List Text → List Chunk
  chunk_loop chunks [] = chunks
  chunk_loop chunks (raw_text ∷ rest) = chunk_loop (add_raw chunks raw_text) rest

  -- The fallback where no chunk survived.
  unfoldable pub or_whole : List Chunk → Text → List Chunk
  or_whole [] content =
      if is_empty (strip content)
      then []
      else chunk_of (truncate_to_max_tokens (strip content)) 0 ∷ []
  or_whole (c ∷ cs) content = c ∷ cs

  module _ (split_text : ℕ → ℕ → Text → List Text) where
    -- The stripped pieces of the splitter that are not blank.
    unfoldable pub raw_chunks : ChunkConfig → Text → List Text
    raw_chunks config content =
        let overlap_tokens = config.size * config.overlap_pct / 100 in
        keep (λ c. not (is_empty c))
          (map strip
            (split_text (config.size * chars_per_token) (overlap_tokens * chars_per_token) content))

    unfoldable pub chunk_item : Text → Text → List Chunk
    chunk_item content source_type =
        if is_empty content
        then []
        else if is_empty (strip content)
        then []
        else or_whole
            (chunk_loop []
              (raw_chunks (config_get chunk_config source_type default_chunk_config) content))
            content

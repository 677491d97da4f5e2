-- ===== src/Ingestion/Embedder.antt =====
-- apps/ingestion/embedder.py. The BGE-M3 model and its tokenizer are parameters.
-- A float is never computed with: it stands as the bit pattern of its IEEE double.
pub mod Sparse
pub mod Loading
use qdrant_database.Prelude.{
  ℕ, ◌+◌, ◌*◌, ◌-◌, Bool, true, false, ◌&&◌, List, [], ◌∷◌, Text, is_empty, strip, leb,
  if◌then◌else◌, codes,
}
use qdrant_database.Errors.{value_error, other}
use qdrant_database.Exec.{Outcome, ok, raised, and_then}

abbrev pub Float : Type 0
Float = ℕ

abbrev pub dense_dim : ℕ
dense_dim = 1024

-- What `model.encode` returns: `dense_vecs`, `lexical_weights` and `colbert_vecs`.
pub record Embeddings : Type 0 where
  pub dense : List (List Float)
  pub sparse : List (List (Text × Float))
  pub colbert : List (List (List Float))

pub record QueryEmbedding : Type 0 where
  pub dense : List Float
  pub sparse : List (Text × Float)
  pub colbert : List (List Float)

-- `len(tokenizer.encode(text, add_special_tokens=False))` is the parameter.
unfoldable pub count_tokens : (Text → ℕ) → Text → ℕ
count_tokens tokenizer text = if is_empty text then 0 else tokenizer text

-- `not t.strip()`
unfoldable pub is_blank : Text → Bool
is_blank t = is_empty (strip t)

any_blank : List Text → Bool
any_blank [] = false
any_blank (t ∷ ts) = if is_blank t then true else any_blank ts

module _ (model : List Text → Outcome Embeddings) where
  unfoldable pub embed_passages : List Text → Outcome Embeddings
  unfolding any_blank
  embed_passages [] = raised value_error
  embed_passages (t ∷ ts) = if any_blank (t ∷ ts) then raised value_error else model (t ∷ ts)

-- `xs[0]`
unfoldable pub first : {A : Type 0} → List A → Outcome A
first [] = raised (other (codes "IndexError"))
first (x ∷ xs) = ok x

module _ (model : List Text → Outcome Embeddings) where
  unfoldable pub embed_query : Text → Outcome QueryEmbedding
  unfolding first
  embed_query text =
      if is_blank text
      then raised value_error
      else and_then (embed_passages model (text ∷ [])) λ out. and_then (first out.dense) λ dense.
        and_then (first out.sparse) λ sparse.
          and_then (first out.colbert)
            λ colbert. ok (record { dense = dense; sparse = sparse; colbert = colbert })

-- `int(token_id)` for the decimal digits that the model emits; other texts raise. (The signs,
-- spaces and underscores that `int` also accepts are taken for errors.)
int_from : ℕ → Text → Outcome ℕ
int_from acc [] = ok acc
int_from acc (c ∷ s) =
    let more = int_from (acc * 10 + (c - b'0')) s in
    if leb b'0' c && leb c b'9' then more else raised value_error

unfoldable pub parse_int : Text → Outcome ℕ
unfolding int_from
parse_int [] = raised value_error
parse_int (c ∷ s) = int_from 0 (c ∷ s)

pub record SparseVector : Type 0 where
  pub indices : List ℕ
  pub values : List Float

-- The two appends of one round of the loop.
cons_pair : ℕ → Float → SparseVector → SparseVector
cons_pair i v r = record { indices = i ∷ r.indices; values = v ∷ r.values }

unfoldable pub sparse_to_qdrant : List (Text × Float) → Outcome SparseVector
unfolding cons_pair
sparse_to_qdrant [] = ok (record { indices = []; values = [] })
sparse_to_qdrant ((token_id, weight) ∷ rest) =
    and_then (parse_int token_id)
      λ i. and_then (sparse_to_qdrant rest) λ r. ok (cons_pair i weight r)

copy_row : List Float → List Float
copy_row [] = []
copy_row (x ∷ row) = x ∷ copy_row row

-- `[list(row) for row in colbert_vec]`, a copy; so is `tolist`.
unfoldable pub colbert_to_qdrant : List (List Float) → List (List Float)
unfolding copy_row
colbert_to_qdrant [] = []
colbert_to_qdrant (row ∷ rows) = copy_row row ∷ colbert_to_qdrant rows

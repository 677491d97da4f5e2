-- ===== src/Qdrant/Schema/Comparison.antt =====
-- Which collections pass the comparison.
use qdrant_database.Prelude.{◌≡◌, ◌↔◌, refl, Option, none, some, List, [], ◌∷◌, ◌++◌, arith}
use qdrant_database.Qdrant.Client.{
  cosine, max_sim, idf, VectorParams, SparseVectorParams, CollectionParams, lookup,
  MultiVectorComparator,
}
use qdrant_database.Qdrant.Schema.{
  compare_dense, compare_colbert, compare_sparse, compare_schema, dense_vector_name,
  colbert_vector_name, sparse_vector_name, dense_vector_size, colbert_vector_size,
}

-- What the comparison asks for, and no more.
pub record Passes (p : CollectionParams) : Type 0 where
  pub dense : VectorParams
  pub dense_there : lookup dense_vector_name p.vectors ≡ some dense
  pub dense_size : dense.size ≡ dense_vector_size
  pub dense_cosine : dense.distance ≡ cosine
  pub colbert : VectorParams
  pub colbert_there : lookup colbert_vector_name p.vectors ≡ some colbert
  pub colbert_size : colbert.size ≡ colbert_vector_size
  pub comparator : MultiVectorComparator
  pub colbert_multi : colbert.multivector_config ≡ some comparator
  pub sparse : SparseVectorParams
  pub sparse_there : lookup sparse_vector_name p.sparse_vectors ≡ some sparse
  pub sparse_idf : sparse.modifier ≡ some idf

append-nil_parts : {A : Type 0} (xs ys : List A) → xs ++ ys ≡ [] → (xs ≡ []) × (ys ≡ [])
append-nil_parts [] ys h = (refl, h)
append-nil_parts (x ∷ xs) ys h = cc

dense_ok :
    (o : Option VectorParams)
    → compare_dense o ≡ []
    → (v : VectorParams) × (o ≡ some v) × (v.size ≡ dense_vector_size) × (v.distance ≡ cosine)
unfolding compare_dense
dense_ok none h = cc
dense_ok (some v) h = (v, refl, ground arith, ground arith)

colbert_ok :
    (o : Option VectorParams)
    → compare_colbert o ≡ []
    → (v : VectorParams) × (c : MultiVectorComparator) × (o ≡ some v)
      × (v.size ≡ colbert_vector_size)
      × (v.multivector_config ≡ some c)
unfolding compare_colbert
colbert_ok none h = cc
colbert_ok (some v) h = (v, max_sim, refl, ground arith, ground arith)

sparse_ok :
    (o : Option SparseVectorParams)
    → compare_sparse o ≡ []
    → (v : SparseVectorParams) × (o ≡ some v) × (v.modifier ≡ some idf)
unfolding compare_sparse
sparse_ok none h = cc
sparse_ok (some v) h = (v, refl, ground arith)

Passes-of_nil : (p : CollectionParams) → compare_schema p ≡ [] → Passes p
unfolding compare_schema
Passes-of_nil p h =
    let (hd, rest) = append-nil_parts (compare_dense (lookup dense_vector_name p.vectors)) _ h in
    let (hc, hs) =
      append-nil_parts (compare_colbert (lookup colbert_vector_name p.vectors)) _ rest in
    let (d, there, size, cos) = dense_ok _ hd in
    let (c, k, c_there, c_size, multi) = colbert_ok _ hc in
    let (s, s_there, modifier) = sparse_ok _ hs in
    record {
      dense = d;
      dense_there = there;
      dense_size = size;
      dense_cosine = cos;
      colbert = c;
      colbert_there = c_there;
      colbert_size = c_size;
      comparator = k;
      colbert_multi = multi;
      sparse = s;
      sparse_there = s_there;
      sparse_idf = modifier;
    }

nil_of_Passes : (p : CollectionParams) → Passes p → compare_schema p ≡ []
unfolding compare_schema
nil_of_Passes p h =
    rw (h.dense_there, h.colbert_there, h.sparse_there)
      (rw (h.dense_size, h.dense_cosine, h.colbert_size, h.colbert_multi, h.sparse_idf) refl)

-- The comparison finds no difference exactly if the collection has a dense vector of 1024 by
-- cosine, multivectors of 1024 for ColBERT and a sparse vector with IDF. The distance of the
-- ColBERT vectors and the HNSW settings play no part in it.
pub compare_schema-nil_iff : (p : CollectionParams) → (compare_schema p ≡ []) ↔ Passes p
compare_schema-nil_iff p = (Passes-of_nil p, nil_of_Passes p)

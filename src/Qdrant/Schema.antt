-- ===== src/Qdrant/Schema.antt =====
-- The locked schema of a collection, and its comparison with what the server has:
-- apps/qdrant_core/collection.py.
pub mod Comparison
use qdrant_database.Prelude.{
  ℕ, Bool, true, false, Option, none, some, List, [], ◌∷◌, ◌++◌, String, ◌==◌, if◌then◌else◌,
}
use qdrant_database.Qdrant.Client.{
  Distance, cosine, max_sim, Modifier, idf, VectorParams, SparseVectorParams, CollectionParams,
  PayloadSchema, keyword, bool_index, tenant_keyword, lookup, MultiVectorComparator,
}

abbrev pub dense_vector_name : String
dense_vector_name = "dense"

abbrev pub dense_vector_size : ℕ
dense_vector_size = 1024

abbrev pub sparse_vector_name : String
sparse_vector_name = "bm25"

abbrev pub colbert_vector_name : String
colbert_vector_name = "colbert"

abbrev pub colbert_vector_size : ℕ
colbert_vector_size = 1024

abbrev pub payload_indexes : List (String × PayloadSchema)
payload_indexes =
    ("doc_id", keyword)
    ∷ ("source_type", keyword)
    ∷ ("source_url", keyword)
    ∷ ("language", keyword)
    ∷ ("tags", keyword)
    ∷ ("category", keyword)
    ∷ ("is_active", bool_index)
    ∷ ("tenant_id", tenant_keyword)
    ∷ []

-- `_expected_vectors_config`
abbrev pub expected_vectors_config : List (String × VectorParams)
expected_vectors_config =
    (
      dense_vector_name,
      record {
        size = dense_vector_size;
        distance = cosine;
        multivector_config = none;
        hnsw_config = some (record { m = some 16; ef_construct = some 128 });
      },
    )
    ∷ (
      colbert_vector_name,
      record {
        size = colbert_vector_size;
        distance = cosine;
        multivector_config = some max_sim;
        hnsw_config = some (record { m = some 0; ef_construct = none });
      },
    )
    ∷ []

-- `_expected_sparse_vectors_config`
abbrev pub expected_sparse_vectors_config : List (String × SparseVectorParams)
expected_sparse_vectors_config =
    (sparse_vector_name, record { on_disk = false; modifier = some idf }) ∷ []

abbrev pub expected_params : CollectionParams
expected_params = record {
  vectors = expected_vectors_config;
  sparse_vectors = expected_sparse_vectors_config;
}

abbrev is_cosine : Distance → Bool
is_cosine cosine = true
is_cosine _ = false

abbrev is_idf : Option Modifier → Bool
is_idf (some idf) = true
is_idf _ = false

abbrev is_some : Option MultiVectorComparator → Bool
is_some none = false
is_some (some _) = true

-- The keys that `diff` gets for the dense vector.
unfoldable pub compare_dense : Option VectorParams → List String
compare_dense none = "dense.size" ∷ []
compare_dense (some v) =
    (if v.size == dense_vector_size then [] else "dense.size" ∷ [])
    ++ (if is_cosine v.distance then [] else "dense.distance" ∷ [])

-- For the ColBERT vectors.
unfoldable pub compare_colbert : Option VectorParams → List String
compare_colbert none = "colbert.size" ∷ []
compare_colbert (some v) =
    (if v.size == colbert_vector_size then [] else "colbert.size" ∷ [])
    ++ (if is_some v.multivector_config then [] else "colbert.multivector" ∷ [])

-- For the sparse vectors.
unfoldable pub compare_sparse : Option SparseVectorParams → List String
compare_sparse none = "sparse.bm25" ∷ []
compare_sparse (some sp) = if is_idf sp.modifier then [] else "sparse.bm25.modifier" ∷ []

-- The keys of the dict that `_compare_schema` returns, in order.
unfoldable pub compare_schema : CollectionParams → List String
unfolding compare_dense compare_colbert compare_sparse
compare_schema actual =
    compare_dense (lookup dense_vector_name actual.vectors)
    ++ (compare_colbert (lookup colbert_vector_name actual.vectors)
        ++ compare_sparse (lookup sparse_vector_name actual.sparse_vectors))

-- ===== src/Ingestion/Embedder/Sparse.antt =====
-- The conversions of vectors lose and invent nothing.
use qdrant_database.Prelude.{ℕ, ◌≡◌, refl, List, [], ◌∷◌, Text}
use qdrant_database.Exec.{ok}
use qdrant_database.Exec.Outcomes.{ok-injective, and_then-eq-ok}
use qdrant_database.Ingestion.Embedder.{Float, SparseVector, parse_int, sparse_to_qdrant, cons_pair}

-- The two lists of a sparse vector hold the entries of the dict, side by side and in its order.
abbrev pub SameEntries : List (Text × Float) → List ℕ → List Float → Type 0
SameEntries [] [] [] = Unit
SameEntries [] _ _ = ⊥
SameEntries ((t, w) ∷ rest) (i ∷ is) (v ∷ vs) =
    (parse_int t ≡ ok i) × (w ≡ v) × SameEntries rest is vs
SameEntries ((t, w) ∷ rest) _ _ = ⊥

-- A conversion that succeeds keeps every entry: the i-th index is the i-th token id as a number,
-- and the i-th value is its weight.
pub sparse_to_qdrant-SameEntries :
    (entries : List (Text × Float)) (v : SparseVector)
    → sparse_to_qdrant entries ≡ ok v
    → SameEntries entries v.indices v.values
unfolding sparse_to_qdrant cons_pair
sparse_to_qdrant-SameEntries [] v h = rw (← ok-injective h) tt
sparse_to_qdrant-SameEntries ((t, w) ∷ rest) v h =
    let (i, number, h') = and_then-eq-ok (parse_int t) _ h in
    let (r, converted, done) = and_then-eq-ok (sparse_to_qdrant rest) _ h' in
    rw (← ok-injective done) (number, refl, sparse_to_qdrant-SameEntries rest r converted)

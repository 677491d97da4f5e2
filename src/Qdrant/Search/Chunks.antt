-- ===== src/Qdrant/Search/Chunks.antt =====
-- What the chunks of a search result hold.
use package.text.Mathlib.Text.{◌==◌ as str_eq}
use package.text.Mathlib.TextEquality.{eq_iff}
use qdrant_database.Prelude.{
  ◌≡◌, refl, Option, none, some, List, [], ◌∷◌, map, String, arith, if◌then◌else◌,
}
use qdrant_database.Qdrant.Client.{Payload, Value, float, ScoredPoint, lookup}
use qdrant_database.Qdrant.Search.{set_key, chunk_dict}

-- `p.payload or {}`
abbrev pub payload_of : Option Payload → Payload
payload_of none = []
payload_of (some d) = d

-- The chunk has the score of the point at `score`, and at every other key what the point has there.
abbrev pub IsChunkOf : ScoredPoint → Payload → Type 0
IsChunkOf p chunk =
    (k : String)
    → lookup k chunk
      ≡ (if str_eq "score" k then some (float p.score) else lookup k (payload_of p.payload))

-- One chunk for each point, in their order.
abbrev pub AreChunksOf : List ScoredPoint → List Payload → Type 0
AreChunksOf [] [] = Unit
AreChunksOf (p ∷ ps) (c ∷ cs) = IsChunkOf p c × AreChunksOf ps cs
AreChunksOf ps cs = ⊥

lookup-set_key :
    (key k : String) (v : Value) (d : Payload)
    → lookup k (set_key key v d) ≡ (if str_eq key k then some v else lookup k d)
unfolding set_key
lookup-set_key key k v [] = refl
lookup-set_key key k v ((j, w) ∷ d) =
    ground (arith, eq_iff j key, eq_iff j k, eq_iff key k, lookup-set_key key k v d)

chunk_dict-IsChunkOf : (p : ScoredPoint) → IsChunkOf p (chunk_dict p)
unfolding chunk_dict
chunk_dict-IsChunkOf p k = go p.payload
  where
    go :
        (o : Option Payload)
        → lookup k (elim o [
          | none ↦ set_key "score" (float p.score) []
          | some d ↦ set_key "score" (float p.score) d
        ])
          ≡ (if str_eq "score" k then some (float p.score) else lookup k (payload_of o))
    go none = lookup-set_key "score" k (float p.score) []
    go (some d) = lookup-set_key "score" k (float p.score) d

pub map-AreChunksOf : (ps : List ScoredPoint) → AreChunksOf ps (map chunk_dict ps)
map-AreChunksOf [] = tt
map-AreChunksOf (p ∷ ps) = (chunk_dict-IsChunkOf p, map-AreChunksOf ps)

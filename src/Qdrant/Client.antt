-- ===== src/Qdrant/Client.antt =====
-- The part of `qdrant_client` that the program calls (apps/qdrant_core/client.py builds the client
-- object): the request and reply types, and the client as an interface over the server's state.
use package.text.Mathlib.Text.{◌==◌ as str_eq}
use qdrant_database.Prelude.{
  ℕ, Bool, Option, none, some, List, [], ◌∷◌, String, Text, if◌then◌else◌,
}
use qdrant_database.Exec.{Exec}
use qdrant_database.Ingestion.Embedder.{Float, SparseVector}

-- A JSON value of a payload.
pub data Value : Type 0 where
  null : Value
  text : Text → Value
  number : ℕ → Value
  bool : Bool → Value
  texts : List Text → Value
  float : Float → Value

-- A Python dict with string keys, in insertion order.
abbrev pub Payload : Type 0
Payload = List (String × Value)

abbrev pub lookup : {A : Type 0} → String → List (String × A) → Option A
lookup k [] = none
lookup k ((j, v) ∷ d) = if str_eq j k then some v else lookup k d

-- `PointStruct`
pub record Point : Type 0 where
  pub id : Text
  pub dense : List Float
  pub bm25 : SparseVector
  pub colbert : List (List Float)
  pub payload : Payload

-- `MatchValue` and `MatchAny`
pub data Match : Type 0 where
  match_value : Value → Match
  match_any : List Text → Match

pub record FieldCondition : Type 0 where
  pub key : String
  pub match : Match

-- `Filter(must=[…])`
abbrev pub Filter : Type 0
Filter = List FieldCondition

pub data Distance : Type 0 where
  cosine euclid dot manhattan : Distance

pub data MultiVectorComparator : Type 0 where
  max_sim : MultiVectorComparator

pub data Modifier : Type 0 where
  idf no_modifier : Modifier

pub record HnswConfigDiff : Type 0 where
  pub m : Option ℕ
  pub ef_construct : Option ℕ

pub record VectorParams : Type 0 where
  pub size : ℕ
  pub distance : Distance
  pub multivector_config : Option MultiVectorComparator
  pub hnsw_config : Option HnswConfigDiff

pub record SparseVectorParams : Type 0 where
  pub on_disk : Bool
  pub modifier : Option Modifier

-- `info.config.params`, for collections with named vectors; an absent dict is an empty one.
pub record CollectionParams : Type 0 where
  pub vectors : List (String × VectorParams)
  pub sparse_vectors : List (String × SparseVectorParams)

pub data PayloadSchema : Type 0 where
  keyword bool_index tenant_keyword : PayloadSchema

-- `Prefetch` over a vector, and one over prefetches that fuses them by RRF.
pub data PrefetchQuery : Type 0 where
  by_dense : List Float → PrefetchQuery
  by_sparse : SparseVector → PrefetchQuery

pub record Prefetch : Type 0 where
  pub query : PrefetchQuery
  pub using : String
  pub limit : ℕ
  pub filter : Filter

pub record FusionPrefetch : Type 0 where
  pub prefetch : List Prefetch
  pub limit : ℕ

-- The arguments of `query_points`.
pub record QueryPoints : Type 0 where
  pub collection : Text
  pub prefetch : List FusionPrefetch
  pub query : List (List Float)
  pub using : String
  pub limit : ℕ
  pub score_threshold : Float
  pub with_payload : Bool
  pub with_vectors : Bool
  pub query_filter : Filter

-- A hit; its payload may be absent.
pub record ScoredPoint : Type 0 where
  pub payload : Option Payload
  pub score : Float

-- The client's methods, over the state `Q` of the server.
pub record QdrantClient (Q : Type 0) : Type 0 where
  pub collection_exists : Text → Exec Q Bool
  pub get_collection : Text → Exec Q CollectionParams
  pub create_collection : Text → CollectionParams → Exec Q (Unit {0})
  pub create_payload_index : Text → String → PayloadSchema → Exec Q (Unit {0})
  pub delete_collection : Text → Exec Q (Unit {0})
  pub count : Text → Filter → Exec Q ℕ
  pub delete : Text → Filter → Exec Q (Unit {0})
  pub upsert : Text → List Point → Exec Q (Unit {0})
  pub query_points : QueryPoints → Exec Q (List ScoredPoint)
  pub get_collections : Exec Q (Unit {0})

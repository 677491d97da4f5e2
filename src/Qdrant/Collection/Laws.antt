-- ===== src/Qdrant/Collection/Laws.antt =====
-- What the program relies on of a Qdrant server, stated of the points that a collection holds.
use qdrant_database.Prelude.{
  ℕ, ◌≡◌, ◌≢◌, Bool, false, not, Option, some, List, [], ◌∷◌, ◌++◌, String, Text, text_eq, length,
  keep, contains, map,
}
use qdrant_database.Exec.{ok}
use qdrant_database.Qdrant.Client.{
  QdrantClient, Point, Value, CollectionParams, PayloadSchema, lookup,
}
use qdrant_database.Qdrant.Client
use qdrant_database.Qdrant.Collection.{doc_selector}

abbrev pub is_text : Text → Option Value → Bool
is_text d (some (Client.text v)) = text_eq v d
is_text d _ = false

-- The payload's `doc_id` is the text `d`.
abbrev pub of_doc : Text → Point → Bool
of_doc d p = is_text d (lookup "doc_id" p.payload)

abbrev pub not_of_doc : Text → Point → Bool
not_of_doc d p = not (of_doc d p)

abbrev pub point_id : Point → Text
point_id p = p.id

abbrev pub has_id_of : List Point → Point → Bool
has_id_of new p = contains p.id (map point_id new)

-- The ids of `new` do not include the point's.
abbrev pub with_new_id : List Point → Point → Bool
with_new_id new p = not (has_id_of new p)

-- No two points share an id.
abbrev pub DistinctIds : List Point → Type 0
DistinctIds [] = Unit
DistinctIds (p ∷ ps) = (has_id_of ps p ≡ false) × DistinctIds ps

-- `points s n` lists the points of the collection `n`, in some order that the server keeps; it is
-- empty where there is no such collection. A call that raises may or may not have taken effect.
pub record QdrantLaws {Q : Type 0} (q : QdrantClient Q) : Type 0 where
  pub points : Q → Text → List Point
  pub exists_keeps : (n m : Text) (s : Q) → points (q.collection_exists n s).1 m ≡ points s m
  pub exists_false :
      (n : Text) (s s' : Q) → q.collection_exists n s ≡ (ok false, s') → points s' n ≡ []
  pub get_keeps : (n m : Text) (s : Q) → points (q.get_collection n s).1 m ≡ points s m
  pub create_keeps :
      (n m : Text) (c : CollectionParams) (s : Q)
      → points (q.create_collection n c s).1 m ≡ points s m
  pub index_keeps :
      (n m : Text) (f : String) (k : PayloadSchema) (s : Q)
      → points (q.create_payload_index n f k s).1 m ≡ points s m
  pub count_keeps : (n d m : Text) (s : Q) → points (q.count n (doc_selector d) s).1 m ≡ points s m
  pub count_done :
      (n d : Text) (s s' : Q) (k : ℕ)
      → q.count n (doc_selector d) s ≡ (ok k, s')
      → k ≡ length (keep (of_doc d) (points s n))
  pub delete_other :
      (n d m : Text) (s : Q) → m ≢ n → points (q.delete n (doc_selector d) s).1 m ≡ points s m
  pub delete_rest :
      (n d : Text) (s : Q)
      → keep (not_of_doc d) (points (q.delete n (doc_selector d) s).1 n)
        ≡ keep (not_of_doc d) (points s n)
  pub delete_done :
      (n d : Text) (s s' : Q)
      → q.delete n (doc_selector d) s ≡ (ok tt, s')
      → keep (of_doc d) (points s' n) ≡ []
  pub upsert_other :
      (n m : Text) (new : List Point) (s : Q) → m ≢ n → points (q.upsert n new s).1 m ≡ points s m
  pub upsert_done :
      (n : Text) (new : List Point) (s s' : Q)
      → DistinctIds new
      → q.upsert n new s ≡ (ok tt, s')
      → points s' n ≡ keep (with_new_id new) (points s n) ++ new

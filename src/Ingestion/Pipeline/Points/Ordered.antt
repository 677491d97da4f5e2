-- ===== src/Ingestion/Pipeline/Points/Ordered.antt =====
-- The chunks of a body stand in the order of their items and of their places in them.
use qdrant_database.Prelude.{
  ℕ, suc, ◌≤◌, ◌<◌, ◌≡◌, refl, List, [], ◌∷◌, ◌++◌, map, Text, All, All-append, arith, ◌⊎◌, inl,
  inr,
}
use qdrant_database.Documents.Models.{UploadItem}
use qdrant_database.Ingestion.World.{Env}
use qdrant_database.Ingestion.Chunker.{Chunk}
use qdrant_database.Ingestion.Chunker.Chunks.{Numbered, chunk_item-IsChunking}
use qdrant_database.Ingestion.Pipeline.Points.{FlatChunk, tag, flatten_from}

-- `g` comes after `f`: it is of a later item, or of the same item with a larger index.
abbrev pub Before : FlatChunk → FlatChunk → Type 0
Before f g =
    (f.auto_idx < g.auto_idx)
    ⊎ ((f.auto_idx ≡ g.auto_idx) × (f.chunk.chunk_index < g.chunk.chunk_index))

abbrev pub IsOrdered : List FlatChunk → Type 0
IsOrdered [] = Unit
IsOrdered (f ∷ fs) = All (Before f) fs × IsOrdered fs

-- The chunks of items from `i` on.
abbrev From : ℕ → FlatChunk → Type 0
From i f = i ≤ f.auto_idx

abbrev Of : ℕ → FlatChunk → Type 0
Of i f = f.auto_idx ≡ i

From-Before :
    (i : ℕ) (f : FlatChunk) (gs : List FlatChunk)
    → f.auto_idx < i
    → All (From i) gs
    → All (Before f) gs
From-Before i f [] h k = tt
From-Before i f (g ∷ gs) h k = (inl (omega arith), From-Before i f gs h k.1)

IsOrdered-append :
    (i : ℕ) (fs gs : List FlatChunk)
    → IsOrdered fs
    → All (Of i) fs
    → IsOrdered gs
    → All (From (suc i)) gs
    → IsOrdered (fs ++ gs)
IsOrdered-append i [] gs h k l m = l
IsOrdered-append i (f ∷ fs) gs h k l m = (
  All-append (Before f) fs gs h.0 (From-Before (suc i) f gs (omega arith) m),
  IsOrdered-append i fs gs h.1 k.1 l m,
)

Of-From : (i : ℕ) (fs : List FlatChunk) → All (Of i) fs → All (From i) fs
Of-From i [] h = tt
Of-From i (f ∷ fs) h = (omega arith, Of-From i fs h.1)

From-weaken : (i : ℕ) (fs : List FlatChunk) → All (From (suc i)) fs → All (From i) fs
From-weaken i [] h = tt
From-weaken i (f ∷ fs) h = (omega arith, From-weaken i fs h.1)

module _ (i : ℕ) (item : UploadItem) where
  tagged-Of : (cs : List Chunk) → All (Of i) (map (tag i item) cs)
  tagged-Of [] = tt
  tagged-Of (c ∷ cs) = (refl, tagged-Of cs)

  tagged-Before :
      (k l : ℕ) (c : Chunk) (cs : List Chunk)
      → c.chunk_index ≡ k
      → k < l
      → Numbered l cs
      → All (Before (tag i item c)) (map (tag i item) cs)
  tagged-Before k l c [] e h n = tt
  tagged-Before k l c (d ∷ cs) e h n =
      (inr (refl, omega arith), tagged-Before k (suc l) c cs e (omega arith) n.1)

  tagged-IsOrdered : (k : ℕ) (cs : List Chunk) → Numbered k cs → IsOrdered (map (tag i item) cs)
  tagged-IsOrdered k [] n = tt
  tagged-IsOrdered k (c ∷ cs) n =
      (tagged-Before k (suc k) c cs n.0 (omega arith) n.1, tagged-IsOrdered (suc k) cs n.1)

module _ {D L Q : Type 0} (env : Env D L Q) (source_type : Text) where
  flatten-From :
      (i : ℕ) (items : List UploadItem) → All (From i) (flatten_from env source_type i items)
  unfolding flatten_from
  flatten-From i [] = tt
  flatten-From i (item ∷ items) =
      All-append (From i) _ _ (Of-From i _ (tagged-Of i item _))
        (From-weaken i _ (flatten-From (suc i) items))

  -- The chunks of all items are in order.
  pub flatten-IsOrdered :
      (i : ℕ) (items : List UploadItem) → IsOrdered (flatten_from env source_type i items)
  unfolding flatten_from
  flatten-IsOrdered i [] = tt
  flatten-IsOrdered i (item ∷ items) =
      IsOrdered-append i _ _
        (tagged-IsOrdered i item 0 _
          (chunk_item-IsChunking env.tokenizer env.split_text item.content source_type).numbered)
        (tagged-Of i item _) (flatten-IsOrdered (suc i) items) (flatten-From (suc i) items)

-- ===== src/Ingestion/Pipeline/Points/Distinct.antt =====
-- The points of a body: their ids differ, and each is of the document.
use qdrant_database.Prelude.{
  ℕ, suc, ◌≡◌, ◌≢◌, refl, ap, sym, ◌∙◌, true, false, List, [], ◌∷◌, map, Text, All, arith, inl, inr,
  Bool-cases, text_eq, text_eq_refl, text_eq_sound, contains,
}
use qdrant_database.Exec.{ok}
use qdrant_database.Exec.Outcomes.{and_then-eq-ok, ok-injective}
use qdrant_database.Ingestion.Embedder.{Embeddings, sparse_to_qdrant}
use qdrant_database.Ingestion.Payload.{ScrapedSource, build_chunk_id, build_payload}
use qdrant_database.Ingestion.Payload.ChunkIds.{build_chunk_id-injective}
use qdrant_database.Ingestion.World.{Env}
use qdrant_database.Ingestion.Pipeline.Points.{at, FlatChunk, build_point, build_points_from}
use qdrant_database.Ingestion.Pipeline.Points.Ordered.{Before, IsOrdered}
use qdrant_database.Qdrant.Client.{Point}
use qdrant_database.Qdrant.Collection.Laws.{of_doc, point_id, DistinctIds}

-- The chunk id of a chunk of the document `d`.
abbrev pub chunk_id : Text → FlatChunk → Text
chunk_id d f = build_chunk_id d f.auto_idx f.chunk.chunk_index

-- `uuid5` tells apart those chunk ids of a list that differ.
abbrev pub IsApart : (Text → Text) → Text → List FlatChunk → Type 0
IsApart uuid5 d [] = Unit
IsApart uuid5 d (f ∷ fs) =
    All (λ g. chunk_id d f ≢ chunk_id d g → uuid5 (chunk_id d f) ≢ uuid5 (chunk_id d g)) fs
    × IsApart uuid5 d fs

chunk_id-ne : (d : Text) (f g : FlatChunk) → Before f g → chunk_id d f ≢ chunk_id d g
chunk_id-ne d f g (inl earlier) e =
    let (_, items, _) = build_chunk_id-injective d d _ _ _ _ refl e in omega arith
chunk_id-ne d f g (inr (same, earlier)) e =
    let (_, _, chunks) = build_chunk_id-injective d d _ _ _ _ refl e in omega arith

module _ {D L Q : Type 0} (env : Env D L Q) (t b d : Text) (source : ScrapedSource)
    (e : Embeddings) where
  build_point-facts :
      (i : ℕ) (f : FlatChunk) (p : Point)
      → build_point env t b d source e i f ≡ ok p
      → (p.id ≡ env.uuid5 (chunk_id d f)) × (of_doc d p ≡ true)
  unfolding build_point build_payload
  build_point-facts i f p h =
      let (sparse, _, h₁) = and_then-eq-ok (at e.sparse i) _ h in
      let (sparse_qd, _, h₂) = and_then-eq-ok (sparse_to_qdrant sparse) _ h₁ in
      let (dense, _, h₃) = and_then-eq-ok (at e.dense i) _ h₂ in
      let (colbert, _, h₄) = and_then-eq-ok (at e.colbert i) _ h₃ in
      let same = ok-injective h₄ in (sym (ap point_id same), rw (← same) (text_eq_refl d))

  build-cons :
      (i : ℕ) (f : FlatChunk) (fs : List FlatChunk) (ps : List Point)
      → build_points_from env t b d source e i (f ∷ fs) ≡ ok ps
      → (p : Point) × (qs : List Point) × (build_point env t b d source e i f ≡ ok p)
        × (build_points_from env t b d source e (suc i) fs ≡ ok qs)
        × (p ∷ qs ≡ ps)
  unfolding build_points_from
  build-cons i f fs ps h =
      let (p, one, rest) = and_then-eq-ok (build_point env t b d source e i f) _ h in
      let (qs, more, last) =
        and_then-eq-ok (build_points_from env t b d source e (suc i) fs) _ rest in
      (p, qs, one, more, ok-injective last)

  -- Every point is of the document.
  pub build-All-of_doc :
      (i : ℕ) (fs : List FlatChunk) (ps : List Point)
      → build_points_from env t b d source e i fs ≡ ok ps
      → All (λ p. of_doc d p ≡ true) ps
  build-All-of_doc i [] ps h = unfold build_points_from in rw (← ok-injective h) tt
  build-All-of_doc i (f ∷ fs) ps h =
      let (p, qs, one, more, same) = build-cons i f fs ps h in
      rw (← same) ((build_point-facts i f p one).1, build-All-of_doc (suc i) fs qs more)

  other_id :
      (f : FlatChunk) (x : Text) (i : ℕ) (gs : List FlatChunk) (qs : List Point)
      → x ≡ env.uuid5 (chunk_id d f)
      → build_points_from env t b d source e i gs ≡ ok qs
      → All (Before f) gs
      → All
          (λ g. chunk_id d f ≢ chunk_id d g → env.uuid5 (chunk_id d f) ≢ env.uuid5 (chunk_id d g))
          gs
      → contains x (map point_id qs) ≡ false
  other_id f x i [] qs own h before apart = unfold build_points_from in rw (← ok-injective h) refl
  other_id f x i (g ∷ gs) qs own h before apart =
      let (q, rs, one, more, same) = build-cons i g gs qs h in
      rw (← same) (elim (Bool-cases (text_eq x q.id)) [
        | inl hit ↦ absurd (
            apart.0 (chunk_id-ne d f g before.0)
              (sym own ∙ text_eq_sound x q.id hit ∙ (build_point-facts i g q one).0))
        | inr miss ↦ rw miss (other_id f x (suc i) gs rs own more before.1 apart.1)
      ])

  -- Where `uuid5` keeps the chunk ids apart, no two points share an id.
  pub build-DistinctIds :
      (i : ℕ) (fs : List FlatChunk) (ps : List Point)
      → build_points_from env t b d source e i fs ≡ ok ps
      → IsOrdered fs
      → IsApart env.uuid5 d fs
      → DistinctIds ps
  build-DistinctIds i [] ps h o a = unfold build_points_from in rw (← ok-injective h) tt
  build-DistinctIds i (f ∷ fs) ps h o a =
      let (p, qs, one, more, same) = build-cons i f fs ps h in
      rw (← same) (
        other_id f p.id (suc i) fs qs (build_point-facts i f p one).0 more o.0 a.0,
        build-DistinctIds (suc i) fs qs more o.1 a.1,
      )

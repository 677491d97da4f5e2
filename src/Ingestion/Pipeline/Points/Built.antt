-- ===== src/Ingestion/Pipeline/Points/Built.antt =====
-- One point for each chunk.
use qdrant_database.Prelude.{◌≡◌, refl, ℕ, suc, List, [], ◌∷◌, Text, length}
use qdrant_database.Exec.{ok}
use qdrant_database.Exec.Outcomes.{and_then-eq-ok, ok-injective}
use qdrant_database.Ingestion.Embedder.{Embeddings}
use qdrant_database.Ingestion.Payload.{ScrapedSource}
use qdrant_database.Ingestion.World.{Env}
use qdrant_database.Ingestion.Pipeline.Points.{FlatChunk, build_point, build_points_from}
use qdrant_database.Qdrant.Client.{Point}

module _ {D L Q : Type 0} (env : Env D L Q) (t b d : Text) (source : ScrapedSource)
    (e : Embeddings) where
  -- The points that are built are as many as the chunks.
  pub length-build_points :
      (i : ℕ) (flat : List FlatChunk) (ps : List Point)
      → build_points_from env t b d source e i flat ≡ ok ps
      → length ps ≡ length flat
  unfolding build_points_from
  length-build_points i [] ps h = rw (← ok-injective h) refl
  length-build_points i (f ∷ fs) ps h =
      let (p, _, rest) = and_then-eq-ok (build_point env t b d source e i f) _ h in
      let (qs, more, last) =
        and_then-eq-ok (build_points_from env t b d source e (suc i) fs) _ rest in
      let tail = length-build_points (suc i) fs qs more in
      let same : p ∷ qs ≡ ps = ok-injective last in rw (← same, tail) refl

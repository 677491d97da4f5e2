-- ===== src/Ingestion/Pipeline/Frame.antt =====
-- What an operation of one service leaves alone: the other two services.
use qdrant_database.Prelude.{◌≡◌}
use qdrant_database.Exec.{Exec}
use qdrant_database.Exec.Keeps.{Keeps}
use qdrant_database.Ingestion.World.{World, on_database, on_qdrant, on_locks}

module _ {D L Q : Type 0} where
  -- The locks are `l`, the tables satisfy `P`.
  abbrev pub LocksAre : L → World D L Q → Type 0
  LocksAre l w = w.locks ≡ l

  abbrev pub Tables : (D → Type 0) → World D L Q → Type 0
  Tables P w = P w.database

module _ {D L Q A : Type 0} where
  pub database-LocksAre :
      (l : L) (m : Exec D A) → Keeps {S = World D L Q} (LocksAre l) (on_database m)
  database-LocksAre l m = record { at = λ w h. h }

  pub qdrant-LocksAre : (l : L) (m : Exec Q A) → Keeps {S = World D L Q} (LocksAre l) (on_qdrant m)
  qdrant-LocksAre l m = record { at = λ w h. h }

  pub qdrant-Tables :
      (P : D → Type 0) (m : Exec Q A) → Keeps {S = World D L Q} (Tables P) (on_qdrant m)
  qdrant-Tables P m = record { at = λ w h. h }

  pub locks-Tables :
      (P : D → Type 0) (m : Exec L A) → Keeps {S = World D L Q} (Tables P) (on_locks m)
  locks-Tables P m = record { at = λ w h. h }

  pub database-Tables :
      (P : D → Type 0) (m : Exec D A)
      → Keeps P m
      → Keeps {S = World D L Q} (Tables P) (on_database m)
  database-Tables P m k = record { at = λ w h. k.at w.database h }

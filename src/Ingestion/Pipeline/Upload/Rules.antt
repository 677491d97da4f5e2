-- ===== src/Ingestion/Pipeline/Upload/Rules.antt =====
-- Rules for the row that an upload reports on.
use qdrant_database.Prelude.{
  ◌≡◌, refl, ap, subst, ◌∙◌, ℕ, Bool, true, false, Option, none, some, Text, ltb,
}
use qdrant_database.Exec.{Outcome, ok}
use qdrant_database.Exec.Yields.{Yields, Yields-pure, Yields-bind, Yields-lift}
use qdrant_database.Documents.Models.{Document}
use qdrant_database.Documents.Models.Laws.{DatabaseLaws}
use qdrant_database.Ingestion.World.{World, Env, on_database}
use qdrant_database.Ingestion.Pipeline.Rows.{is_foreign, touched}
use qdrant_database.Ingestion.Pipeline.Locked.Yielded.{Served, Anything}
use qdrant_database.Ingestion.Pipeline.Upload.{UploadResult, UploadArgs, no_change_result}

module _ {D L Q : Type 0} (env : Env D L Q) (db : DatabaseLaws env.db) (a : UploadArgs) where
  -- The row of the document that the result names belongs to the bot, and has the result's counts.
  abbrev pub Reported : UploadResult → D → Q → Type 0
  Reported r d q =
      (x : Document) × (db.row d r.doc_id ≡ some x)
      × (is_foreign a.tenant_id a.bot_id x ≡ false)
      × (x.chunk_count ≡ r.chunks_created)
      × (x.item_count ≡ r.items_processed)
      × (ltb 0 r.chunks_created ≡ true)

  -- A row with chunks that a query has found.
  abbrev pub HasRow : Document → D → Q → Type 0
  HasRow x d q = db.row d x.doc_id ≡ some x

  abbrev pub AfterQuery : (Document → Bool) → Option Document → D → Q → Type 0
  AfterQuery p none d q = Unit
  AfterQuery p (some x) d q = (db.row d x.doc_id ≡ some x) × (p x ≡ true)

  pub query-Yields :
      (p : Document → Bool)
      → Yields
          (Served {L = L} Anything)
          (on_database (env.db.document_first p))
          (λ x. Served (AfterQuery p x))
  query-Yields p = record {
    at = λ w x v h e.
        found x w v (ap (λ (r : Outcome (Option Document) × World D L Q). (r.0, r.1.database)) e);
  }
    where
      found :
          (x : Option Document) (w v : World D L Q)
          → env.db.document_first p w.database ≡ (ok x, v.database)
          → AfterQuery p x v.database v.qdrant
      found none w v e = tt
      found (some x) w v e =
          let (there, hit) = db.first_done p (some x) w.database v.database e in
          let same : db.row v.database x.doc_id ≡ db.row w.database x.doc_id =
            subst (λ (d : D). db.row d x.doc_id ≡ db.row w.database x.doc_id)
              (ap (λ (r : Outcome (Option Document) × D). r.1) e)
              (db.first_keeps p x.doc_id w.database) in
          (same ∙ there, hit)

  touched-Yields :
      (x : Document)
      → Yields
          (Served {L = L} (HasRow x))
          (on_database (env.db.document_save x.doc_id touched))
          (λ u w. (now : ℕ) × (db.row w.database x.doc_id ≡ some (touched now x)))
  touched-Yields x = record {
    at = λ w u v h e.
        db.save_done x.doc_id touched x w.database v.database h
          (ap (λ (r : Outcome (Unit {0}) × World D L Q). (r.0, r.1.database)) e);
  }

  pub no_change-Yields :
      (j : Text) (x : Document)
      → x.doc_id ≡ j
      → is_foreign a.tenant_id a.bot_id x ≡ false
      → ltb 0 x.chunk_count ≡ true
      → Yields (Served {L = L} (HasRow x)) (no_change_result env a j x) (λ r. Served (Reported r))
  unfolding no_change_result
  no_change-Yields j x own ours some_chunks =
      Yields-bind (λ u w. (now : ℕ) × (db.row w.database x.doc_id ≡ some (touched now x))) _ _
        (touched-Yields x)
        λ u.
          Yields-bind (λ n w. (now : ℕ) × (db.row w.database x.doc_id ≡ some (touched now x))) _ _
            (Yields-lift _)
            λ n. Yields-pure _ λ w h. (
              touched h.0 x,
              subst (λ (i : Text). db.row w.database i ≡ some (touched h.0 x)) own h.1,
              ours,
              refl,
              refl,
              some_chunks,
            )

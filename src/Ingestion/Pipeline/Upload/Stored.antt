-- ===== src/Ingestion/Pipeline/Upload/Stored.antt =====
-- Storing: the row that is written, and how many points go with it.
use qdrant_database.Prelude.{
  ◌≡◌, refl, ap, ◌∷◌, map, ℕ, Bool, true, false, some, List, [], Text, text_eq_refl, length, ltb,
  arith, Option-cases, inl, inr, is_empty,
}
use qdrant_database.Errors
use qdrant_database.Exec.{Outcome, ok, Exec, try_except, lift, raise_if}
use qdrant_database.Exec.Yields.{Yields, Yields-pure, Yields-bind, Yields-guard}
use qdrant_database.Ingestion.Embedder.{embed_passages}
use qdrant_database.Documents.Models.{Document, Bot}
use qdrant_database.Documents.Models.Laws.{DatabaseLaws}
use qdrant_database.Ingestion.World.{World, Env, on_database}
use qdrant_database.Ingestion.Pipeline.Rows.{is_foreign}
use qdrant_database.Ingestion.Pipeline.Locked.Yielded.{Served, Anything}
use qdrant_database.Ingestion.Pipeline.Points.{FlatChunk, flatten_from}
use qdrant_database.Ingestion.Pipeline.Points.Built.{length-build_points}
use qdrant_database.Ingestion.Pipeline.Upload.{
  UploadArgs, prepare_points, delete_old, upsert_points, store_points, ingest, saved, fresh,
  always_as, max_chunks_per_doc,
}
use qdrant_database.Qdrant.Client.{Point}
use qdrant_database.Ingestion.Pipeline.Upload.Rules.{Reported}

module _ {D L Q : Type 0} (env : Env D L Q) (db : DatabaseLaws env.db) (a : UploadArgs) where
  saved_ours :
      (bot : Bot) (h : Text) (n now : ℕ) (x : Document)
      → is_foreign a.tenant_id a.bot_id (saved a bot h n now x) ≡ false
  saved_ours bot h n now x = rw (text_eq_refl a.tenant_id, text_eq_refl a.bot_id) refl

  fresh_ours :
      (bot : Bot) (h : Text) (n now : ℕ)
      → is_foreign a.tenant_id a.bot_id (fresh a bot h n now) ≡ false
  fresh_ours bot h n now = rw (text_eq_refl a.tenant_id, text_eq_refl a.bot_id) refl

  -- After the save, the row has the counts.
  abbrev Written : ℕ → D → Q → Type 0
  Written n d q =
      (x : Document) × (db.row d a.doc_id ≡ some x)
      × (is_foreign a.tenant_id a.bot_id x ≡ false)
      × (x.chunk_count ≡ n)
      × (x.item_count ≡ length a.body.items)

  written :
      (bot : Bot) (h : Text) (n : ℕ) (w v : World D L Q)
      → env.db.document_update_or_create a.doc_id (saved a bot h n) (fresh a bot h n) w.database
        ≡ (ok tt, v.database)
      → Written n v.database v.qdrant
  written bot h n w v e = elim (Option-cases (db.row w.database a.doc_id)) [
    | inl missing ↦
        let (now, there) =
          db.create_done a.doc_id (saved a bot h n) (fresh a bot h n) w.database v.database missing
            e in
        (fresh a bot h n now, there, fresh_ours bot h n now, refl, refl)
    | inr (x, found) ↦
        let (now, there) =
          db.update_done a.doc_id (saved a bot h n) (fresh a bot h n) x w.database v.database found
            e in
        (saved a bot h n now x, there, saved_ours bot h n now x, refl, refl)
  ]

  Written-Yields :
      (bot : Bot) (h : Text) (n : ℕ)
      → Yields
          (Served {L = L} Anything)
          (on_database
            (env.db.document_update_or_create a.doc_id (saved a bot h n) (fresh a bot h n)))
          (λ u. Served (Written n))
  Written-Yields bot h n = record {
    at = λ w u v k e.
        written bot h n w v (ap (λ (r : Outcome (Unit {0}) × World D L Q). (r.0, r.1.database)) e);
  }

  anything :
      {A : Type 0} (m : Exec (World D L Q) A)
      → Yields (Served {L = L} Anything) m (λ x. Served Anything)
  anything m = record { at = λ w x v h e. tt }

  pub store_points-Yields :
      (bot : Bot) (h : Text) (b : Bool) (name : Text) (ps : List Point)
      → ltb 0 (length ps) ≡ true
      → Yields
          (Served {L = L} Anything)
          (store_points env a bot h b name ps)
          (λ r. Served (Reported env db a r))
  unfolding store_points
  store_points-Yields bot h b name ps some_points =
      Yields-bind (λ u. Served Anything) (delete_old env a b) _ (anything _)
        λ u.
          Yields-bind (λ v. Served Anything) (upsert_points env a name ps) _ (anything _)
            λ v.
              Yields-bind (λ z. Served (Written (length ps))) _ _ (Written-Yields bot h (length ps))
                λ z. Yields-pure _ λ w k. (k.0, k.1, k.2, k.3, k.4, some_points)

  built_some :
      (flat : List FlatChunk)
      → is_empty flat ≡ false
      → (ps : List Point) → length ps ≡ length flat
      → ltb 0 (length ps) ≡ true
  built_some [] filled ps e = cc filled
  built_some (f ∷ flat) filled ps e = rw e (ground arith)

  -- What is prepared is at least one point.
  pub prepare_points-Yields :
      (h : Text)
      → Yields (Served {L = L} Anything) (prepare_points env a h) (λ ps w. ltb 0 (length ps) ≡ true)
  unfolding prepare_points
  prepare_points-Yields h =
      let flat = flatten_from env a.body.source_type 0 a.body.items in
      let n = length flat in
      let texts : List Text = map (λ (f : FlatChunk). f.chunk.text) flat in
      Yields-guard (is_empty flat) _ _ λ filled.
        Yields-bind (λ u. Served Anything)
          (raise_if (ltb max_chunks_per_doc n) (
            Errors.upload_error (
              Errors.document_too_large_error (
                ("chunk_count", Errors.number n)
                ∷ ("max", Errors.number max_chunks_per_doc)
                ∷ []))))
          _ (anything _)
          λ u.
            Yields-bind (λ e. Served Anything)
              (try_except (lift (embed_passages env.model texts))
                (always_as (Errors.embedder_error (("chunk_count", Errors.number n) ∷ []))))
              _ (anything _)
              λ e. record {
                at = λ w ps v k run. built_some flat filled ps (
                    length-build_points env a.tenant_id a.bot_id a.doc_id _ e 0 flat ps
                      (ap (λ (r : Outcome (List Point) × World D L Q). r.0) run));
              }

  pub ingest-Yields :
      (bot : Bot) (h : Text) (b : Bool)
      → Yields (Served {L = L} Anything) (ingest env a bot h b) (λ r. Served (Reported env db a r))
  unfolding ingest
  ingest-Yields bot h b =
      Yields-bind (λ n. Served Anything) _ _ (anything _)
        λ n.
          Yields-bind (λ ps w. ltb 0 (length ps) ≡ true) _ _ (prepare_points-Yields h)
            λ ps. record {
              at = λ w r v some_points e.
                  (store_points-Yields bot h b n ps some_points).at w r v tt e;
            }

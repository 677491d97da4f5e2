-- ===== src/Ingestion/Pipeline/Upload/Points.antt =====
-- What storing does to the points of the bot's collection.
use qdrant_database.Prelude.{
  ◌≡◌, refl, ap, ap₂, subst, ◌∙◌, ℕ, Bool, true, false, List, [], ◌++◌, map, Text, All, append-nil,
  length, ltb, is_empty, keep, keep-append, keep_comm, keep-All, keep_none, if◌then◌else◌, ◌∷◌,
}
use qdrant_database.Errors.{text}
use qdrant_database.Errors
use qdrant_database.Exec.{Outcome, ok, lift, try_except}
use qdrant_database.Exec.Yields.{
  Yields, Yields-pure, Yields-raise, Yields-bind, Yields-guard, Yields-try_except, Yields-kept,
}
use qdrant_database.Naming.{collection_name}
use qdrant_database.Documents.Models.{Bot}
use qdrant_database.Ingestion.Embedder.{Embeddings, embed_passages}
use qdrant_database.Ingestion.Payload.{ScrapedSource}
use qdrant_database.Ingestion.World.{World, Env, on_database}
use qdrant_database.Ingestion.Pipeline.Locked.Yielded.{Served}
use qdrant_database.Ingestion.Pipeline.Points.{FlatChunk, flatten_from, build_points_from}
use qdrant_database.Ingestion.Pipeline.Points.Ordered.{flatten-IsOrdered}
use qdrant_database.Ingestion.Pipeline.Points.Distinct.{
  IsApart, build-All-of_doc, build-DistinctIds,
}
use qdrant_database.Ingestion.Pipeline.Upload.{
  UploadArgs, UploadStatus, no_change, replaced, created, UploadResult, open_collection,
  prepare_points, delete_old, upsert_points, store_points, ingest, saved, fresh, always_as,
  max_chunks_per_doc,
}
use qdrant_database.Ingestion.Pipeline.Delete.Effects.{as_write_error-Yields}
use qdrant_database.Qdrant.Client.{Point}
use qdrant_database.Qdrant.Collection.Laws.{of_doc, not_of_doc, with_new_id, QdrantLaws}
use qdrant_database.Qdrant.Collection.Deletion.{delete_by_doc_id_lem}
use qdrant_database.Qdrant.Collection.Kept.{get_or_create-Holds, get_or_create-IsName}

none_of_doc :
    (d : Text) (ps : List Point)
    → All (λ p. of_doc d p ≡ true) ps
    → All (λ p. not_of_doc d p ≡ false) ps
none_of_doc d [] h = tt
none_of_doc d (p ∷ ps) h = (rw h.0 refl, none_of_doc d ps h.1)

module _ {D L Q : Type 0} (env : Env D L Q) (a : UploadArgs) where
  abbrev pub flat : List FlatChunk
  flat = flatten_from env a.body.source_type 0 a.body.items

  abbrev pub source : Text → ScrapedSource
  source hash = record {
    type = a.body.source_type;
    filename = a.body.source_filename;
    url = a.body.source_url;
    content_hash = hash;
  }

  -- `ps` are the points of all chunks of the body, with their embeddings by the model.
  abbrev pub IsBuilt : Text → List Point → Type 0
  IsBuilt hash ps =
      (e : Embeddings) × (embed_passages env.model (map (λ f. f.chunk.text) flat) ≡ ok e)
      × (build_points_from env a.tenant_id a.bot_id a.doc_id (source hash) e 0 flat ≡ ok ps)

  -- The points after an upload with a status and a number of chunks, from those before it.
  abbrev pub Effect : Text → List Point → UploadStatus → ℕ → List Point → Type 0
  Effect hash old no_change n now = now ≡ old
  Effect hash old replaced n now =
      (ps : List Point) × IsBuilt hash ps
      × (n ≡ length ps)
      × (keep (of_doc a.doc_id) now ≡ ps)
      × (keep (not_of_doc a.doc_id) now ≡ keep (with_new_id ps) (keep (not_of_doc a.doc_id) old))
  Effect hash old created n now =
      (ps : List Point) × IsBuilt hash ps
      × (n ≡ length ps)
      × (keep (of_doc a.doc_id) now ≡ keep (with_new_id ps) (keep (of_doc a.doc_id) old) ++ ps)
      × (keep (not_of_doc a.doc_id) now ≡ keep (with_new_id ps) (keep (not_of_doc a.doc_id) old))

module _ {D L Q : Type 0} (env : Env D L Q) (qd : QdrantLaws env.client) (a : UploadArgs)
    (name : Text) (named : collection_name a.tenant_id a.bot_id ≡ ok name)
    (apart : IsApart env.uuid5 a.doc_id (flat env a)) (hash : Text) (old : List Point) where
  -- A statement about the points of the collection.
  abbrev pub Now : (List Point → Type 0) → D → Q → Type 0
  Now P d q = P (qd.points q name)

  abbrev pub Before : List Point → Type 0
  Before ps = ps ≡ old

  abbrev AfterDelete : Bool → List Point → Type 0
  AfterDelete b ps =
      (keep (of_doc a.doc_id) ps ≡ (if b then [] else keep (of_doc a.doc_id) old))
      × (keep (not_of_doc a.doc_id) ps ≡ keep (not_of_doc a.doc_id) old)

  abbrev AfterUpsert : Bool → List Point → List Point → Type 0
  AfterUpsert b new ps =
      (keep (of_doc a.doc_id) ps
        ≡ keep (with_new_id new) (if b then [] else keep (of_doc a.doc_id) old) ++ new)
      × (keep (not_of_doc a.doc_id) ps ≡ keep (with_new_id new) (keep (not_of_doc a.doc_id) old))

  open-Yields :
      Yields
        (Served {L = L} (Now Before))
        (open_collection env a)
        (λ n w. (n ≡ name) × Served (Now Before) w)
  unfolding open_collection
  open-Yields =
      Yields-try_except _ _
        (record {
          at = λ w n v h e.
              let run = ap (λ (r : Outcome Text × World D L Q). (r.0, r.1.qdrant)) e in
              (
                (get_or_create-IsName env.client a.tenant_id a.bot_id name named).at w.qdrant n
                    v.qdrant run,
                (Yields-kept _ (get_or_create-Holds env.client qd name old a.tenant_id a.bot_id)).at
                    w.qdrant n v.qdrant h run,
              );
        })
        (as_write_error-Yields _)

  delete_old-Yields :
      (b : Bool)
      → Yields
          (Served {L = L} (Now Before))
          (delete_old env a b)
          (λ u. Served (Now (AfterDelete b)))
  unfolding delete_old
  delete_old-Yields false = Yields-pure tt λ w h. rw h (refl, refl)
  delete_old-Yields true =
      Yields-bind (λ n. Served (Now (AfterDelete true))) _ _
        (Yields-try_except _ _
          (record {
            at = λ w n v h e.
                let run = ap (λ (r : Outcome ℕ × World D L Q). (r.0, r.1.qdrant)) e in
                let (gone, rest) =
                  delete_by_doc_id_lem env.client qd a.tenant_id a.bot_id a.doc_id name w.qdrant
                    v.qdrant n named run in
                (gone, rest ∙ ap (keep (not_of_doc a.doc_id)) h);
          })
          (as_write_error-Yields _))
        (λ n. Yields-pure tt (λ w h. h))

  after_upsert :
      (b : Bool) (new ps now : List Point)
      → All (λ p. of_doc a.doc_id p ≡ true) new
      → now ≡ keep (with_new_id new) ps ++ new
      → AfterDelete b ps
      → AfterUpsert b new now
  after_upsert b new ps now ours e (own, rest) = (
    ap (keep (of_doc a.doc_id)) e
        ∙ keep-append (of_doc a.doc_id) (keep (with_new_id new) ps) new
        ∙ ap₂ ◌++◌
            (keep_comm (of_doc a.doc_id) (with_new_id new) ps ∙ ap (keep (with_new_id new)) own)
            (keep-All (of_doc a.doc_id) new ours),
    ap (keep (not_of_doc a.doc_id)) e
        ∙ keep-append (not_of_doc a.doc_id) (keep (with_new_id new) ps) new
        ∙ ap₂ ◌++◌
            (keep_comm (not_of_doc a.doc_id) (with_new_id new) ps
              ∙ ap (keep (with_new_id new)) rest)
            (keep_none (not_of_doc a.doc_id) new (none_of_doc a.doc_id new ours))
        ∙ append-nil _,
  )

  upsert-Yields :
      (b : Bool) (new : List Point)
      → IsBuilt env a hash new
      → Yields
          (Served {L = L} (Now (AfterDelete b)))
          (upsert_points env a name new)
          (λ u. Served (Now (AfterUpsert b new)))
  unfolding upsert_points
  upsert-Yields b new (e, embedded, built) =
      Yields-try_except _ _
        (record {
          at = λ w u v h k.
              let run = ap (λ (r : Outcome (Unit {0}) × World D L Q). (r.0, r.1.qdrant)) k in
              let distinct =
                build-DistinctIds env a.tenant_id a.bot_id a.doc_id (source env a hash) e 0
                  (flat env a) new built (flatten-IsOrdered env a.body.source_type 0 a.body.items)
                  apart in
              after_upsert b new _ _
                (build-All-of_doc env a.tenant_id a.bot_id a.doc_id (source env a hash) e 0
                  (flat env a) new built)
                (qd.upsert_done name new w.qdrant v.qdrant distinct run) h;
        })
        (λ x. Yields-raise _)

  abbrev pub Goal : UploadResult → World D L Q → Type 0
  Goal r = Served (Now (Effect env a hash old r.status r.chunks_created))

  store-Effect :
      (b : Bool) (new now : List Point)
      → IsBuilt env a hash new
      → AfterUpsert b new now
      → Effect env a hash old (if b then replaced else created) (length new) now
  store-Effect true new now built h = (new, built, refl, h.0, h.1)
  store-Effect false new now built h = (new, built, refl, h.0, h.1)

  store-Yields :
      (bot : Bot) (b : Bool) (new : List Point)
      → IsBuilt env a hash new
      → Yields (Served {L = L} (Now Before)) (store_points env a bot hash b name new) Goal
  unfolding store_points
  store-Yields bot b new built =
      Yields-bind (λ u. Served (Now (AfterDelete b))) (delete_old env a b) _ (delete_old-Yields b)
        λ u.
          Yields-bind (λ v. Served (Now (AfterUpsert b new))) (upsert_points env a name new) _
            (upsert-Yields b new built)
            λ v.
              Yields-bind (λ z. Served (Now (AfterUpsert b new)))
                (on_database (
                  env.db.document_update_or_create a.doc_id (saved a bot hash (length new))
                    (fresh a bot hash (length new))))
                _ (Yields-kept _ (record { at = λ w h. h }))
                λ z. Yields-pure _ (λ w h. store-Effect b new _ built h)

  prepare-Yields :
      Yields
        (Served {L = L} (Now Before))
        (prepare_points env a hash)
        (λ ps w. IsBuilt env a hash ps × Served (Now Before) w)
  unfolding prepare_points
  prepare-Yields =
      let n = length (flat env a) in
      let texts : List Text = map (λ (f : FlatChunk). f.chunk.text) (flat env a) in
      Yields-guard (is_empty (flat env a)) _ _ λ filled.
        Yields-guard (ltb max_chunks_per_doc n) _ _ λ small.
          Yields-bind
            (λ e w. (embed_passages env.model texts ≡ ok e) × Served {L = L} (Now Before) w)
            (try_except (lift (embed_passages env.model texts))
              (always_as (Errors.embedder_error (("chunk_count", Errors.number n) ∷ []))))
            _
            (Yields-try_except _ _
              (record {
                at = λ w e v h k. (
                  ap (λ (r : Outcome Embeddings × World D L Q). r.0) k,
                  subst (λ (z : World D L Q). Served (Now Before) z)
                      (ap (λ (r : Outcome Embeddings × World D L Q). r.1) k) h,
                );
              })
              (λ x. Yields-raise _))
            λ e. record {
              at = λ w ps v h k. (
                (e, h.0, ap (λ (r : Outcome (List Point) × World D L Q). r.0) k),
                subst (λ (z : World D L Q). Served (Now Before) z)
                    (ap (λ (r : Outcome (List Point) × World D L Q). r.1) k) h.1,
              );
            }

  pub ingest-Effect :
      (bot : Bot) (b : Bool) → Yields (Served {L = L} (Now Before)) (ingest env a bot hash b) Goal
  unfolding ingest
  ingest-Effect bot b =
      Yields-bind (λ n w. (n ≡ name) × Served {L = L} (Now Before) w) (open_collection env a) _
        open-Yields
        λ n.
          Yields-bind (λ ps w. (n ≡ name) × IsBuilt env a hash ps × Served {L = L} (Now Before) w)
            (prepare_points env a hash) _
            (record {
              at = λ w ps v h k.
                  let (built, same) = prepare-Yields.at w ps v h.1 k in (h.0, built, same);
            })
            λ ps. record {
              at = λ w r v h k.
                  (store-Yields bot b ps h.1).at w r v h.2
                    (subst (λ (m : Text). store_points env a bot hash b m ps w ≡ (ok r, v)) h.0 k);
            }

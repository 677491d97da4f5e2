-- ===== src/Ingestion/Pipeline/Delete/Points.antt =====
-- What a deletion that returns has done to the points of the bot's collection.
use qdrant_database.Prelude.{◌≡◌, refl, ap, ◌∙◌, ℕ, Option, none, some, List, [], Text, keep}
use qdrant_database.Errors.{Details}
use qdrant_database.Exec.{Outcome, ok, try_except}
use qdrant_database.Exec.Yields.{
  Yields, Yields-pure, Yields-raise, Yields-if, Yields-bind, Yields-try_except, Yields-kept,
}
use qdrant_database.Naming.{collection_name}
use qdrant_database.Documents.Models.{Document}
use qdrant_database.Ingestion.World.{World, Env, on_database, on_qdrant}
use qdrant_database.Ingestion.Pipeline.Rows.{has_doc_id, is_foreign, marked_deleted}
use qdrant_database.Ingestion.Pipeline.Locked.Yielded.{Served, upload_lock-Yields}
use qdrant_database.Ingestion.Pipeline.Upload.{as_write_error}
use qdrant_database.Ingestion.Pipeline.Delete.{
  DeleteResult, delete_existing, delete_found, delete_document_body, delete_document,
}
use qdrant_database.Ingestion.Pipeline.Delete.Effects.{as_write_error-Yields}
use qdrant_database.Qdrant.Client.{Point}
use qdrant_database.Qdrant.Collection.{delete_by_doc_id}
use qdrant_database.Qdrant.Collection.Laws.{of_doc, not_of_doc, QdrantLaws}
use qdrant_database.Qdrant.Collection.Deletion.{delete_by_doc_id_lem}

-- The points of the document are gone, and the others are those of before.
abbrev pub Removed : Text → List Point → List Point → Type 0
Removed j old now = (keep (of_doc j) now ≡ []) × (keep (not_of_doc j) now ≡ keep (not_of_doc j) old)

module _ {D L Q : Type 0} (env : Env D L Q) (qd : QdrantLaws env.client) (t b j name : Text)
    (named : collection_name t b ≡ ok name) (old : List Point) where
  abbrev Start : World D L Q → Type 0
  Start w = qd.points w.qdrant name ≡ old

  abbrev End : D → Q → Type 0
  End d q = Removed j old (qd.points q name)

  points-Yields :
      (d : Details)
      → Yields Start
          (try_except (on_qdrant (delete_by_doc_id env.client t b j)) (as_write_error d))
          (λ n. Served End)
  points-Yields d =
      Yields-try_except _ _
        (record {
          at = λ w n v h e.
              let (gone, rest) =
                delete_by_doc_id_lem env.client qd t b j name w.qdrant v.qdrant n named
                  (ap (λ (r : Outcome ℕ × World D L Q). (r.0, r.1.qdrant)) e) in
              (gone, rest ∙ ap (keep (not_of_doc j)) h);
        })
        (as_write_error-Yields d)

  existing-Removed : (x : Document) → Yields Start (delete_existing env t b j x) (λ r. Served End)
  unfolding delete_existing
  existing-Removed x =
      Yields-bind (λ n. Served End) _ _ (points-Yields _)
        λ n.
          Yields-bind (λ u. Served End) (on_database (env.db.document_save x.doc_id marked_deleted))
            _ (Yields-kept _ (record { at = λ w h. h })) (λ u. Yields-pure _ (λ w h. h))

  found-Removed : (o : Option Document) → Yields Start (delete_found env t b j o) (λ r. Served End)
  unfolding delete_found
  found-Removed none = Yields-raise _
  found-Removed (some x) =
      Yields-if (is_foreign t b x) _ _ (λ foreign. Yields-raise _) (λ ours. existing-Removed x)

  body-Removed : Yields Start (delete_document_body env t b j) (λ r. Served End)
  unfolding delete_document_body
  body-Removed =
      Yields-bind (λ o. Start) (on_database (env.db.document_first (has_doc_id j))) _
        (Yields-kept _ (record { at = λ w h. h })) found-Removed

module _ {D L Q : Type 0} (env : Env D L Q) (qd : QdrantLaws env.client) where
  pub delete_document-Removed :
      (t b j name : Text) (w w' : World D L Q) (r : DeleteResult)
      → collection_name t b ≡ ok name
      → delete_document env t b j w ≡ (ok r, w')
      → Removed j (qd.points w.qdrant name) (qd.points w'.qdrant name)
  unfolding delete_document
  delete_document-Removed t b j name w w' r named h =
      (upload_lock-Yields env (λ d q. qd.points q name ≡ qd.points w.qdrant name)
          (λ x. End env qd t b j name named (qd.points w.qdrant name)) t b j _
          (body-Removed env qd t b j name named (qd.points w.qdrant name))).at
        w r w' refl h

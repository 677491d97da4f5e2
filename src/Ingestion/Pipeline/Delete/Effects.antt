-- ===== src/Ingestion/Pipeline/Delete/Effects.antt =====
-- What a deletion that returns has done to the row and to the points.
use qdrant_database.Prelude.{
  ◌≡◌, refl, ap, subst, sym, ◌∙◌, ℕ, false, Option, none, some, [], Text, text_eq_sound, keep,
}
use qdrant_database.Errors.{Exc, qdrant_error, Details}
use qdrant_database.Errors
use qdrant_database.Exec.{Outcome, ok, try_except}
use qdrant_database.Exec.Yields.{
  Yields, Yields-pure, Yields-raise, Yields-if, Yields-bind, Yields-try_except,
}
use qdrant_database.Naming.{collection_name}
use qdrant_database.Documents.Models.{Document}
use qdrant_database.Documents.Models.Laws.{DatabaseLaws}
use qdrant_database.Ingestion.World.{World, Env, on_database, on_qdrant}
use qdrant_database.Ingestion.Pipeline.Rows.{has_doc_id, is_foreign, is_deleted, marked_deleted}
use qdrant_database.Ingestion.Pipeline.Locked.Yielded.{Served, upload_lock-Yields}
use qdrant_database.Ingestion.Pipeline.Upload.{as_write_error}
use qdrant_database.Ingestion.Pipeline.Delete.{
  DeleteResult, delete_existing, delete_found, delete_document_body, delete_document,
}
use qdrant_database.Qdrant.Collection.{delete_by_doc_id}
use qdrant_database.Qdrant.Collection.Laws.{of_doc, QdrantLaws}
use qdrant_database.Qdrant.Collection.Deletion.{delete_by_doc_id_lem}

-- The handler around Qdrant calls never returns.
pub as_write_error-Yields :
    {S A : Type 0} {P : S → Type 0} {R : A → S → Type 0} (d : Details) (e : Exc)
    → Yields P (as_write_error {S = S} {A = A} d e) R
as_write_error-Yields d (qdrant_error q) = Yields-raise _
as_write_error-Yields d (Errors.upload_error u) = Yields-raise _
as_write_error-Yields d Errors.invalid_identifier_error = Yields-raise _
as_write_error-Yields d Errors.value_error = Yields-raise _
as_write_error-Yields d Errors.integrity_error = Yields-raise _
as_write_error-Yields d Errors.does_not_exist = Yields-raise _
as_write_error-Yields d (Errors.rpc_error _) = Yields-raise _
as_write_error-Yields d (Errors.unexpected_response _) = Yields-raise _
as_write_error-Yields d (Errors.other _) = Yields-raise _

module _ {D L Q : Type 0} (env : Env D L Q) (db : DatabaseLaws env.db) (qd : QdrantLaws env.client)
    (t b j name : Text) (o : Option Document) where
  -- What a deletion does, where `o` was the row under its id.
  abbrev pub Deleted : DeleteResult → D → Q → Type 0
  Deleted r d q =
      (x : Document) × (now : ℕ) × (o ≡ some x)
      × (is_foreign t b x ≡ false)
      × (r.was_already_deleted ≡ is_deleted x.status)
      × (db.row d j ≡ some (marked_deleted now x))
      × (keep (of_doc j) (qd.points q name) ≡ [])

module _ {D L Q : Type 0} (env : Env D L Q) (db : DatabaseLaws env.db) (qd : QdrantLaws env.client)
    (t b j name : Text) (named : collection_name t b ≡ ok name) (o : Option Document) where
  abbrev Start : D → Q → Type 0
  Start d q = db.row d j ≡ o

  -- After the query: the row that it found is the one under `j`.
  abbrev AfterQuery : Option Document → D → Q → Type 0
  AfterQuery none d q = Unit
  AfterQuery (some x) d q = (x.doc_id ≡ j) × (o ≡ some x) × (db.row d j ≡ some x)

  abbrev AfterPoints : Document → D → Q → Type 0
  AfterPoints x d q =
      (x.doc_id ≡ j)
      × (o ≡ some x)
      × (db.row d j ≡ some x)
      × (keep (of_doc j) (qd.points q name) ≡ [])

  abbrev AfterSave : Document → D → Q → Type 0
  AfterSave x d q =
      (now : ℕ) × (o ≡ some x)
      × (db.row d j ≡ some (marked_deleted now x))
      × (keep (of_doc j) (qd.points q name) ≡ [])

  found :
      (x : Option Document) (w v : World D L Q)
      → db.row w.database j ≡ o
      → env.db.document_first (has_doc_id j) w.database ≡ (ok x, v.database)
      → AfterQuery x v.database v.qdrant
  found none w v h e = tt
  found (some x) w v h e =
      let (there, hit) = db.first_done (has_doc_id j) (some x) w.database v.database e in
      let own : x.doc_id ≡ j = text_eq_sound x.doc_id j hit in
      let here : db.row w.database j ≡ some x =
        subst (λ (i : Text). db.row w.database i ≡ some x) own there in
      let same : db.row v.database j ≡ db.row w.database j =
        subst (λ (d : D). db.row d j ≡ db.row w.database j)
          (ap (λ (r : Outcome (Option Document) × D). r.1) e)
          (db.first_keeps (has_doc_id j) j w.database) in
      (own, sym h ∙ here, same ∙ here)

  query-Yields :
      Yields
        (Served {L = L} Start)
        (on_database (env.db.document_first (has_doc_id j)))
        (λ x. Served (AfterQuery x))
  query-Yields = record {
    at = λ w x v h e.
        found x w v h (ap (λ (r : Outcome (Option Document) × World D L Q). (r.0, r.1.database)) e);
  }

  points-Yields :
      (x : Document) (d : Details)
      → Yields
          (Served {L = L} (AfterQuery (some x)))
          (try_except (on_qdrant (delete_by_doc_id env.client t b j)) (as_write_error d))
          (λ n. Served (AfterPoints x))
  points-Yields x d =
      Yields-try_except _ _
        (record {
          at = λ w n v h e.
              let run = ap (λ (r : Outcome ℕ × World D L Q). (r.0, r.1.qdrant)) e in
              let same : w.database ≡ v.database =
                ap (λ (r : Outcome ℕ × World D L Q). r.1.database) e in
              let (gone, _) =
                delete_by_doc_id_lem env.client qd t b j name w.qdrant v.qdrant n named run in
              (h.0, h.1, subst (λ (d : D). db.row d j ≡ some x) same h.2, gone);
        })
        (as_write_error-Yields d)

  saved_row :
      (x : Document) (w v : World D L Q)
      → AfterPoints x w.database w.qdrant
      → on_database (env.db.document_save x.doc_id marked_deleted) w ≡ (ok tt, v)
      → AfterSave x v.database v.qdrant
  saved_row x w v (own, was, row, gone) e =
      let run = ap (λ (r : Outcome (Unit {0}) × World D L Q). (r.0, r.1.database)) e in
      let same : w.qdrant ≡ v.qdrant =
        ap (λ (r : Outcome (Unit {0}) × World D L Q). r.1.qdrant) e in
      let here : db.row w.database x.doc_id ≡ some x =
        subst (λ (i : Text). db.row w.database i ≡ some x) (sym own) row in
      let (now, there) = db.save_done x.doc_id marked_deleted x w.database v.database here run in
      (
        now,
        was,
        subst (λ (i : Text). db.row v.database i ≡ some (marked_deleted now x)) own there,
        subst (λ (q : Q). keep (of_doc j) (qd.points q name) ≡ []) same gone,
      )

  existing-Yields :
      (x : Document)
      → is_foreign t b x ≡ false
      → Yields
          (Served {L = L} (AfterQuery (some x)))
          (delete_existing env t b j x)
          (λ r. Served (Deleted env db qd t b j name o r))
  unfolding delete_existing
  existing-Yields x ours =
      Yields-bind (λ n. Served (AfterPoints x)) _ _ (points-Yields x _)
        λ n.
          Yields-bind (λ u. Served (AfterSave x))
            (on_database (env.db.document_save x.doc_id marked_deleted)) _
            (record { at = λ w u v h e. saved_row x w v h e })
            λ u. Yields-pure _ λ w h. (x, h.0, h.1, ours, refl, h.2, h.3)

  found-Yields :
      (x : Option Document)
      → Yields
          (Served {L = L} (AfterQuery x))
          (delete_found env t b j x)
          (λ r. Served (Deleted env db qd t b j name o r))
  unfolding delete_found
  found-Yields none = Yields-raise _
  found-Yields (some x) =
      Yields-if _ _ _ (λ foreign. Yields-raise _) (λ ours. existing-Yields x ours)

  body-Yields :
      Yields
        (Served {L = L} Start)
        (delete_document_body env t b j)
        (λ r. Served (Deleted env db qd t b j name o r))
  unfolding delete_document_body
  body-Yields = Yields-bind (λ x. Served (AfterQuery x)) _ _ query-Yields found-Yields

module _ {D L Q : Type 0} (env : Env D L Q) (db : DatabaseLaws env.db)
    (qd : QdrantLaws env.client) where
  -- A deletion that returns found a row of this bot under the id, has marked it deleted with no
  -- chunks, says whether it was marked before, and has left no point of the document in the bot's
  -- collection.
  pub delete_document_done :
      (t b j name : Text) (w w' : World D L Q) (r : DeleteResult)
      (named : collection_name t b ≡ ok name)
      → delete_document env t b j w ≡ (ok r, w')
      → Deleted env db qd t b j name (db.row w.database j) r w'.database w'.qdrant
  unfolding delete_document
  delete_document_done t b j name w w' r named h =
      (upload_lock-Yields env _ _ t b j _
          (body-Yields env db qd t b j name named (db.row w.database j))).at
        w r w' refl h

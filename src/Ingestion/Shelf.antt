-- ===== src/Ingestion/Shelf.antt =====
-- A specification of a bot's documents: a shelf with the points of each document, in which the order
-- of documents in the collection is forgotten, and runs of the two pipelines of apps/ingestion/pipeline.py.
pub mod Refines
use qdrant_database.Prelude.{List, [], ◌∷◌, ◌++◌, map, Text, text_eq, keep, if◌then◌else◌}
use qdrant_database.Exec.{◌>>=◌, Outcome, ok, raised, and_then, Exec, pure}
use qdrant_database.Documents.Models.{UploadBody}
use qdrant_database.Ingestion.Embedder.{embed_passages}
use qdrant_database.Ingestion.World.{World, Env}
use qdrant_database.Ingestion.Pipeline.Hashing.{incoming_hash}
use qdrant_database.Ingestion.Pipeline.Points.{build_points_from}
use qdrant_database.Ingestion.Pipeline.Upload.{
  UploadArgs, UploadStatus, no_change, replaced, created, upload,
}
use qdrant_database.Ingestion.Pipeline.Upload.Points.{flat, source}
use qdrant_database.Ingestion.Pipeline.Delete.{delete_document}
use qdrant_database.Qdrant.Client.{Point}
use qdrant_database.Qdrant.Collection.Laws.{with_new_id}

abbrev pub Shelf : Type 0
Shelf = Text → List Point

-- The document has exactly the points `ps`; a point elsewhere with the id of one of them is gone.
abbrev pub put_document : Text → List Point → Shelf → Shelf
put_document d ps shelf e = if text_eq e d then ps else keep (with_new_id ps) (shelf e)

-- The points `ps` come to those that the document has.
abbrev pub add_document : Text → List Point → Shelf → Shelf
add_document d ps shelf e =
    if text_eq e d then keep (with_new_id ps) (shelf e) ++ ps else keep (with_new_id ps) (shelf e)

abbrev pub remove_document : Text → Shelf → Shelf
remove_document d shelf e = if text_eq e d then [] else shelf e

-- What happened: an upload of a body, with the status of its answer, or a deletion.
pub data Event : Type 0 where
  uploaded : UploadArgs → UploadStatus → Event
  removed : Text → Event

points_or_none : Outcome (List Point) → List Point
points_or_none (ok ps) = ps
points_or_none (raised e) = []

pub data Op : Type 0 where
  put : Text → UploadBody → Op
  remove : Text → Op

abbrev pub args : Text → Text → Text → UploadBody → UploadArgs
args t b d body = record { tenant_id = t; bot_id = b; doc_id = d; body = body }

module _ {D L Q : Type 0} (env : Env D L Q) where
  -- The points of the chunks of a body.
  unfoldable pub built : UploadArgs → List Point
  unfolding points_or_none
  built a = points_or_none (
      and_then (embed_passages env.model (map (λ f. f.chunk.text) (flat env a))) λ e.
        build_points_from env a.tenant_id a.bot_id a.doc_id
          (source env a (incoming_hash env.sha256 a.body)) e 0 (flat env a))

  unfoldable pub upload_on : UploadArgs → UploadStatus → Shelf → Shelf
  upload_on a no_change shelf = shelf
  upload_on a replaced shelf = put_document a.doc_id (built a) shelf
  upload_on a created shelf = add_document a.doc_id (built a) shelf

  unfoldable pub event_on : Event → Shelf → Shelf
  event_on (uploaded a status) shelf = upload_on a status shelf
  event_on (removed d) shelf = remove_document d shelf

  unfoldable pub replay : List Event → Shelf → Shelf
  replay [] shelf = shelf
  replay (e ∷ es) shelf = replay es (event_on e shelf)

  -- Requests of one bot, one after the other, up to the first that raises.
  unfoldable pub run_op : Text → Text → Op → Exec (World D L Q) Event
  run_op t b (put d body) = do
    r ← upload env (args t b d body)
    pure (uploaded (args t b d body) r.status)
  run_op t b (remove d) = do r ← delete_document env t b d; pure (removed d)

  unfoldable pub run_ops : Text → Text → List Op → Exec (World D L Q) (List Event)
  run_ops t b [] = pure []
  run_ops t b (op ∷ ops) = do event ← run_op t b op; events ← run_ops t b ops; pure (event ∷ events)

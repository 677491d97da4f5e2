-- ===== src/Ingestion/Pipeline/Upload/Effects.antt =====
-- What an upload that returns has done to the points of the bot's collection.
use qdrant_database.Prelude.{◌≡◌, refl, Bool, true, false, Option, none, some, List, Text}
use qdrant_database.Exec.{ok, lift, Exec, ◌>>=◌}
use qdrant_database.Exec.Yields.{
  Yields, Yields-pure, Yields-if, Yields-bind, Yields-guard, Yields-kept, Yields-lift,
}
use qdrant_database.Naming.{collection_name}
use qdrant_database.Documents.Models.{Document, Bot}
use qdrant_database.Ingestion.World.{World, Env, on_database}
use qdrant_database.Ingestion.Pipeline.Rows.{
  has_doc_id, is_foreign, is_unchanged, is_content_match, get_or_create_tenant, get_or_create_bot,
  touched,
}
use qdrant_database.Ingestion.Pipeline.Hashing.{incoming_hash}
use qdrant_database.Ingestion.Pipeline.Locked.Yielded.{Served, upload_lock-Yields}
use qdrant_database.Ingestion.Pipeline.Points.Distinct.{IsApart}
use qdrant_database.Ingestion.Pipeline.Upload.{
  UploadArgs, UploadResult, no_change_result, unless_matched, match_content, unless_unchanged,
  check_owner, upload_body, upload,
}
use qdrant_database.Ingestion.Pipeline.Upload.Points.{
  Effect, Now, Before, Goal, ingest-Effect, flat,
}
use qdrant_database.Qdrant.Client.{Point}
use qdrant_database.Qdrant.Collection.Laws.{QdrantLaws}

module _ {D L Q : Type 0} (env : Env D L Q) (qd : QdrantLaws env.client) (a : UploadArgs)
    (name : Text) (named : collection_name a.tenant_id a.bot_id ≡ ok name)
    (apart : IsApart env.uuid5 a.doc_id (flat env a)) (old : List Point) where
  abbrev Start : World D L Q → Type 0
  Start = Served (
      Now env qd a name named apart (incoming_hash env.sha256 a.body) old
        (Before env qd a name named apart (incoming_hash env.sha256 a.body) old))

  abbrev End : UploadResult → World D L Q → Type 0
  End = Goal env qd a name named apart (incoming_hash env.sha256 a.body) old

  -- Calls on the tables leave the points alone.
  tables-Yields : {A : Type 0} (m : Exec D A) → Yields Start (on_database m) (λ x. Start)
  tables-Yields m = Yields-kept _ (record { at = λ w h. h })

  no_change-Yields : (j : Text) (x : Document) → Yields Start (no_change_result env a j x) End
  unfolding no_change_result
  no_change-Yields j x =
      Yields-bind (λ u. Start) (on_database (env.db.document_save x.doc_id touched)) _
        (tables-Yields _)
        λ u.
          Yields-bind (λ n. Start) (lift (collection_name a.tenant_id a.bot_id)) _ (Yields-lift _)
            (λ n. Yields-pure _ (λ w h. h))

  match-Yields :
      (bot : Bot) (b : Bool)
      → Yields Start (match_content env a bot (incoming_hash env.sha256 a.body) b) End
  unfolding match_content
  match-Yields bot b =
      Yields-bind (λ o. Start)
        (on_database (
          env.db.document_first
            (is_content_match a.tenant_id a.bot_id a.doc_id (incoming_hash env.sha256 a.body))))
        _ (tables-Yields _) go
    where
      go :
          (o : Option Document)
          → Yields Start (unless_matched env a bot (incoming_hash env.sha256 a.body) b o) End
      go none =
          unfold unless_matched in
          ingest-Effect env qd a name named apart (incoming_hash env.sha256 a.body) old bot b
      go (some x) = unfold unless_matched in no_change-Yields x.doc_id x

  checked-Yields :
      (bot : Bot) (o : Option Document)
      → Yields Start
          (check_owner env a o >>= λ u.
            unless_unchanged env a bot (incoming_hash env.sha256 a.body) o)
          End
  unfolding check_owner unless_unchanged
  checked-Yields bot none = match-Yields bot false
  checked-Yields bot (some x) = Yields-guard (is_foreign a.tenant_id a.bot_id x) _ _ λ ours.
      Yields-if (is_unchanged (incoming_hash env.sha256 a.body) x) _ _
        (λ same. no_change-Yields a.doc_id x) (λ new. match-Yields bot true)

  body-Yields : Yields Start (upload_body env a) End
  unfolding upload_body
  body-Yields =
      Yields-bind (λ t. Start) (on_database (get_or_create_tenant env.db a.tenant_id)) _
        (tables-Yields _)
        λ t.
          Yields-bind (λ b. Start) (on_database (get_or_create_bot env.db t a.bot_id)) _
            (tables-Yields _)
            λ b.
              Yields-bind (λ o. Start) (on_database (env.db.document_first (has_doc_id a.doc_id))) _
                (tables-Yields _) (λ o. checked-Yields b o)

module _ {D L Q : Type 0} (env : Env D L Q) (qd : QdrantLaws env.client) where
  -- An upload that returns with `no_change` has left the points of the bot's collection as they
  -- were. One that returns with `replaced` leaves as the points of the document exactly those built
  -- from the chunks of its body, one for each chunk that it reports; one that returns with `created`
  -- puts them after the points under the document's id that were there and have other ids. The
  -- points of other documents stay, but for those with the id of a new point. (Where UUIDv5 tells
  -- the chunk ids of the body apart.)
  pub upload_stores_points :
      (a : UploadArgs) (name : Text) (w w' : World D L Q) (r : UploadResult)
      → collection_name a.tenant_id a.bot_id ≡ ok name
      → IsApart env.uuid5 a.doc_id (flat env a)
      → upload env a w ≡ (ok r, w')
      → Effect env a
          (incoming_hash env.sha256 a.body)
          (qd.points w.qdrant name)
          r.status
          r.chunks_created
          (qd.points w'.qdrant name)
  unfolding upload
  upload_stores_points a name w w' r named apart h =
      (upload_lock-Yields env _ _ a.tenant_id a.bot_id a.doc_id _
          (body-Yields env qd a name named apart (qd.points w.qdrant name))).at
        w r w' refl h

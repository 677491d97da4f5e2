-- ===== src/Ingestion/Pipeline/Upload/Again.antt =====
-- What an upload that returns leaves in the table for the next upload of the same body.
use qdrant_database.Prelude.{
  ◌≡◌, refl, ap, subst, ℕ, Bool, true, some, List, Text, text_eq_refl, text_eq_sound, length, ltb,
  ◌⊎◌, inl, inr, Option-cases,
}
use qdrant_database.Exec.{Outcome, ok, Exec, lift}
use qdrant_database.Exec.Yields.{Yields, Yields-pure, Yields-bind, Yields-lift}
use qdrant_database.Naming.{collection_name}
use qdrant_database.Documents.Models.{Document, Bot}
use qdrant_database.Documents.Models.Laws.{DatabaseLaws}
use qdrant_database.Ingestion.World.{World, Env, on_database}
use qdrant_database.Ingestion.Pipeline.Rows.{has_doc_id, is_unchanged, is_content_match, touched}
use qdrant_database.Ingestion.Pipeline.Hashing.{incoming_hash}
use qdrant_database.Ingestion.Pipeline.Locked.Yielded.{Served, Anything}
use qdrant_database.Ingestion.Pipeline.Upload.{
  UploadArgs, UploadResult, no_change, no_change_result, delete_old, upsert_points, store_points,
  ingest, saved, fresh,
}
use qdrant_database.Ingestion.Pipeline.Upload.Rules.{AfterQuery}
use qdrant_database.Ingestion.Pipeline.Upload.Stored.{prepare_points-Yields}
use qdrant_database.Qdrant.Client.{Point}

module _ {D L Q : Type 0} (env : Env D L Q) (db : DatabaseLaws env.db) (a : UploadArgs) where
  abbrev pub hash : Text
  hash = incoming_hash env.sha256 a.body

  abbrev pub matches : Document → Bool
  matches = is_content_match a.tenant_id a.bot_id a.doc_id hash

  -- A row that makes the next upload one of `no_change`: under the id, or with the same content.
  abbrev pub Settled : D → Q → Type 0
  Settled d q =
      ((x : Document) × (db.row d a.doc_id ≡ some x) × (is_unchanged hash x ≡ true))
      ⊎ ((y : Document) × (db.row d y.doc_id ≡ some y) × (matches y ≡ true))

  saved_unchanged :
      (bot : Bot) (n now : ℕ) (x : Document)
      → ltb 0 n ≡ true
      → is_unchanged hash (saved a bot hash n now x) ≡ true
  saved_unchanged bot n now x h = rw (h, text_eq_refl hash) refl

  stored :
      (bot : Bot) (n : ℕ) (w v : World D L Q)
      → ltb 0 n ≡ true
      → env.db.document_update_or_create a.doc_id
          (saved a bot hash n)
          (fresh a bot hash n)
          w.database
        ≡ (ok tt, v.database)
      → Settled v.database v.qdrant
  stored bot n w v some_points e = elim (Option-cases (db.row w.database a.doc_id)) [
    | inl missing ↦
        let (now, there) = db.create_done a.doc_id _ _ w.database v.database missing e in
        inl (fresh a bot hash n now, there, rw (some_points, text_eq_refl hash) refl)
    | inr (x, found) ↦
        let (now, there) = db.update_done a.doc_id _ _ x w.database v.database found e in
        inl (saved a bot hash n now x, there, saved_unchanged bot n now x some_points)
  ]

  pub anything :
      {A : Type 0} (m : Exec (World D L Q) A)
      → Yields (Served {L = L} Anything) m (λ x. Served Anything)
  anything m = record { at = λ w x v h e. tt }

  store-Settled :
      (bot : Bot) (b : Bool) (name : Text) (ps : List Point)
      → ltb 0 (length ps) ≡ true
      → Yields
          (Served {L = L} Anything)
          (store_points env a bot hash b name ps)
          (λ r. Served Settled)
  unfolding store_points
  store-Settled bot b name ps some_points =
      Yields-bind (λ u. Served Anything) (delete_old env a b) _ (anything _)
        λ u.
          Yields-bind (λ v. Served Anything) (upsert_points env a name ps) _ (anything _)
            λ v.
              Yields-bind (λ z. Served Settled)
                (on_database (
                  env.db.document_update_or_create a.doc_id (saved a bot hash (length ps))
                    (fresh a bot hash (length ps))))
                _
                (record {
                  at = λ w z x h e.
                      stored bot (length ps) w x some_points
                        (ap (λ (r : Outcome (Unit {0}) × World D L Q). (r.0, r.1.database)) e);
                })
                λ z. Yields-pure _ (λ w h. h)

  pub ingest-Settled :
      (bot : Bot) (b : Bool)
      → Yields (Served {L = L} Anything) (ingest env a bot hash b) (λ r. Served Settled)
  unfolding ingest
  ingest-Settled bot b =
      Yields-bind (λ n. Served Anything) _ _ (anything _)
        λ n.
          Yields-bind (λ ps w. ltb 0 (length ps) ≡ true) _ _ (prepare_points-Yields env db a hash)
            λ ps. record {
              at = λ w r v some_points e. (store-Settled bot b n ps some_points).at w r v tt e;
            }

  -- The touch of a row, and the answer.
  touch-Yields :
      (j : Text) (x : Document) (P : D → Q → Type 0)
      → ((now : ℕ) (d : D) (q : Q) → db.row d x.doc_id ≡ some (touched now x) → P d q)
      → Yields
          (Served {L = L} (λ d q. db.row d x.doc_id ≡ some x))
          (no_change_result env a j x)
          (λ r w. (r.status ≡ no_change) × Served P w)
  unfolding no_change_result
  touch-Yields j x P k =
      Yields-bind (λ u. Served P) (on_database (env.db.document_save x.doc_id touched)) _
        (record {
          at = λ w u v h e.
              let (now, there) =
                db.save_done x.doc_id touched x w.database v.database h
                  (ap (λ (r : Outcome (Unit {0}) × World D L Q). (r.0, r.1.database)) e) in
              k now v.database v.qdrant there;
        })
        λ u.
          Yields-bind (λ n. Served P) (lift (collection_name a.tenant_id a.bot_id)) _
            (Yields-lift _) (λ n. Yields-pure _ (λ w h. (refl, h)))

  touched-matches : (now : ℕ) (y : Document) → matches y ≡ true → matches (touched now y) ≡ true
  unfolding is_content_match
  touched-matches now y h = h

  -- Where a matching row was found, it is there after the touch.
  pub matched-Settled :
      (x : Document) (w v : World D L Q) (r : UploadResult)
      → AfterQuery env db a matches (some x) w.database w.qdrant
      → no_change_result env a x.doc_id x w ≡ (ok r, v)
      → (r.status ≡ no_change) × Settled v.database v.qdrant
  matched-Settled x w v r (there, hit) e =
      (touch-Yields x.doc_id x Settled
          (λ now d q row. inr (touched now x, row, touched-matches now x hit))).at
        w r v there e

  pub unchanged-Settled :
      (x : Document) (w v : World D L Q) (r : UploadResult)
      → AfterQuery env db a (has_doc_id a.doc_id) (some x) w.database w.qdrant
      → is_unchanged hash x ≡ true
      → no_change_result env a a.doc_id x w ≡ (ok r, v)
      → (r.status ≡ no_change) × Settled v.database v.qdrant
  unchanged-Settled x w v r (there, hit) same e =
      (touch-Yields a.doc_id x Settled (λ now d q row. inl (
        touched now x,
        subst (λ (i : Text). db.row d i ≡ some (touched now x))
            (text_eq_sound x.doc_id a.doc_id hit) row,
        same,
      ))).at
        w r v there e

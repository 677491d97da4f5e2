-- ===== src/Ingestion/Pipeline/Upload/Repeated.antt =====
-- An upload that has returned is not stored a second time.
use qdrant_database.Prelude.{
  ◌≡◌, refl, ap, subst, Bool, true, false, Option, none, some, Text, text_eq_sound, ◌⊎◌, inl, inr,
}
use qdrant_database.Exec.{Outcome, ok, Exec, ◌>>=◌}
use qdrant_database.Exec.Keeps.{Keeps}
use qdrant_database.Exec.Yields.{Yields, Yields-if, Yields-bind, Yields-guard, Yields-kept}
use qdrant_database.Documents.Models.{Document, Bot}
use qdrant_database.Documents.Models.Laws.{DatabaseLaws}
use qdrant_database.Ingestion.World.{World, Env, on_database}
use qdrant_database.Ingestion.Pipeline.Rows.{
  has_doc_id, is_foreign, is_unchanged, get_or_create_tenant, get_or_create_bot,
}
use qdrant_database.Ingestion.Pipeline.Isolation.{
  Stays, tenant-Stays, bot-Stays, first-Stays, found_is, none_found,
}
use qdrant_database.Ingestion.Pipeline.Locked.Yielded.{Served, Anything, upload_lock-Yields}
use qdrant_database.Ingestion.Pipeline.Upload.{
  UploadArgs, UploadResult, no_change, unless_matched, match_content, unless_unchanged, check_owner,
  upload_body, upload,
}
use qdrant_database.Ingestion.Pipeline.Upload.Rules.{AfterQuery, query-Yields}
use qdrant_database.Ingestion.Pipeline.Upload.Again.{
  hash, matches, Settled, ingest-Settled, matched-Settled, unchanged-Settled, anything,
}

module _ {D L Q : Type 0} (env : Env D L Q) (db : DatabaseLaws env.db) (a : UploadArgs) where
  abbrev IsSettled : World D L Q → Type 0
  IsSettled = Served (Settled env db a)

  -- The first upload.
  match-first :
      (bot : Bot) (b : Bool)
      → Yields
          (Served {L = L} Anything)
          (match_content env a bot (hash env db a) b)
          (λ r. IsSettled)
  unfolding match_content
  match-first bot b =
      Yields-bind (λ o. Served (AfterQuery env db a (matches env db a) o))
        (on_database (env.db.document_first (matches env db a))) _
        (query-Yields env db a (matches env db a)) go
    where
      go :
          (o : Option Document)
          → Yields
              (Served {L = L} (AfterQuery env db a (matches env db a) o))
              (unless_matched env a bot (hash env db a) b o)
              (λ r. IsSettled)
      go none = unfold unless_matched in ingest-Settled env db a bot b
      go (some x) =
          unfold unless_matched in
          record { at = λ w r v h e. (matched-Settled env db a x w v r h e).1 }

  checked-first :
      (bot : Bot) (o : Option Document)
      → Yields
          (Served {L = L} (AfterQuery env db a (has_doc_id a.doc_id) o))
          (check_owner env a o >>= λ u. unless_unchanged env a bot (hash env db a) o)
          (λ r. IsSettled)
  unfolding check_owner unless_unchanged
  checked-first bot none = match-first bot false
  checked-first bot (some x) = Yields-guard (is_foreign a.tenant_id a.bot_id x) _ _ λ ours.
      Yields-if (is_unchanged (hash env db a) x) _ _
        (λ same. record { at = λ w r v h e. (unchanged-Settled env db a x w v r h same e).1 })
        (λ new. record { at = λ w r v h e. (match-first bot true).at w r v tt e })

  body-first : Yields (Served {L = L} Anything) (upload_body env a) (λ r. IsSettled)
  unfolding upload_body
  body-first =
      Yields-bind (λ t. Served Anything) (on_database (get_or_create_tenant env.db a.tenant_id)) _
        (anything env db a _)
        λ t.
          Yields-bind (λ b. Served Anything) (on_database (get_or_create_bot env.db t a.bot_id)) _
            (anything env db a _)
            λ b.
              Yields-bind (λ o. Served (AfterQuery env db a (has_doc_id a.doc_id) o))
                (on_database (env.db.document_first (has_doc_id a.doc_id))) _
                (query-Yields env db a (has_doc_id a.doc_id)) (λ o. checked-first b o)

  -- The second: what keeps every row keeps the table settled.
  rows_keep :
      {A : Type 0} (m : Exec D A)
      → ((id : Text) (x : Document) → Keeps (Stays env.db db id x) m)
      → Keeps IsSettled (on_database m)
  rows_keep m k = record { at = λ w h. go w h }
    where
      go : (w : World D L Q) → IsSettled w → IsSettled (on_database m w).1
      go w (inl (x, row, same)) = inl (x, (k a.doc_id x).at w.database row, same)
      go w (inr (y, row, hit)) = inr (y, (k y.doc_id y).at w.database row, hit)

  -- After the query for the id.
  abbrev Known : Option Document → D → Q → Type 0
  Known none d q = (y : Document) × (db.row d y.doc_id ≡ some y) × (matches env db a y ≡ true)
  Known (some x) d q =
      AfterQuery env db a (has_doc_id a.doc_id) (some x) d q
      × ((is_unchanged (hash env db a) x ≡ true)
          ⊎ ((y : Document) × (db.row d y.doc_id ≡ some y) × (matches env db a y ≡ true)))

  known :
      (o : Option Document) (w v : World D L Q)
      → Settled env db a w.database w.qdrant
      → on_database (env.db.document_first (has_doc_id a.doc_id)) w ≡ (ok o, v)
      → Known o v.database v.qdrant
  known o w v h e = go o h ((query-Yields env db a (has_doc_id a.doc_id)).at w o v tt e) run
    where
      run : env.db.document_first (has_doc_id a.doc_id) w.database ≡ (ok o, v.database)
      run = ap (λ (r : Outcome (Option Document) × World D L Q). (r.0, r.1.database)) e

      later :
          (id : Text) (y : Document) → db.row w.database id ≡ some y → db.row v.database id ≡ some y
      later id y row =
          subst (λ (d : D). db.row d id ≡ some y)
            (ap (λ (r : Outcome (Option Document) × World D L Q). r.1.database) e)
            ((first-Stays env.db db id y (has_doc_id a.doc_id)).at w.database row)

      go :
          (p : Option Document)
          → Settled env db a w.database w.qdrant
          → AfterQuery env db a (has_doc_id a.doc_id) p v.database v.qdrant
          → env.db.document_first (has_doc_id a.doc_id) w.database ≡ (ok p, v.database)
          → Known p v.database v.qdrant
      go none (inl (x, row, same)) found f =
          absurd (none_found env.db db a.doc_id x a.doc_id w.database v.database row f refl)
      go none (inr (y, row, hit)) found f = (y, later y.doc_id y row, hit)
      go (some p) (inl (x, row, same)) found f =
          let own = text_eq_sound p.doc_id a.doc_id found.1 in
          let is_x =
            found_is env.db db a.doc_id x (has_doc_id a.doc_id) p w.database v.database row f own in
          (found, inl (rw is_x same))
      go (some p) (inr (y, row, hit)) found f = (found, inr (y, later y.doc_id y row, hit))

  match-second :
      (bot : Bot) (b : Bool)
      → Yields
          (Served {L = L} (Known none))
          (match_content env a bot (hash env db a) b)
          (λ r w. r.status ≡ no_change)
  unfolding match_content
  match-second bot b =
      Yields-bind (λ o w. Found o w) (on_database (env.db.document_first (matches env db a))) _
        (record { at = λ w o v h e. find o w v h e }) go
    where
      Found : Option Document → World D L Q → Type 0
      Found none w = ⊥
      Found (some x) w = AfterQuery env db a (matches env db a) (some x) w.database w.qdrant

      find :
          (o : Option Document) (w v : World D L Q)
          → Known none w.database w.qdrant
          → on_database (env.db.document_first (matches env db a)) w ≡ (ok o, v)
          → Found o v
      find none w v (y, row, hit) e =
          let missing =
            db.first_done (matches env db a) none w.database v.database
              (ap (λ (r : Outcome (Option Document) × World D L Q). (r.0, r.1.database)) e) y.doc_id
              y row in
          cc (missing, hit)
      find (some x) w v h e = (query-Yields env db a (matches env db a)).at w (some x) v tt e

      go :
          (o : Option Document)
          → Yields
              (Found o)
              (unless_matched env a bot (hash env db a) b o)
              (λ r w. r.status ≡ no_change)
      go none = record { at = λ w r v h e. absurd h }
      go (some x) =
          unfold unless_matched in
          record { at = λ w r v h e. (matched-Settled env db a x w v r h e).0 }

  checked-second :
      (bot : Bot) (o : Option Document)
      → Yields
          (Served {L = L} (Known o))
          (check_owner env a o >>= λ u. unless_unchanged env a bot (hash env db a) o)
          (λ r w. r.status ≡ no_change)
  unfolding check_owner unless_unchanged
  checked-second bot none = match-second bot false
  checked-second bot (some x) = Yields-guard (is_foreign a.tenant_id a.bot_id x) _ _ λ ours.
      Yields-if (is_unchanged (hash env db a) x) _ _
        (λ same. record { at = λ w r v h e. (unchanged-Settled env db a x w v r h.0 same e).0 })
        (λ new. record { at = λ w r v h e. go w r v new h.1 e })
    where
      go :
          (w : World D L Q) (r : UploadResult) (v : World D L Q)
          → is_unchanged (hash env db a) x ≡ false
          → (is_unchanged (hash env db a) x ≡ true) ⊎ Known none w.database w.qdrant
          → match_content env a bot (hash env db a) true w ≡ (ok r, v)
          → r.status ≡ no_change
      go w r v new (inl same) e = cc (new, same)
      go w r v new (inr other) e = (match-second bot true).at w r v other e

  body-second : Yields IsSettled (upload_body env a) (λ r w. r.status ≡ no_change)
  unfolding upload_body
  body-second =
      Yields-bind (λ t. IsSettled) (on_database (get_or_create_tenant env.db a.tenant_id)) _
        (Yields-kept _ (rows_keep _ (λ id x. tenant-Stays env.db db id x a.tenant_id)))
        λ t.
          Yields-bind (λ b. IsSettled) (on_database (get_or_create_bot env.db t a.bot_id)) _
            (Yields-kept _ (rows_keep _ (λ id x. bot-Stays env.db db id x t a.bot_id)))
            λ b.
              Yields-bind (λ o. Served (Known o))
                (on_database (env.db.document_first (has_doc_id a.doc_id))) _
                (record { at = λ w o v h e. known o w v h e }) (λ o. checked-second b o)

module _ {D L Q : Type 0} (env : Env D L Q) (db : DatabaseLaws env.db) where
  -- When an upload has returned, in whatever way it ended, the same upload made again right after it
  -- answers `no_change` if it returns.
  pub upload_twice :
      (a : UploadArgs) (w w' w'' : World D L Q) (r r' : UploadResult)
      → upload env a w ≡ (ok r, w')
      → upload env a w' ≡ (ok r', w'')
      → r'.status ≡ no_change
  unfolding upload
  upload_twice a w w' w'' r r' h k =
      let settled =
        (upload_lock-Yields env Anything (λ x. Settled env db a) _ _ _ _ (body-first env db a)).at w
          r w' tt h in
      (upload_lock-Yields env (Settled env db a) (λ x d q. x.status ≡ no_change) _ _ _ _
          (body-second env db a)).at
        w' r' w'' settled k

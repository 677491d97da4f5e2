-- ===== src/Ingestion/Pipeline/Upload/Reports.antt =====
-- What an upload that returns has done to the row that its result names.
use qdrant_database.Prelude.{
  refl, text_eq_sound, ◌≡◌, Bool, true, false, Option, none, some, Text, ltb, arith,
}
use qdrant_database.Exec.{ok, ◌>>=◌}
use qdrant_database.Exec.Yields.{Yields, Yields-if, Yields-bind, Yields-guard}
use qdrant_database.Documents.Models.{Document, Bot}
use qdrant_database.Documents.Models.Laws.{DatabaseLaws}
use qdrant_database.Ingestion.World.{World, Env, on_database}
use qdrant_database.Ingestion.Pipeline.Rows.{
  has_doc_id, is_foreign, is_unchanged, is_content_match, get_or_create_tenant, get_or_create_bot,
}
use qdrant_database.Ingestion.Pipeline.Locked.Yielded.{Served, Anything, upload_lock-Yields}
use qdrant_database.Ingestion.Pipeline.Hashing.{incoming_hash}
use qdrant_database.Ingestion.Pipeline.Upload.{
  UploadResult, UploadArgs, check_owner, unless_matched, match_content, unless_unchanged,
  upload_body, upload,
}
use qdrant_database.Ingestion.Pipeline.Upload.Rules.{
  Reported, AfterQuery, query-Yields, no_change-Yields,
}
use qdrant_database.Ingestion.Pipeline.Upload.Stored.{ingest-Yields}

module _ {D L Q : Type 0} (env : Env D L Q) (db : DatabaseLaws env.db) (a : UploadArgs) where
  unchanged_counts :
      (h : Text) (x : Document) → is_unchanged h x ≡ true → ltb 0 x.chunk_count ≡ true
  unchanged_counts h x e = ground arith

  match_facts :
      (t b j h : Text) (x : Document)
      → is_content_match t b j h x ≡ true
      → (is_foreign t b x ≡ false) × (ltb 0 x.chunk_count ≡ true)
  unfolding is_content_match
  match_facts t b j h x e = (ground arith, ground arith)

  abbrev Goal : UploadResult → World D L Q → Type 0
  Goal r = Served (Reported env db a r)

  matched-Yields :
      (bot : Bot) (h : Text) (b : Bool) (o : Option Document)
      → Yields
          (Served {L = L}
            (AfterQuery env db a (is_content_match a.tenant_id a.bot_id a.doc_id h) o))
          (unless_matched env a bot h b o)
          Goal
  unfolding unless_matched
  matched-Yields bot h b none = ingest-Yields env db a bot h b
  matched-Yields bot h b (some x) = record {
    at = λ w r v k e.
        let (ours, filled) = match_facts _ _ a.doc_id h x k.1 in
        (no_change-Yields env db a x.doc_id x refl ours filled).at w r v k.0 e;
  }

  match-Yields :
      (bot : Bot) (h : Text) (b : Bool)
      → Yields (Served {L = L} Anything) (match_content env a bot h b) Goal
  unfolding match_content
  match-Yields bot h b =
      let p = is_content_match a.tenant_id a.bot_id a.doc_id h in
      Yields-bind (λ o. Served (AfterQuery env db a p o)) _ _ (query-Yields env db a p)
        (λ o. matched-Yields bot h b o)

  unchanged-Yields :
      (bot : Bot) (h : Text) (x : Document)
      → is_foreign a.tenant_id a.bot_id x ≡ false
      → Yields
          (Served {L = L} (AfterQuery env db a (has_doc_id a.doc_id) (some x)))
          (unless_unchanged env a bot h (some x))
          Goal
  unfolding unless_unchanged
  unchanged-Yields bot h x ours =
      Yields-if (is_unchanged h x) _ _
        (λ same. record {
          at = λ w r v k e.
              (no_change-Yields env db a a.doc_id x (text_eq_sound x.doc_id a.doc_id k.1) ours
                  (unchanged_counts h x same)).at
                w r v k.0 e;
        })
        (λ new. record { at = λ w r v k e. (match-Yields bot h true).at w r v tt e })

  checked-Yields :
      (bot : Bot) (h : Text) (o : Option Document)
      → Yields
          (Served {L = L} (AfterQuery env db a (has_doc_id a.doc_id) o))
          (check_owner env a o >>= λ u. unless_unchanged env a bot h o)
          Goal
  unfolding check_owner unless_unchanged
  checked-Yields bot h none = match-Yields bot h false
  checked-Yields bot h (some x) =
      Yields-guard (is_foreign a.tenant_id a.bot_id x) _ _ λ ours. unchanged-Yields bot h x ours

  body-Yields : Yields (Served {L = L} Anything) (upload_body env a) Goal
  unfolding upload_body
  body-Yields =
      Yields-bind (λ t. Served Anything) (on_database (get_or_create_tenant env.db a.tenant_id)) _
        (record { at = λ w x v h e. tt })
        λ t.
          Yields-bind (λ b. Served Anything) (on_database (get_or_create_bot env.db t a.bot_id)) _
            (record { at = λ w x v h e. tt })
            λ b.
              Yields-bind (λ o. Served (AfterQuery env db a (has_doc_id a.doc_id) o)) _ _
                (query-Yields env db a (has_doc_id a.doc_id))
                λ o. checked-Yields b (incoming_hash env.sha256 a.body) o

module _ {D L Q : Type 0} (env : Env D L Q) (db : DatabaseLaws env.db) where
  -- When an upload returns, whether it stored the document, found it unchanged, or found its
  -- content under another id, the table has a row under the id of the result, which belongs to
  -- the bot of the request and holds the counts of the result, with at least one chunk.
  pub upload_reports :
      (a : UploadArgs) (w w' : World D L Q) (r : UploadResult)
      → upload env a w ≡ (ok r, w')
      → Reported env db a r w'.database w'.qdrant
  unfolding upload
  upload_reports a w w' r h =
      (upload_lock-Yields env _ _ _ _ _ _ (body-Yields env db a)).at w r w' tt h

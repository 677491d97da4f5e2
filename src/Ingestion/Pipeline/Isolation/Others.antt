-- ===== src/Ingestion/Pipeline/Isolation/Others.antt =====
-- An upload and a deletion leave the rows of other tenants and bots alone.
use qdrant_database.Prelude.{
  arith, ℕ, ◌≡◌, ◌≢◌, ap, ◌∙◌, Bool, true, false, subst, Option, none, some, Text, text_eq_sound,
  List,
}
use qdrant_database.Exec.{Outcome, ok, Exec, ◌>>=◌}
use qdrant_database.Exec.Keeps.{
  Keeps, Keeps-bind, Keeps-bind_post, Keeps-raise, Keeps-pure, Keeps-if, Keeps-guard, Keeps-unless,
  Keeps-try_finally, keeps_rules,
}
use qdrant_database.Documents.Models.{Bot, Document}
use qdrant_database.Documents.Models.Laws.{DatabaseLaws}
use qdrant_database.Ingestion.World.{World, Env, on_database}
use qdrant_database.Ingestion.Pipeline.Frame.{Tables, qdrant-Tables, locks-Tables, database-Tables}
use qdrant_database.Ingestion.Pipeline.Rows.{has_doc_id, is_foreign, is_content_match}
use qdrant_database.Ingestion.Pipeline.Isolation.{
  Stays, tenant-Stays, bot-Stays, first-Stays, found_is, none_found, save-Stays, update-Stays,
}
use qdrant_database.Ingestion.Pipeline.Locking.{Keeps-as_write_error, Keeps-always_as}
use qdrant_database.Ingestion.Pipeline.Locked.{upload_lock}
use qdrant_database.Ingestion.Pipeline.Upload.{
  UploadArgs, check_owner, no_change_result, open_collection, prepare_points, delete_old,
  upsert_points, store_points, ingest, unless_matched, match_content, unless_unchanged, upload_body,
  upload,
}
use qdrant_database.Ingestion.Pipeline.Delete.{
  delete_existing, delete_found, delete_document_body, delete_document,
}
use qdrant_database.Qdrant.Client.{Point}

module _ {D L Q : Type 0} (env : Env D L Q) (laws : DatabaseLaws env.db) (id : Text)
    (d : Document) where
  abbrev Kept : World D L Q → Type 0
  Kept = Tables (Stays env.db laws id d)

  ruleset kept_rules = (keeps_rules, qdrant-Tables, Keeps-as_write_error, Keeps-always_as)

  save-Kept :
      (j : Text) (f : ℕ → Document → Document)
      → j ≢ id
      → Keeps Kept (on_database (env.db.document_save j f))
  save-Kept j f n = database-Tables _ _ (save-Stays env.db laws id d j f n)

  update-Kept :
      (j : Text) (f : ℕ → Document → Document) (g : ℕ → Document)
      → j ≢ id
      → Keeps Kept (on_database (env.db.document_update_or_create j f g))
  update-Kept j f g n = database-Tables _ _ (update-Stays env.db laws id d j f g n)

  no_change-Kept :
      (a : UploadArgs) (j : Text) (x : Document)
      → x.doc_id ≢ id
      → Keeps Kept (no_change_result env a j x)
  unfolding no_change_result
  no_change-Kept a j x n = search (kept_rules, save-Kept)

  open_collection-Kept : (a : UploadArgs) → Keeps Kept (open_collection env a)
  unfolding open_collection
  open_collection-Kept a = search kept_rules

  prepare_points-Kept : (a : UploadArgs) (h : Text) → Keeps Kept (prepare_points env a h)
  unfolding prepare_points
  prepare_points-Kept a h = search kept_rules

  delete_old-Kept : (a : UploadArgs) (b : Bool) → Keeps Kept (delete_old env a b)
  unfolding delete_old
  delete_old-Kept a true = search kept_rules
  delete_old-Kept a false = search kept_rules

  upsert_points-Kept :
      (a : UploadArgs) (n : Text) (ps : List Point) → Keeps Kept (upsert_points env a n ps)
  unfolding upsert_points
  upsert_points-Kept a n ps = search kept_rules

  store_points-Kept :
      (a : UploadArgs) (bot : Bot) (h : Text) (b : Bool) (n : Text) (ps : List Point)
      → a.doc_id ≢ id
      → Keeps Kept (store_points env a bot h b n ps)
  unfolding store_points
  store_points-Kept a bot h b n ps other =
      search (kept_rules, delete_old-Kept, upsert_points-Kept, update-Kept)

  ingest-Kept :
      (a : UploadArgs) (bot : Bot) (h : Text) (b : Bool)
      → a.doc_id ≢ id
      → Keeps Kept (ingest env a bot h b)
  unfolding ingest
  ingest-Kept a bot h b other =
      search (kept_rules, open_collection-Kept, prepare_points-Kept, store_points-Kept)

  -- A row of the bot stands under another id than a row of another bot.
  not_foreign :
      (t b : Text) (x : Document)
      → is_foreign t b d ≡ true
      → is_foreign t b x ≡ false
      → (x.doc_id ≡ id → x ≡ d)
      → x.doc_id ≢ id
  not_foreign t b x theirs ours is same =
      let e = is same in
      let bad : is_foreign t b d ≡ false =
        subst (λ (y : Document). is_foreign t b y ≡ false) e ours in
      cc (bad, theirs)

  match_is_ours :
      (t b j h : Text) (x : Document) → is_content_match t b j h x ≡ true → is_foreign t b x ≡ false
  unfolding is_content_match
  match_is_ours t b j h x e = ground arith

  query_result :
      (p : Document → Bool) (w : World D L Q) (o : Option Document) (w' : World D L Q)
      → on_database (env.db.document_first p) w ≡ (ok o, w')
      → env.db.document_first p w.database ≡ (ok o, w'.database)
  query_result p w o w' e =
      ap (λ (r : Outcome (Option Document) × World D L Q). (r.0, r.1.database)) e

  -- What a query for `p` has found, where `d` stands under `id`.
  abbrev Found : (Document → Bool) → Option Document → Type 0
  Found p none = Unit
  Found p (some x) = (x.doc_id ≡ id → x ≡ d) × (p x ≡ true)

  query-Found :
      (p : Document → Bool) (w : World D L Q) (o : Option Document) (w' : World D L Q)
      → Kept w
      → on_database (env.db.document_first p) w ≡ (ok o, w')
      → Found p o
  query-Found p w none w' h e = tt
  query-Found p w (some x) w' h e =
      let run = query_result p w (some x) w' e in
      let (_, hit) = laws.first_done p (some x) w.database w'.database run in
      (found_is env.db laws id d p x w.database w'.database h run, hit)

  -- The same for the query by id: where it finds nothing, its id is not `id`.
  abbrev FoundById : Text → Option Document → Type 0
  FoundById j none = j ≢ id
  FoundById j (some x) = Found (has_doc_id j) (some x)

  query-FoundById :
      (j : Text) (w : World D L Q) (o : Option Document) (w' : World D L Q)
      → Kept w
      → on_database (env.db.document_first (has_doc_id j)) w ≡ (ok o, w')
      → FoundById j o
  query-FoundById j w none w' h e =
      none_found env.db laws id d j w.database w'.database h (query_result _ w none w' e)
  query-FoundById j w (some x) w' h e = query-Found _ w (some x) w' h e

  query-Kept : (p : Document → Bool) → Keeps Kept (on_database (env.db.document_first p))
  query-Kept p = database-Tables _ _ (first-Stays env.db laws id d p)

  lock-Kept :
      {A : Type 0} (t b j : Text) (body : Exec (World D L Q) A)
      → Keeps Kept body
      → Keeps Kept (upload_lock env t b j body)
  unfolding upload_lock
  lock-Kept t b j body k = search (kept_rules, Keeps-try_finally, locks-Tables)

  module _ (a : UploadArgs) (theirs : is_foreign a.tenant_id a.bot_id d ≡ true) where
    matched-Kept :
        (bot : Bot) (h : Text) (b : Bool) (o : Option Document)
        → a.doc_id ≢ id
        → Found (is_content_match a.tenant_id a.bot_id a.doc_id h) o
        → Keeps Kept (unless_matched env a bot h b o)
    unfolding unless_matched
    matched-Kept bot h b none other f = ingest-Kept a bot h b other
    matched-Kept bot h b (some x) other (is, hit) =
        no_change-Kept a x.doc_id x
          (not_foreign _ _ x theirs (match_is_ours _ _ a.doc_id h x hit) is)

    match-Kept :
        (bot : Bot) (h : Text) (b : Bool) → a.doc_id ≢ id → Keeps Kept (match_content env a bot h b)
    unfolding match_content
    match-Kept bot h b other =
        let p = is_content_match a.tenant_id a.bot_id a.doc_id h in
        Keeps-bind_post (Found p) _ _ (query-Kept p) (query-Found p)
          (λ o f. matched-Kept bot h b o other f)

    -- The row that the query by id found, once its owner is checked.
    abbrev Ours : Option Document → Type 0
    Ours none = Unit
    Ours (some x) = x.doc_id ≢ id

    unchanged-Kept :
        (bot : Bot) (h : Text) (o : Option Document)
        → a.doc_id ≢ id
        → Ours o
        → Keeps Kept (unless_unchanged env a bot h o)
    unfolding unless_unchanged
    unchanged-Kept bot h none other f = match-Kept bot h false other
    unchanged-Kept bot h (some x) other f =
        Keeps-if _ _ _ (no_change-Kept a a.doc_id x f) (match-Kept bot h true other)

    checked-Kept :
        (bot : Bot) (h : Text) (o : Option Document)
        → FoundById a.doc_id o
        → Keeps Kept (check_owner env a o >>= λ _. unless_unchanged env a bot h o)
    unfolding check_owner
    checked-Kept bot h none other =
        Keeps-bind _ _ (Keeps-pure tt) (λ u. unchanged-Kept bot h none other tt)
    checked-Kept bot h (some x) (is, hit) = Keeps-guard _ _ _ λ ours.
        let n = not_foreign _ _ x theirs ours is in
        unchanged-Kept bot h (some x) (λ e. n (text_eq_sound x.doc_id a.doc_id hit ∙ e)) n

    body-Kept : Keeps Kept (upload_body env a)
    unfolding upload_body
    body-Kept =
        Keeps-bind _ _ (database-Tables _ _ (tenant-Stays env.db laws id d a.tenant_id)) λ tenant.
          Keeps-bind _ _ (database-Tables _ _ (bot-Stays env.db laws id d tenant a.bot_id)) λ bot.
            Keeps-bind_post (FoundById a.doc_id) _ _ (query-Kept _) (query-FoundById a.doc_id)
              (checked-Kept bot _)

  delete_existing-Kept :
      (t b j : Text) (x : Document) → x.doc_id ≢ id → Keeps Kept (delete_existing env t b j x)
  unfolding delete_existing
  delete_existing-Kept t b j x n = search (kept_rules, save-Kept)

  delete_found-Kept :
      (t b j : Text) (o : Option Document)
      → is_foreign t b d ≡ true
      → FoundById j o
      → Keeps Kept (delete_found env t b j o)
  unfolding delete_found
  delete_found-Kept t b j none theirs f = Keeps-raise _
  delete_found-Kept t b j (some x) theirs (is, hit) =
      Keeps-unless _ _ _ λ ours. delete_existing-Kept t b j x (not_foreign t b x theirs ours is)

  delete_body-Kept :
      (t b j : Text) → is_foreign t b d ≡ true → Keeps Kept (delete_document_body env t b j)
  unfolding delete_document_body
  delete_body-Kept t b j theirs =
      Keeps-bind_post (FoundById j) _ _ (query-Kept _) (query-FoundById j)
        (λ o f. delete_found-Kept t b j o theirs f)

module _ {D L Q : Type 0} (env : Env D L Q) (laws : DatabaseLaws env.db) where
  upload_keeps_foreign :
      (a : UploadArgs) (id : Text) (d : Document) (w : World D L Q)
      → is_foreign a.tenant_id a.bot_id d ≡ true
      → laws.row w.database id ≡ some d
      → laws.row (upload env a w).1.database id ≡ some d
  unfolding upload
  upload_keeps_foreign a id d w theirs h =
      (lock-Kept env laws id d _ _ _ _ (body-Kept env laws id d a theirs)).at w h

  delete_keeps_foreign :
      (t b j id : Text) (d : Document) (w : World D L Q)
      → is_foreign t b d ≡ true
      → laws.row w.database id ≡ some d
      → laws.row (delete_document env t b j w).1.database id ≡ some d
  unfolding delete_document
  delete_keeps_foreign t b j id d w theirs h =
      (lock-Kept env laws id d _ _ _ _ (delete_body-Kept env laws id d t b j theirs)).at w h

  -- A row of another tenant or bot, under whatever id, is the same after an upload and after a
  -- deletion, however they end: also where their own id is that of the row, or the content to upload
  -- is.
  pub pipelines_keep_foreign :
      (a : UploadArgs) (j id : Text) (d : Document) (w : World D L Q)
      → is_foreign a.tenant_id a.bot_id d ≡ true
      → laws.row w.database id ≡ some d
      → (laws.row (upload env a w).1.database id ≡ some d)
        × (laws.row (delete_document env a.tenant_id a.bot_id j w).1.database id ≡ some d)
  pipelines_keep_foreign a j id d w theirs h = (
    upload_keeps_foreign a id d w theirs h,
    delete_keeps_foreign a.tenant_id a.bot_id j id d w theirs h,
  )

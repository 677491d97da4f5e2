-- ===== src/Ingestion/Pipeline/Locking.antt =====
-- Both pipelines give their lock back, on every path through them.
use qdrant_database.Prelude.{◌≡◌, Bool, true, false, Option, none, some, Text, List}
use qdrant_database.Errors.{Exc, UploadError, Details}
use qdrant_database.Errors
use qdrant_database.Exec.{ok}
use qdrant_database.Exec.Keeps.{Keeps, keeps_rules}
use qdrant_database.Naming.{advisory_lock_key}
use qdrant_database.Documents.Models.{Document, Bot}
use qdrant_database.Ingestion.Locks.{LockKey}
use qdrant_database.Ingestion.World.{World, Env}
use qdrant_database.Ingestion.Pipeline.Frame.{LocksAre, database-LocksAre, qdrant-LocksAre}
use qdrant_database.Ingestion.Pipeline.Locked.{acquire}
use qdrant_database.Ingestion.Pipeline.Locked.Released.{upload_lock_released}
use qdrant_database.Ingestion.Pipeline.Upload.{
  UploadArgs, as_write_error, always_as, check_owner, no_change_result, open_collection,
  prepare_points, delete_old, upsert_points, store_points, ingest, unless_matched, match_content,
  unless_unchanged, upload_body, upload,
}
use qdrant_database.Ingestion.Pipeline.Delete.{
  delete_existing, delete_found, delete_document_body, delete_document,
}
use qdrant_database.Qdrant.Client.{Point}

-- Handlers only raise.
pub Keeps-as_write_error :
    {S A : Type 0} {P : S → Type 0} (d : Details) (e : Exc) → Keeps P (as_write_error {A = A} d e)
Keeps-as_write_error d (Errors.qdrant_error q) = record { at = λ s h. h }
Keeps-as_write_error d _ = record { at = λ s h. h }

pub Keeps-always_as :
    {S A : Type 0} {P : S → Type 0} (u : UploadError) (e : Exc) → Keeps P (always_as {A = A} u e)
Keeps-always_as u e = record { at = λ s h. h }

ruleset lock_rules =
    (keeps_rules, database-LocksAre, qdrant-LocksAre, Keeps-as_write_error, Keeps-always_as)

module _ {D L Q : Type 0} (env : Env D L Q) (l : L) where
  check_owner-locks :
      (a : UploadArgs) (o : Option Document) → Keeps (LocksAre l) (check_owner env a o)
  unfolding check_owner
  check_owner-locks a none = search lock_rules
  check_owner-locks a (some d) = search lock_rules

  no_change_result-locks :
      (a : UploadArgs) (j : Text) (d : Document) → Keeps (LocksAre l) (no_change_result env a j d)
  unfolding no_change_result
  no_change_result-locks a j d = search lock_rules

  open_collection-locks : (a : UploadArgs) → Keeps (LocksAre l) (open_collection env a)
  unfolding open_collection
  open_collection-locks a = search lock_rules

  prepare_points-locks : (a : UploadArgs) (h : Text) → Keeps (LocksAre l) (prepare_points env a h)
  unfolding prepare_points
  prepare_points-locks a h = search lock_rules

  delete_old-locks : (a : UploadArgs) (b : Bool) → Keeps (LocksAre l) (delete_old env a b)
  unfolding delete_old
  delete_old-locks a true = search lock_rules
  delete_old-locks a false = search lock_rules

  upsert_points-locks :
      (a : UploadArgs) (n : Text) (ps : List Point) → Keeps (LocksAre l) (upsert_points env a n ps)
  unfolding upsert_points
  upsert_points-locks a n ps = search lock_rules

  store_points-locks :
      (a : UploadArgs) (bot : Bot) (h : Text) (b : Bool) (n : Text) (ps : List Point)
      → Keeps (LocksAre l) (store_points env a bot h b n ps)
  unfolding store_points
  store_points-locks a bot h b n ps = search (lock_rules, delete_old-locks, upsert_points-locks)

  ingest-locks :
      (a : UploadArgs) (bot : Bot) (h : Text) (b : Bool) → Keeps (LocksAre l) (ingest env a bot h b)
  unfolding ingest
  ingest-locks a bot h b =
      search (lock_rules, open_collection-locks, prepare_points-locks, store_points-locks)

  unless_matched-locks :
      (a : UploadArgs) (bot : Bot) (h : Text) (b : Bool) (o : Option Document)
      → Keeps (LocksAre l) (unless_matched env a bot h b o)
  unfolding unless_matched
  unless_matched-locks a bot h b none = ingest-locks a bot h b
  unless_matched-locks a bot h b (some d) = no_change_result-locks a d.doc_id d

  match_content-locks :
      (a : UploadArgs) (bot : Bot) (h : Text) (b : Bool)
      → Keeps (LocksAre l) (match_content env a bot h b)
  unfolding match_content
  match_content-locks a bot h b = search (lock_rules, unless_matched-locks)

  unless_unchanged-locks :
      (a : UploadArgs) (bot : Bot) (h : Text) (o : Option Document)
      → Keeps (LocksAre l) (unless_unchanged env a bot h o)
  unfolding unless_unchanged
  unless_unchanged-locks a bot h none = match_content-locks a bot h false
  unless_unchanged-locks a bot h (some d) =
      search (lock_rules, no_change_result-locks, match_content-locks)

  upload_body-locks : (a : UploadArgs) → Keeps (LocksAre l) (upload_body env a)
  unfolding upload_body
  upload_body-locks a = search (lock_rules, check_owner-locks, unless_unchanged-locks)

  delete_existing-locks :
      (t b d : Text) (x : Document) → Keeps (LocksAre l) (delete_existing env t b d x)
  unfolding delete_existing
  delete_existing-locks t b d x = search lock_rules

  delete_found-locks :
      (t b d : Text) (o : Option Document) → Keeps (LocksAre l) (delete_found env t b d o)
  unfolding delete_found
  delete_found-locks t b d none = search lock_rules
  delete_found-locks t b d (some x) = search (lock_rules, delete_existing-locks)

  delete_body-locks : (t b d : Text) → Keeps (LocksAre l) (delete_document_body env t b d)
  unfolding delete_document_body
  delete_body-locks t b d = search (lock_rules, delete_found-locks)

module _ {D L Q : Type 0} (env : Env D L Q) where
  upload_releases_lock :
      (a : UploadArgs) (key : LockKey) (w : World D L Q) (l : L)
      → advisory_lock_key env.sha256 a.tenant_id a.bot_id a.doc_id ≡ ok key
      → acquire env a.tenant_id a.bot_id a.doc_id key w.locks ≡ (ok tt, l)
      → (upload env a w).1.locks ≡ (env.advisory.unlock key l).1
  unfolding upload
  upload_releases_lock a key w l named got =
      upload_lock_released env a.tenant_id a.bot_id a.doc_id key (upload_body env a) w l named got
        (upload_body-locks env l a)

  delete_releases_lock :
      (t b d : Text) (key : LockKey) (w : World D L Q) (l : L)
      → advisory_lock_key env.sha256 t b d ≡ ok key
      → acquire env t b d key w.locks ≡ (ok tt, l)
      → (delete_document env t b d w).1.locks ≡ (env.advisory.unlock key l).1
  unfolding delete_document
  delete_releases_lock t b d key w l named got =
      upload_lock_released env t b d key (delete_document_body env t b d) w l named got
        (delete_body-locks env l t b d)

  -- Once an upload or a deletion holds its lock, it ends with the locks as the unlock call for the
  -- same key leaves them, on every path: no change, stored, deleted, not found, or any exception.
  pub pipelines_release_lock :
      (a : UploadArgs) (key : LockKey) (w : World D L Q) (l : L)
      → advisory_lock_key env.sha256 a.tenant_id a.bot_id a.doc_id ≡ ok key
      → acquire env a.tenant_id a.bot_id a.doc_id key w.locks ≡ (ok tt, l)
      → ((upload env a w).1.locks ≡ (env.advisory.unlock key l).1)
        × ((delete_document env a.tenant_id a.bot_id a.doc_id w).1.locks
            ≡ (env.advisory.unlock key l).1)
  pipelines_release_lock a key w l named got = (
    upload_releases_lock a key w l named got,
    delete_releases_lock a.tenant_id a.bot_id a.doc_id key w l named got,
  )

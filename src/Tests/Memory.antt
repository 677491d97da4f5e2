-- ===== src/Tests/Memory.antt =====
-- The services of the deployment as plain data, for runs.
pub mod Tables
pub mod Server
use qdrant_database.Prelude.{
  ℕ, ◌*◌, Bool, true, false, not, Option, none, some, List, [], ◌∷◌, ◌++◌, map, Text, codes,
  text_eq, keep, is_empty, length, replicate, if◌then◌else◌,
}
use qdrant_database.Errors.{does_not_exist, integrity_error}
use qdrant_database.Exec.{ok, raised, raise, Exec}
use qdrant_database.Documents.Models.{Document, Database, Bot, active}
use qdrant_database.Ingestion.Locks.{AdvisoryLocks, LockKey}
use qdrant_database.Ingestion.World.{World, Env}
use qdrant_database.Qdrant.Client.{
  QdrantClient, Point, Filter, FieldCondition, match_value, match_any,
}
use qdrant_database.Qdrant.Client
use qdrant_database.Qdrant.Schema.{expected_params}
use qdrant_database.Qdrant.Collection.Laws.{of_doc, with_new_id}

-- The table of documents as a log: the newest row under an id counts.
abbrev pub Table : Type 0
Table = List Document

abbrev pub row : Table → Text → Option Document
row [] id = none
row (d ∷ ds) id = if text_eq d.doc_id id then some d else row ds id

abbrev pub without : Text → (Document → Bool) → Document → Bool
without id p x = if text_eq x.doc_id id then false else p x

abbrev pub first_row_of : (Document → Bool) → Table → Option Document
first_row_of p [] = none
first_row_of p (d ∷ ds) = if p d then some d else first_row_of (without d.doc_id p) ds

-- A write under another primary key is refused.
abbrev pub put : Text → Document → Exec Table (Unit {0})
put id x s = if text_eq x.doc_id id then (ok tt, x ∷ s) else (raised integrity_error, s)

abbrev pub write :
    Option Document
    → Text
    → (ℕ → Document → Document)
    → Exec Table (Unit {0})
    → Exec Table (Unit {0})
write none id f absent = absent
write (some d) id f absent = put id (f 0 d)

abbrev pub save : Text → (ℕ → Document → Document) → Exec Table (Unit {0})
save id f s = write (row s id) id f (raise does_not_exist) s

abbrev pub update_or_create :
    Text → (ℕ → Document → Document) → (ℕ → Document) → Exec Table (Unit {0})
update_or_create id f g s = write (row s id) id f (put id (g 0)) s

abbrev new_bot : Text → Text → Text → Bot
new_bot t b n = record { tenant_id = t; bot_id = b; name = n; collection_name = [] }

abbrev pub tables : Database Table
tables = record {
  tenant_get_or_create = λ t n s. (ok (record { tenant_id = t; name = n }), s);
  tenant_get = λ t s. (ok (record { tenant_id = t; name = t }), s);
  bot_get_or_create = λ f t b n s. (f (new_bot t.tenant_id b n), s);
  bot_get = λ t b s. (ok (new_bot t.tenant_id b b), s);
  document_first = λ p s. (ok (first_row_of p s), s);
  document_save = save;
  document_update_or_create = update_or_create;
}

-- The points of each collection; a collection exists once it has a point.
abbrev pub Server : Type 0
Server = Text → List Point

-- The one filter that the pipelines send selects by `doc_id`.
abbrev selects : FieldCondition → Point → Bool
selects c p = elim c.match [
  | match_value v ↦ (elim v [ Client.text d ↦ of_doc d p | _ ↦ false ])
  | match_any ts ↦ false
]

abbrev selected : Filter → Point → Bool
selected [] p = true
selected (c ∷ cs) p = selects c p

abbrev without_selected : Filter → Point → Bool
without_selected f p = not (selected f p)

abbrev pub server : QdrantClient Server
server = record {
  collection_exists = λ n s. (ok (not (is_empty (s n))), s);
  get_collection = λ n s. (ok expected_params, s);
  create_collection = λ n c s. (ok tt, s);
  create_payload_index = λ n f k s. (ok tt, s);
  delete_collection = λ n s. (ok tt, λ m. if text_eq m n then [] else s m);
  count = λ n f s. (ok (length (keep (selected f) (s n))), s);
  delete = λ n f s. (ok tt, λ m. if text_eq m n then keep (without_selected f) (s m) else s m);
  upsert =
      λ n new s. (ok tt, λ m. if text_eq m n then keep (with_new_id new) (s m) ++ new else s m);
  query_points = λ r s. (ok [], s);
  get_collections = λ s. (ok tt, s);
}

-- The locks that are held; nobody gets a lock while another one is held.
abbrev pub locks : AdvisoryLocks (List LockKey)
locks = record {
  try_lock = λ k held. if is_empty held then (ok true, k ∷ []) else (ok false, held);
  unlock = λ k held. (ok tt, []);
}

abbrev pub zero_digest : List ℕ → List ℕ
zero_digest m = replicate 32 0

abbrev pub env : Env Table (List LockKey) Server
env = record {
  db = tables;
  advisory = locks;
  client = server;
  model = λ ts.
      ok (record {
        dense = map (λ t. []) ts;
        sparse = map (λ t. []) ts;
        colbert = map (λ t. []) ts;
      });
  tokenizer = length;
  split_text = λ size overlap t. t ∷ [];
  sha256 = zero_digest;
  uuid5 = λ t. t;
  start = 0;
  clock = λ n. n * 50;
  now = λ i. [];
}

abbrev pub acme : Text
acme = codes "acme"

abbrev pub help : Text
help = codes "help"

abbrev pub other_tenant : Text
other_tenant = codes "globex"

abbrev pub doc_1 : Text
doc_1 = codes "doc-1"

abbrev pub doc_2 : Text
doc_2 = codes "doc-2"

-- A row with two chunks.
abbrev pub document : Text → Text → Document
document tenant doc = record {
  doc_id = doc;
  bot_ref = new_bot tenant help help;
  tenant_id = tenant;
  bot_id = help;
  source_type = codes "text";
  source_filename = none;
  source_url = none;
  content_hash = codes "abc";
  chunk_count = 2;
  item_count = 1;
  status = active;
  error_message = none;
  raw_payload = none;
  uploaded_at = 0;
  last_refreshed_at = 0;
}

-- A document of each of two tenants; nothing is locked, and there are no points.
abbrev pub world : World Table (List LockKey) Server
world = record {
  database = document acme doc_1 ∷ document other_tenant doc_2 ∷ [];
  locks = [];
  qdrant = λ n. [];
}

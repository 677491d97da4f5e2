-- ===== src/Scripts/VerifySetup.antt =====
-- scripts/verify_setup.py: the probes of a deployment and the exit code. Connections are parameters,
-- and so is the channel of the gRPC probe; what is printed is not modelled.
pub mod RoundTrip
pub mod ExitCode
use qdrant_database.Prelude.{
  ℕ, ◌==◌, Bool, true, false, List, [], ◌∷◌, Text, codes, length, is_empty, text_eq, if◌then◌else◌,
}
use qdrant_database.Errors.{Exc, rpc_error, type_name}
use qdrant_database.Errors
use qdrant_database.Exec.{
  ◌>>=◌, ◌>>◌, Outcome, ok, raised, and_then, Exec, pure, try_except, try_finally,
}
use qdrant_database.Ingestion.Embedder.{Float, Embeddings, dense_dim, embed_passages, first}
use qdrant_database.Qdrant.Client.{QdrantClient, Point, bool, texts}
use qdrant_database.Qdrant.Client
use qdrant_database.Qdrant.Collection.{create_collection_for_bot, delete_by_doc_id, drop_collection}

-- `(True, "ok")`, or `(False, …)` with the start of its message.
pub data Verdict : Type 0 where
  passed : Verdict
  failed : Text → Verdict

-- `except Exception as exc: return False, …`
abbrev pub failed_by : {S : Type 0} → Exc → Exec S Verdict
failed_by e = pure (failed (type_name e))

-- `_check_postgres` and `_check_qdrant`, around what they call.
unfoldable pub check : {S : Type 0} → Exec S (Unit {0}) → Exec S Verdict
check probe = try_except (probe >> pure passed) failed_by

abbrev pub colbert_dim : ℕ
colbert_dim = 1024

-- `len(colbert[0]) if colbert else 0`, for a list of rows.
unfoldable pub inner_dim : List (List Float) → ℕ
inner_dim [] = 0
inner_dim (row ∷ rows) = length row

-- The three tests of `_warmup_embedder`.
unfoldable pub check_vectors : List Float → List (Text × Float) → List (List Float) → Verdict
check_vectors dense sparse colbert =
    if length dense == dense_dim
    then (if is_empty sparse
        then failed (codes "sparse must be non-empty dict")
        else if inner_dim colbert == colbert_dim
        then passed
        else failed (codes "colbert inner dim"))
    else failed (codes "dense dim mismatch")

verdict_of : Outcome Verdict → Verdict
verdict_of (ok v) = v
verdict_of (raised e) = failed (type_name e)

unfoldable pub warmup_embedder : (List Text → Outcome Embeddings) → Verdict
unfolding verdict_of
warmup_embedder model = verdict_of (
    and_then
      (embed_passages model
        (codes "A short sentence to verify embeddings produce all three vectors." ∷ []))
      λ out. and_then (first out.dense) λ dense.
        and_then (first out.sparse)
          λ sparse. and_then (first out.colbert) λ colbert. ok (check_vectors dense sparse colbert))

-- The channel: whether it is ready in time, and the answers of the two RPCs.
pub record Stub : Type 0 where
  pub ready : Outcome (Unit {0})
  pub health_check : Outcome (Unit {0})
  pub search_empty_query : Outcome (Unit {0})

unfoldable pub search_verdict : Outcome (Unit {0}) → Verdict
search_verdict (ok _) = failed (codes "expected INVALID_ARGUMENT for empty query, got OK")
search_verdict (raised (rpc_error Errors.invalid_argument)) = passed
search_verdict (raised (rpc_error code)) = failed (codes "expected INVALID_ARGUMENT, got")
search_verdict (raised e) = failed (type_name e)

-- `except _grpc.FutureTimeoutError`, around the wait for the channel.
after_ready : Outcome (Unit {0}) → Stub → Verdict
unfolding verdict_of
after_ready (ok _) stub =
    verdict_of (and_then stub.health_check λ _. ok (search_verdict stub.search_empty_query))
after_ready (raised e) stub =
    if text_eq (type_name e) (codes "FutureTimeoutError")
    then failed (codes "gRPC channel not ready")
    else failed (type_name e)

-- `_search_roundtrip`
unfoldable pub search_roundtrip : Stub → Verdict
unfolding after_ready
search_roundtrip stub = after_ready stub.ready stub

-- The point of the round trip; its vectors are parameters.
abbrev pub dummy_point :
    Text → Text → Text → Text → List Float → List Float → List (List Float) → Point
dummy_point id tenant_id bot_id doc_id dense weights colbert = record {
  id = id;
  dense = dense;
  bm25 = record { indices = 0 ∷ []; values = weights };
  colbert = colbert;
  payload =
      ("doc_id", Client.text doc_id)
      ∷ ("tenant_id", Client.text tenant_id)
      ∷ ("bot_id", Client.text bot_id)
      ∷ ("is_active", bool true)
      ∷ ("source_type", Client.text (codes "verify"))
      ∷ ("tags", texts (codes "verify" ∷ []))
      ∷ ("category", Client.text (codes "verify"))
      ∷ ("language", Client.text (codes "en"))
      ∷ ("source_url", Client.text (codes "verify://"))
      ∷ [];
}

module _ {Q : Type 0} (q : QdrantClient Q) where
  -- The body of the `try`, once the collection is there.
  unfoldable pub upsert_and_delete : Text → Text → Text → Text → Point → Exec Q Verdict
  upsert_and_delete name tenant bot doc_id point = do
    q.upsert name (point ∷ [])
    deleted ← delete_by_doc_id q tenant bot doc_id
    pure (if deleted == 1 then passed else failed (codes "expected to delete 1 point"))

  -- The `finally`: a failing drop is only a warning.
  unfoldable pub drop_quietly : Text → Text → Exec Q (Unit {0})
  drop_quietly tenant bot = try_except (drop_collection q tenant bot >> pure tt) (λ e. pure tt)

  -- `_roundtrip_qdrant_collection`
  unfoldable pub roundtrip_collection : Text → Text → Text → Point → Exec Q Verdict
  roundtrip_collection tenant bot doc_id point = do
    name ← create_collection_for_bot q tenant bot
    try_finally (upsert_and_delete name tenant bot doc_id point) (drop_quietly tenant bot)

-- A failed check ends `main` with 1.
unfoldable pub unless_failed : {S : Type 0} → Verdict → Exec S ℕ → Exec S ℕ
unless_failed passed rest = rest
unless_failed (failed message) rest = pure 1

-- What the two probes and the three checks of `--full` come to, over the state `S`.
pub record Checks (S : Type 0) : Type 0 where
  pub postgres : Exec S Verdict
  pub qdrant : Exec S Verdict
  pub roundtrip : Exec S Verdict
  pub embedder : Exec S Verdict
  pub search : Exec S Verdict

module _ {S : Type 0} (c : Checks S) where
  unfoldable pub full_checks : Bool → Exec S ℕ
  full_checks false = pure 0
  full_checks true = do
    roundtrip ← c.roundtrip
    unless_failed roundtrip (do
      embedder ← c.embedder
      unless_failed embedder (do search ← c.search; unless_failed search (pure 0)))

  -- `main`, from the flag `--full` to the exit code.
  unfoldable pub main : Bool → Exec S ℕ
  main full = do
    postgres ← c.postgres
    unless_failed postgres (do qdrant ← c.qdrant; unless_failed qdrant (full_checks full))

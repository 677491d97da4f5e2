-- ===== src/Scripts/LoadTest/Counting.antt =====
-- The chunks of the warmup are in the collection, and the run does not count them.
use qdrant_database.Prelude.{ℕ, ◌+◌, ◌<◌, ◌≡◌, refl, false, Option, some, List, map, arith}
use qdrant_database.Scripts.LoadTest.{
  UploadAnswer, Uploaded, upload_one, warmup, upload_chunks, SearchSummary, no_chunk_loss,
  is_passing, run,
}

not_passing :
    (us : List Uploaded) (s : SearchSummary) (warm : ℕ)
    → 0 < warm
    → is_passing us s (some (warm + upload_chunks us)) ≡ false
unfolding is_passing no_chunk_loss
not_passing us s warm h = ground arith

-- If the warmup upload succeeds with at least one chunk and Qdrant holds exactly the chunks of that
-- upload and of the successful uploads after it, the run ends with exit code 1, however fast the
-- searches are: no deployment that loses no chunk passes the load test with its chunk check made.
pub run_fails_without_loss :
    (warmup_answers answers : List (Option UploadAnswer)) (searches : SearchSummary) (warm : ℕ)
    → warmup warmup_answers ≡ some warm
    → 0 < warm
    → run warmup_answers answers searches (some (warm + upload_chunks (map upload_one answers))) ≡ 1
unfolding run
run_fails_without_loss warmup_answers answers searches warm warmed h =
    rw (warmed, not_passing (map upload_one answers) searches warm h) refl

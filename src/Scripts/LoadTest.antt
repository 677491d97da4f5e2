-- ===== src/Scripts/LoadTest.antt =====
-- scripts/load_test.py: what the run makes of the answers it got. The requests, the order in which
-- they are answered and the latencies are parameters; the percentiles come as the three tests on them.
pub mod Counting
use qdrant_database.Prelude.{
  ℕ, ◌+◌, ◌==◌, ◌&&◌, Bool, true, false, Option, none, some, List, [], ◌∷◌, map, if◌then◌else◌,
}

-- The answer to one upload: its status, and the `chunks_created` of its body.
pub record UploadAnswer : Type 0 where
  pub status_code : ℕ
  pub chunks_created : ℕ

pub record Uploaded : Type 0 where
  pub succeeded : Bool
  pub chunks : ℕ

-- `_upload_one`; `none` is a request that raised.
unfoldable pub upload_one : Option UploadAnswer → Uploaded
upload_one none = record { succeeded = false; chunks = 0 }
upload_one (some r) =
    if r.status_code == 201
    then record { succeeded = true; chunks = r.chunks_created }
    else record { succeeded = false; chunks = 0 }

-- The loop of `_warmup` over the answers that come before its timeout: the chunks of the upload that
-- ended it, or `none` where none succeeded and the script exits with 2.
unfoldable pub warmup : List (Option UploadAnswer) → Option ℕ
warmup [] = none
warmup (r ∷ rest) =
    let u = upload_one r in let later = warmup rest in if u.succeeded then some u.chunks else later

unfoldable pub failures : List Uploaded → ℕ
failures [] = 0
failures (u ∷ us) = (if u.succeeded then 0 else 1) + failures us

-- `sum(c for ok, c, _ in upload_results if ok)`
unfoldable pub upload_chunks : List Uploaded → ℕ
upload_chunks [] = 0
upload_chunks (u ∷ us) = (if u.succeeded then u.chunks else 0) + upload_chunks us

-- What the searches came to: how many failed, whether any latency was taken, and whether the three
-- percentiles are below their limits.
pub record SearchSummary : Type 0 where
  pub failed : ℕ
  pub any_latency : Bool
  pub within_limits : Bool

-- `chunk_loss_ok in (True, None)`; `none` is a check that was skipped.
unfoldable pub no_chunk_loss : Option ℕ → ℕ → Bool
no_chunk_loss none expected = true
no_chunk_loss (some qdrant_chunk_count) expected = qdrant_chunk_count == expected

unfoldable pub is_passing : List Uploaded → SearchSummary → Option ℕ → Bool
unfolding failures upload_chunks no_chunk_loss
is_passing uploads searches count =
    failures uploads == 0
    && searches.failed == 0
    && no_chunk_loss count (upload_chunks uploads)
    && (if searches.any_latency then searches.within_limits else false)

-- `_run` after the warmup, and with it: the exit code.
after_warmup : Option ℕ → Bool → ℕ
after_warmup none passing = 2
after_warmup (some chunks) passing = if passing then 0 else 1

unfoldable pub run :
    List (Option UploadAnswer) → List (Option UploadAnswer) → SearchSummary → Option ℕ → ℕ
unfolding after_warmup
run warmup_answers answers searches count =
    after_warmup (warmup warmup_answers) (is_passing (map upload_one answers) searches count)

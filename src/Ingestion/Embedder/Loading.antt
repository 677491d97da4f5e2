-- ===== src/Ingestion/Embedder/Loading.antt =====
-- `_get_model`, `_get_tokenizer` and `warmup` of apps/ingestion/embedder.py: what `lru_cache` keeps,
-- for calls that follow one another. The constructors of the model and the tokenizer are parameters.
pub mod Once
use qdrant_database.Prelude.{ℕ, suc, Option, none, some}
use qdrant_database.Exec.{◌>>=◌, ◌>>◌, Outcome, ok, raised, Exec, pure}

-- The two caches, the calls of the two constructors so far, and the gauge `embedder_loaded`.
pub record EmbedderState (M T : Type 0) : Type 0 where
  pub model : Option M
  pub tokenizer : Option T
  pub model_constructions : ℕ
  pub tokenizer_constructions : ℕ
  pub embedder_loaded : ℕ

abbrev pub unloaded : {M T : Type 0} → EmbedderState M T
unloaded = record {
  model = none;
  tokenizer = none;
  model_constructions = 0;
  tokenizer_constructions = 0;
  embedder_loaded = 0;
}

-- The outcome of the n-th construction.
abbrev pub Constructor : Type 0 → Type 0
Constructor M = ℕ → Outcome M

module _ {M T : Type 0} where
  -- A construction that raises leaves nothing in the cache.
  model_constructed : Outcome M → Exec (EmbedderState M T) M
  model_constructed (raised e) s =
      (raised e, record s { model_constructions = suc s.model_constructions })
  model_constructed (ok m) s = (
    ok m,
    record s {
      model = some m;
      model_constructions = suc s.model_constructions;
      embedder_loaded = 1;
    },
  )

  cached_model : Constructor M → Option M → Exec (EmbedderState M T) M
  unfolding model_constructed
  cached_model load (some m) s = (ok m, s)
  cached_model load none s = model_constructed (load s.model_constructions) s

  unfoldable pub get_model : Constructor M → Exec (EmbedderState M T) M
  unfolding cached_model
  get_model load s = cached_model load s.model s

  tokenizer_constructed : Outcome T → Exec (EmbedderState M T) T
  tokenizer_constructed (raised e) s =
      (raised e, record s { tokenizer_constructions = suc s.tokenizer_constructions })
  tokenizer_constructed (ok t) s = (
    ok t,
    record s { tokenizer = some t; tokenizer_constructions = suc s.tokenizer_constructions },
  )

  cached_tokenizer : Constructor T → Option T → Exec (EmbedderState M T) T
  unfolding tokenizer_constructed
  cached_tokenizer load (some t) s = (ok t, s)
  cached_tokenizer load none s = tokenizer_constructed (load s.tokenizer_constructions) s

  unfoldable pub get_tokenizer : Constructor T → Exec (EmbedderState M T) T
  unfolding cached_tokenizer
  get_tokenizer load s = cached_tokenizer load s.tokenizer s

  -- `warmup`
  unfoldable pub warmup : Constructor M → Constructor T → Exec (EmbedderState M T) (Unit {0})
  warmup load_model load_tokenizer = do get_model load_model; get_tokenizer load_tokenizer; pure tt

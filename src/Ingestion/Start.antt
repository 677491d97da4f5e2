-- ===== src/Ingestion/Start.antt =====
-- apps/ingestion/apps.py: whether a process warms the embedder when it starts. `lower` is `str.lower`.
pub mod Heuristic
use qdrant_database.Prelude.{
  Bool, true, false, not, ◌&&◌, ◌||◌, Option, none, some, List, [], ◌∷◌, Text, codes, text_eq,
  strip, contains, starts_with, has_substring, if◌then◌else◌,
}
use mathlib.Core.List.{reverse}
use qdrant_database.Ingestion.Warmup.{WarmupState, start_warmup_in_background}

-- `(val or "").strip().lower() in ("1", "true", "yes", "on")`, also `_truthy` of
-- apps/grpc_service/server.py.
text_or_empty : Option Text → Text
text_or_empty none = []
text_or_empty (some t) = t

unfoldable pub truthy : (Text → Text) → Option Text → Bool
unfolding text_or_empty
truthy lower val =
    contains (lower (strip (text_or_empty val)))
      (codes "1" ∷ codes "true" ∷ codes "yes" ∷ codes "on" ∷ [])

-- `s.endswith(p)`
unfoldable pub ends_with : Text → Text → Bool
ends_with p s = starts_with (reverse p) (reverse s)

-- `sys.argv[0] if sys.argv else ""`
unfoldable pub program : List Text → Text
program [] = []
program (argv0 ∷ args) = argv0

-- `len(sys.argv) > 1 and sys.argv[1] != "runserver"`
unfoldable pub has_other_command : List Text → Bool
has_other_command (argv0 ∷ command ∷ args) = not (text_eq command (codes "runserver"))
has_other_command _ = false

module _ (lower : Text → Text) where
  -- `_should_warm_embedder`, from the value of DJANGO_SKIP_WARMUP and `sys.argv`.
  unfoldable pub should_warm_embedder : Option Text → List Text → Bool
  should_warm_embedder skip_warmup argv =
      let argv0 = lower (program argv) in
      if truthy lower skip_warmup
      then false
      else if has_substring (codes "pytest") argv0 || ends_with (codes "/pytest") argv0
      then false
      else if ends_with (codes "/celery") argv0 || ends_with (codes "celery") argv0
      then false
      else if ends_with (codes "manage.py") argv0 && has_other_command argv
      then false
      else true

  -- `IngestionConfig.ready`
  unfoldable pub ready : Option Text → List Text → WarmupState → WarmupState
  ready skip_warmup argv s =
      if should_warm_embedder skip_warmup argv then start_warmup_in_background s else s

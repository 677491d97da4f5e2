-- ===== src/Tenants.antt =====
-- apps/tenants/validators.py: the slugs that name tenants and bots.
pub mod Slugs
use qdrant_database.Prelude.{
  ℕ, Bool, false, ◌&&◌, ◌||◌, [], ◌∷◌, Text, leb, ◌==◌, all, length, remove_char, if◌then◌else◌,
}
use qdrant_database.Errors.{invalid_identifier_error}
use qdrant_database.Exec.{Outcome, ok, raised}

-- `[a-z0-9]`
unfoldable pub is_slug_start : ℕ → Bool
is_slug_start c = (leb b'a' c && leb c b'z') || (leb b'0' c && leb c b'9')

-- `[a-z0-9_]`
unfoldable pub is_slug_char : ℕ → Bool
unfolding is_slug_start
is_slug_char c = is_slug_start c || c == b'_'

-- `SLUG_REGEX.fullmatch(value)`, for `^[a-z0-9][a-z0-9_]{2,39}$`.
unfoldable pub slug_fullmatch : Text → Bool
unfolding is_slug_start
slug_fullmatch [] = false
slug_fullmatch (c ∷ s) =
    is_slug_start c && all is_slug_char s && leb 2 (length s) && leb (length s) 39

unfoldable pub validate_slug : Text → Outcome (Unit {0})
validate_slug value = if slug_fullmatch value then ok tt else raised invalid_identifier_error

unfoldable pub normalize_slug : Text → Text
normalize_slug value = remove_char b'-' value

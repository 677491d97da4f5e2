-- ===== src/Tenants/Slugs.antt =====
-- What a valid slug is made of.
use qdrant_database.Prelude.{ℕ, ◌≡◌, true, [], ◌∷◌, arith, Text, All, all}
use qdrant_database.Tenants.{is_slug_start, is_slug_char, slug_fullmatch, validate_slug}
use qdrant_database.Exec.{ok}

-- Every character of a slug is a lower-case letter, a digit or an underscore.
abbrev pub IsSlugChar : ℕ → Type 0
IsSlugChar c = is_slug_char c ≡ true

all-All : (s : Text) → all is_slug_char s ≡ true → All IsSlugChar s
all-All [] h = tt
all-All (c ∷ s) h = (ground arith, all-All s (ground arith))

pub start-IsSlugChar : (c : ℕ) → is_slug_start c ≡ true → IsSlugChar c
unfolding is_slug_char
start-IsSlugChar c h = ground arith

pub fullmatch_chars : (s : Text) → slug_fullmatch s ≡ true → All IsSlugChar s
unfolding slug_fullmatch
fullmatch_chars [] h = cc
fullmatch_chars (c ∷ s) h = (start-IsSlugChar c (ground arith), all-All s (ground arith))

pub validate-fullmatch : (s : Text) → validate_slug s ≡ ok tt → slug_fullmatch s ≡ true
unfolding validate_slug
validate-fullmatch s h = ground arith

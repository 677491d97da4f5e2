-- ===== src/Ingestion/Pipeline/Hashing.antt =====
-- The content hash and the point ids of apps/ingestion/pipeline.py.
pub mod Utf8
pub mod Preimages
use qdrant_database.Prelude.{
  ℕ, ◌+◌, ◌-◌, ◌/◌, ◌%◌, Option, none, some, List, [], ◌∷◌, ◌++◌, Text, encode, strip, is_empty,
  ltb, if◌then◌else◌,
}
use qdrant_database.Documents.Models.{UploadItem, UploadBody}

-- What the calls of `h.update` have fed to the hash.
unfoldable pub hashed_bytes : List UploadItem → List ℕ
hashed_bytes [] = []
hashed_bytes (item ∷ items) = encode item.content ++ (0x1f ∷ hashed_bytes items)

abbrev hex_digit : ℕ → ℕ
hex_digit n = if ltb n 10 then b'0' + n else b'a' + (n - 10)

-- `hexdigest()` of the digest's bytes.
unfoldable pub hex : List ℕ → Text
hex [] = []
hex (b ∷ bs) = hex_digit (b / 16) ∷ hex_digit (b % 16) ∷ hex bs

module _ (sha256 : List ℕ → List ℕ) where
  unfoldable pub compute_content_hash : List UploadItem → Text
  compute_content_hash items = hex (sha256 (hashed_bytes items))

  -- `(x or "").strip()`
  given_hash : Option Text → Text
  given_hash none = strip []
  given_hash (some h) = strip h

  -- The hash that the client sent, or the computed one where that is missing or blank.
  unfoldable pub incoming_hash : UploadBody → Text
  unfolding given_hash
  incoming_hash body =
      let given = given_hash body.content_hash in
      if is_empty given then compute_content_hash body.items else given

-- ===== src/Tests/Names.antt =====
-- Runs of slugs, collection names, lock keys and hashes.
use qdrant_database.Prelude.{
  ◌≡◌, ◌≢◌, ◌↔◌, refl, some, inl, ℕ, zero, suc, List, [], ◌∷◌, ◌++◌, Text, codes, encode, replicate,
  All, arith, map, none,
}
use qdrant_database.Exec.{ok}
use qdrant_database.Tenants.{slug_fullmatch, is_slug_char, validate_slug}
use qdrant_database.Naming.{ℤ, pos, collection_name, joined_name, unpack_keys, advisory_lock_key}
use qdrant_database.Naming.Collisions.{collection_name_collides}
use qdrant_database.Naming.Separation.{NoDouble, collection_name_injective}
use qdrant_database.Naming.LockKeys.{
  IsInt32, IsDigest, IsByte, lock_text_injective, advisory_lock_key-IsInt32,
}
use qdrant_database.Ingestion.Pipeline.Hashing.{compute_content_hash, incoming_hash, hashed_bytes}
use qdrant_database.Ingestion.Pipeline.Hashing.Utf8.{NotSeparator}
use qdrant_database.Ingestion.Pipeline.Hashing.Preimages.{
  content_hash_merges, hashed_bytes_determine, content_of,
}
use qdrant_database.Documents.Models.{UploadItem, UploadBody}
use qdrant_database.Tests.Memory.{acme, help, doc_1, zero_digest}

acme-valid : validate_slug acme ≡ ok tt
unfolding validate_slug slug_fullmatch is_slug_char
acme-valid = refl

help-valid : validate_slug help ≡ ok tt
unfolding validate_slug slug_fullmatch is_slug_char
help-valid = refl

abbrev eu : Text
eu = codes "eu"

abbrev acme_eu : Text
acme_eu = acme ++ (codes "__b_" ++ eu)

abbrev eu_help : Text
eu_help = eu ++ (codes "__b_" ++ help)

acme_eu-valid : validate_slug acme_eu ≡ ok tt
unfolding validate_slug slug_fullmatch is_slug_char
acme_eu-valid = refl

eu_help-valid : validate_slug eu_help ≡ ok tt
unfolding validate_slug slug_fullmatch is_slug_char
eu_help-valid = refl

collides_example :
    (collection_name acme_eu help ≡ collection_name acme eu_help)
    × (collection_name acme eu_help ≡ ok (joined_name acme eu_help))
    × (acme_eu ≢ acme)
collides_example =
    collection_name_collides acme eu help acme_eu-valid help-valid acme-valid eu_help-valid

acme_name : collection_name acme help ≡ ok (joined_name acme help)
unfolding collection_name validate_slug slug_fullmatch is_slug_char
acme_name = refl

acme-NoDouble : NoDouble acme
acme-NoDouble = (
  inl (λ e. absurd (omega arith)),
  (inl (λ e. absurd (omega arith)), (inl (λ e. absurd (omega arith)), tt)),
)

injective_example : (acme ≡ acme) × (help ≡ help)
injective_example =
    collection_name_injective acme acme help help (joined_name acme help) acme-NoDouble
      acme-NoDouble acme_name acme_name

lock_text_example : (acme ≡ acme) × (help ≡ help) × (doc_1 ≡ doc_1)
lock_text_example =
    lock_text_injective acme acme help help doc_1 doc_1 acme-valid acme-valid help-valid help-valid
      refl

zero-IsByte : (n : ℕ) → All IsByte (replicate n 0)
zero-IsByte zero = tt
zero-IsByte (suc n) = (omega arith, zero-IsByte n)

zero_digest-IsDigest : (m : List ℕ) → IsDigest (zero_digest m)
zero_digest-IsDigest m = record { long_enough = omega arith; bytes = zero-IsByte 32 }

key_example :
    (k : ℤ × ℤ) × (advisory_lock_key zero_digest acme help doc_1 ≡ ok k) × IsInt32 k.0 × IsInt32 k.1
key_example =
    advisory_lock_key-IsInt32 zero_digest acme help doc_1 zero_digest-IsDigest acme-valid help-valid
      (λ e. cc e)

doc_1_key : advisory_lock_key zero_digest acme help doc_1 ≡ ok (pos 0, pos 0)
unfolding advisory_lock_key unpack_keys validate_slug slug_fullmatch is_slug_char encode
doc_1_key = refl

abbrev item : Text → UploadItem
item content = record {
  content = content;
  section_path = [];
  page_number = none;
  item_index = none;
}

abbrev empty_body : UploadBody
empty_body = record {
  doc_id = none;
  source_type = codes "text";
  source_filename = none;
  source_url = none;
  content_hash = none;
  items = [];
}

merges_example :
    (compute_content_hash zero_digest (item (acme ++ 0x1f ∷ help) ∷ [])
      ≡ compute_content_hash zero_digest (item acme ∷ item help ∷ []))
    × (incoming_hash zero_digest (record empty_body { items = item (acme ++ 0x1f ∷ help) ∷ [] })
        ≡ incoming_hash zero_digest (record empty_body { items = item acme ∷ item help ∷ [] }))
merges_example = content_hash_merges zero_digest (item acme) (item help) [] empty_body

help-IsClean : All NotSeparator help
help-IsClean = (
  (λ e. absurd (omega arith)),
  ((λ e. absurd (omega arith)), ((λ e. absurd (omega arith)), ((λ e. absurd (omega arith)), tt))),
)

-- The place of an item is not hashed.
abbrev placed : UploadItem
placed = record (item help) { item_index = some 3 }

determine_example :
    (hashed_bytes (item help ∷ []) ≡ hashed_bytes (placed ∷ []))
    ↔ (map content_of (item help ∷ []) ≡ map content_of (placed ∷ []))
determine_example =
    hashed_bytes_determine (item help ∷ []) (placed ∷ []) (help-IsClean, tt) (help-IsClean, tt)

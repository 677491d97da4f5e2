-- ===== src/Qdrant/Collection/Existing.antt =====
-- What `get_or_create_collection` does where the collection exists.
use qdrant_database.Prelude.{
  ◌≡◌, refl, true, Text, is_empty, arith, inl, inr, Bool-cases, if◌then◌else◌,
}
use qdrant_database.Errors.{qdrant_error, collection_schema_mismatch_error, type_name}
use qdrant_database.Exec.{Outcome, ok, raised}
use qdrant_database.Naming.{collection_name}
use qdrant_database.Qdrant.Client.{QdrantClient, CollectionParams}
use qdrant_database.Qdrant.Retry.{with_retry, is_transient}
use qdrant_database.Qdrant.Retry.Attempts.{retry_decided, none_yet, IsFinal}
use qdrant_database.Qdrant.Schema.{compare_schema}
use qdrant_database.Qdrant.Collection.{verify_schema, get_or_create_body, get_or_create_collection}

module _ {Q : Type 0} (q : QdrantClient Q) where
  -- `name` or a schema mismatch, by the comparison.
  abbrev pub verdict : Text → CollectionParams → Outcome Text
  verdict name p =
      if is_empty (compare_schema p)
      then ok name
      else raised (qdrant_error (collection_schema_mismatch_error (compare_schema p)))

  body_existing :
      (t b name : Text) (p : CollectionParams) (s s' s'' : Q)
      → collection_name t b ≡ ok name
      → q.collection_exists name s ≡ (ok true, s')
      → q.get_collection name s' ≡ (ok p, s'')
      → get_or_create_body q t b s ≡ (verdict name p, s'')
  unfolding get_or_create_body verify_schema
  body_existing t b name p s s' s'' e there actual =
      rw (e, there, actual)
        (elim (Bool-cases (is_empty (compare_schema p))) [
          | inl same ↦ rw same refl
          | inr differs ↦ rw differs refl
        ])

  verdict-IsFinal : (name : Text) (p : CollectionParams) → IsFinal (verdict name p)
  verdict-IsFinal name p = elim (Bool-cases (is_empty (compare_schema p))) [
    | inl same ↦ rw same tt
    | inr differs ↦ rw differs (unfold is_transient type_name in refl)
  ]

  -- Where the collection exists, nothing is created: the call returns its name if the comparison
  -- finds no difference and raises a schema mismatch with the differences otherwise, and the
  -- server is only asked whether the collection exists and what its parameters are.
  pub get_or_create_existing :
      (t b name : Text) (p : CollectionParams) (s s' s'' : Q)
      → collection_name t b ≡ ok name
      → q.collection_exists name s ≡ (ok true, s')
      → q.get_collection name s' ≡ (ok p, s'')
      → get_or_create_collection q t b s ≡ (verdict name p, s'')
  unfolding get_or_create_collection with_retry
  get_or_create_existing t b name p s s' s'' e there actual =
      retry_decided (get_or_create_body q t b) 3 (verdict name p) (none_yet {s = s}) (omega arith)
        (body_existing t b name p s s' s'' e there actual) (verdict-IsFinal name p)

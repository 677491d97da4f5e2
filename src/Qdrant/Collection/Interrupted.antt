-- ===== src/Qdrant/Collection/Interrupted.antt =====
-- What `get_or_create_collection` does where the creation of a collection is interrupted.
use qdrant_database.Prelude.{◌≡◌, refl, true, false, [], Text, arith}
use qdrant_database.Errors.{Exc, unexpected_response, type_name}
use qdrant_database.Exec.{ok, raised}
use qdrant_database.Naming.{collection_name}
use qdrant_database.Qdrant.Client.{QdrantClient, CollectionParams, keyword}
use qdrant_database.Qdrant.Retry.{with_retry, is_transient}
use qdrant_database.Qdrant.Retry.Attempts.{retry_decided, none_yet, one_more}
use qdrant_database.Qdrant.Schema.{compare_schema, expected_params}
use qdrant_database.Qdrant.Collection.{
  create_indexes, create_body, create_collection_for_bot, on_create_error, verify_schema,
  get_or_create_body, get_or_create_collection,
}

conflict-IsFinal : is_transient (unexpected_response 409) ≡ false
unfolding is_transient type_name
conflict-IsFinal = refl

module _ {Q : Type 0} (q : QdrantClient Q) (t b name : Text)
    (named : collection_name t b ≡ ok name) where
  create_interrupted :
      (x : Exc) (s s' s'' : Q)
      → q.create_collection name expected_params s ≡ (ok tt, s')
      → q.create_payload_index name "doc_id" keyword s' ≡ (raised x, s'')
      → create_body q t b s ≡ (raised x, s'')
  unfolding create_body create_indexes
  create_interrupted x s s' s'' made failed = rw (named, made, failed) refl

  create_conflict :
      (s s' : Q)
      → q.create_collection name expected_params s ≡ (raised (unexpected_response 409), s')
      → create_body q t b s ≡ (raised (unexpected_response 409), s')
  unfolding create_body
  create_conflict s s' conflict = rw (named, conflict) refl

  -- The retry of the interrupted creation ends with the conflict.
  created_twice :
      (x : Exc) (s₁ s₂ s₃ s₄ : Q)
      → q.create_collection name expected_params s₁ ≡ (ok tt, s₂)
      → q.create_payload_index name "doc_id" keyword s₂ ≡ (raised x, s₃)
      → is_transient x ≡ true
      → q.create_collection name expected_params s₃ ≡ (raised (unexpected_response 409), s₄)
      → create_collection_for_bot q t b s₁ ≡ (raised (unexpected_response 409), s₄)
  unfolding create_collection_for_bot with_retry
  created_twice x s₁ s₂ s₃ s₄ made failed again conflict =
      retry_decided (create_body q t b) 3 (raised (unexpected_response 409))
        (one_more x (create_interrupted x s₁ s₂ s₃ made failed) again none_yet) (omega arith)
        (create_conflict s₃ s₄ conflict) conflict-IsFinal

  -- A conflict is forgiven where the vectors compare as expected.
  conflict_forgiven :
      (p : CollectionParams) (s₀ s₁ s₄ s₅ : Q)
      → q.collection_exists name s₀ ≡ (ok false, s₁)
      → create_collection_for_bot q t b s₁ ≡ (raised (unexpected_response 409), s₄)
      → q.get_collection name s₄ ≡ (ok p, s₅)
      → compare_schema p ≡ []
      → get_or_create_body q t b s₀ ≡ (ok name, s₅)
  unfolding get_or_create_body on_create_error verify_schema
  conflict_forgiven p s₀ s₁ s₄ s₅ absent conflict actual same =
      rw (named, absent, conflict, actual, same) refl

  -- If the collection is absent and is created, the first index call fails with a transient error,
  -- and the retry meets the conflict with the collection that it made itself, then the call
  -- returns the name as soon as the vectors compare as expected: it ends in the state that the
  -- comparison leaves, without one successful call for a payload index.
  pub get_or_create_without_indexes :
      (x : Exc) (p : CollectionParams) (s₀ s₁ s₂ s₃ s₄ s₅ : Q)
      → q.collection_exists name s₀ ≡ (ok false, s₁)
      → q.create_collection name expected_params s₁ ≡ (ok tt, s₂)
      → q.create_payload_index name "doc_id" keyword s₂ ≡ (raised x, s₃)
      → is_transient x ≡ true
      → q.create_collection name expected_params s₃ ≡ (raised (unexpected_response 409), s₄)
      → q.get_collection name s₄ ≡ (ok p, s₅)
      → compare_schema p ≡ []
      → get_or_create_collection q t b s₀ ≡ (ok name, s₅)
  unfolding get_or_create_collection with_retry
  get_or_create_without_indexes x p s₀ s₁ s₂ s₃ s₄ s₅ absent made failed again conflict actual
        same =
      let created = created_twice x s₁ s₂ s₃ s₄ made failed again conflict in
      retry_decided (get_or_create_body q t b) 3 (ok name) (none_yet {s = s₀}) (omega arith)
        (conflict_forgiven p s₀ s₁ s₄ s₅ absent created actual same) tt

-- ===== src/Qdrant/Collection/Kept.antt =====
-- Opening a collection, whether it is there or is made, changes no points.
use qdrant_database.Prelude.{◌≡◌, refl, List, [], ◌∷◌, String, Text, is_empty, ◌==◌}
use qdrant_database.Errors.{Exc, unexpected_response}
use qdrant_database.Errors
use qdrant_database.Exec.{ok, lift}
use qdrant_database.Exec.Gives.{
  Gives, Gives-pure, Gives-raise, Gives-if, Gives-then, Gives-try_except,
}
use qdrant_database.Exec.Keeps.{
  Keeps, Keeps-bind, Keeps-if, Keeps-pure, Keeps-raise, Keeps-lift, Keeps-try_except,
}
use qdrant_database.Naming.{collection_name}
use qdrant_database.Qdrant.Client.{QdrantClient, Point, PayloadSchema}
use qdrant_database.Qdrant.Schema.{expected_params, payload_indexes, compare_schema}
use qdrant_database.Qdrant.Retry.{with_retry}
use qdrant_database.Qdrant.Retry.Attempts.{Keeps-retry, retry-ok}
use qdrant_database.Qdrant.Collection.{
  create_indexes, create_body, create_collection_for_bot, verify_schema, on_create_error,
  get_or_create_body, get_or_create_collection,
}
use qdrant_database.Qdrant.Collection.Laws.{QdrantLaws}

module _ {Q : Type 0} (q : QdrantClient Q) (laws : QdrantLaws q) (m : Text) (ps : List Point) where
  -- The collection `m` holds the points `ps`.
  abbrev pub Holds : Q → Type 0
  Holds s = laws.points s m ≡ ps

  create_indexes-Holds :
      (n : Text) (fs : List (String × PayloadSchema)) → Keeps Holds (create_indexes q n fs)
  unfolding create_indexes
  create_indexes-Holds n [] = Keeps-pure tt
  create_indexes-Holds n ((f, k) ∷ fs) =
      Keeps-bind (q.create_payload_index n f k) _
        (record { at = λ s h. rw (laws.index_keeps n m f k s) h }) (λ u. create_indexes-Holds n fs)

  create_body-Holds : (t b : Text) → Keeps Holds (create_body q t b)
  unfolding create_body
  create_body-Holds t b =
      Keeps-bind (lift (collection_name t b)) _ (Keeps-lift (collection_name t b)) λ n.
        Keeps-bind (q.create_collection n expected_params) _
          (record { at = λ s h. rw (laws.create_keeps n m expected_params s) h })
          λ u.
            Keeps-bind (create_indexes q n payload_indexes) _
              (create_indexes-Holds n payload_indexes) (λ v. Keeps-pure n)

  pub create_collection_for_bot-Holds : (t b : Text) → Keeps Holds (create_collection_for_bot q t b)
  unfolding create_collection_for_bot with_retry
  create_collection_for_bot-Holds t b =
      Keeps-retry (create_body q t b) Holds 3 (create_body-Holds t b)

  verify_schema-Holds : (n : Text) → Keeps Holds (verify_schema q n)
  unfolding verify_schema
  verify_schema-Holds n =
      Keeps-bind (q.get_collection n) _ (record { at = λ s h. rw (laws.get_keeps n m s) h })
        (λ p. Keeps-if (is_empty (compare_schema p)) _ _ (Keeps-pure n) (Keeps-raise _))

  on_create_error-Holds : (n : Text) (e : Exc) → Keeps Holds (on_create_error q n e)
  unfolding on_create_error
  on_create_error-Holds n (unexpected_response code) =
      Keeps-if (code == 409) _ _ (verify_schema-Holds n) (Keeps-raise _)
  on_create_error-Holds n (Errors.upload_error u) = Keeps-raise _
  on_create_error-Holds n (Errors.qdrant_error u) = Keeps-raise _
  on_create_error-Holds n Errors.invalid_identifier_error = Keeps-raise _
  on_create_error-Holds n Errors.value_error = Keeps-raise _
  on_create_error-Holds n Errors.integrity_error = Keeps-raise _
  on_create_error-Holds n Errors.does_not_exist = Keeps-raise _
  on_create_error-Holds n (Errors.rpc_error _) = Keeps-raise _
  on_create_error-Holds n (Errors.other _) = Keeps-raise _

  get_or_create_body-Holds : (t b : Text) → Keeps Holds (get_or_create_body q t b)
  unfolding get_or_create_body
  get_or_create_body-Holds t b =
      Keeps-bind (lift (collection_name t b)) _ (Keeps-lift (collection_name t b)) λ n.
        Keeps-bind (q.collection_exists n) _ (record { at = λ s h. rw (laws.exists_keeps n m s) h })
          (λ there. Keeps-if there _ _ (verify_schema-Holds n) (
            Keeps-try_except (create_collection_for_bot q t b) (on_create_error q n)
              (create_collection_for_bot-Holds t b) (on_create_error-Holds n)))

  pub get_or_create-Holds : (t b : Text) → Keeps Holds (get_or_create_collection q t b)
  unfolding get_or_create_collection with_retry
  get_or_create-Holds t b =
      Keeps-retry (get_or_create_body q t b) Holds 3 (get_or_create_body-Holds t b)

-- What is returned is the name of the bot's collection.
module _ {Q : Type 0} (q : QdrantClient Q) (t b name : Text)
    (named : collection_name t b ≡ ok name) where
  abbrev IsName : Text → Type 0
  IsName n = n ≡ name

  verify_schema-IsName : Gives IsName (verify_schema q name)
  unfolding verify_schema
  verify_schema-IsName =
      Gives-then (q.get_collection name) _
        (λ p. Gives-if (is_empty (compare_schema p)) _ _ (Gives-pure name refl) (Gives-raise _))

  create_collection_for_bot-IsName : Gives IsName (create_collection_for_bot q t b)
  unfolding create_collection_for_bot with_retry
  create_collection_for_bot-IsName = record {
    at = λ s n u h. let (v, last) = retry-ok (create_body q t b) 3 s h in body.at v n u last;
  }
    where
      body : Gives IsName (create_body q t b)
      body =
          unfold create_body in
          rw named (
            Gives-then (q.create_collection name expected_params) _ (λ u.
              Gives-then (create_indexes q name payload_indexes) _ (λ v. Gives-pure name refl)))

  on_create_error-IsName : (e : Exc) → Gives IsName (on_create_error q name e)
  unfolding on_create_error
  on_create_error-IsName (unexpected_response code) =
      Gives-if (code == 409) _ _ verify_schema-IsName (Gives-raise _)
  on_create_error-IsName (Errors.upload_error u) = Gives-raise _
  on_create_error-IsName (Errors.qdrant_error u) = Gives-raise _
  on_create_error-IsName Errors.invalid_identifier_error = Gives-raise _
  on_create_error-IsName Errors.value_error = Gives-raise _
  on_create_error-IsName Errors.integrity_error = Gives-raise _
  on_create_error-IsName Errors.does_not_exist = Gives-raise _
  on_create_error-IsName (Errors.rpc_error _) = Gives-raise _
  on_create_error-IsName (Errors.other _) = Gives-raise _

  body-IsName : Gives IsName (get_or_create_body q t b)
  unfolding get_or_create_body
  body-IsName = rw named (
      Gives-then (q.collection_exists name) _ (λ there. Gives-if there _ _ verify_schema-IsName (
        Gives-try_except (create_collection_for_bot q t b) (on_create_error q name)
          create_collection_for_bot-IsName on_create_error-IsName)))

  pub get_or_create-IsName : Gives IsName (get_or_create_collection q t b)
  unfolding get_or_create_collection with_retry
  get_or_create-IsName = record {
    at = λ s n u h.
        let (v, last) = retry-ok (get_or_create_body q t b) 3 s h in body-IsName.at v n u last;
  }

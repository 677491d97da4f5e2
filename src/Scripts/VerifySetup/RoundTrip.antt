-- ===== src/Scripts/VerifySetup/RoundTrip.antt =====
-- On a server that answers every call, the round trip of a collection passes.
use qdrant_database.Prelude.{
  ℕ, ◌≡◌, refl, ap, sym, subst, ◌∙◌, Bool, true, false, List, [], ◌∷◌, ◌++◌, String, Text,
  text_eq_refl, keep, length, arith, if◌then◌else◌,
}
use qdrant_database.Exec.{Outcome, ok, Exec, pure, ◌>>◌}
use qdrant_database.Naming.{collection_name}
use qdrant_database.Ingestion.Embedder.{Float}
use qdrant_database.Qdrant.Client.{QdrantClient, Point, Filter, CollectionParams, PayloadSchema}
use qdrant_database.Qdrant.Schema.{expected_params, payload_indexes}
use qdrant_database.Qdrant.Retry.{with_retry}
use qdrant_database.Qdrant.Retry.Attempts.{retry_decided, none_yet}
use qdrant_database.Qdrant.Collection.{
  doc_selector, create_indexes, create_body, create_collection_for_bot, delete_body,
  delete_by_doc_id, drop_body, drop_collection,
}
use qdrant_database.Qdrant.Collection.Laws.{of_doc, with_new_id, QdrantLaws}
use qdrant_database.Qdrant.Collection.Kept.{create_collection_for_bot-Holds}
use qdrant_database.Scripts.VerifySetup.{
  passed, dummy_point, upsert_and_delete, drop_quietly, roundtrip_collection,
}

-- `m` returns from every state.
abbrev pub Returns : {S A : Type 0} → Exec S A → Type 0
Returns {S} {A} m = (s : S) → (a : A) × (t : S) × (m s ≡ (ok a, t))

-- The calls of the round trip that a server answers without an error.
pub record IsCalm {Q : Type 0} (q : QdrantClient Q) : Type 0 where
  pub creates : (n : Text) (c : CollectionParams) → Returns (q.create_collection n c)
  pub indexes : (n : Text) (f : String) (k : PayloadSchema) → Returns (q.create_payload_index n f k)
  pub upserts : (n : Text) (ps : List Point) → Returns (q.upsert n ps)
  pub finds : (n : Text) → Returns (q.collection_exists n)
  pub counts : (n : Text) (f : Filter) → Returns (q.count n f)
  pub deletes : (n : Text) (f : Filter) → Returns (q.delete n f)
  pub drops : (n : Text) → Returns (q.delete_collection n)

-- A function that returns at once is called once.
retry_once :
    {S A : Type 0} (fn : Exec S A) (s t : S) (a : A)
    → fn s ≡ (ok a, t)
    → with_retry fn s ≡ (ok a, t)
unfolding with_retry
retry_once fn s t a h = retry_decided fn 3 (ok a) (none_yet {s = s}) (omega arith) h tt

module _ {Q : Type 0} (q : QdrantClient Q) (laws : QdrantLaws q) (calm : IsCalm q) (t b name : Text)
    (named : collection_name t b ≡ ok name) where
  indexes-Returns :
      (fs : List (String × PayloadSchema)) (s : Q)
      → (u : Q) × (create_indexes q name fs s ≡ (ok tt, u))
  unfolding create_indexes
  indexes-Returns [] s = (s, refl)
  indexes-Returns ((f, k) ∷ fs) s =
      let (_, u, one) = calm.indexes name f k s in
      let (v, rest) = indexes-Returns fs u in (v, rw one rest)

  create-Returns : (s : Q) → (u : Q) × (create_collection_for_bot q t b s ≡ (ok name, u))
  unfolding create_collection_for_bot
  create-Returns s =
      let (_, u, made) = calm.creates name expected_params s in
      let (v, indexed) = indexes-Returns payload_indexes u in
      (
        v,
        retry_once (create_body q t b) s v name
            (unfold create_body in rw (named, made, indexed) refl),
      )

  drop_body-Returns : Returns (drop_body q t b)
  unfolding drop_body
  drop_body-Returns s = let (there, u, found) = calm.finds name s in rw (named, found) (go there u)
    where
      go :
          (there : Bool) (u : Q)
          → (a : Bool) × (v : Q) × ((if there
                  then (q.delete_collection name >> pure true)
                  else pure false)
                u
              ≡ (ok a, v))
      go false u = (false, u, refl)
      go true u = let (_, v, gone) = calm.drops name u in (true, v, rw gone refl)

  drop_quietly-Returns : (s : Q) → (u : Q) × (drop_quietly q t b s ≡ (ok tt, u))
  unfolding drop_quietly drop_collection
  drop_quietly-Returns s =
      let (a, u, dropped) = drop_body-Returns s in
      (u, rw (retry_once (drop_body q t b) s u a dropped) refl)

  -- A deletion counts the points of the document that are there.
  delete_counts :
      (d : Text) (p : Point) (s : Q)
      → laws.points s name ≡ p ∷ []
      → of_doc d p ≡ true
      → (u : Q) × (delete_by_doc_id q t b d s ≡ (ok 1, u))
  unfolding delete_by_doc_id
  delete_counts d p s held ours =
      let (there, u, found) = calm.finds name s in
      let kept : laws.points u name ≡ p ∷ [] =
        ap (λ (r : Outcome Bool × Q). laws.points r.1 name) (sym found)
        ∙ laws.exists_keeps name name s
        ∙ held in
      go there u found kept
    where
      counted :
          (u : Q) (k : ℕ) (v : Q)
          → laws.points u name ≡ p ∷ []
          → q.count name (doc_selector d) u ≡ (ok k, v)
          → k ≡ 1
      counted u k v kept e =
          laws.count_done name d u v k e
          ∙ ap (λ (ps : List Point). length (keep (of_doc d) ps)) kept
          ∙ rw ours refl

      go :
          (there : Bool) (u : Q)
          → q.collection_exists name s ≡ (ok there, u)
          → laws.points u name ≡ p ∷ []
          → (v : Q) × (with_retry (delete_body q t b d) s ≡ (ok 1, v))
      go false u found kept = let empty = laws.exists_false name s u found in cc (kept, empty)
      go true u found kept =
          let (k, v, count) = calm.counts name (doc_selector d) u in
          let (_, w, gone) = calm.deletes name (doc_selector d) v in
          let one : k ≡ 1 = counted u k v kept count in
          (
            w,
            subst (λ (n : ℕ). with_retry (delete_body q t b d) s ≡ (ok n, w)) one
                (retry_once (delete_body q t b d) s w k
                  (unfold delete_body in rw (named, found, count, gone) refl)),
          )

  upsert_and_delete-passes :
      (d : Text) (p : Point) (s : Q)
      → laws.points s name ≡ []
      → of_doc d p ≡ true
      → (u : Q) × (upsert_and_delete q name t b d p s ≡ (ok passed, u))
  unfolding upsert_and_delete
  upsert_and_delete-passes d p s empty ours =
      let (_, u, stored) = calm.upserts name (p ∷ []) s in
      let held : laws.points u name ≡ p ∷ [] =
        laws.upsert_done name (p ∷ []) s u (refl, tt) stored
        ∙ ap (λ (ps : List Point). keep (with_new_id (p ∷ [])) ps ++ p ∷ []) empty in
      let (v, deleted) = delete_counts d p u held ours in (v, rw (stored, deleted) refl)

  -- If the bot's collection holds no points and the server answers every call, the round trip of
  -- `verify_setup.py --full` creates the collection, stores its point, counts one deleted point,
  -- drops the collection and passes.
  pub roundtrip_passes :
      (id d : Text) (dense weights : List Float) (colbert : List (List Float)) (s : Q)
      → laws.points s name ≡ []
      → (u : Q) × (roundtrip_collection q t b d (dummy_point id t b d dense weights colbert) s
          ≡ (ok passed, u))
  unfolding roundtrip_collection
  roundtrip_passes id d dense weights colbert s empty =
      let (u, made) = create-Returns s in
      let still : laws.points u name ≡ [] =
        subst (λ (v : Q). laws.points v name ≡ []) (ap (λ (r : Outcome Text × Q). r.1) made)
          ((create_collection_for_bot-Holds q laws name [] t b).at s empty) in
      let (v, passes) =
        upsert_and_delete-passes d (dummy_point id t b d dense weights colbert) u still
          (text_eq_refl d) in
      let (w, dropped) = drop_quietly-Returns v in (w, rw (made, passes, dropped) refl)

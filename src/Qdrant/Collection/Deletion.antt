-- ===== src/Qdrant/Collection/Deletion.antt =====
-- What `delete_by_doc_id` does to the points of a collection.
use qdrant_database.Prelude.{
  ℕ, ◌≡◌, refl, ap, if◌then◌else◌, ◌∙◌, Bool, true, false, List, [], Text, keep,
}
use qdrant_database.Exec.{Outcome, ok, pure, ◌>>=◌, ◌>>◌}
use qdrant_database.Exec.Outcomes.{bind-eq-ok}
use qdrant_database.Exec.Keeps.{Keeps, Keeps-bind, Keeps-if, Keeps-pure}
use qdrant_database.Naming.{collection_name}
use qdrant_database.Qdrant.Client.{QdrantClient, Point}
use qdrant_database.Qdrant.Retry.{with_retry}
use qdrant_database.Qdrant.Retry.Attempts.{retry-ok, Keeps-retry}
use qdrant_database.Qdrant.Collection.{doc_selector, delete_body, delete_by_doc_id}
use qdrant_database.Qdrant.Collection.Laws.{of_doc, not_of_doc, QdrantLaws}

module _ {Q : Type 0} (q : QdrantClient Q) (laws : QdrantLaws q) where
  delete_body_done :
      (t b d name : Text) (s s' : Q) (n : ℕ)
      → collection_name t b ≡ ok name
      → delete_body q t b d s ≡ (ok n, s')
      → keep (of_doc d) (laws.points s' name) ≡ []
  unfolding delete_body
  delete_body_done t b d name s s' n e h =
      let (there, s₁, found, rest) =
        bind-eq-ok (q.collection_exists name) _ s (rw (e, delete_body) at h) in
      go there s₁ found rest
    where
      deleted :
          (k : ℕ) (u : Q)
          → (q.delete name (doc_selector d) >> pure k) u ≡ (ok n, s')
          → keep (of_doc d) (laws.points s' name) ≡ []
      deleted k u h =
          let (_, v, done, last) = bind-eq-ok (q.delete name (doc_selector d)) _ u h in
          laws.delete_done name d u s' (done ∙ ap (λ (x : Outcome ℕ × Q). (ok tt, x.1)) last)

      go :
          (there : Bool) (s₁ : Q)
          → q.collection_exists name s ≡ (ok there, s₁)
          → (if there
                then q.count name (doc_selector d)
                  >>= (λ k. q.delete name (doc_selector d) >> pure k)
                else pure 0)
              s₁
            ≡ (ok n, s')
          → keep (of_doc d) (laws.points s' name) ≡ []
      go true s₁ found rest =
          let (k, u, counted, more) = bind-eq-ok (q.count name (doc_selector d)) _ s₁ rest in
          deleted k u more
      go false s₁ found rest =
          let same : s₁ ≡ s' = ap (λ (x : Outcome ℕ × Q). x.1) rest in
          rw (laws.exists_false name s s' (found ∙ ap (λ (x : Q). (ok false, x)) same)) refl

  -- What no operation of a deletion changes: the points of other documents.
  abbrev Rest : Text → Text → List Point → Q → Type 0
  Rest name d ps s = keep (not_of_doc d) (laws.points s name) ≡ ps

  delete_body-Rest :
      (t b d name : Text) (ps : List Point)
      → collection_name t b ≡ ok name
      → Keeps (Rest name d ps) (delete_body q t b d)
  unfolding delete_body
  delete_body-Rest t b d name ps e = rw e (
      Keeps-bind (q.collection_exists name) _
        (record { at = λ s h. rw (laws.exists_keeps name name s) h })
        (λ there.
          Keeps-if there _ _
            (Keeps-bind (q.count name (doc_selector d)) _
              (record { at = λ s h. rw (laws.count_keeps name d name s) h })
              (λ k.
                Keeps-bind (q.delete name (doc_selector d)) _
                  (record { at = λ s h. rw (laws.delete_rest name d s) h }) (λ _. Keeps-pure k)))
            (Keeps-pure 0)))

  -- A deletion that returns has removed every point of the document from the collection, and it
  -- has left the points of all other documents in it, through however many retries.
  pub delete_by_doc_id_lem :
      (t b d name : Text) (s s' : Q) (n : ℕ)
      → collection_name t b ≡ ok name
      → delete_by_doc_id q t b d s ≡ (ok n, s')
      → (keep (of_doc d) (laws.points s' name) ≡ [])
        × (keep (not_of_doc d) (laws.points s' name) ≡ keep (not_of_doc d) (laws.points s name))
  unfolding delete_by_doc_id with_retry
  delete_by_doc_id_lem t b d name s s' n e h =
      let (u, last) = retry-ok (delete_body q t b d) 3 s h in
      let kept =
        (Keeps-retry (delete_body q t b d) (Rest name d (keep (not_of_doc d) (laws.points s name)))
            3 (delete_body-Rest t b d name _ e)).at
          s refl in
      (delete_body_done t b d name u s' n e last, rw (← ap (λ (x : Outcome ℕ × Q). x.1) h) kept)

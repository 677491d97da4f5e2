-- ===== src/Ingestion/Start/Heuristic.antt =====
-- Which processes warm the embedder.
use mathlib.Core.List.{reverse, reverse-reverse, reverse-append}
use qdrant_database.Prelude.{
  ℕ, ◌≡◌, refl, sym, ap, subst, ◌∙◌, ◌↔◌, ◌&&◌, ◌==◌, true, false, Option, List, [], ◌∷◌, ◌++◌,
  Text, codes, starts_with, has_substring, and_parts, Bool-cases, inl, inr, arith, append_assoc,
  append-nil,
}
use qdrant_database.Ingestion.Start.{
  truthy, ends_with, program, has_other_command, should_warm_embedder,
}

starts_with-split : (p s : Text) → starts_with p s ≡ true → (r : Text) × (s ≡ p ++ r)
unfolding starts_with
starts_with-split [] s h = (s, refl)
starts_with-split (c ∷ p) [] h = cc
starts_with-split (c ∷ p) (x ∷ s) h =
    let (same, rest) = and_parts (c == x) (starts_with p s) h in
    let (r, e) = starts_with-split p s rest in
    let head : x ≡ c = ground arith in (r, rw (head, e) refl)

starts_with-append : (p r : Text) → starts_with p (p ++ r) ≡ true
unfolding starts_with
starts_with-append [] r = refl
starts_with-append (c ∷ p) r = ground (arith, starts_with-append p r)

has_substring-append : (t p : Text) → has_substring p (t ++ p) ≡ true
unfolding has_substring
has_substring-append [] [] = unfold starts_with in refl
has_substring-append [] (c ∷ p) =
    rw
      (subst (λ (s : Text). starts_with (c ∷ p) s ≡ true) (append-nil (c ∷ p))
        (starts_with-append (c ∷ p) []))
      refl
has_substring-append (x ∷ t) p = rw (has_substring-append t p) (ground arith)

-- What ends with a text contains it.
ends_with-has_substring : (p s : Text) → ends_with p s ≡ true → has_substring p s ≡ true
unfolding ends_with
ends_with-has_substring p s h =
    let (r, e) = starts_with-split (reverse p) (reverse s) h in
    let whole : s ≡ reverse r ++ p =
      sym (reverse-reverse s)
      ∙ ap reverse e
      ∙ reverse-append (reverse p) r
      ∙ ap (λ (t : Text). reverse r ++ t) (reverse-reverse p) in
    rw whole (has_substring-append (reverse r) p)

-- What ends with `q ++ p` ends with `p`.
ends_with-longer : (q p s : Text) → ends_with (q ++ p) s ≡ true → ends_with p s ≡ true
unfolding ends_with
ends_with-longer q p s h =
    let front : reverse (q ++ p) ≡ reverse p ++ reverse q = reverse-append q p in
    let (r, e) =
      starts_with-split (reverse p ++ reverse q) (reverse s)
        (subst (λ (t : Text). starts_with t (reverse s) ≡ true) front h) in
    rw (e, append_assoc) (starts_with-append (reverse p) (reverse q ++ r))

has_substring-one : (c : ℕ) (p s : Text) → has_substring (c ∷ p) s ≡ true → has_substring p s ≡ true
unfolding has_substring
has_substring-one c p [] h = unfold starts_with in cc h
has_substring-one c p (x ∷ s) h = elim (Bool-cases (starts_with (c ∷ p) (x ∷ s))) [
  | inl here ↦ elim (Bool-cases (starts_with p (x ∷ s))) [
    | inl now ↦ rw now refl
    | inr later ↦ rw later (inside p s (unfold starts_with in (and_parts (c == x) _ here).1))
  ]
  | inr later ↦ elim (Bool-cases (starts_with p (x ∷ s))) [
    | inl now ↦ rw now refl
    | inr no_match ↦ rw no_match (has_substring-one c p s (rw later at h))
  ]
]
  where
    inside : (p s : Text) → starts_with p s ≡ true → has_substring p s ≡ true
    inside p [] e = e
    inside p (y ∷ s) e = rw e refl

module _ (lower : Text → Text) where
  -- A process warms the embedder exactly if DJANGO_SKIP_WARMUP is not truthy, the lower-cased
  -- program name neither contains `pytest` nor ends with `celery`, and it is not a `manage.py` with a
  -- command other than `runserver`.
  pub should_warm_embedder_iff :
      (skip : Option Text) (argv : List Text)
      → let argv0 = lower (program argv) in
        (should_warm_embedder lower skip argv ≡ true) ↔ (
          (truthy lower skip ≡ false)
          × (has_substring (codes "pytest") argv0 ≡ false)
          × (ends_with (codes "celery") argv0 ≡ false)
          × ((ends_with (codes "manage.py") argv0 && has_other_command argv) ≡ false))
  unfolding should_warm_embedder
  should_warm_embedder_iff skip argv = ground (
    arith,
    has_substring-one b'/' (codes "pytest") (lower (program argv)),
    ends_with-has_substring (codes "/pytest") (lower (program argv)),
    ends_with-longer (codes "/") (codes "celery") (lower (program argv)),
  )

-- ===== src/Ingestion/Chunker/Truncation.antt =====
-- The hard cap on the tokens of a chunk: the loop ends, below the cap, on a prefix of the text.
use mathlib.Core.List.{reverse, reverse-append, reverse-reverse}
use qdrant_database.Prelude.{
  ℕ, zero, suc, ◌*◌, ◌/◌, ◌≤◌, ◌≡◌, refl, sym, ap, ◌∙◌, inl, inr, [], ◌∷◌, ◌++◌, not, ◌&&◌,
  append-nil, append_assoc, arith, Text, length, length-append, take, is_empty, leb, ltb, is_space,
  lstrip, rstrip, Bool-cases, le→leb, leb→le,
}
use qdrant_database.Ingestion.Embedder.{count_tokens}
use qdrant_database.Ingestion.Chunker.{max_chunk_tokens, shrink, truncate_to_max_tokens}

-- `s` is a prefix of `t`.
abbrev pub StartsWith : Text → Text → Type 0
StartsWith t s = (rest : Text) × (t ≡ s ++ rest)

StartsWith-trans : (a b c : Text) → StartsWith a b → StartsWith b c → StartsWith a c
StartsWith-trans a b c (r, e) (q, f) =
    (q ++ r, e ∙ ap (λ (t : Text). t ++ r) f ∙ append_assoc c q r)

StartsWith-take : (n : ℕ) (s : Text) → StartsWith s (take n s)
StartsWith-take zero s = (s, refl)
StartsWith-take (suc n) [] = ([], refl)
StartsWith-take (suc n) (c ∷ s) =
    let (r, e) = StartsWith-take n s in (r, ap (λ (t : Text). c ∷ t) e)

lstrip_suffix : (s : Text) → (front : Text) × (s ≡ front ++ lstrip s)
unfolding lstrip
lstrip_suffix [] = ([], refl)
lstrip_suffix (c ∷ s) = elim (Bool-cases (is_space c)) [
  | inl space ↦ let (f, e) = lstrip_suffix s in (c ∷ f, rw space (ap (λ (t : Text). c ∷ t) e))
  | inr other ↦ ([], rw other refl)
]

StartsWith-rstrip : (s : Text) → StartsWith s (rstrip s)
unfolding rstrip
StartsWith-rstrip s =
    let (front, e) = lstrip_suffix (reverse s) in
    (
      reverse front,
      sym (reverse-reverse s) ∙ ap reverse e ∙ reverse-append front (lstrip (reverse s)),
    )

length-StartsWith : (t s : Text) → StartsWith t s → length s ≤ length t
length-StartsWith t s (r, e) = rw e (omega (arith, length-append s r))

-- One round of the loop.
abbrev pub cut : ℕ → Text → Text
cut n t = rstrip (take n t)

StartsWith-cut : (n : ℕ) (t : Text) → StartsWith t (cut n t)
StartsWith-cut n t =
    StartsWith-trans t (take n t) (cut n t) (StartsWith-take n t) (StartsWith-rstrip (take n t))

take-le : (n : ℕ) (t : Text) → length (take n t) ≤ n
take-le zero t = omega arith
take-le (suc n) [] = omega arith
take-le (suc n) (c ∷ t) = omega (arith, take-le n t)

length-cut : (n : ℕ) (t : Text) → length (cut n t) ≤ n
length-cut n t =
    omega
      (arith, length-StartsWith (take n t) (cut n t) (StartsWith-rstrip (take n t)), take-le n t)

module _ (tokenizer : Text → ℕ) where
  -- As many rounds as the text has characters bring it below the cap, whatever the tokenizer.
  pub shrink_bound :
      (fuel : ℕ) (t : Text)
      → length t ≤ fuel
      → count_tokens tokenizer (shrink tokenizer fuel t) ≤ max_chunk_tokens
  unfolding shrink count_tokens
  shrink_bound zero [] h = omega arith
  shrink_bound zero (c ∷ t) h = absurd (omega arith)
  shrink_bound (suc fuel) [] h = omega arith
  shrink_bound (suc fuel) (c ∷ t) h =
      let n = length (c ∷ t) * 95 / 100 in
      let shorter : length (cut n (c ∷ t)) ≤ fuel = omega (arith, length-cut n (c ∷ t)) in
      ground (arith, shrink_bound fuel (cut n (c ∷ t)) shorter)

  StartsWith-shrink : (fuel : ℕ) (t : Text) → StartsWith t (shrink tokenizer fuel t)
  unfolding shrink
  StartsWith-shrink zero t = ([], sym (append-nil t))
  StartsWith-shrink (suc fuel) t =
      let n = length t * 95 / 100 in
      elim (Bool-cases (ltb max_chunk_tokens (count_tokens tokenizer t) && not (is_empty t))) [
        | inl again ↦
            rw again (
              StartsWith-trans t (cut n t) _ (StartsWith-cut n t)
                (StartsWith-shrink fuel (cut n t)))
        | inr done ↦ rw done ([], sym (append-nil t))
      ]

  within_cap :
      (t : Text)
      → count_tokens tokenizer t ≤ max_chunk_tokens
      → truncate_to_max_tokens tokenizer t ≡ t
  unfolding truncate_to_max_tokens
  within_cap [] h = refl
  within_cap (c ∷ t) h = rw (le→leb (count_tokens tokenizer (c ∷ t)) max_chunk_tokens h) refl

  pub truncate-bound :
      (t : Text) → count_tokens tokenizer (truncate_to_max_tokens tokenizer t) ≤ max_chunk_tokens
  unfolding truncate_to_max_tokens
  truncate-bound [] = unfold count_tokens in omega arith
  truncate-bound (c ∷ t) =
      let n = count_tokens tokenizer (c ∷ t) in
      let start = cut (length (c ∷ t) * max_chunk_tokens / n) (c ∷ t) in
      elim (Bool-cases (leb n max_chunk_tokens)) [
        | inl fits ↦ rw fits (leb→le n max_chunk_tokens fits)
        | inr long ↦ rw long (shrink_bound (length start) start (omega arith))
      ]

  StartsWith-truncate : (t : Text) → StartsWith t (truncate_to_max_tokens tokenizer t)
  unfolding truncate_to_max_tokens
  StartsWith-truncate [] = ([], refl)
  StartsWith-truncate (c ∷ t) =
      let n = count_tokens tokenizer (c ∷ t) in
      let m = length (c ∷ t) * max_chunk_tokens / n in
      elim (Bool-cases (leb n max_chunk_tokens)) [
        | inl fits ↦ rw fits ([], sym (append-nil (c ∷ t)))
        | inr long ↦ rw long (
            StartsWith-trans (c ∷ t) (cut m (c ∷ t)) _ (StartsWith-cut m (c ∷ t))
              (StartsWith-shrink (length (cut m (c ∷ t))) (cut m (c ∷ t))))
      ]

  -- Whatever the tokenizer says of a text, its truncation has at most 600 tokens, is a prefix of
  -- it, and is left as it is by a second truncation.
  pub truncate_to_max_tokens_lem :
      (t : Text)
      → (count_tokens tokenizer (truncate_to_max_tokens tokenizer t) ≤ max_chunk_tokens)
        × StartsWith t (truncate_to_max_tokens tokenizer t)
        × (truncate_to_max_tokens tokenizer (truncate_to_max_tokens tokenizer t)
            ≡ truncate_to_max_tokens tokenizer t)
  truncate_to_max_tokens_lem t =
      (truncate-bound t, StartsWith-truncate t, within_cap _ (truncate-bound t))

-- ===== src/Ingestion/Chunker/Chunks.antt =====
-- The chunks of one item: their fields, their order, and when there are none.
use qdrant_database.Prelude.{
  ℕ, suc, ◌+◌, ◌≤◌, ◌≡◌, refl, ap, false, ◌↔◌, inl, inr, ◌≢◌, Option, none, some, List, [], ◌∷◌,
  ◌++◌, ◌&&◌, arith, Text, codes, length, All, All-append, is_empty, is_empty-nil, strip, rstrip,
  lstrip, leb, ltb, Bool-cases, leb→le, and_parts,
}
use qdrant_database.Ingestion.Embedder.{count_tokens}
use qdrant_database.Ingestion.Chunker.{
  Chunk, max_chunk_tokens, min_chunk_chars, last?, replace_last, chunk_of, merge_or_append, add_raw,
  chunk_loop, or_whole, chunk_item, truncate_to_max_tokens,
}
use qdrant_database.Ingestion.Chunker.Truncation.{truncate-bound}

-- The chunks are numbered upwards from `k`.
abbrev pub Numbered : ℕ → List Chunk → Type 0
Numbered k [] = Unit
Numbered k (c ∷ cs) = (c.chunk_index ≡ k) × Numbered (suc k) cs

Numbered-append :
    (k : ℕ) (cs : List Chunk) (c : Chunk)
    → Numbered k cs
    → c.chunk_index ≡ k + length cs
    → Numbered k (cs ++ c ∷ [])
Numbered-append k [] c h e = (omega arith, tt)
Numbered-append k (d ∷ cs) c h e = (h.0, Numbered-append (suc k) cs c h.1 (omega arith))

Numbered-replace_last :
    (k : ℕ) (cs : List Chunk) (p q : Chunk)
    → Numbered k cs
    → last? cs ≡ some p
    → q.chunk_index ≡ p.chunk_index
    → Numbered k (replace_last cs q)
unfolding replace_last last?
Numbered-replace_last k [] p q h e f = tt
Numbered-replace_last k (c ∷ []) p q h e f = ground arith
Numbered-replace_last k (c ∷ d ∷ cs) p q h e f =
    (h.0, Numbered-replace_last (suc k) (d ∷ cs) p q h.1 e f)

All-replace_last :
    (P : Chunk → Type 0) (cs : List Chunk) (q : Chunk) → All P cs → P q → All P (replace_last cs q)
unfolding replace_last
All-replace_last P [] q h p = tt
All-replace_last P (c ∷ []) q h p = (p, tt)
All-replace_last P (c ∷ d ∷ cs) q h p = (h.0, All-replace_last P (d ∷ cs) q h.1 p)

replace_last-ne-nil : (cs : List Chunk) (p q : Chunk) → last? cs ≡ some p → replace_last cs q ≢ []
unfolding replace_last last?
replace_last-ne-nil [] p q e = cc
replace_last-ne-nil (c ∷ []) p q e = cc
replace_last-ne-nil (c ∷ d ∷ cs) p q e = cc

module _ (tokenizer : Text → ℕ) where
  -- The counts of a chunk are those of its text, and its tokens are within the cap.
  pub record IsSound (c : Chunk) : Type 0 where
    pub chars : c.char_count ≡ length c.text
    pub tokens : c.token_count ≡ count_tokens tokenizer c.text
    pub within : c.token_count ≤ max_chunk_tokens

  -- Sound chunks, numbered from 0.
  pub record IsChunking (cs : List Chunk) : Type 0 where
    pub sound : All IsSound cs
    pub numbered : Numbered 0 cs

  chunk_of-IsSound :
      (t : Text) (i : ℕ)
      → count_tokens tokenizer t ≤ max_chunk_tokens
      → IsSound (chunk_of tokenizer t i)
  unfolding chunk_of
  chunk_of-IsSound t i h = record { chars = refl; tokens = refl; within = h }

  append-IsChunking :
      (cs : List Chunk) (t : Text)
      → IsChunking cs
      → count_tokens tokenizer t ≤ max_chunk_tokens
      → IsChunking (cs ++ chunk_of tokenizer t (length cs) ∷ [])
  append-IsChunking cs t h b = record {
    sound = All-append IsSound cs _ h.sound (chunk_of-IsSound t (length cs) b, tt);
    numbered = Numbered-append 0 cs _ h.numbered (unfold chunk_of in omega arith);
  }

  merge_or_append-IsChunking :
      (cs : List Chunk) (t : Text)
      → IsChunking cs
      → count_tokens tokenizer t ≤ max_chunk_tokens
      → (last : Option Chunk) → last? cs ≡ last
      → IsChunking (merge_or_append tokenizer cs t last)
  unfolding merge_or_append
  merge_or_append-IsChunking cs t h b none e = append-IsChunking cs t h b
  merge_or_append-IsChunking cs t h b (some p) e =
      let merged = p.text ++ (codes " " ++ t) in
      elim (Bool-cases
        (ltb (length t) min_chunk_chars && leb (count_tokens tokenizer merged) max_chunk_tokens)) [
          | inl joined ↦
              let fits = leb→le _ _ (and_parts _ _ joined).1 in
              rw joined (record {
                sound =
                    All-replace_last IsSound cs _ h.sound
                      (chunk_of-IsSound merged p.chunk_index fits);
                numbered = Numbered-replace_last 0 cs p _ h.numbered e (unfold chunk_of in refl);
              })
          | inr apart ↦ rw apart (append-IsChunking cs t h b)
        ]

  add_raw-IsChunking :
      (cs : List Chunk) (raw : Text) → IsChunking cs → IsChunking (add_raw tokenizer cs raw)
  unfolding add_raw
  add_raw-IsChunking cs raw h =
      let t = truncate_to_max_tokens tokenizer raw in
      elim (Bool-cases (is_empty t)) [
        | inl gone ↦ rw gone h
        | inr left ↦
            rw left
              (merge_or_append-IsChunking cs t h (truncate-bound tokenizer raw) (last? cs) refl)
      ]

  chunk_loop-IsChunking :
      (cs : List Chunk) (raws : List Text)
      → IsChunking cs
      → IsChunking (chunk_loop tokenizer cs raws)
  unfolding chunk_loop
  chunk_loop-IsChunking cs [] h = h
  chunk_loop-IsChunking cs (raw ∷ raws) h =
      chunk_loop-IsChunking (add_raw tokenizer cs raw) raws (add_raw-IsChunking cs raw h)

  or_whole-IsChunking :
      (cs : List Chunk) (content : Text)
      → IsChunking cs
      → IsChunking (or_whole tokenizer cs content)
  unfolding or_whole
  or_whole-IsChunking [] content h = elim (Bool-cases (is_empty (strip content))) [
    | inl blank ↦ rw blank h
    | inr text ↦ rw text (record {
      sound = (chunk_of-IsSound _ 0 (truncate-bound tokenizer (strip content)), tt);
      numbered = (unfold chunk_of in refl, tt);
    })
  ]
  or_whole-IsChunking (c ∷ cs) content h = h

  or_whole-ne-nil :
      (cs : List Chunk) (content : Text)
      → is_empty (strip content) ≡ false
      → or_whole tokenizer cs content ≢ []
  unfolding or_whole
  or_whole-ne-nil [] content h = rw h (λ e. cc)
  or_whole-ne-nil (c ∷ cs) content h = λ e. cc

  module _ (split_text : ℕ → ℕ → Text → List Text) where
    -- Whatever the splitter and the tokenizer do, the chunks of an item are numbered 0, 1, 2, … in
    -- order; each carries the character and token counts of its own text, at most 600 tokens.
    pub chunk_item-IsChunking :
        (content source_type : Text)
        → IsChunking (chunk_item tokenizer split_text content source_type)
    unfolding chunk_item
    chunk_item-IsChunking content source_type = elim (Bool-cases (is_empty content)) [
      | inl none_given ↦ rw none_given (record { sound = tt; numbered = tt })
      | inr given ↦ elim (Bool-cases (is_empty (strip content))) [
        | inl blank ↦ rw (given, blank) (record { sound = tt; numbered = tt })
        | inr text ↦
            rw (given, text)
              (or_whole-IsChunking _ content
                (chunk_loop-IsChunking [] _ (record { sound = tt; numbered = tt })))
      ]
    ]

    -- An item has no chunks exactly if its content is empty once stripped.
    pub chunk_item-eq-nil_iff :
        (content source_type : Text)
        → (chunk_item tokenizer split_text content source_type ≡ []) ↔ (strip content ≡ [])
    unfolding chunk_item
    chunk_item-eq-nil_iff [] source_type = unfold strip rstrip lstrip in (λ e. refl, λ e. refl)
    chunk_item-eq-nil_iff (c ∷ content) source_type =
        elim (Bool-cases (is_empty (strip (c ∷ content)))) [
          | inl blank ↦ rw blank (λ e. is_empty-nil _ blank, λ e. refl)
          | inr text ↦ rw text (
            λ e. absurd (or_whole-ne-nil _ (c ∷ content) text e),
            λ e. cc (ap (λ (t : Text). is_empty t) e),
          )
        ]

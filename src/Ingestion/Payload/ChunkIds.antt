-- ===== src/Ingestion/Payload/ChunkIds.antt =====
-- A chunk id determines its document, item and chunk.
use mathlib.Core.List.{reverse, reverse-reverse}
use qdrant_database.Prelude.{
  ℕ, zero, suc, ◌+◌, ◌-◌, ◌*◌, ◌/◌, ◌≤◌, ◌<◌, ◌≡◌, ◌≢◌, refl, sym, ap, ◌∙◌, inl, inr, [], ◌∷◌, ◌++◌,
  arith, Text, codes, digits_rev, decimal, length, All, Bool-cases, ltb, ltb→lt, split_unique,
  append_inj, All-reverse,
}
use qdrant_database.Ingestion.Payload.{build_chunk_id}

value_rev : Text → ℕ
value_rev [] = 0
value_rev (c ∷ s) = (c - b'0') + 10 * value_rev s

-- Reading back the digits gives the number, if the fuel exceeds it.
value-digits : (f n : ℕ) → n < f → value_rev (digits_rev f n) ≡ n
unfolding digits_rev value_rev
value-digits zero n h = absurd (omega arith)
value-digits (suc f) n h = elim (Bool-cases (ltb n 10)) [
  | inl small ↦ rw small (omega arith)
  | inr large ↦
      let big : 10 ≤ n = ground arith in
      rw large (omega (arith, value-digits f (n / 10) (omega arith)))
]

pub decimal-injective : (m n : ℕ) → decimal m ≡ decimal n → m ≡ n
unfolding decimal
decimal-injective m n e =
    let same : digits_rev (suc m) m ≡ digits_rev (suc n) n =
      sym (reverse-reverse (digits_rev (suc m) m))
      ∙ (ap reverse e ∙ reverse-reverse (digits_rev (suc n) n)) in
    sym (value-digits (suc m) m (omega arith))
    ∙ (ap value_rev same ∙ value-digits (suc n) n (omega arith))

abbrev NotUnderscore : ℕ → Type 0
NotUnderscore c = c ≢ b'_'

digits_free : (f n : ℕ) → All NotUnderscore (digits_rev f n)
unfolding digits_rev
digits_free zero n = tt
digits_free (suc f) n = elim (Bool-cases (ltb n 10)) [
  | inl small ↦ let bound = ltb→lt n 10 small in rw small ((omega arith), tt)
  | inr large ↦ rw large ((omega arith), digits_free f (n / 10))
]

decimal_free : (n : ℕ) → All NotUnderscore (decimal n)
unfolding decimal
decimal_free n = All-reverse NotUnderscore (digits_rev (suc n) n) (digits_free (suc n) n)

-- For document ids of one length, as UUIDs are, equal chunk ids have the same document id, item
-- index and chunk index.
pub build_chunk_id-injective :
    (d e : Text) (i j c k : ℕ)
    → length d ≡ length e
    → build_chunk_id d i c ≡ build_chunk_id e j k
    → (d ≡ e) × (i ≡ j) × (c ≡ k)
unfolding build_chunk_id
build_chunk_id-injective d e i j c k len h =
    let (docs, rest) = append_inj d e _ _ len h in
    let tails : decimal i ++ (codes "__c" ++ decimal c) ≡ decimal j ++ (codes "__c" ++ decimal k) =
      cc in
    let (items, rest') =
      split_unique NotUnderscore b'_' (λ p. p refl) (decimal i) (decimal j) _ _ (decimal_free i)
        (decimal_free j) tails in
    let chunks : decimal c ≡ decimal k = cc in
    (docs, decimal-injective i j items, decimal-injective c k chunks)

-- ===== src/Ingestion/Pipeline/Hashing/Utf8.antt =====
-- `str.encode` of apps/ingestion/pipeline.py tells texts apart, and adds no separator byte.
use qdrant_database.Prelude.{
  ℕ, ◌≡◌, ◌≢◌, refl, sym, List, [], ◌∷◌, ◌++◌, Text, encode, encode_char, All, All-append, arith,
}

pub encode_char_unique :
    (c d : ℕ) (s t : List ℕ) → encode_char c ++ s ≡ encode_char d ++ t → (c ≡ d) × (s ≡ t)
unfolding encode_char
encode_char_unique c d s t e = ground arith

append_char_ne_nil : (c : ℕ) (s : List ℕ) → encode_char c ++ s ≢ []
unfolding encode_char
append_char_ne_nil c s e = ground arith

pub encode_injective : (s t : Text) → encode s ≡ encode t → s ≡ t
unfolding encode
encode_injective [] [] e = refl
encode_injective [] (d ∷ t) e = absurd (append_char_ne_nil d (encode t) (sym e))
encode_injective (c ∷ s) [] e = absurd (append_char_ne_nil c (encode s) e)
encode_injective (c ∷ s) (d ∷ t) e =
    let (first, rest) = encode_char_unique c d (encode s) (encode t) e in
    let more = encode_injective s t rest in rw (first, more) refl

-- Not the separator.
abbrev pub NotSeparator : ℕ → Type 0
NotSeparator c = c ≢ 0x1f

encode_char-NotSeparator : (c : ℕ) → NotSeparator c → All NotSeparator (encode_char c)
unfolding encode_char
encode_char-NotSeparator c h = ground arith

pub encode-NotSeparator : (s : Text) → All NotSeparator s → All NotSeparator (encode s)
unfolding encode
encode-NotSeparator [] h = tt
encode-NotSeparator (c ∷ s) h =
    All-append NotSeparator (encode_char c) (encode s) (encode_char-NotSeparator c h.0)
      (encode-NotSeparator s h.1)

-- ===== src/Ingestion/Pipeline/Hashing/Preimages.antt =====
-- Which contents the content hash tells apart.
use qdrant_database.Prelude.{
  encode_char, ℕ, ◌≡◌, ◌↔◌, refl, ap, sym, List, [], ◌∷◌, ◌++◌, map, Text, encode, All,
  split_unique, append_assoc,
}
use qdrant_database.Ingestion.Pipeline.Hashing.{
  hashed_bytes, hex, compute_content_hash, incoming_hash,
}
use qdrant_database.Ingestion.Pipeline.Hashing.Utf8.{
  NotSeparator, encode_injective, encode-NotSeparator,
}
use qdrant_database.Documents.Models.{UploadItem, UploadBody}

encode-append : (s t : Text) → encode (s ++ t) ≡ encode s ++ encode t
unfolding encode
encode-append [] t = refl
encode-append (c ∷ s) t = rw (encode-append s t) (sym (append_assoc _ (encode s) (encode t)))

encode_separator : (s : Text) → encode (0x1f ∷ s) ≡ 0x1f ∷ encode s
unfolding encode encode_char
encode_separator s = refl

hashed_bytes_merge :
    (a b : UploadItem) (items : List UploadItem)
    → hashed_bytes (record a { content = a.content ++ 0x1f ∷ b.content } ∷ items)
      ≡ hashed_bytes (a ∷ b ∷ items)
unfolding hashed_bytes
hashed_bytes_merge a b items =
    rw (encode-append a.content (0x1f ∷ b.content), encode_separator b.content)
      (append_assoc (encode a.content) (0x1f ∷ encode b.content) (0x1f ∷ hashed_bytes items))

append_not_nil : (s : List ℕ) (c : ℕ) (t : List ℕ) → ¬ (s ++ c ∷ t ≡ [])
append_not_nil [] c t e = cc
append_not_nil (x ∷ s) c t e = cc

-- One item that holds two contents with the separator byte between them has the content hash of
-- the two items, and two bodies that differ in this way only have the same incoming hash, be it
-- computed or sent by the client.
pub content_hash_merges :
    (sha256 : List ℕ → List ℕ) (a b : UploadItem) (items : List UploadItem) (body : UploadBody)
    → let merged = record a { content = a.content ++ 0x1f ∷ b.content } ∷ items in
      let apart = a ∷ b ∷ items in
      (compute_content_hash sha256 merged ≡ compute_content_hash sha256 apart)
      × (incoming_hash sha256 (record body { items = merged })
          ≡ incoming_hash sha256 (record body { items = apart }))
unfolding compute_content_hash incoming_hash
content_hash_merges sha256 a b items body =
    let same = ap (λ bytes. hex (sha256 bytes)) (hashed_bytes_merge a b items) in
    (same, rw same refl)

abbrev pub content_of : UploadItem → Text
content_of item = item.content

abbrev pub IsClean : UploadItem → Type 0
IsClean item = All NotSeparator item.content

hashed_bytes_contents :
    (xs ys : List UploadItem)
    → All IsClean xs
    → All IsClean ys
    → hashed_bytes xs ≡ hashed_bytes ys
    → map content_of xs ≡ map content_of ys
unfolding hashed_bytes
hashed_bytes_contents [] [] p q e = refl
hashed_bytes_contents [] (y ∷ ys) p q e = absurd (append_not_nil (encode y.content) _ _ (sym e))
hashed_bytes_contents (x ∷ xs) [] p q e = absurd (append_not_nil (encode x.content) _ _ e)
hashed_bytes_contents (x ∷ xs) (y ∷ ys) p q e =
    let (first, rest) =
      split_unique NotSeparator 0x1f (λ n. n refl) (encode x.content) (encode y.content) _ _
        (encode-NotSeparator x.content p.0) (encode-NotSeparator y.content q.0) e in
    let same = encode_injective x.content y.content first in
    let more = hashed_bytes_contents xs ys p.1 q.1 rest in rw (same, more) refl

contents_hashed :
    (xs ys : List UploadItem)
    → map content_of xs ≡ map content_of ys
    → hashed_bytes xs ≡ hashed_bytes ys
unfolding hashed_bytes
contents_hashed [] [] e = refl
contents_hashed [] (y ∷ ys) e = cc e
contents_hashed (x ∷ xs) [] e = cc e
contents_hashed (x ∷ xs) (y ∷ ys) e =
    let same : x.content ≡ y.content = cc in
    let more = contents_hashed xs ys (cc) in rw (same, more) refl

-- Where no content holds the separator character, two lists of items feed the same bytes to the hash
-- exactly if they have the same contents in the same order.
pub hashed_bytes_determine :
    (xs ys : List UploadItem)
    → All IsClean xs
    → All IsClean ys
    → (hashed_bytes xs ≡ hashed_bytes ys) ↔ (map content_of xs ≡ map content_of ys)
hashed_bytes_determine xs ys p q = (hashed_bytes_contents xs ys p q, contents_hashed xs ys)

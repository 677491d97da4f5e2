-- ===== src/Naming/Separation.antt =====
-- Where no tenant id holds two underscores in a row, a collection name determines its bot.
use qdrant_database.Prelude.{◌≡◌, refl, ◌≢◌, ◌⊎◌, [], ◌∷◌, ◌++◌, arith, Text, codes}
use qdrant_database.Exec.{ok}
use qdrant_database.Naming.{collection_name, joined_name}

-- No two underscores in a row.
abbrev pub NoDouble : Text → Type 0
NoDouble [] = Unit
NoDouble (c ∷ []) = Unit
NoDouble (c ∷ d ∷ s) = ((c ≢ b'_') ⊎ (d ≢ b'_')) × NoDouble (d ∷ s)

split_unique :
    (s t b d : Text)
    → NoDouble s
    → NoDouble t
    → s ++ (codes "__b_" ++ b) ≡ t ++ (codes "__b_" ++ d)
    → (s ≡ t) × (b ≡ d)
split_unique [] [] b d hs ht e = (refl, cc)
split_unique [] (y ∷ []) b d hs ht e = absurd (ground arith)
split_unique [] (y ∷ z ∷ t) b d hs ht e = absurd (ground arith)
split_unique (x ∷ []) [] b d hs ht e = absurd (ground arith)
split_unique (x ∷ z ∷ s) [] b d hs ht e = absurd (ground arith)
split_unique (x ∷ []) (y ∷ []) b d hs ht e = (cc, cc)
split_unique (x ∷ []) (y ∷ z ∷ t) b d hs ht e = ground (arith, split_unique [] (z ∷ t) b d tt ht.1)
split_unique (x ∷ w ∷ s) (y ∷ []) b d hs ht e = ground (arith, split_unique (w ∷ s) [] b d hs.1 tt)
split_unique (x ∷ w ∷ s) (y ∷ z ∷ t) b d hs ht e =
    ground (arith, split_unique (w ∷ s) (z ∷ t) b d hs.1 ht.1)

name_inj :
    (t u b d n : Text)
    → collection_name t b ≡ ok n
    → collection_name u d ≡ ok n
    → joined_name t b ≡ joined_name u d
unfolding collection_name
name_inj t u b d n h k = ground arith

-- If neither tenant id holds two underscores in a row, two calls that return one name were made
-- for the same tenant and the same bot.
pub collection_name_injective :
    (t u b d n : Text)
    → NoDouble t
    → NoDouble u
    → collection_name t b ≡ ok n
    → collection_name u d ≡ ok n
    → (t ≡ u) × (b ≡ d)
collection_name_injective t u b d n ht hu h k =
    split_unique t u b d ht hu (tails (name_inj t u b d n h k))
  where
    tails : joined_name t b ≡ joined_name u d → t ++ (codes "__b_" ++ b) ≡ u ++ (codes "__b_" ++ d)
    tails e = cc

-- ===== src/Naming/Collisions.antt =====
-- Two bots of different tenants can share one collection name.
use qdrant_database.Prelude.{
  ◌≡◌, ◌≢◌, refl, ap, ◌++◌, append_assoc, arith, Text, codes, length, length-append,
}
use qdrant_database.Exec.{ok}
use qdrant_database.Tenants.{validate_slug}
use qdrant_database.Naming.{collection_name, joined_name}

-- Where the separator may stand in two places, the joined name does not say which was meant.
pub joined_name-ambiguous :
    (a b c : Text)
    → joined_name (a ++ (codes "__b_" ++ b)) c ≡ joined_name a (b ++ (codes "__b_" ++ c))
joined_name-ambiguous a b c = simp append_assoc

longer-ne : (a b : Text) → a ++ (codes "__b_" ++ b) ≢ a
longer-ne a b e = omega (arith, length-append a (codes "__b_" ++ b), ap (λ (t : Text). length t) e)

-- For slugs a, b and c such that the longer ones are slugs too, the bots (a__b_b, c) and
-- (a, b__b_c) are different, of different tenants, and both calls return one and the same name.
pub collection_name_collides :
    (a b c : Text)
    → validate_slug (a ++ (codes "__b_" ++ b)) ≡ ok tt
    → validate_slug c ≡ ok tt
    → validate_slug a ≡ ok tt
    → validate_slug (b ++ (codes "__b_" ++ c)) ≡ ok tt
    → (collection_name (a ++ (codes "__b_" ++ b)) c ≡ collection_name a (b ++ (codes "__b_" ++ c)))
      × (collection_name a (b ++ (codes "__b_" ++ c))
          ≡ ok (joined_name a (b ++ (codes "__b_" ++ c))))
      × (a ++ (codes "__b_" ++ b) ≢ a)
unfolding collection_name
collection_name_collides a b c h1 h2 h3 h4 = (
  rw (h1, h2, h3, h4) (ap (λ (t : Text). ok t) (joined_name-ambiguous a b c)),
  rw (h3, h4) refl,
  longer-ne a b,
)

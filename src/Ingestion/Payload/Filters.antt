-- ===== src/Ingestion/Payload/Filters.antt =====
-- Which filters of a search name only keys that payloads have.
use qdrant_database.Prelude.{
  ◌≡◌, ◌↔◌, refl, Option, none, some, List, [], ◌∷◌, Text, All, All-append, All-split,
}
use qdrant_database.Ingestion.Chunker.{Chunk}
use qdrant_database.Ingestion.Payload.{ScrapedItem, ScrapedSource, build_payload}
use qdrant_database.Qdrant.Client.{Value, FieldCondition, Payload, lookup}
use qdrant_database.Qdrant.Search.{build_filter, any_condition, value_condition}

-- The payload has a value at the key of the condition.
abbrev pub HasKey : Payload → FieldCondition → Type 0
HasKey payload c = (v : Value) × (lookup c.key payload ≡ some v)

-- Nothing asked for: the list or the text is absent or empty.
abbrev pub NoTexts : Option (List Text) → Type 0
NoTexts none = Unit
NoTexts (some xs) = xs ≡ []

abbrev pub NoText : Option Text → Type 0
NoText none = Unit
NoText (some x) = x ≡ []

module _ (chunk : Chunk) (t b d : Text) (item : ScrapedItem) (source : ScrapedSource)
    (at : Text) where
  abbrev built : Payload
  built = build_payload chunk t b d item source at

  source_types_part :
      (xs : Option (List Text)) → All (HasKey built) (any_condition "source_type" xs)
  unfolding build_payload
  source_types_part none = tt
  source_types_part (some []) = tt
  source_types_part (some (x ∷ xs)) = ((_, refl), tt)

  tags_part : (xs : Option (List Text)) → All (HasKey built) (any_condition "tags" xs) ↔ NoTexts xs
  unfolding build_payload
  tags_part none = (λ h. tt, λ h. tt)
  tags_part (some []) = (λ h. refl, λ h. tt)
  tags_part (some (x ∷ xs)) = (λ h. let (v, e) = h.0 in cc e, λ e. cc e)

  category_part : (x : Option Text) → All (HasKey built) (value_condition "category" x) ↔ NoText x
  unfolding build_payload
  category_part none = (λ h. tt, λ h. tt)
  category_part (some []) = (λ h. refl, λ h. tt)
  category_part (some (c ∷ x)) = (λ h. let (v, e) = h.0 in cc e, λ e. cc e)

  is_active_part : (v : Value) × (lookup "is_active" built ≡ some v)
  unfolding build_payload
  is_active_part = (_, refl)

  -- Every condition of a search's filter is on a key that the pipeline's payloads have exactly if
  -- the search asks for no tags and for no category: these keys are in no payload.
  pub build_filter_keys_iff :
      (source_types tags : Option (List Text)) (category : Option Text)
      → All
          (HasKey (build_payload chunk t b d item source at))
          (build_filter source_types tags category)
        ↔ (NoTexts tags × NoText category)
  unfolding build_filter
  build_filter_keys_iff source_types tags category = (
    λ h.
        let (_, rest) = All-split (HasKey built) (any_condition "source_type" source_types) _ h.1 in
        let (of_tags, of_category) = All-split (HasKey built) (any_condition "tags" tags) _ rest in
        ((tags_part tags).0 of_tags, (category_part category).0 of_category),
    λ h. (
      is_active_part,
      All-append (HasKey built) (any_condition "source_type" source_types) _
          (source_types_part source_types)
          (All-append (HasKey built) (any_condition "tags" tags) _ ((tags_part tags).1 h.0)
            ((category_part category).1 h.1)),
    ),
  )

-- ===== src/Ingestion/Payload/Indexed.antt =====
-- The payloads that the pipeline writes and the filters of the program, against the types of the
-- indexes in apps/qdrant_core/collection.py.
use qdrant_database.Prelude.{
  ◌≡◌, refl, Option, none, some, List, [], ◌∷◌, String, Text, All, All-append,
}
use qdrant_database.Ingestion.Chunker.{Chunk}
use qdrant_database.Ingestion.Payload.{ScrapedItem, ScrapedSource, build_payload, optional_text}
use qdrant_database.Qdrant.Client.{
  Value, text, texts, null, bool, Match, match_value, match_any, FieldCondition, Payload, lookup,
  PayloadSchema, keyword, bool_index, tenant_keyword,
}
use qdrant_database.Qdrant.Schema.{payload_indexes}
use qdrant_database.Qdrant.Search.{build_filter, any_condition, value_condition}
use qdrant_database.Qdrant.Collection.{doc_selector}

-- The values that an index of Qdrant takes: texts and lists of them, Booleans, and null nowhere.
abbrev pub Takes : PayloadSchema → Value → Type 0
Takes keyword (text t) = Unit
Takes keyword (texts ts) = Unit
Takes bool_index (bool b) = Unit
Takes tenant_keyword (text t) = Unit
Takes schema null = Unit
Takes schema v = ⊥

abbrev pub TakesAny : PayloadSchema → Option Value → Type 0
TakesAny schema none = Unit
TakesAny schema (some v) = Takes schema v

-- What the payload has at the key of an index, if anything, is of the type of the index.
abbrev pub FitsIndex : Payload → String × PayloadSchema → Type 0
FitsIndex payload (key, schema) = TakesAny schema (lookup key payload)

-- The comparisons that an index answers.
abbrev pub Answers : PayloadSchema → Match → Type 0
Answers keyword (match_value (text t)) = Unit
Answers keyword (match_any ts) = Unit
Answers bool_index (match_value (bool b)) = Unit
Answers tenant_keyword (match_value (text t)) = Unit
Answers tenant_keyword (match_any ts) = Unit
Answers schema m = ⊥

-- The condition is on a key with an index, which answers it.
abbrev pub UsesIndex : FieldCondition → Type 0
UsesIndex c =
    (schema : PayloadSchema) × (lookup c.key payload_indexes ≡ some schema) × Answers schema c.match

any_condition-UsesIndex :
    (key : String) (xs : Option (List Text))
    → lookup key payload_indexes ≡ some keyword
    → All UsesIndex (any_condition key xs)
any_condition-UsesIndex key none e = tt
any_condition-UsesIndex key (some []) e = tt
any_condition-UsesIndex key (some (x ∷ xs)) e = ((keyword, e, tt), tt)

value_condition-UsesIndex :
    (key : String) (x : Option Text)
    → lookup key payload_indexes ≡ some keyword
    → All UsesIndex (value_condition key x)
value_condition-UsesIndex key none e = tt
value_condition-UsesIndex key (some []) e = tt
value_condition-UsesIndex key (some (c ∷ x)) e = ((keyword, e, tt), tt)

optional_text-Takes : (x : Option Text) → Takes keyword (optional_text x)
optional_text-Takes none = tt
optional_text-Takes (some t) = tt

-- In every payload that the pipeline writes, what stands at the key of an index is of the type of the
-- index or null; and every condition of a search's filter, and of the filter by which a document is
-- counted and deleted, is on an indexed key by a comparison that the index answers.
pub indexes_fit :
    (chunk : Chunk) (t b d : Text) (item : ScrapedItem) (source : ScrapedSource) (at : Text)
    (source_types tags : Option (List Text)) (category : Option Text)
    → All (FitsIndex (build_payload chunk t b d item source at)) payload_indexes
      × All UsesIndex (build_filter source_types tags category)
      × All UsesIndex (doc_selector d)
unfolding build_payload build_filter
indexes_fit chunk t b d item source at source_types tags category = (
  (tt, (tt, (optional_text-Takes source.url, (tt, (tt, (tt, (tt, (tt, tt)))))))),
  (
    (bool_index, refl, tt),
    All-append UsesIndex (any_condition "source_type" source_types) _
        (any_condition-UsesIndex "source_type" source_types refl)
        (All-append UsesIndex (any_condition "tags" tags) _
          (any_condition-UsesIndex "tags" tags refl)
          (value_condition-UsesIndex "category" category refl)),
  ),
  ((keyword, refl, tt), tt),
)

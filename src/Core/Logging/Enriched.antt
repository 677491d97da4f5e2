-- ===== src/Core/Logging/Enriched.antt =====
-- What a log event says after the processor.
use package.text.Mathlib.Text.{◌==◌ as str_eq}
use package.text.Mathlib.TextEquality.{eq_iff}
use qdrant_database.Prelude.{
  ◌≡◌, refl, ◌∙◌, ap, Option, none, some, [], ◌∷◌, String, Text, if◌then◌else◌, arith, subst,
  Bool-cases, inl, inr,
}
use qdrant_database.Core.Context.{RequestContext}
use qdrant_database.Core.Logging.{
  FieldValue, value, EventDict, setdefault, enrich, request_context_processor,
}
use qdrant_database.Qdrant.Client.{lookup}

abbrev pub or_else : Option FieldValue → Option FieldValue → Option FieldValue
or_else none b = b
or_else (some a) b = some a

abbrev pub field_of : Option Text → Option FieldValue
field_of none = none
field_of (some t) = some (value t)

-- The context variable that goes by the name of a field.
abbrev pub variable : RequestContext → String → Option FieldValue
variable c k =
    if str_eq "request_id" k
    then field_of c.request_id
    else if str_eq "tenant_id" k
    then field_of c.tenant_id
    else if str_eq "bot_id" k
    then field_of c.bot_id
    else if str_eq "doc_id" k
    then field_of c.doc_id
    else none

abbrev at_key : String → Option FieldValue → String → Option FieldValue
at_key key v k = if str_eq key k then v else none

lookup-setdefault :
    (key k : String) (v : FieldValue) (d : EventDict)
    → lookup k (setdefault key v d) ≡ or_else (lookup k d) (at_key key (some v) k)
unfolding setdefault
lookup-setdefault key k v [] = refl
lookup-setdefault key k v ((j, w) ∷ d) =
    ground (arith, eq_iff j key, eq_iff j k, eq_iff key k, lookup-setdefault key k v d)

lookup-enrich :
    (key k : String) (o : Option Text) (d : EventDict)
    → lookup k (enrich key o d) ≡ or_else (lookup k d) (at_key key (field_of o) k)
unfolding enrich
lookup-enrich key k none d = ground arith
lookup-enrich key k (some t) d = lookup-setdefault key k (value t) d

or_none : (x : Option FieldValue) → or_else x none ≡ x
or_none none = refl
or_none (some v) = refl

-- The four steps in a row, at the key `k`.
abbrev steps : String → (r t b d o : Option FieldValue) → Option FieldValue
steps k r t b d o =
    or_else
      (or_else (or_else (or_else o (at_key "request_id" r k)) (at_key "tenant_id" t k))
        (at_key "bot_id" b k))
      (at_key "doc_id" d k)

-- The test that decides which step can add the key.
abbrev pick : String → (r t b d : Option FieldValue) → Option FieldValue
pick k r t b d =
    if str_eq "request_id" k
    then r
    else if str_eq "tenant_id" k
    then t
    else if str_eq "bot_id" k
    then b
    else if str_eq "doc_id" k
    then d
    else none

chosen :
    (k : String) (r t b d o : Option FieldValue) → steps k r t b d o ≡ or_else o (pick k r t b d)
chosen k r t b d o = elim (Bool-cases (str_eq "request_id" k)) [
  | inl e ↦
      subst (λ (j : String). steps j r t b d o ≡ or_else o (pick j r t b d))
        ((eq_iff "request_id" k).0 e) (rw (or_none, or_none) (or_none _))
  | inr n₁ ↦ elim (Bool-cases (str_eq "tenant_id" k)) [
    | inl e ↦
        subst (λ (j : String). steps j r t b d o ≡ or_else o (pick j r t b d))
          ((eq_iff "tenant_id" k).0 e) (rw (or_none o) (rw or_none (or_none _)))
    | inr n₂ ↦ elim (Bool-cases (str_eq "bot_id" k)) [
      | inl e ↦
          subst (λ (j : String). steps j r t b d o ≡ or_else o (pick j r t b d))
            ((eq_iff "bot_id" k).0 e) (rw (or_none o, or_none o) (or_none _))
      | inr n₃ ↦ rw (n₁, n₂, n₃, or_none o, or_none o, or_none o) refl
    ]
  ]
]

-- A log event keeps every field that it has; a field that it lacks comes from the context variable
-- of that name, if it is one of request_id, tenant_id, bot_id and doc_id and is set; no other field
-- is added.
pub lookup-request_context_processor :
    (c : RequestContext) (d : EventDict) (k : String)
    → lookup k (request_context_processor c d) ≡ or_else (lookup k d) (variable c k)
unfolding request_context_processor
lookup-request_context_processor c d k =
    lookup-enrich "doc_id" k c.doc_id _
    ∙ ap (λ (o : Option FieldValue). or_else o (at_key "doc_id" (field_of c.doc_id) k))
        (lookup-enrich "bot_id" k c.bot_id _
          ∙ ap (λ (o : Option FieldValue). or_else o (at_key "bot_id" (field_of c.bot_id) k))
              (lookup-enrich "tenant_id" k c.tenant_id _
                ∙ ap
                    (λ (o : Option FieldValue).
                      or_else o (at_key "tenant_id" (field_of c.tenant_id) k))
                    (lookup-enrich "request_id" k c.request_id d)))
    ∙ chosen k (field_of c.request_id) (field_of c.tenant_id) (field_of c.bot_id)
        (field_of c.doc_id) (lookup k d)

-- ===== src/Documents/Serializers/Accepted.antt =====
-- Exactly which bodies pass the checks of the program.
use qdrant_database.Prelude.{
  ◌≡◌, ◌≢◌, ◌↔◌, refl, false, List, [], ◌∷◌, Text, arith, All, contains, is_empty, strip,
}
use qdrant_database.Documents.Models.{UploadBody}
use qdrant_database.Documents.Serializers.{
  valid, RawItem, dict, not_a_dict, removed_fields, removed_item_fields, id_fields, meets,
  any_removed, validate_upload, SearchBody, asks_inactive, validate_search,
}

-- No key is a forbidden one.
abbrev pub Avoids : List Text → List Text → Type 0
Avoids forbidden keys = All (λ k. contains k forbidden ≡ false) keys

abbrev pub CleanItem : RawItem → Type 0
CleanItem not_a_dict = Unit
CleanItem (dict keys) = Avoids removed_item_fields keys

meets_iff : (forbidden keys : List Text) → (meets forbidden keys ≡ false) ↔ Avoids forbidden keys
unfolding meets
meets_iff forbidden [] = (λ _. tt, λ _. refl)
meets_iff forbidden (k ∷ keys) =
    let (to, from) = meets_iff forbidden keys in
    (
      λ h. (ground arith, to (ground arith)),
      λ h. let rest = from h.1 in let first = h.0 in ground arith,
    )

any_removed_iff : (items : List RawItem) → (any_removed items ≡ false) ↔ All CleanItem items
unfolding any_removed
any_removed_iff [] = (λ _. tt, λ _. refl)
any_removed_iff (not_a_dict ∷ items) =
    let (to, from) = any_removed_iff items in (λ h. (tt, to h), λ h. from h.1)
any_removed_iff (dict keys ∷ items) =
    let (to, from) = any_removed_iff items in
    let (to_keys, from_keys) = meets_iff removed_item_fields keys in
    (
      λ h. (to_keys (ground arith), to (ground arith)),
      λ h. let rest = from h.1 in let first = from_keys h.0 in ground arith,
    )

not-nil : {A : Type 0} (xs : List A) → is_empty xs ≡ false → xs ≢ []
not-nil [] h = cc
not-nil (x ∷ xs) h = λ e. cc

is_empty_of_ne : {A : Type 0} (xs : List A) → xs ≢ [] → is_empty xs ≡ false
is_empty_of_ne [] h = absurd (h refl)
is_empty_of_ne (x ∷ xs) h = refl

-- An upload passes `validate`, unchanged, exactly if it has at least one item and neither its keys
-- nor those of an item are among the removed ones, nor its keys among the ids of the path.
pub validate_upload_iff :
    (keys : List Text) (raw_items : List RawItem) (attrs : UploadBody)
    → (validate_upload keys raw_items attrs ≡ valid attrs) ↔ (
        Avoids removed_fields keys
        × Avoids id_fields keys
        × All CleanItem raw_items
        × (attrs.items ≢ []))
unfolding validate_upload
validate_upload_iff keys raw_items attrs =
    let (to, from) = meets_iff removed_fields keys in
    let (to_ids, from_ids) = meets_iff id_fields keys in
    let (to_items, from_items) = any_removed_iff raw_items in
    (
      λ h. (
        to (ground arith),
        to_ids (ground arith),
        to_items (ground arith),
        not-nil attrs.items (ground arith),
      ),
      λ h. rw (from h.0, from_ids h.1, from_items h.2, is_empty_of_ne attrs.items h.3) refl,
    )

-- A search passes `validate`, unchanged, exactly if it does not ask for inactive documents and its
-- query is not blank.
pub validate_search_iff :
    (attrs : SearchBody)
    → (validate_search attrs ≡ valid attrs)
      ↔ ((asks_inactive attrs.filters ≡ false) × (strip attrs.query ≢ []))
unfolding validate_search
validate_search_iff attrs = (
  λ h. (ground arith, not-nil (strip attrs.query) (ground arith)),
  λ h. rw (h.0, is_empty_of_ne (strip attrs.query) h.1) refl,
)

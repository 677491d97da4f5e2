-- ===== src/Documents/Serializers.antt =====
-- apps/documents/serializers.py: the `validate` methods. What the fields of a serializer check by
-- themselves is Django REST framework's, and a parameter.
pub mod Accepted
use qdrant_database.Prelude.{
  ℕ, Bool, false, not, ◌||◌, Option, none, some, List, [], ◌∷◌, Text, codes, contains, is_empty,
  strip, if◌then◌else◌,
}
use qdrant_database.Documents.Models.{UploadBody}

-- `serializer.errors`: the error codes of the program, or those of the framework's fields.
pub data Errors : Type 0 where
  field_errors : Errors
  removed_field id_in_body empty_items : Errors
  only_active_must_be_true empty_query : Errors

pub data Checked (A : Type 0) : Type 0 where
  valid : A → Checked A
  invalid : Errors → Checked A

-- An element of the raw `items`: a dict, of which the keys matter, or something else.
pub data RawItem : Type 0 where
  dict : List Text → RawItem
  not_a_dict : RawItem

abbrev pub removed_fields : List Text
removed_fields = codes "language" ∷ codes "custom_metadata" ∷ []

abbrev pub removed_item_fields : List Text
removed_item_fields = codes "language" ∷ codes "url" ∷ codes "item_type" ∷ codes "title" ∷ []

abbrev pub id_fields : List Text
id_fields = codes "tenant_id" ∷ codes "bot_id" ∷ []

-- `bool(forbidden & set(keys))`
unfoldable pub meets : List Text → List Text → Bool
meets forbidden [] = false
meets forbidden (k ∷ keys) = contains k forbidden || meets forbidden keys

-- Whether the loop over the raw items finds a removed field.
unfoldable pub any_removed : List RawItem → Bool
unfolding meets
any_removed [] = false
any_removed (not_a_dict ∷ items) = any_removed items
any_removed (dict keys ∷ items) = meets removed_item_fields keys || any_removed items

-- `UploadBodySerializer.validate`, from the keys and raw items of `initial_data`.
unfoldable pub validate_upload : List Text → List RawItem → UploadBody → Checked UploadBody
validate_upload keys raw_items attrs =
    if meets removed_fields keys
    then invalid removed_field
    else if meets id_fields keys
    then invalid id_in_body
    else if any_removed raw_items
    then invalid removed_field
    else if is_empty attrs.items
    then invalid empty_items
    else valid attrs

pub record SearchFilters : Type 0 where
  pub source_types : List Text
  pub tags : List Text
  pub category : Option Text
  pub only_active : Bool

pub record SearchBody : Type 0 where
  pub query : Text
  pub top_k : ℕ
  pub filters : Option SearchFilters

-- `filters and not filters.get("only_active", True)`
unfoldable pub asks_inactive : Option SearchFilters → Bool
asks_inactive none = false
asks_inactive (some f) = not f.only_active

-- `SearchRequestSerializer.validate`
unfoldable pub validate_search : SearchBody → Checked SearchBody
unfolding asks_inactive
validate_search attrs =
    if asks_inactive attrs.filters
    then invalid only_active_must_be_true
    else if is_empty (strip attrs.query)
    then invalid empty_query
    else valid attrs

-- What Django REST framework makes of the data of a request.
pub record Forms (Data : Type 0) : Type 0 where
  pub keys : Data → List Text
  pub raw_items : Data → List RawItem
  pub upload_fields : Data → Checked UploadBody
  pub search_fields : Data → Checked SearchBody

module _ {Data : Type 0} (forms : Forms Data) where
  -- `serializer.is_valid()` of an upload: the fields first, then `validate`.
  check_fields_upload : List Text → List RawItem → Checked UploadBody → Checked UploadBody
  check_fields_upload keys raw_items (invalid e) = invalid e
  check_fields_upload keys raw_items (valid attrs) = validate_upload keys raw_items attrs

  unfoldable pub check_upload : Data → Checked UploadBody
  unfolding check_fields_upload
  check_upload d = check_fields_upload (forms.keys d) (forms.raw_items d) (forms.upload_fields d)

  check_fields_search : Checked SearchBody → Checked SearchBody
  check_fields_search (invalid e) = invalid e
  check_fields_search (valid attrs) = validate_search attrs

  unfoldable pub check_search : Data → Checked SearchBody
  unfolding check_fields_search
  check_search d = check_fields_search (forms.search_fields d)

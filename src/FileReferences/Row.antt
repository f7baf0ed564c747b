-- ===== src/FileReferences/Row.antt =====
-- `_raw_file_values` and `canonical_local_file_references_for_row`
-- (ppbase/services/file_references.py). The decoder of JSON is a parameter, and so is whether a name
-- is a URL. A set that is sorted in the end is a list kept in order without repetition; all references
-- of a row have the same identifiers, so their names decide the order.
use ppbase.Prelude.{
  Str, Unicode, codes, text_eq, strip, starts_with, ◌==◌, ltb, List, [], ◌∷◌, ◌++◌, Bool, true,
  false, not, ◌&&◌, ◌||◌, Option, none, some, map, is_empty, if◌then◌else◌,
}
use ppbase.Value.{
  Value, Items, Fields, nil, cons, null, bool, int, float, text, list, dict, Builtins, get_null,
  get_default, truthy, str,
}
use ppbase.StorageSafety.Component.{
  Unsafe, safe, rejected, validate_collection_id, validate_record_id, validate_file_reference,
}

-- `s < t`
unfoldable pub text_lt : Str → Str → Bool
text_lt s [] = false
text_lt [] (_ ∷ _) = true
text_lt (a ∷ s) (b ∷ t) = ltb a b || (a == b && text_lt s t)

unfoldable pub insert_name : Str → List Str → List Str
insert_name name [] = name ∷ []
insert_name name (x ∷ xs) =
    let later = insert_name name xs in
    if text_eq name x then x ∷ xs else if text_lt name x then name ∷ (x ∷ xs) else x ∷ later

-- A tuple of the collection, the record and the name of the file
pub record LocalFileReference : Type 0 where
  pub collection_id : Str
  pub record_id : Str
  pub filename : Str

-- StorageSafetyError, or TypeError for a schema that cannot be iterated
pub data References : Type 0 where
  found : List LocalFileReference → References
  unsafe : Unsafe → References
  not_iterable : References

pub data Names : Type 0 where
  collected : List Str → Names
  unsafe_name : Unsafe → Names

module _ {F : Type 0} (U : Unicode) (B : Builtins F) (decode : Str → Option (Value F))
    (is_remote : Str → Bool) where
  unfoldable pub items : Items F → List (Value F)
  items nil = []
  items (cons v vs) = v ∷ items vs

  abbrev decoded_or : Value F → Option (Value F) → List (Value F)
  decoded_or value (some (list vs)) = items vs
  decoded_or value _ = value ∷ []

  abbrev if_true : Value F → List (Value F)
  if_true value = if truthy B value then value ∷ [] else []

  unfoldable pub raw_file_values : Value F → List (Value F)
  raw_file_values (list vs) = items vs
  raw_file_values (text s) =
      let stripped = strip U.is_space s in
      if is_empty stripped
      then []
      else if starts_with stripped (codes "[")
      then decoded_or (text s) (decode stripped)
      else text s ∷ []
  raw_file_values null = if_true null
  raw_file_values (bool b) = if_true (bool b)
  raw_file_values (int n) = if_true (int n)
  raw_file_values (float f) = if_true (float f)
  raw_file_values (dict d) = if_true (dict d)

  abbrev is_text : Str → Value F → Bool
  is_text name (text s) = text_eq s name
  is_text name _ = false

  -- `str(value or default)`
  abbrev str_or : Str → Value F → Str
  str_or default value = if truthy B value then str B value else default

  abbrev field_filenames : Fields F → Str → List Str
  field_filenames row name =
      if is_empty name then [] else map (λ v. str B v) (raw_file_values (get_null name row))

  -- The filenames of one field of the schema
  unfoldable pub filenames_of : Fields F → Value F → List Str
  filenames_of row (dict raw_field) =
      if is_text (codes "file") (get_null (codes "type") raw_field)
      then field_filenames row (str_or [] (get_default (codes "name") (text []) raw_field))
      else []
  filenames_of row _ = []

  unfoldable pub filenames : Fields F → List (Value F) → List Str
  filenames row [] = []
  filenames row (raw_field ∷ schema) = filenames_of row raw_field ++ filenames row schema

  -- The body of the loop over the filenames, and `references.add`
  unfoldable pub add_all : List Str → List Str → Names
  add_all [] names = collected names
  add_all (filename ∷ rest) names =
      if is_empty filename || is_remote filename
      then add_all rest names
      else elim (validate_file_reference U {F = F} (text filename)) [
        | safe name ↦ add_all rest (insert_name name names)
        | rejected reason ↦ unsafe_name reason
      ]

  -- `_value(collection, "schema", ()) or ()`; the keys and characters of other values are no mappings.
  abbrev pub schema_of : Value F → Option (List (Value F))
  schema_of (list fields) = some (items fields)
  schema_of (text _) = some []
  schema_of (dict _) = some []
  schema_of other = if truthy B other then none else some []

  abbrev pub reference : Str → Str → Str → LocalFileReference
  reference collection_id record_id name = record {
    collection_id = collection_id;
    record_id = record_id;
    filename = name;
  }

  abbrev pub of_names : Str → Str → Names → References
  of_names collection_id record_id (unsafe_name reason) = unsafe reason
  of_names collection_id record_id (collected names) =
      found (map (reference collection_id record_id) names)

  abbrev pub of_schema : Str → Str → Fields F → Option (List (Value F)) → References
  of_schema collection_id record_id row none = not_iterable
  of_schema collection_id record_id row (some schema) =
      of_names collection_id record_id (add_all (filenames row schema) [])

  abbrev pub is_owning : Fields F → Bool
  is_owning collection =
      let type =
        str_or (codes "base") (get_default (codes "type") (text (codes "base")) collection) in
      text_eq type (codes "base") || text_eq type (codes "auth")

  unfoldable pub canonical_local_file_references_for_row : Fields F → Fields F → References
  canonical_local_file_references_for_row collection row =
      if not (is_owning collection)
      then found []
      else elim (validate_collection_id U (get_null (codes "id") collection)) [
        | rejected reason ↦ unsafe reason
        | safe collection_id ↦ elim (validate_record_id U (get_null (codes "id") row)) [
          | rejected reason ↦ unsafe reason
          | safe record_id ↦
              of_schema collection_id record_id row
                (schema_of (get_null (codes "schema") collection))
        ]
      ]

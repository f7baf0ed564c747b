-- ===== src/Tests/FileReferences.antt =====
-- The files of a row: two fields hold the same file, and one is a URL.
use ppbase.Prelude.{
  Str, codes, text_eq, contains, has_char, strip, any, drop_while, starts_with, List, [], ◌∷◌, Bool,
  Option, none, ◌≡◌, refl,
}
use ppbase.Value.{Value, nil, cons, Fields, field, end, text, list, dict, get, str, truthy}
use ppbase.Tests.Ascii.{ascii, builtins}
use ppbase.StorageSafety.Utf8.{encode, utf8_char}
use ppbase.StorageSafety.Component.{
  validate_text, validate_single_component, validate_collection_id, validate_record_id,
  validate_file_reference,
}
use ppbase.FileReferences.Row.{
  text_lt, insert_name, LocalFileReference, found, items, raw_file_values, filenames_of, filenames,
  add_all, canonical_local_file_references_for_row,
}
use ppbase.FileReferences.Canonical.{
  AreCanonical, canonical_local_file_references_for_row-AreCanonical,
}

abbrev no_json : Str → Option (Value Unit)
no_json s = none

abbrev is_remote : Str → Bool
is_remote name = starts_with name (codes "http://")

abbrev file_field : Str → Value Unit
file_field name =
    dict (field (codes "name") (text name) (field (codes "type") (text (codes "file")) end))

abbrev collection : Fields Unit
collection = field (codes "id") (text (codes "posts")) (
    field (codes "schema")
      (list (cons (file_field (codes "cover")) (cons (file_field (codes "files")) nil))) end)

abbrev row : Fields Unit
row = field (codes "id") (text (codes "r1")) (
    field (codes "cover") (text (codes "b.png")) (
      field (codes "files")
        (list (
          cons (text (codes "b.png"))
            (cons (text (codes "http://x")) (cons (text (codes "a.png")) nil))))
        end))

abbrev reference_to : Str → LocalFileReference
reference_to name = record {
  collection_id = codes "posts";
  record_id = codes "r1";
  filename = name;
}

abbrev both : List LocalFileReference
both = reference_to (codes "a.png") ∷ reference_to (codes "b.png") ∷ []

found_both :
    canonical_local_file_references_for_row ascii builtins no_json is_remote collection row
    ≡ found both
unfolding canonical_local_file_references_for_row filenames filenames_of raw_file_values items
    add_all insert_name text_lt validate_file_reference validate_collection_id validate_record_id
    validate_single_component validate_text encode utf8_char get str truthy text_eq contains
    has_char strip any drop_while starts_with
found_both = refl

canonical_local_file_references_for_row-AreCanonical_example :
    AreCanonical ascii builtins no_json is_remote both
canonical_local_file_references_for_row-AreCanonical_example =
    canonical_local_file_references_for_row-AreCanonical ascii builtins no_json is_remote collection
      row both found_both

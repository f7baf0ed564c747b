-- ===== src/Tests/FieldTypes.antt =====
-- Field values at concrete inputs.
use ppbase.Prelude.{
  Str, codes, text_eq, contains, has_char, strip, any, drop_while, List, [], ◌∷◌, Bool, true, false,
  Option, none, ◌≡◌, ◌↔◌, refl,
}
use ppbase.Value.{Value, nil, cons, text, list, null, pos, str, truthy}
use ppbase.Tests.Ascii.{ascii, builtins}
use ppbase.StorageSafety.Utf8.{encode, utf8_char}
use ppbase.StorageSafety.Component.{validate_single_component, validate_file_reference}
use ppbase.FieldTypes.Definition.{
  FieldDefinition, missing, valid, invalid, Chosen, many, strs, stored,
}
use ppbase.FieldTypes.Select.{unique, selected, select_many, validate_select}
use ppbase.FieldTypes.Distinct.{IsSelection}
use ppbase.FieldTypes.Selection.{validate_select-IsSelection, validate_select-stored}
use ppbase.FieldTypes.Text.{
  check_text, validate_text, validate_password, IsAccepted, IsPassword, validate_text-IsAccepted,
  validate_password_default,
}
use ppbase.FieldTypes.References.{
  true_strs, file_list, limit_many, validate_file, IsStored, validate_file-IsStored,
}

abbrev field : FieldDefinition
field = record {
  required = true;
  options = record {
    values = codes "a" ∷ codes "b" ∷ codes "c" ∷ [];
    max_select = pos 2;
    min = missing;
    max = missing;
    pattern = none;
  };
}

abbrev sent : Value Unit
sent = list (cons (text (codes "b")) (cons (text (codes "a")) (cons (text (codes "b")) nil)))

abbrev result : Chosen
result = many (codes "b" ∷ codes "a" ∷ [])

selected_twice : validate_select builtins field sent ≡ valid result
unfolding validate_select select_many unique strs str contains text_eq any
selected_twice = refl

not_offered :
    validate_select builtins field (text (codes "d"))
    ≡ invalid (codes "validation_invalid_select_value")
unfolding validate_select select_many unique strs str contains text_eq any
not_offered = refl

validate_select-IsSelection_example :
    (kept : List Str) × (result ≡ many kept)
    × IsSelection builtins field (selected builtins field sent) kept
validate_select-IsSelection_example =
    validate_select-IsSelection builtins field sent result refl selected_twice

validate_select-stored_example : validate_select builtins field (stored result) ≡ valid result
validate_select-stored_example = validate_select-stored builtins field sent result selected_twice

-- No pattern is ever searched for.
abbrev no_search : Str → Str → Option Bool
no_search pattern value = none

title_accepted :
    validate_text builtins no_search field (text (codes "title")) ≡ valid (codes "title")
unfolding validate_text check_text str
title_accepted = refl

validate_text-IsAccepted_example :
    ((validate_text builtins no_search field (text (codes "title")) ≡ valid (codes "title")) ↔ (
      (codes "title" ≡ codes "title")
      × IsAccepted builtins no_search field none none (codes "title")))
    × (validate_text builtins no_search field (text (codes "title"))
        ≡ validate_text builtins no_search field (text (codes "title")))
unfolding str
validate_text-IsAccepted_example =
    validate_text-IsAccepted builtins no_search field (text (codes "title")) (codes "title")

short_password :
    validate_password builtins no_search field (text (codes "secret"))
    ≡ invalid (codes "validation_min_text_constraint")
unfolding validate_password check_text str
short_password = refl

password_accepted :
    validate_password builtins no_search field (text (codes "longsecret"))
    ≡ valid (codes "longsecret")
unfolding validate_password check_text str
password_accepted = refl

validate_password_default_example :
    (validate_password builtins no_search field (text (codes "longsecret"))
      ≡ valid (codes "longsecret"))
    ↔ ((codes "longsecret" ≡ codes "longsecret")
        × IsPassword builtins no_search field (codes "longsecret"))
unfolding str
validate_password_default_example =
    validate_password_default builtins no_search field (text (codes "longsecret"))
      (codes "longsecret") refl refl

abbrev no_remote : Str → Bool
no_remote name = false

abbrev photos : Chosen
photos = many (codes "a.png" ∷ codes "b.png" ∷ [])

files_accepted :
    validate_file ascii builtins no_remote field
      (list (cons (text (codes "a.png")) (cons null (cons (text (codes "b.png")) nil))))
    ≡ valid photos
unfolding validate_file file_list true_strs truthy str limit_many any validate_file_reference
    validate_single_component ppbase.StorageSafety.Component.validate_text text_eq strip has_char
    drop_while encode utf8_char
files_accepted = refl

validate_file-IsStored_example : IsStored ascii builtins no_remote field photos
validate_file-IsStored_example =
    validate_file-IsStored ascii builtins no_remote field
      (list (cons (text (codes "a.png")) (cons null (cons (text (codes "b.png")) nil)))) photos
      files_accepted

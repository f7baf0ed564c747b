-- ===== src/FieldTypes/Select.antt =====
-- `_validate_select` (ppbase/models/field_types.py)
use ppbase.Prelude.{
  Str, codes, contains, List, [], ◌∷◌, Bool, not, ◌&&◌, is_empty, length, any, if◌then◌else◌,
}
use ppbase.Value.{Value, null, bool, int, float, text, list, dict, Builtins, str}
use ppbase.FieldTypes.Definition.{
  FieldDefinition, Validated, valid, Chosen, one, many, below, max_select, is_multi, refuse,
  str_or_blank, strs,
}

-- The loop that keeps the first of equal values, behind those that are seen.
unfoldable pub unique : List Str → List Str → List Str
unique seen [] = []
unique seen (v ∷ vs) =
    let repeated = unique seen vs in
    let fresh = v ∷ unique (v ∷ seen) vs in if contains seen v then repeated else fresh

-- `allowed and v not in allowed`
abbrev pub is_barred : List Str → Str → Bool
is_barred allowed v = not (is_empty allowed) && not (contains allowed v)

module _ {F : Type 0} (B : Builtins F) (field : FieldDefinition) where
  abbrev pub selected : Value F → List Str
  selected null = []
  selected (list vs) = strs B vs
  selected (bool b) = str B (bool b) ∷ []
  selected (int n) = str B (int n) ∷ []
  selected (float f) = str B (float f) ∷ []
  selected (text s) = str B (text s) ∷ []
  selected (dict d) = str B (dict d) ∷ []

  unfoldable pub select_many : List Str → Validated Chosen
  select_many val_list =
      let kept = unique [] val_list in
      refuse (field.required && is_empty val_list) (codes "validation_required") (
        refuse (below (max_select field) (length kept)) (codes "validation_max_select_constraint") (
          refuse (any (is_barred field.options.values) kept)
            (codes "validation_invalid_select_value") (valid (many kept))))

  unfoldable pub select_one : Str → Validated Chosen
  select_one val = refuse (field.required && is_empty val) (codes "validation_required") (
      refuse (not (is_empty val) && is_barred field.options.values val)
        (codes "validation_invalid_select_value") (valid (one val)))

  unfoldable pub validate_select : Value F → Validated Chosen
  validate_select value =
      if is_multi field then select_many (selected value) else select_one (str_or_blank B value)

-- ===== src/FieldTypes/Selection.antt =====
-- What `_validate_select` promises (ppbase/models/field_types.py).
use ppbase.Prelude.{Str, List, [], true, ◌≡◌, inl, inr, arith, Bool-cases}
use ppbase.Value.{Value, Builtins, str}
use ppbase.FieldTypes.Definition.{
  FieldDefinition, valid, Chosen, many, is_multi, str_or_blank, stored,
}
use ppbase.FieldTypes.Select.{unique, selected, validate_select}
use ppbase.FieldTypes.Distinct.{
  IsSelection, select_many-inverse, select_many-fixed, select_one-inverse, strs-texts,
}

-- Conditions: the field takes several values, and the validator accepts a value. Then it returns a
-- list of the same texts, each once, no more than the limit, all among the allowed values where
-- there are any, and not empty where the field is required.
pub validate_select-IsSelection :
    {F : Type 0} (B : Builtins F) (field : FieldDefinition) (value : Value F) (r : Chosen)
    → is_multi field ≡ true
    → validate_select B field value ≡ valid r
    → (kept : List Str) × (r ≡ many kept) × IsSelection B field (selected B field value) kept
unfolding validate_select
validate_select-IsSelection B field value r m h =
    let (same, selection) =
      select_many-inverse B field (selected B field value) r (ground (arith, m, h)) in
    (unique [] (selected B field value), same, selection)

-- Condition: the validator of a select field accepts a value. Then it accepts what it has returned,
-- and returns it unchanged.
pub validate_select-stored :
    {F : Type 0} (B : Builtins F) (field : FieldDefinition) (value : Value F) (r : Chosen)
    → validate_select B field value ≡ valid r
    → validate_select B field (stored r) ≡ valid r
unfolding validate_select
validate_select-stored B field value r h = elim (Bool-cases (is_multi field)) [
  | inl m ↦
      let (kept, same, selection) = validate_select-IsSelection B field value r m h in
      rw (same, m, strs-texts B kept)
        (select_many-fixed B field (selected B field value) kept selection)
  | inr m ↦
      let same = select_one-inverse B field (str_or_blank B value) r (ground (arith, m, h)) in
      rw (same, m) (unfold str in ground (arith, m, h, same))
]

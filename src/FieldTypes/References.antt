-- ===== src/FieldTypes/References.antt =====
-- `_validate_file` and `_validate_relation` (ppbase/models/field_types.py). Whether a name is a URL
-- is `is_remote_file_reference` (ppbase/core/storage_safety.py), which rests on `urlsplit` of Python's
-- library: it is a parameter.
use ppbase.Prelude.{
  Str, Unicode, codes, length, is_empty, List, [], ◌∷◌, Bool, true, false, not, ◌&&◌, any,
  if◌then◌else◌, ◌≡◌, refl, ◌⊎◌, inl, inr, All, arith, Bool-cases,
}
use ppbase.Value.{
  Value, Items, nil, cons, null, bool, int, float, text, list, dict, Builtins, truthy, str,
}
use ppbase.StorageSafety.Component.{Checked, safe, rejected, validate_file_reference}
use ppbase.StorageSafety.Safe.{IsFileName, validate_file_reference_iff}
use ppbase.FieldTypes.Definition.{
  FieldDefinition, Validated, valid, Chosen, one, many, below, max_select, is_multi, refuse,
  str_or_blank,
}

module _ {F : Type 0} (B : Builtins F) where
  -- `[str(v) for v in raw if v]`
  unfoldable pub true_strs : Items F → List Str
  true_strs nil = []
  true_strs (cons v vs) = let rest = true_strs vs in if truthy B v then str B v ∷ rest else rest

  -- `[str(raw)] if raw else []`
  abbrev single : Value F → List Str
  single raw = if truthy B raw then str B raw ∷ [] else []

  -- `file_list`, and the same tests in `_validate_relation`
  unfoldable pub file_list : Value F → List Str
  file_list null = []
  file_list (list raw) = true_strs raw
  file_list (bool b) = single (bool b)
  file_list (int n) = single (int n)
  file_list (float f) = single (float f)
  file_list (text s) = single (text s)
  file_list (dict d) = single (dict d)

-- `values[-1] if values else ""`
unfoldable pub last_or_blank : List Str → Str
last_or_blank [] = []
last_or_blank (v ∷ []) = v
last_or_blank (_ ∷ v ∷ vs) = last_or_blank (v ∷ vs)

module _ {F : Type 0} (U : Unicode) (B : Builtins F) (is_remote : Str → Bool)
    (field : FieldDefinition) where
  abbrev is_rejected : Checked → Bool
  is_rejected (safe _) = false
  is_rejected (rejected _) = true

  abbrev pub is_unsafe : Str → Bool
  is_unsafe name =
      not (is_remote name) && is_rejected (validate_file_reference U {F = F} (text name))

  -- The end of both validators, for several values
  unfoldable pub limit_many : List Str → Validated Chosen
  limit_many values = refuse (field.required && is_empty values) (codes "validation_required") (
      refuse (below (max_select field) (length values)) (codes "validation_max_select_constraint")
        (valid (many values)))

  unfoldable pub limit_one : Str → Validated Chosen
  limit_one val =
      refuse (field.required && is_empty val) (codes "validation_required") (valid (one val))

  unfoldable pub validate_file : Value F → Validated Chosen
  validate_file value =
      let values = file_list B value in
      refuse (any is_unsafe values) (codes "validation_invalid_filename")
        (if is_multi field then limit_many values else limit_one (last_or_blank values))

  unfoldable pub validate_relation : Value F → Validated Chosen
  validate_relation value =
      if is_multi field then limit_many (file_list B value) else limit_one (str_or_blank B value)

  -- A name that a file field may hold
  pub data IsReference (name : Str) : Type 0 where
    remote : is_remote name ≡ true → IsReference name
    local : IsFileName U name → IsReference name

  -- What a result holds: one name, or no name, or a list of names within the limit.
  abbrev pub IsStored : Chosen → Type 0
  IsStored (one name) = ((name ≡ []) × (field.required ≡ false)) ⊎ IsReference name
  IsStored (many names) =
      All IsReference names
      × (below (max_select field) (length names) ≡ false)
      × ((field.required && is_empty names) ≡ false)

  checked_safe :
      (name : Str) (checked : Checked)
      → validate_file_reference U {F = F} (text name) ≡ checked
      → is_rejected checked ≡ false
      → IsFileName U name
  checked_safe name (safe w) e h = ((validate_file_reference_iff U F name w).0 e).1
  checked_safe name (rejected reason) e h = cc

  is_unsafe-IsReference : (name : Str) → is_unsafe name ≡ false → IsReference name
  is_unsafe-IsReference name h = elim (Bool-cases (is_remote name)) [
    | inl r ↦ remote r
    | inr r ↦ local (
        checked_safe name (validate_file_reference U {F = F} (text name)) refl
          (ground (arith, r, h)))
  ]

  any-IsReference : (names : List Str) → any is_unsafe names ≡ false → All IsReference names
  unfolding any
  any-IsReference [] h = tt
  any-IsReference (name ∷ names) h =
      (is_unsafe-IsReference name (ground arith), any-IsReference names (ground arith))

  last-IsReference :
      (name : Str) (names : List Str)
      → All IsReference (name ∷ names)
      → IsReference (last_or_blank (name ∷ names))
  unfolding last_or_blank
  last-IsReference name [] h = h.0
  last-IsReference name (next ∷ names) h = last-IsReference next names h.1

  last-IsStored :
      (names : List Str)
      → All IsReference names
      → (field.required && is_empty (last_or_blank names)) ≡ false
      → IsStored (one (last_or_blank names))
  last-IsStored [] h r = unfold last_or_blank in inl (refl, ground arith)
  last-IsStored (name ∷ names) h r = inr (last-IsReference name names h)

-- Condition: the validator of a file field accepts a value. Then each name of its result is a URL, or
-- the name of a file in its directory; several names are within the limit; and there is one where the
-- field is required.
pub validate_file-IsStored :
    {F : Type 0} (U : Unicode) (B : Builtins F) (is_remote : Str → Bool) (field : FieldDefinition)
    (value : Value F) (r : Chosen)
    → validate_file U B is_remote field value ≡ valid r
    → IsStored U B is_remote field r
unfolding validate_file limit_many limit_one
validate_file-IsStored {F} U B is_remote field value r h =
    let values = file_list B value in
    elim (Bool-cases (any (is_unsafe {F = F} U B is_remote field) values)) [
      | inl e ↦ absurd (ground (arith, e, h))
      | inr e ↦
          let references = any-IsReference U B is_remote field values e in
          elim (Bool-cases (is_multi field)) [
            | inl m ↦
                let same : r ≡ many values = ground (arith, e, m, h) in
                rw same (references, ground (arith, e, m, h), ground (arith, e, m, h))
            | inr m ↦
                let same : r ≡ one (last_or_blank values) = ground (arith, e, m, h) in
                rw same
                  (last-IsStored U B is_remote field values references (ground (arith, e, m, h)))
          ]
    ]

-- ===== src/FieldTypes/Definition.antt =====
-- `FieldDefinition` and what its validators share (ppbase/models/field_types.py). The options have
-- the types that the code annotates or converts them to, and `maxSelect`, `values` and
-- `pattern` are read alike where they are missing and where they are `None`.
use ppbase.Prelude.{
  Str, ℕ, zero, ltb, List, [], ◌∷◌, Bool, true, false, Option, none, some, if◌then◌else◌,
}
use ppbase.Value.{
  ℤ, pos, negsuc, Value, Items, nil, cons, null, bool, int, float, text, list, dict, Builtins, str,
}

-- An option that is missing, `None` or a number
pub data Setting : Type 0 where
  missing : Setting
  unset : Setting
  number : ℤ → Setting

-- `opts.get(name, default)`
abbrev pub setting_or : Option ℤ → Setting → Option ℤ
setting_or default missing = default
setting_or default unset = none
setting_or default (number z) = some z

pub record Options : Type 0 where
  -- `values`; empty where it is missing
  pub values : List Str
  -- `maxSelect`; 0 where it is missing
  pub max_select : ℤ
  pub min : Setting
  pub max : Setting
  pub pattern : Option Str

pub record FieldDefinition : Type 0 where
  pub required : Bool
  pub options : Options

-- A validator returns a value, raises FieldValidationError with a code, or raises another exception.
pub data Validated (A : Type 0) : Type 0 where
  valid : A → Validated A
  invalid : Str → Validated A
  raised : Validated A

-- The result of a validator of one text or of a list of texts
pub data Chosen : Type 0 where
  one : Str → Chosen
  many : List Str → Chosen

-- `z > n` and `z < n`
abbrev pub above : ℤ → ℕ → Bool
above (pos k) n = ltb n k
above (negsuc _) n = false

abbrev pub below : ℤ → ℕ → Bool
below (pos k) n = ltb k n
below (negsuc _) n = true

-- `opts.get("maxSelect", 1) or 1`
abbrev pub or_one : ℤ → ℤ
or_one (pos zero) = pos 1
or_one z = z

abbrev pub max_select : FieldDefinition → ℤ
max_select field = or_one field.options.max_select

abbrev pub is_multi : FieldDefinition → Bool
is_multi field = above (max_select field) 1

-- `raise FieldValidationError(...)` when the test holds
abbrev pub refuse : {A : Type 0} → Bool → Str → Validated A → Validated A
refuse b code rest = if b then invalid code else rest

module _ {F : Type 0} (B : Builtins F) where
  -- `str(value) if value is not None else ""`
  abbrev pub str_or_blank : Value F → Str
  str_or_blank null = []
  str_or_blank (bool b) = str B (bool b)
  str_or_blank (int n) = str B (int n)
  str_or_blank (float f) = str B (float f)
  str_or_blank (text s) = str B (text s)
  str_or_blank (list xs) = str B (list xs)
  str_or_blank (dict d) = str B (dict d)

  -- `[str(v) for v in value]`
  unfoldable pub strs : Items F → List Str
  strs nil = []
  strs (cons v vs) = str B v ∷ strs vs

-- The value that stores a result.
unfoldable pub texts : {F : Type 0} → List Str → Items F
texts [] = nil
texts (s ∷ ss) = cons (text s) (texts ss)

abbrev pub stored : {F : Type 0} → Chosen → Value F
stored (one s) = text s
stored (many ss) = list (texts ss)

-- ===== src/Value.antt =====
-- The values that JSON and request data give the code: Python's `None`, `bool`, `int`, `float`,
-- `str`, `list` and `dict`. Floats are an abstract type. What the built-in functions make of a value
-- is the record `Builtins`; an exception of theirs is `none`.
use ppbase.Prelude.{
  Str, text_eq, ℕ, zero, Bool, true, false, not, Option, none, some, is_empty, if◌then◌else◌,
}

-- `negsuc n` is -(n + 1).
pub data ℤ : Type 0 where
  pos : ℕ → ℤ
  negsuc : ℕ → ℤ

mutual
  pub data Value (F : Type 0) : Type 0 where
    null : Value F
    bool : Bool → Value F
    int : ℤ → Value F
    float : F → Value F
    text : Str → Value F
    list : Items F → Value F
    dict : Fields F → Value F

  pub data Items (F : Type 0) : Type 0 where
    nil : Items F
    cons : Value F → Items F → Items F

  pub data Fields (F : Type 0) : Type 0 where
    end : Fields F
    field : Str → Value F → Fields F → Fields F

pub record Builtins (F : Type 0) : Type 0 where
  -- `str(value)`, where the value is no text
  pub show : Value F → Str
  -- `int(value)`
  pub int_of : Value F → Option ℤ
  pub is_zero : F → Bool
  pub lower : Str → Str

module _ {F : Type 0} where
  -- `d.get(key)`
  unfoldable pub get : Str → Fields F → Option (Value F)
  get key end = none
  get key (field name value fields) =
      let later = get key fields in if text_eq name key then some value else later

  -- `bool(value)`
  unfoldable pub truthy : Builtins F → Value F → Bool
  truthy B null = false
  truthy B (bool b) = b
  truthy B (int (pos zero)) = false
  truthy B (int _) = true
  truthy B (float f) = not (B.is_zero f)
  truthy B (text s) = not (is_empty s)
  truthy B (list nil) = false
  truthy B (list (cons _ _)) = true
  truthy B (dict end) = false
  truthy B (dict (field _ _ _)) = true

  -- `str(value)`
  unfoldable pub str : Builtins F → Value F → Str
  str B (text s) = s
  str B null = B.show null
  str B (bool b) = B.show (bool b)
  str B (int n) = B.show (int n)
  str B (float f) = B.show (float f)
  str B (list xs) = B.show (list xs)
  str B (dict d) = B.show (dict d)

  -- `d.get(key, default)`
  abbrev pub get_default : Str → Value F → Fields F → Value F
  get_default key default fields = elim (get key fields) [ none ↦ default | some v ↦ v ]

  -- `d.get(key)`, with `None` for a missing key
  abbrev pub get_null : Str → Fields F → Value F
  get_null key fields = get_default key null fields

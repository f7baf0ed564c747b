-- ===== src/ClientFilter/Paths.antt =====
-- `_paths`, `_sort_paths` and `_schema_fields` (ppbase/services/client_filter_guard.py).
use ppbase.Prelude.{
  Str, Unicode, codes, text_eq, has_char, strip, split_on, starts_with, ℕ, ◌==◌, List, [], ◌∷◌,
  ◌++◌, Bool, not, ◌||◌, Option, none, some, is_empty, take_while, drop_while, if◌then◌else◌,
}
use ppbase.Value.{Value, text, list, dict, cons, field, Fields, Builtins, get_null}

-- A subtree of the parsed filter: the parser is lark's, with the tokens of its leaves.
pub data Node : Type 0 where
  field_path : List Str → Node
  macro : Str → Node
  other_node : Node

-- A collection name, if the path is not of the collection that is listed, and the segments.
abbrev pub PathReference : Type 0
PathReference = Option Str × List Str

-- `p.split(":", 1)[0]`
abbrev pub unmodified : Str → Str
unmodified p = take_while (λ c. not (c == b':')) p

unfoldable pub unmodified_all : List Str → List Str
unmodified_all [] = []
unmodified_all (p ∷ ps) = unmodified p ∷ unmodified_all ps

-- `[p.split(":", 1)[0] for p in parts if p]`
unfoldable pub unmodified_nonempty : List Str → List Str
unmodified_nonempty [] = []
unmodified_nonempty (p ∷ ps) =
    let rest = unmodified_nonempty ps in if is_empty p then rest else unmodified p ∷ rest

abbrev macro_parts : List Str → List PathReference
macro_parts (_ ∷ name ∷ p ∷ ps) = (some (unmodified name), unmodified_nonempty (p ∷ ps)) ∷ []
macro_parts _ = []

unfoldable pub macro_paths : Str → List PathReference
macro_paths token =
    let name = drop_while (λ c. c == b'@') token in
    if starts_with name (codes "collection.") then macro_parts (split_on b'.' name) else []

unfoldable pub paths : List Node → List PathReference
paths [] = []
paths (field_path segments ∷ nodes) = (none, unmodified_all segments) ∷ paths nodes
paths (macro token ∷ nodes) = macro_paths token ++ paths nodes
paths (other_node ∷ nodes) = paths nodes

unfoldable pub sort_parts : (ℕ → Bool) → List Str → List (List Str)
sort_parts space [] = []
sort_parts space (part ∷ parts) =
    let rest = sort_parts space parts in
    let name = drop_while (has_char (codes "+-")) (strip space part) in
    if is_empty name || starts_with name (codes "@") then rest else split_on b'.' name ∷ rest

unfoldable pub sort_paths : Unicode → Str → List (List Str)
sort_paths U sort = sort_parts U.is_space (split_on b',' sort)

module _ {F : Type 0} (B : Builtins F) where
  -- A definition under its name. The key of a name that is no text is never asked for; a list or a
  -- dictionary cannot be a key.
  abbrev enter : Value F → Fields F → List (Str × Fields F) → Option (List (Str × Fields F))
  enter (text name) definition fields =
      some (if is_empty name then fields else (name, definition) ∷ fields)
  enter (list (cons _ _)) definition fields = none
  enter (dict (field _ _ _)) definition fields = none
  enter _ definition fields = some fields

  abbrev enter_first :
      Value F → Fields F → Option (List (Str × Fields F)) → Option (List (Str × Fields F))
  enter_first name definition none = none
  enter_first name definition (some fields) = enter name definition fields

  -- `none` is TypeError.
  unfoldable pub schema_fields : List (Fields F) → Option (List (Str × Fields F))
  schema_fields [] = some []
  schema_fields (definition ∷ schema) =
      enter_first (get_null (codes "name") definition) definition (schema_fields schema)

-- `fields.get(name)`, where a later definition has replaced an earlier one of the same name
unfoldable pub lookup : {F : Type 0} → Str → List (Str × Fields F) → Option (Fields F)
lookup name [] = none
lookup name ((key, definition) ∷ fields) = elim (lookup name fields) [
  | some later ↦ some later
  | none ↦ if text_eq key name then some definition else none
]

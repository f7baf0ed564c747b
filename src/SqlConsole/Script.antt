-- ===== src/SqlConsole/Script.antt =====
-- `SqlStatement`, `analyze_script` and the checks of `execute_script` before it connects
-- (ppbase/services/sql_console.py).
use ppbase.Prelude.{
  Str, Unicode, ℕ, ◌+◌, List, [], ◌∷◌, Bool, true, false, Option, none, some, if◌then◌else◌,
}
use mathlib.Core.Option
use ppbase.SqlConsole.Split.{Split, ok, attribute_error, out_of_fuel, split_statements}
use ppbase.SqlConsole.Classify.{Kind, Class, forbidden, is_mutating, classify}

pub record SqlStatement : Type 0 where
  pub index : ℕ
  pub sql : Str
  pub words : List Str
  pub class : Class

abbrev pub mutating : SqlStatement → Bool
mutating stmt = is_mutating stmt.class.kind

-- The classes of the statements from an index on; `none` is RecursionError.
unfoldable pub classify_all : ℕ → ℕ → List (Str × List Str) → Option (List SqlStatement)
classify_all frames index [] = some []
classify_all frames index ((sql, words) ∷ rest) =
    let later = classify_all frames (index + 1) rest in
    Option.bind (classify frames words) (λ class.
      Option.map
        (λ (stmts : List SqlStatement).
          record { index = index; sql = sql; words = words; class = class } ∷ stmts)
        later)

pub data Analysis : Type 0 where
  analyzed : List SqlStatement → Analysis
  analysis_error : Analysis
  recursion_error : Analysis
  endless : Analysis

abbrev of_classes : Option (List SqlStatement) → Analysis
of_classes none = recursion_error
of_classes (some stmts) = analyzed stmts

abbrev of_split : ℕ → Split → Analysis
of_split frames (ok pairs) = of_classes (classify_all frames 0 pairs)
of_split frames attribute_error = analysis_error
of_split frames out_of_fuel = endless

unfoldable pub analyze_script : Unicode → ℕ → Str → Analysis
analyze_script U frames sql = of_split frames (split_statements U sql)

-- The first statement that is refused
abbrev pub is_forbidden : Kind → Bool
is_forbidden forbidden = true
is_forbidden _ = false

unfoldable pub first_forbidden : List SqlStatement → Option SqlStatement
first_forbidden [] = none
first_forbidden (stmt ∷ stmts) =
    let later = first_forbidden stmts in if is_forbidden stmt.class.kind then some stmt else later

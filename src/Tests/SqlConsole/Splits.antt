-- ===== src/Tests/SqlConsole/Splits.antt =====
-- Runs of the SQL console's model.
use mathlib.Core.List.{flat_map}
use ppbase.Prelude.{String, codes, ◌≡◌, refl, [], ◌∷◌, take_while, drop_while, strip}
use ppbase.SqlConsole.Split.{Split, ok, attribute_error, split_statements}
use ppbase.SqlConsole.Lexer.{
  turn, skip_quoted, escape_string, skip_line, skip_block, dollar_tag, skip_dollar, find,
}
use ppbase.Tests.Ascii.{ascii}

unfoldable pub split : String → Split
unfolding split_statements turn take_while drop_while strip flat_map skip_quoted escape_string
    skip_line skip_block dollar_tag skip_dollar find
split script = split_statements ascii (codes script)

two_statements :
    split "select f(';') -- a;\n; /* ; /* */ ; */ $x$ ; $x$; drop t "
    ≡ ok (
        (codes "select f(';') -- a;", codes "SELECT" ∷ codes "F" ∷ codes "(" ∷ codes ")" ∷ [])
        ∷ (codes "/* ; /* */ ; */ $x$ ; $x$", [])
        ∷ (codes "drop t", codes "DROP" ∷ codes "T" ∷ [])
        ∷ [])
unfolding split
two_statements = refl

escapes :
    split "e'\\';' ; ; 'a'';' 1e';'"
    ≡ ok ((codes "e'\\';'", codes "E" ∷ []) ∷ (codes "'a'';' 1e';'", []) ∷ [])
unfolding split
escapes = refl

superscript_digit : split "SELECT 2²" ≡ attribute_error
unfolding split
superscript_digit = refl

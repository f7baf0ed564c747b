-- ===== src/SqlConsole/Split.antt =====
-- The loop of `split_statements` (ppbase/services/sql_console.py), on fuel.
use ppbase.Prelude.{
  Str, Unicode, ℕ, zero, suc, List, [], ◌∷◌, ◌++◌, Bool, false, ◌&&◌, ◌||◌, not, none, some, length,
  take, drop, strip, reverse, is_empty, if◌then◌else◌,
}
use ppbase.SqlConsole.Lexer.{Effect, piece, boundary, turn}

-- The variables of the loop: `text` is `sql[start:i]`, `back` is `sql[:i]` from its end.
pub record Splitter : Type 0 where
  pub back : Str
  pub text : Str
  pub words : List Str
  pub has_content : Bool
  pub statements : List (Str × List Str)

pub data Split : Type 0 where
  ok : List (Str × List Str) → Split
  attribute_error : Split
  out_of_fuel : Split

module _ (U : Unicode) where
  unfoldable pub flush : Splitter → Splitter
  flush st =
      let text = strip U.is_space st.text in
      record st {
        statements =
            if st.has_content && not (is_empty text)
            then st.statements ++ ((text, st.words) ∷ [])
            else st.statements;
        words = [];
        has_content = false;
      }

  -- The state behind a turn that consumed `taken`.
  unfoldable pub advance : Effect → Str → Splitter → Splitter
  unfolding flush
  advance (piece words content) taken st = record st {
    back = reverse taken ++ st.back;
    text = st.text ++ taken;
    words = st.words ++ words;
    has_content = st.has_content || content;
  }
  advance boundary taken st = record (flush st) { back = reverse taken ++ st.back; text = [] }

  unfoldable pub split_from : ℕ → Splitter → Str → Split
  split_from zero st s = out_of_fuel
  split_from (suc fuel) st [] = ok (flush st).statements
  split_from (suc fuel) st (c ∷ s) = elim (turn U st.back c s) [
    | none ↦ attribute_error
    | some (e, n) ↦ split_from fuel (advance e (take n (c ∷ s)) st) (drop n (c ∷ s))
  ]

  abbrev pub start : Splitter
  start = record { back = []; text = []; words = []; has_content = false; statements = [] }

  unfoldable pub split_statements : Str → Split
  unfolding split_from flush advance
  split_statements sql = split_from (suc (length sql)) start sql

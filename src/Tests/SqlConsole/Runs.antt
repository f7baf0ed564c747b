-- ===== src/Tests/SqlConsole/Runs.antt =====
-- The theorems on the SQL console at concrete scripts.
use ppbase.Prelude.{
  Str, String, codes, ℕ, ◌≡◌, refl, List, [], ◌∷◌, ◌++◌, Bool, true, false, some, arith, text_eq,
  inl, reverse, Option, contains, take_while, drop_while, any,
}
use ppbase.SqlConsole.Split.{ok, start, split_from, split_statements}
use ppbase.SqlConsole.Literals.{literal, double, split_from-literal}
use ppbase.SqlConsole.Digits.{split_statements-total}
use ppbase.SqlConsole.Classify.{
  Class, classify, classify_command, modify, read, unwrap, top_level_words, explain_options,
  explained, is_transaction_control, is_set_transaction, plain, classify_delete, delete,
}
use ppbase.SqlConsole.Explain.{classify-total}
use ppbase.SqlConsole.Harmless.{Harmless, classify-Harmless}
use ppbase.SqlConsole.Execute.{
  requires_confirmation, Failure, raises, Response, execute_script, run_script, connected,
  under_barrier, leave_barrier, execute_on_connection, run_transaction, run_all, finish,
  roll_back_failed, run_result,
}
use ppbase.SqlConsole.Script.{SqlStatement, analyze_script, classify_all, first_forbidden}
use ppbase.SqlConsole.Refused.{execute_script_refused}
use mathlib.Core.List.Memᴰ
use ppbase.Tests.Ascii.{ascii}
use ppbase.Tests.SqlConsole.Driver.{counter}
use ppbase.Tests.SqlConsole.Splits.{split}
use mathlib.Core.Option

abbrev read_class : Class
read_class = plain (codes "SELECT") read

classify_select :
    classify 9 (codes "SELECT" ∷ codes "F" ∷ codes "(" ∷ codes ")" ∷ []) ≡ some read_class
unfolding classify is_transaction_control is_set_transaction contains text_eq unwrap drop_while
    top_level_words classify_command
classify_select = refl

classify-Harmless_example : Harmless (codes "SELECT" ∷ codes "F" ∷ codes "(" ∷ codes ")" ∷ [])
classify-Harmless_example =
    classify-Harmless 9 (codes "SELECT" ∷ codes "F" ∷ codes "(" ∷ codes ")" ∷ []) read_class
      classify_select refl (λ e. cc)

abbrev delete_words : List Str
delete_words = codes "EXPLAIN" ∷ codes "ANALYZE" ∷ codes "DELETE" ∷ codes "FROM" ∷ codes "T" ∷ []

abbrev delete_class : Class
delete_class = record (plain (codes "DELETE") delete) {
  warning = some (codes "DELETE without a WHERE clause removes every row of the table.");
}

explain_delete :
    (classify 9 (codes "DELETE" ∷ codes "FROM" ∷ codes "T" ∷ []) ≡ some delete_class)
    × (classify 9 delete_words
        ≡ some (record delete_class { command = codes "EXPLAIN ANALYZE DELETE" }))
unfolding classify is_transaction_control is_set_transaction contains text_eq unwrap drop_while
    top_level_words classify_command classify_delete any explain_options explained take_while
explain_delete = (refl, refl)

classify-total_example : (c : Class) × (classify 9 delete_words ≡ some c)
classify-total_example = classify-total 9 delete_words (omega arith)

split_from-literal_example :
    split_from ascii 9 (start ascii) (literal b'"' (codes "a;\"b") ++ codes ";x")
    ≡ split_from ascii 8
        (record {
          back = reverse (literal b'"' (codes "a;\"b"));
          text = literal b'"' (codes "a;\"b");
          words = [];
          has_content = true;
          statements = [];
        })
        (codes ";x")
unfolding double
split_from-literal_example =
    split_from-literal ascii 8 (start ascii) (codes "a;\"b") (codes ";x") b'"' (inl refl) refl

split_select :
    split_statements ascii (codes "select 1 ;") ≡ ok ((codes "select 1", codes "SELECT" ∷ []) ∷ [])
unfolding split
split_select = refl

split_statements-total_example :
    (out : List (Str × List Str)) × (split_statements ascii (codes "a;1") ≡ ok out)
split_statements-total_example =
    split_statements-total ascii (codes "a;1") ((λ e. cc), ((λ e. cc), ((λ e. refl), tt)))

abbrev statement : ℕ → String → List Str → Class → SqlStatement
statement index sql words class = record {
  index = index;
  sql = codes sql;
  words = words;
  class = class;
}

run : Bool → String → ℕ × ℕ → Option (Response Str ℕ × (ℕ × ℕ))
unfolding split execute_script analyze_script classify_all first_forbidden run_script connected
    under_barrier leave_barrier execute_on_connection run_transaction run_all finish
    roll_back_failed run_result classify is_transaction_control is_set_transaction contains text_eq
    unwrap drop_while top_level_words classify_command any Option.bind
run confirm script s = execute_script counter ascii 99 confirm 500 (codes script) s

abbrev failing : SqlStatement
failing =
    statement 1 "insert fail" (codes "INSERT" ∷ codes "FAIL" ∷ []) (plain (codes "INSERT") modify)

committed_run : Option.map (λ r. r.1) (run true "insert a; insert b" (0, 0)) ≡ some (3, 3)
unfolding run
committed_run = refl

unasked_run :
    run false "insert a" (0, 0)
    ≡ some (
      requires_confirmation (
          statement 0 "insert a" (codes "INSERT" ∷ codes "A" ∷ []) (plain (codes "INSERT") modify)
          ∷ []),
      (0, 0),
    )
unfolding run
unasked_run = refl

abbrev read_pairs : List (Str × List Str)
read_pairs = (codes "select f()", codes "SELECT" ∷ codes "F" ∷ codes "(" ∷ codes ")" ∷ []) ∷ []

abbrev failing_pairs : List (Str × List Str)
failing_pairs =
    (codes "insert a", codes "INSERT" ∷ codes "A" ∷ [])
    ∷ (codes "insert fail", codes "INSERT" ∷ codes "FAIL" ∷ [])
    ∷ (codes "insert b", codes "INSERT" ∷ codes "B" ∷ [])
    ∷ []

abbrev control_pairs : List (Str × List Str)
control_pairs =
    (codes "insert a", codes "INSERT" ∷ codes "A" ∷ []) ∷ (codes "commit", codes "COMMIT" ∷ []) ∷ []

split_control : split_statements ascii (codes "insert a; commit") ≡ ok control_pairs
unfolding split
split_control = refl

execute_script_refused_example :
    (failure : Failure Str) × (execute_script counter ascii 99 true 500
        (codes "insert a; commit")
        (4, 7)
      ≡ some (raises failure, (4, 7)))
execute_script_refused_example =
    execute_script_refused counter ascii 99 true 500 (codes "insert a; commit") (4, 7) control_pairs
      (codes "commit") (codes "COMMIT") [] [] split_control (Memᴰ.tail (Memᴰ.head refl)) tt
      (Memᴰ.tail (Memᴰ.tail (Memᴰ.head refl)))

-- ===== src/SqlConsole/Classify.antt =====
-- `_classify` and what it calls (ppbase/services/sql_console.py). A word is upper-cased text, or
-- one of the two parentheses.
use ppbase.Prelude.{
  Str, String, codes, text_eq, contains, ℕ, zero, suc, ◌+◌, ◌-◌, List, [], ◌∷◌, ◌++◌, Bool, true,
  false, ◌&&◌, ◌||◌, not, Option, none, some, ◌==◌, drop, take_while, drop_while, any,
  if◌then◌else◌,
}
use mathlib.Core.Option

pub data Kind : Type 0 where
  read modify delete schema maintenance forbidden other : Kind

-- The fields that `_classify` fills in a `SqlStatement`.
pub record Class : Type 0 where
  pub command : Str
  pub kind : Kind
  pub warning : Option Str
  pub forbidden_reason : Option Str

abbrev pub is_mutating : Kind → Bool
is_mutating modify = true
is_mutating delete = true
is_mutating schema = true
is_mutating maintenance = true
is_mutating _ = false

abbrev pub is : String → Str → Bool
is name word = text_eq word (codes name)

abbrev pub read_commands : List Str
read_commands = codes "SELECT" ∷ codes "VALUES" ∷ codes "TABLE" ∷ codes "SHOW" ∷ []

abbrev pub modify_commands : List Str
modify_commands = codes "INSERT" ∷ codes "UPDATE" ∷ codes "MERGE" ∷ codes "UPSERT" ∷ []

abbrev pub delete_commands : List Str
delete_commands = codes "DELETE" ∷ codes "TRUNCATE" ∷ codes "DROP" ∷ []

abbrev pub schema_commands : List Str
schema_commands =
    codes "CREATE"
    ∷ codes "ALTER"
    ∷ codes "COMMENT"
    ∷ codes "GRANT"
    ∷ codes "REVOKE"
    ∷ codes "SECURITY"
    ∷ codes "IMPORT"
    ∷ codes "REASSIGN"
    ∷ []

abbrev pub maintenance_commands : List Str
maintenance_commands =
    codes "VACUUM"
    ∷ codes "ANALYZE"
    ∷ codes "ANALYSE"
    ∷ codes "CLUSTER"
    ∷ codes "REINDEX"
    ∷ codes "REFRESH"
    ∷ codes "CHECKPOINT"
    ∷ []

abbrev pub transaction_commands : List Str
transaction_commands =
    codes "BEGIN"
    ∷ codes "START"
    ∷ codes "COMMIT"
    ∷ codes "END"
    ∷ codes "ROLLBACK"
    ∷ codes "ABORT"
    ∷ codes "SAVEPOINT"
    ∷ codes "RELEASE"
    ∷ []

abbrev pub create_modifiers : List Str
create_modifiers =
    codes "OR"
    ∷ codes "REPLACE"
    ∷ codes "UNIQUE"
    ∷ codes "TEMP"
    ∷ codes "TEMPORARY"
    ∷ codes "UNLOGGED"
    ∷ codes "GLOBAL"
    ∷ codes "LOCAL"
    ∷ codes "TRUSTED"
    ∷ codes "PROCEDURAL"
    ∷ codes "DEFAULT"
    ∷ codes "CONSTRAINT"
    ∷ codes "RECURSIVE"
    ∷ []

abbrev pub two_word_objects : List Str
two_word_objects =
    codes "MATERIALIZED"
    ∷ codes "FOREIGN"
    ∷ codes "EVENT"
    ∷ codes "TEXT"
    ∷ codes "USER"
    ∷ codes "ACCESS"
    ∷ codes "OPERATOR"
    ∷ []

-- `_top_level_words`, at a depth
unfoldable pub top_level_words : ℕ → List Str → List Str
top_level_words depth [] = []
top_level_words depth (word ∷ words) =
    let opens = is "(" word in
    let closes = is ")" word in
    let rest =
      top_level_words (if opens then depth + 1 else if closes then depth - 1 else depth) words in
    if opens || closes then rest else if depth == 0 then word ∷ rest else rest

-- `word in "()"`, a test for a substring
abbrev in_parens : Str → Bool
in_parens word = is "" word || is "(" word || is ")" word || is "()" word

abbrev object_label : Str → List Str → Str
object_label verb [] = verb
object_label verb (object ∷ []) = if in_parens object then verb else verb ++ (codes " " ++ object)
object_label verb (object ∷ next ∷ _) =
    if in_parens object
    then verb
    else if contains two_word_objects object && not (in_parens next)
    then verb ++ (codes " " ++ (object ++ (codes " " ++ next)))
    else verb ++ (codes " " ++ object)

unfoldable pub object_command : Str → List Str → Str
object_command verb rest = object_label verb (drop_while (contains create_modifiers) rest)

-- `xs[:1] == [name]`, `xs[:2] == [first, second]`
abbrev pub starts : String → List Str → Bool
starts name [] = false
starts name (word ∷ _) = is name word

abbrev starts_two : String → String → List Str → Bool
starts_two first second [] = false
starts_two first second (_ ∷ []) = false
starts_two first second (word ∷ next ∷ _) = is first word && is second next

abbrev pub is_analyze : Str → Bool
is_analyze word = is "ANALYZE" word || is "ANALYSE" word

abbrev pub is_explain_option : Str → Bool
is_explain_option word = is_analyze word || is "VERBOSE" word

-- The loops behind EXPLAIN: the words up to where they stop, and `rest[k:]`.
unfoldable pub explain_options : List Str → List Str
explain_options rest =
    if starts "(" rest
    then take_while (λ word. not (is ")" word)) rest
    else take_while is_explain_option rest

unfoldable pub explained : List Str → List Str
explained rest =
    if starts "(" rest
    then drop 1 (drop_while (λ word. not (is ")" word)) rest)
    else drop_while is_explain_option rest

abbrev pub plain : Str → Kind → Class
plain command kind = record {
  command = command;
  kind = kind;
  warning = none;
  forbidden_reason = none;
}

-- `f"EXPLAIN ANALYZE {inner.command}"`; a command is never empty, so `.strip()` changes nothing.
abbrev pub explain_class : Class → Class
explain_class inner = record inner {
  command = codes "EXPLAIN ANALYZE " ++ inner.command;
  kind = elim inner.kind [ other ↦ read | kind ↦ kind ];
}

unfoldable pub classify_drop : List Str → List Str → Class
classify_drop top rest =
    let command = object_command (codes "DROP") rest in
    let warning = command ++ codes " permanently removes the object and all its data." in
    record {
      command = command;
      kind = delete;
      warning = some (
          if contains top (codes "CASCADE")
          then warning ++ codes " CASCADE also drops every dependent object."
          else warning);
      forbidden_reason = none;
    }

unfoldable pub classify_delete : Str → List Str → Class
classify_delete first top = record {
  command = first;
  kind = delete;
  warning =
      if is "TRUNCATE" first
      then some (codes "TRUNCATE removes every row of the table(s).")
      else if not (contains top (codes "WHERE"))
      then some (codes "DELETE without a WHERE clause removes every row of the table.")
      else none;
  forbidden_reason = none;
}

unfoldable pub classify_schema : Str → List Str → List Str → Class
classify_schema first top rest =
    let command =
      if is "CREATE" first || is "ALTER" first then object_command first rest else first in
    record {
      command = command;
      kind = schema;
      warning =
          if is "ALTER" first && contains top (codes "DROP")
          then some (
              codes "This "
              ++ (command ++ codes " drops a column, constraint or other part of the object."))
          else none;
      forbidden_reason = none;
    }

-- The branch for WITH, over all the words of the statement.
unfoldable pub classify_with : List Str → Class
classify_with words =
    if contains words (codes "DELETE")
    then plain (codes "WITH ... DELETE") delete
    else if any (contains words) (codes "INSERT" ∷ codes "UPDATE" ∷ codes "MERGE" ∷ [])
    then plain (codes "WITH ... MODIFY") modify
    else plain (codes "SELECT") read

-- The branches behind EXPLAIN, for the first word, the top-level words and the other words.
unfoldable pub classify_command : Str → List Str → List Str → Class
classify_command first top rest =
    if is "WITH" first
    then classify_with (first ∷ rest)
    else if contains read_commands first
    then (if is "SELECT" first && contains top (codes "INTO")
        then record (plain (codes "SELECT INTO") schema) {
          warning = some (codes "SELECT INTO creates a new table.");
        }
        else plain first read)
    else if contains modify_commands first
    then record (plain first modify) {
      warning =
          if is "UPDATE" first && not (contains top (codes "WHERE"))
          then some (codes "UPDATE without a WHERE clause modifies every row of the table.")
          else none;
    }
    else if contains delete_commands first
    then (if is "DROP" first then classify_drop top rest else classify_delete first top)
    else if contains schema_commands first
    then classify_schema first top rest
    else if contains maintenance_commands first
    then plain first maintenance
    else plain first other

abbrev pub forbid : Str → Str → Class
forbid command reason = record (plain command forbidden) { forbidden_reason = some reason }

-- The first three tests: statements that the console refuses.
unfoldable pub is_transaction_control : Str → List Str → Bool
is_transaction_control first rest =
    contains transaction_commands first || (is "PREPARE" first && starts "TRANSACTION" rest)

unfoldable pub is_set_transaction : Str → List Str → Bool
is_set_transaction first rest =
    is "SET" first
    && (starts "TRANSACTION" rest
        || (starts_two "SESSION" "CHARACTERISTICS" rest
            || any (λ w. is "TRANSACTION_READ_ONLY" w || is "DEFAULT_TRANSACTION_READ_ONLY" w)
                rest))

abbrev transaction_reason : Str → Str
transaction_reason first =
    first
    ++ codes
        " is not allowed: the console already runs the whole script in a single transaction (committed on success, rolled back on error)."

-- `words[j:]` behind the opening parentheses
unfoldable pub unwrap : List Str → List Str
unwrap words = drop_while (is "(") words

-- The tests in their order, where the statement that EXPLAIN ANALYZE runs is classified by
-- `inner`.
unfoldable pub classify_words : (List Str → Option Class) → List Str → Option Class
classify_words inner [] = some (plain (codes "UNKNOWN") other)
classify_words inner (first ∷ rest) =
    if is_transaction_control first rest
    then some (forbid first (transaction_reason first))
    else if is_set_transaction first rest
    then some (
        forbid (codes "SET TRANSACTION")
          (codes "Changing the transaction mode is not allowed in the SQL console."))
    else if is "COPY" first
    then some (
        forbid (codes "COPY") (
          codes
            "COPY is not supported in the SQL console. Use INSERT ... SELECT or SELECT instead."))
    else if is "EXPLAIN" first
    then (if any is_analyze (explain_options rest)
        then Option.map explain_class (inner (explained rest))
        else some (plain (codes "EXPLAIN") read))
    else some (classify_command first (top_level_words 0 (first ∷ rest)) rest)

-- With the frames that are left of Python's stack; `none` is RecursionError. A call takes one frame
-- here, whatever the interpreter counts for it.
unfoldable pub classify : ℕ → List Str → Option Class
unfolding classify_words
classify zero words = none
classify (suc frames) words = classify_words (classify frames) (unwrap words)

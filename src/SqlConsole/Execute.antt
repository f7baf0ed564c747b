-- ===== src/SqlConsole/Execute.antt =====
-- `_execute_on_connection` and `execute_script` (ppbase/services/sql_console.py), over a session
-- of the PostgreSQL driver. What takes a session may raise; the session behind it is kept too.
use ppbase.Prelude.{
  Str, Unicode, codes, ℕ, List, [], ◌∷◌, ◌++◌, Bool, true, false, not, ◌&&◌, Option, none, some,
  text_eq, any, ltb, length, take, is_empty, if◌then◌else◌,
}
use ppbase.SqlConsole.Classify.{Class, modify}
use ppbase.SqlConsole.Script.{
  SqlStatement, mutating, Analysis, analyzed, analysis_error, recursion_error, endless,
  analyze_script, first_forbidden,
}

-- What a prepared statement gives: its columns, and the rows of its cursor or its status.
pub record Reply (Cell : Type 0) : Type 0 where
  pub columns : List Str
  pub rows : List (List Cell)
  pub status : Str

pub data Answer (Error Cell : Type 0) : Type 0 where
  replied : Reply Cell → Answer Error Cell
  raised : Error → Answer Error Cell

-- The driver's session: asyncpg's transaction, the statements, SQLAlchemy's connection and the
-- write barrier on it. `none` is success.
pub record Driver : Type 1 where
  pub Session : Type 0
  pub Error : Type 0
  pub Cell : Type 0
  pub start : Bool → Session → Option Error × Session
  pub execute : Str → Session → Answer Error Cell × Session
  pub commit : Session → Option Error × Session
  pub rollback : Session → Option Error × Session
  pub connection_commit : Session → Option Error × Session
  pub acquire_barrier : Session → Option Error × Session
  pub release_barrier : Session → Option Error × Session
  pub invalidate : Session → Session
  pub sqlstate : Error → Str
  pub message : Error → Str
  -- `isinstance(error, Exception)`: a cancellation, say, is none.
  pub is_exception : Error → Bool

pub record Result (Cell : Type 0) : Type 0 where
  pub statement : SqlStatement
  pub columns : List Str
  pub rows : List (List Cell)
  pub truncated : Bool
  pub status : Str

-- `SqlConsoleError` with its statement, or an exception of the driver.
pub data Failure (Error : Type 0) : Type 0 where
  console_error : Str → Option SqlStatement → Failure Error
  driver_error : Error → Failure Error
  attribute_error : Failure Error
  out_of_stack : Failure Error

pub data Outcome (Error Cell : Type 0) : Type 0 where
  results : List (Result Cell) → Outcome Error Cell
  -- The statements, with the one that PostgreSQL refused marked.
  refused : List SqlStatement → Outcome Error Cell
  failed : Failure Error → Outcome Error Cell

pub data Response (Error Cell : Type 0) : Type 0 where
  requires_confirmation : List SqlStatement → Response Error Cell
  -- The results, and the field `committed`
  executed : List (Result Cell) → Bool → Response Error Cell
  raises : Failure Error → Response Error Cell

-- `_run_statement` behind the driver: at most `max_rows` rows are fetched. The conversion of the
-- cells for display, the status text of a query and the duration are left out.
unfoldable pub run_result : {Cell : Type 0} → SqlStatement → ℕ → Reply Cell → Result Cell
run_result stmt max_rows reply = record {
  statement = stmt;
  columns = reply.columns;
  rows = if is_empty reply.columns then [] else take max_rows reply.rows;
  truncated = if is_empty reply.columns then false else ltb max_rows (length reply.rows);
  status = reply.status;
}

-- `stmt.forbidden_reason or f"{stmt.command} is not allowed."`
abbrev pub refusal : Class → Str
refusal c = elim c.forbidden_reason [
  | none ↦ c.command ++ codes " is not allowed."
  | some reason ↦ if is_empty reason then c.command ++ codes " is not allowed." else reason
]

abbrev read_only_sqlstate : Str
read_only_sqlstate = codes "25006"

module _ (D : Driver) where
  open D use {Session, Error, Cell}

  -- The statement that PostgreSQL refused in read-only mode.
  unfoldable pub mark_refused : SqlStatement → Error → SqlStatement
  mark_refused stmt error = if mutating stmt then stmt else record stmt {
    class = record stmt.class {
      kind = modify;
      warning = some (
          codes "PostgreSQL detected that this statement writes to the database: "
          ++ D.message error);
    };
  }

  -- What the loop adds for a statement that succeeded, to the outcome of the later ones.
  abbrev pub prepend :
      SqlStatement → Result Cell → Outcome Error Cell × Session → Outcome Error Cell × Session
  prepend stmt result (results later, s) = (results (result ∷ later), s)
  prepend stmt result (refused stmts, s) = (refused (stmt ∷ stmts), s)
  prepend stmt result (failed f, s) = (failed f, s)

  -- The loop over the statements
  unfoldable pub run_all : Bool → ℕ → List SqlStatement → Session → Outcome Error Cell × Session
  run_all read_only max_rows [] s = (results [], s)
  run_all read_only max_rows (stmt ∷ stmts) s =
      let (answer, s') = D.execute stmt.sql s in
      elim answer [
        | replied reply ↦
            prepend stmt (run_result stmt max_rows reply) (run_all read_only max_rows stmts s')
        | raised error ↦
            if not (D.is_exception error)
            then (failed (driver_error error), s')
            else if read_only && text_eq (D.sqlstate error) read_only_sqlstate
            then (refused (mark_refused stmt error ∷ stmts), s')
            else (failed (console_error (D.message error) (some stmt)), s')
      ]

  -- `except BaseException: await transaction.rollback(); raise`
  unfoldable pub roll_back_failed : Failure Error → Session → Outcome Error Cell × Session
  roll_back_failed f s =
      let (error, s') = D.rollback s in
      elim error [ none ↦ (failed f, s') | some e ↦ (failed (driver_error e), s') ]

  abbrev ending : Option Error → Outcome Error Cell → Outcome Error Cell
  ending none outcome = outcome
  ending (some e) outcome = failed (driver_error e)

  -- The end of the transaction behind the loop.
  unfoldable pub finish : Bool → Outcome Error Cell × Session → Outcome Error Cell × Session
  finish read_only (failed f, s) = roll_back_failed f s
  finish read_only (refused stmts, s) =
      let (error, s') = D.rollback s in (ending error (refused stmts), s')
  finish read_only (results rs, s) =
      let (error, s') = if read_only then D.rollback s else D.commit s in
      (ending error (results rs), s')

  -- The statements of the loop, behind the settings of the transaction.
  unfoldable pub run_transaction :
      Bool → ℕ → List SqlStatement → Session → Outcome Error Cell × Session
  run_transaction read_only max_rows stmts s =
      let (timeout, s₁) = D.execute (codes "SET LOCAL statement_timeout = 30000") s in
      elim timeout [
        | raised e ↦ roll_back_failed (driver_error e) s₁
        | replied _ ↦
            let run = λ (s' : Session). finish read_only (run_all read_only max_rows stmts s') in
            if read_only
            then (let (snapshot, s₂) = D.execute (codes "SELECT 1") s₁ in
                elim snapshot [
                  | raised e ↦ roll_back_failed (driver_error e) s₂
                  | replied _ ↦ run s₂
                ])
            else run s₁
      ]

  unfoldable pub execute_on_connection :
      Bool → ℕ → List SqlStatement → Session → Outcome Error Cell × Session
  execute_on_connection read_only max_rows stmts s =
      let (error, s') = D.start read_only s in
      elim error [
        | some e ↦ (failed (driver_error e), s')
        | none ↦ run_transaction read_only max_rows stmts s'
      ]

  -- The exit of the barrier's context: an error of its body goes before one of the release.
  unfoldable pub leave_barrier : Outcome Error Cell × Session → Outcome Error Cell × Session
  leave_barrier (failed f, s) = let (error, s') = D.release_barrier s in (failed f, s')
  leave_barrier (outcome, s) = let (error, s') = D.release_barrier s in (ending error outcome, s')

  -- The body of `async with mutation_write_barrier_on_connection(conn)`
  unfoldable pub under_barrier : ℕ → List SqlStatement → Session → Outcome Error Cell × Session
  under_barrier max_rows stmts s =
      let (entered, s₁) = D.acquire_barrier s in
      elim entered [
        | some e ↦ (failed (driver_error e), s₁)
        | none ↦
            let (cleared, s₂) = D.connection_commit s₁ in
            elim cleared [
              | some e ↦ leave_barrier (failed (driver_error e), s₂)
              | none ↦ leave_barrier (execute_on_connection false max_rows stmts s₂)
            ]
      ]

  abbrev respond : Bool → Outcome Error Cell → Response Error Cell
  respond confirm (failed f) = raises f
  respond confirm (refused stmts) = requires_confirmation stmts
  respond confirm (results rs) = executed rs confirm

  -- The connection, which is invalidated whatever happens.
  unfoldable pub connected : Bool → ℕ → List SqlStatement → Session → Response Error Cell × Session
  connected confirm max_rows stmts s =
      let (outcome, s') =
        if confirm
        then under_barrier max_rows stmts s
        else execute_on_connection true max_rows stmts s in
      (respond confirm outcome, D.invalidate s')

  -- `execute_script` behind `analyze_script`; a refused statement ends it before it connects.
  unfoldable pub run_script : Bool → ℕ → List SqlStatement → Session → Response Error Cell × Session
  run_script confirm max_rows stmts s =
      if is_empty stmts
      then (raises (console_error (codes "The SQL query is empty.") none), s)
      else elim (first_forbidden stmts) [
        | some stmt ↦ (raises (console_error (refusal stmt.class) (some stmt)), s)
        | none ↦
            if not confirm && any mutating stmts
            then (requires_confirmation stmts, s)
            else connected confirm max_rows stmts s
      ]

  abbrev analyze_then : Bool → ℕ → Analysis → Session → Option (Response Error Cell × Session)
  analyze_then confirm max_rows (analyzed stmts) s = some (run_script confirm max_rows stmts s)
  analyze_then confirm max_rows analysis_error s = some (raises attribute_error, s)
  analyze_then confirm max_rows recursion_error s = some (raises out_of_stack, s)
  analyze_then confirm max_rows endless s = none

  -- `none` would be a script whose splitting does not end. `frames` are those left of the stack.
  unfoldable pub execute_script :
      Unicode → ℕ → Bool → ℕ → Str → Session → Option (Response Error Cell × Session)
  execute_script U frames confirm max_rows sql s =
      analyze_then confirm max_rows (analyze_script U frames sql) s

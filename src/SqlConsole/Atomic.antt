-- ===== src/SqlConsole/Atomic.antt =====
-- What a script leaves in the database (ppbase/services/sql_console.py), over a driver whose
-- transactions are PostgreSQL's.
use ppbase.Prelude.{Str, codes, ◌≡◌, List, Bool, true, false, not}
use mathlib.Core.Option
use ppbase.SqlConsole.Script.{SqlStatement}
use ppbase.SqlConsole.Execute.{
  Driver, console_error, driver_error, attribute_error, out_of_stack, Outcome, results, refused,
  failed, Response, requires_confirmation, executed, raises,
}

-- PostgreSQL's contract: `committed` is what other sessions see of tables and schema (the values of
-- sequences are not transactional and are no part of it). Only the end of a transaction changes it,
-- and only a transaction command, here a statement with `ends`, ends one.
pub record IsTransactional (D : Driver) {Data : Type 0} (committed : D.Session → Data)
    (ends : Str → Bool) : Type 0 where
  pub start : (b : Bool) (s : D.Session) → committed (D.start b s).1 ≡ committed s
  pub execute :
      (sql : Str) (s : D.Session) → ends sql ≡ false → committed (D.execute sql s).1 ≡ committed s
  pub set_local : ends (codes "SET LOCAL statement_timeout = 30000") ≡ false
  pub select_one : ends (codes "SELECT 1") ≡ false
  pub rollback : (s : D.Session) → committed (D.rollback s).1 ≡ committed s
  -- No transaction of the script is open here.
  pub connection_commit : (s : D.Session) → committed (D.connection_commit s).1 ≡ committed s
  pub acquire_barrier : (s : D.Session) → committed (D.acquire_barrier s).1 ≡ committed s
  pub release_barrier : (s : D.Session) → committed (D.release_barrier s).1 ≡ committed s
  pub invalidate : (s : D.Session) → committed (D.invalidate s) ≡ committed s

-- The console has reported that nothing was committed, by asking for a confirmation, by an error
-- of its own, or in the results.
abbrev pub undone_response : {Error Cell : Type 0} → Response Error Cell → Bool
undone_response (executed _ committed) = not committed
undone_response (requires_confirmation _) = true
undone_response (raises (console_error _ _)) = true
undone_response (raises (driver_error _)) = false
undone_response (raises attribute_error) = true
undone_response (raises out_of_stack) = true

module _ (D : Driver) {Data : Type 0} (committed : D.Session → Data) (ends : Str → Bool)
    (L : IsTransactional D committed ends) where
  open D use {Session, Error, Cell}

  abbrev Stays : SqlStatement → Type 0
  Stays stmt = ends stmt.sql ≡ false

  abbrev undone : Outcome Error Cell → Bool
  undone (results _) = false
  undone (refused _) = true
  undone (failed (console_error _ _)) = true
  undone (failed (driver_error _)) = false
  undone (failed attribute_error) = true
  undone (failed out_of_stack) = true

-- A text of the splitter that does not end a transaction
abbrev pub IsOrdinary : (Str → Bool) → Str × List Str → Type 0
IsOrdinary ends (sql, words) = ends sql ≡ false

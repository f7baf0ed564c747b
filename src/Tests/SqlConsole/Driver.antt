-- ===== src/Tests/SqlConsole/Driver.antt =====
-- A driver over one counter: what is committed, and what the open transaction sees. Every statement
-- adds one, and one statement fails.
use ppbase.Prelude.{
  Str, codes, ℕ, ◌+◌, ◌≡◌, refl, [], Bool, true, false, none, text_eq, Bool-cases, inl, inr,
  if◌then◌else◌,
}
use ppbase.SqlConsole.Execute.{Driver, replied, raised}
use ppbase.SqlConsole.Atomic.{IsTransactional}

abbrev pub counter : Driver
counter = record {
  Session = ℕ × ℕ;
  Error = Str;
  Cell = ℕ;
  start = λ b s. (none, (s.0, s.0));
  execute = λ sql s.
      if text_eq sql (codes "commit")
      then (replied (record { columns = []; rows = []; status = [] }), (s.1, s.1))
      else if text_eq sql (codes "insert fail")
      then (raised (codes "23505"), s)
      else (replied (record { columns = []; rows = []; status = [] }), (s.0, s.1 + 1));
  commit = λ s. (none, (s.1, s.1));
  rollback = λ s. (none, (s.0, s.0));
  connection_commit = λ s. (none, s);
  acquire_barrier = λ s. (none, s);
  release_barrier = λ s. (none, s);
  invalidate = λ s. s;
  is_exception = λ e. true;
  sqlstate = λ e. e;
  message = λ e. e;
}

abbrev pub committed : ℕ × ℕ → ℕ
committed s = s.0

abbrev pub ends : Str → Bool
ends sql = text_eq sql (codes "commit")

execute_keeps :
    (sql : Str) (s : ℕ × ℕ) → ends sql ≡ false → committed (counter.execute sql s).1 ≡ committed s
execute_keeps sql s h = elim (Bool-cases (text_eq sql (codes "insert fail"))) [
  | inl e ↦ rw (h, e)
  | inr e ↦ rw (h, e)
]

pub counter-IsTransactional : IsTransactional counter committed ends
unfolding text_eq
counter-IsTransactional = record {
  start = λ b s. refl;
  execute = execute_keeps;
  set_local = refl;
  select_one = refl;
  rollback = λ s. refl;
  connection_commit = λ s. refl;
  acquire_barrier = λ s. refl;
  release_barrier = λ s. refl;
  invalidate = λ s. refl;
}

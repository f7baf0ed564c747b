-- ===== src/SqlConsole/Refused.antt =====
-- What the console does with a script that holds a transaction command
-- (ppbase/services/sql_console.py).
use ppbase.Prelude.{
  Str, Unicode, codes, ℕ, zero, suc, ◌+◌, ◌≡◌, refl, List, [], ◌∷◌, ◌++◌, Bool, true, false, ◌||◌,
  some, arith, All, Option-cases, Bool-cases, inl, inr, text_eq, text_eq_iff, contains, drop_while,
  sym, ap, ◌∙◌,
}
use mathlib.Core.List.{Memᴰ}
use mathlib.Core.Option
use ppbase.SqlConsole.Classify.{
  Class, is, unwrap, classify, classify_words, is_transaction_control, transaction_commands,
}
use ppbase.SqlConsole.Explain.{Equals}
use ppbase.SqlConsole.Harmless.{contains-append, contains-All}
use ppbase.SqlConsole.Split.{ok, split_statements}
use ppbase.SqlConsole.Script.{
  SqlStatement, is_forbidden, classify_all, first_forbidden, analyze_script,
}
use ppbase.SqlConsole.Execute.{
  Driver, Failure, raises, console_error, out_of_stack, refusal, run_script, execute_script,
}

-- The commands that begin or end a transaction or a part of one, and COPY.
abbrev pub control_commands : List Str
control_commands =
    codes "BEGIN"
    ∷ codes "START"
    ∷ codes "COMMIT"
    ∷ codes "END"
    ∷ codes "ROLLBACK"
    ∷ codes "ABORT"
    ∷ codes "SAVEPOINT"
    ∷ codes "RELEASE"
    ∷ codes "COPY"
    ∷ []

control_commands-listed : control_commands ≡ transaction_commands ++ (codes "COPY" ∷ [])
control_commands-listed = refl

contains_of_mem : (w : Str) (names : List Str) → Memᴰ w names → contains names w ≡ true
unfolding contains
contains_of_mem w [] m = elim m [ ]
contains_of_mem w (n ∷ names) m = elim m [
  | Memᴰ.head e ↦ let same = (text_eq_iff w n).1 e in ground (arith, same)
  | Memᴰ.tail later ↦ ground (arith, contains_of_mem w names later)
]

or_false : (b : Bool) → (b || false) ≡ b
or_false true = refl
or_false false = refl

control_listed :
    (w : Str)
    → contains control_commands w ≡ true
    → (contains transaction_commands w || is "COPY" w) ≡ true
unfolding contains
control_listed w h =
    sym (
      ap (λ (names : List Str). contains names w) control_commands-listed
      ∙ contains-append transaction_commands (codes "COPY" ∷ []) w
      ∙ ap (λ (b : Bool). contains transaction_commands w || b) (or_false (is "COPY" w)))
    ∙ h

no_paren : (w : Str) → contains control_commands w ≡ true → is "(" w ≡ false
unfolding text_eq
no_paren w h =
    contains-All (λ v. is "(" v ≡ false) control_commands w
      (refl, (refl, (refl, (refl, (refl, (refl, (refl, (refl, (refl, tt))))))))) h

unwrap-parens :
    (parens : List Str) (first : Str) (rest : List Str)
    → All (Equals (codes "(")) parens
    → is "(" first ≡ false
    → unwrap (parens ++ (first ∷ rest)) ≡ first ∷ rest
unfolding unwrap drop_while
unwrap-parens [] first rest h k = rw k refl
unwrap-parens (p ∷ parens) first rest (e, h) k =
    rw ((text_eq_iff p (codes "(")).1 (sym e)) (unwrap-parens parens first rest h k)

classify_control :
    (frames : ℕ) (words : List Str) (first : Str) (rest : List Str) (c : Class)
    → unwrap words ≡ first ∷ rest
    → (contains transaction_commands first || is "COPY" first) ≡ true
    → classify frames words ≡ some c
    → is_forbidden c.kind ≡ true
unfolding classify classify_words is_transaction_control
classify_control zero words first rest c e k h = cc
classify_control (suc frames) words first rest c e k h = ground (arith, rw e at h)

first_forbidden_of :
    (frames n : ℕ) (out : List (Str × List Str)) (stmts : List SqlStatement) (pair : Str × List Str)
    → Memᴰ pair out
    → ((c : Class) → classify frames pair.1 ≡ some c → is_forbidden c.kind ≡ true)
    → classify_all frames n out ≡ some stmts
    → (stmt : SqlStatement) × (first_forbidden stmts ≡ some stmt)
unfolding classify_all first_forbidden Option.bind
first_forbidden_of frames n [] stmts pair m k h = elim m [ ]
first_forbidden_of frames n ((sql, words) ∷ out) stmts pair m k h =
    elim (Option-cases (classify frames words)) [
      | inl e ↦ absurd (ground arith)
      | inr (c, e) ↦ elim (Option-cases (classify_all frames (n + 1) out)) [
        | inl q ↦ absurd (ground arith)
        | inr (later, q) ↦
            let stmt : SqlStatement = record { index = n; sql = sql; words = words; class = c } in
            let same : stmt ∷ later ≡ stmts = ground (arith, e, q, h) in
            rw (← same) (elim (Bool-cases (is_forbidden c.kind)) [
              | inl y ↦ (stmt, rw y refl)
              | inr y ↦ elim m [
                | Memᴰ.head same ↦
                    absurd (cc (k c (ap (λ (x : Str × List Str). classify frames x.1) same ∙ e), y))
                | Memᴰ.tail there ↦
                    let (found, f) = first_forbidden_of frames (n + 1) out later pair there k q in
                    (found, rw y f)
              ]
            ])
      ]
    ]

module _ (D : Driver) (U : Unicode) where
  run_script_refused :
      (confirm : Bool) (max_rows : ℕ) (stmts : List SqlStatement) (stmt : SqlStatement)
      (s : D.Session)
      → first_forbidden stmts ≡ some stmt
      → run_script D confirm max_rows stmts s
        ≡ (raises (console_error (refusal stmt.class) (some stmt)), s)
  unfolding run_script first_forbidden
  run_script_refused confirm max_rows [] stmt s h = cc
  run_script_refused confirm max_rows (x ∷ stmts) stmt s h = ground (arith, h)

  -- Conditions: behind its opening parentheses, the words of one of the statements that the splitter
  -- makes of the script begin with a command of BEGIN, START, COMMIT, END, ROLLBACK, ABORT,
  -- SAVEPOINT, RELEASE and COPY. Then the console ends with an error, confirmed or not and wherever
  -- the statement stands, and has not called the database at all.
  pub execute_script_refused :
      (frames : ℕ) (confirm : Bool) (max_rows : ℕ) (sql : Str) (s : D.Session)
      (out : List (Str × List Str)) (text first : Str) (parens rest : List Str)
      → split_statements U sql ≡ ok out
      → Memᴰ (text, parens ++ (first ∷ rest)) out
      → All (Equals (codes "(")) parens
      → Memᴰ first control_commands
      → (failure : Failure D.Error) × (execute_script D U frames confirm max_rows sql s
          ≡ some (raises failure, s))
  unfolding execute_script analyze_script
  execute_script_refused frames confirm max_rows sql s out text first parens rest e m p n =
      let listed = contains_of_mem first control_commands n in
      let forbids = λ (c : Class) (h : classify frames (parens ++ (first ∷ rest)) ≡ some c).
        classify_control frames (parens ++ (first ∷ rest)) first rest c
          (unwrap-parens parens first rest p (no_paren first listed)) (control_listed first listed)
          h in
      elim (Option-cases (classify_all frames 0 out)) [
        | inl q ↦ (out_of_stack, rw (e, q) refl)
        | inr (stmts, q) ↦
            let (stmt, f) =
              first_forbidden_of frames 0 out stmts (text, parens ++ (first ∷ rest)) m forbids q in
            (
              console_error (refusal stmt.class) (some stmt),
              rw (e, q, run_script_refused confirm max_rows stmts stmt s f) refl,
            )
      ]

-- ===== src/SqlConsole/Harmless.antt =====
-- What a script may do without a confirmation, as far as the words of its statements show
-- (ppbase/services/sql_console.py).
use ppbase.Prelude.{
  Str, codes, ℕ, zero, suc, ◌≡◌, ◌≢◌, refl, List, [], ◌∷◌, ◌++◌, Bool, true, false, ◌||◌, Option,
  some, subst, sym, ap, ◌∙◌, arith, any, All, Option-cases, inl, inr, Bool-cases, text_eq,
  text_eq_iff, contains,
}
use ppbase.SqlConsole.Classify.{
  Kind, Class, schema, forbidden, is, is_mutating, is_analyze, unwrap, explained, explain_options,
  explain_class, classify_words, classify, top_level_words, classify_command,
  is_transaction_control, read_commands, modify_commands, delete_commands, schema_commands,
  maintenance_commands, classify_with, classify_drop, classify_delete, classify_schema,
  transaction_commands,
}
use ppbase.SqlConsole.Explain.{
  Differs, Unwrapped, Explained, ne_of_text_eq, unwrap-Unwrapped, explained-Explained,
}

abbrev refused_commands : List Str
refused_commands = transaction_commands ++ (codes "COPY" ∷ [])

abbrev other_writers : List Str
other_writers = maintenance_commands ++ refused_commands

abbrev definitions : List Str
definitions = schema_commands ++ other_writers

abbrev removals : List Str
removals = delete_commands ++ definitions

-- The commands that write, and those that the console refuses.
abbrev pub writers : List Str
writers =
    codes "INSERT"
    ∷ codes "UPDATE"
    ∷ codes "MERGE"
    ∷ codes "UPSERT"
    ∷ codes "DELETE"
    ∷ codes "TRUNCATE"
    ∷ codes "DROP"
    ∷ codes "CREATE"
    ∷ codes "ALTER"
    ∷ codes "COMMENT"
    ∷ codes "GRANT"
    ∷ codes "REVOKE"
    ∷ codes "SECURITY"
    ∷ codes "IMPORT"
    ∷ codes "REASSIGN"
    ∷ codes "VACUUM"
    ∷ codes "ANALYZE"
    ∷ codes "ANALYSE"
    ∷ codes "CLUSTER"
    ∷ codes "REINDEX"
    ∷ codes "REFRESH"
    ∷ codes "CHECKPOINT"
    ∷ codes "BEGIN"
    ∷ codes "START"
    ∷ codes "COMMIT"
    ∷ codes "END"
    ∷ codes "ROLLBACK"
    ∷ codes "ABORT"
    ∷ codes "SAVEPOINT"
    ∷ codes "RELEASE"
    ∷ codes "COPY"
    ∷ []

-- The lists of the code name each of them.
writers-listed : writers ≡ modify_commands ++ removals
writers-listed = refl

abbrev pub NoneOf : List Str → Str → Type 0
NoneOf names word = All (Differs word) names

abbrev pub row_writers : List Str
row_writers = codes "DELETE" ∷ codes "INSERT" ∷ codes "UPDATE" ∷ codes "MERGE" ∷ []

abbrev pub NotAnalyzed : Str → Type 0
NotAnalyzed w = (w ≢ codes "ANALYZE") × (w ≢ codes "ANALYSE")

pub data Harmless : List Str → Type 0 where
  empty : (words : List Str) → Unwrapped words [] → Harmless words
  -- The command is none of the writers, and a SELECT has no INTO outside parentheses.
  command :
      (words : List Str) (first : Str) (rest : List Str)
      → Unwrapped words (first ∷ rest)
      → NoneOf writers first
      → first ≢ codes "WITH"
      → first ≢ codes "EXPLAIN"
      → (first ≡ codes "SELECT" → All (Differs (codes "INTO")) (top_level_words 0 (first ∷ rest)))
      → Harmless words
  -- No word of a WITH query is a command that changes rows.
  query :
      (words rest : List Str)
      → Unwrapped words (codes "WITH" ∷ rest)
      → All (NoneOf (codes "WITH" ∷ rest)) row_writers
      → Harmless words
  -- EXPLAIN does not run the statement.
  explain :
      (words rest options inner : List Str)
      → Unwrapped words (codes "EXPLAIN" ∷ rest)
      → Explained rest options inner
      → All NotAnalyzed options
      → Harmless words
  explain_analyze :
      (words rest options inner : List Str)
      → Unwrapped words (codes "EXPLAIN" ∷ rest)
      → Explained rest options inner
      → Harmless inner
      → Harmless words

not_analyzed : (words : List Str) → any is_analyze words ≡ false → All NotAnalyzed words
unfolding any
not_analyzed [] h = tt
not_analyzed (w ∷ words) h = (
  (
    ne_of_text_eq w (codes "ANALYZE") (ground arith),
    ne_of_text_eq w (codes "ANALYSE") (ground arith),
  ),
  not_analyzed words (ground arith),
)

not_contains : (names : List Str) (w : Str) → contains names w ≡ false → NoneOf names w
unfolding contains
not_contains [] w h = tt
not_contains (n ∷ names) w h =
    (ne_of_text_eq w n (ground arith), not_contains names w (ground arith))

pub contains-append :
    (xs ys : List Str) (w : Str) → contains (xs ++ ys) w ≡ (contains xs w || contains ys w)
unfolding contains
contains-append [] ys w = refl
contains-append (x ∷ xs) ys w = ground (arith, contains-append xs ys w)

-- What holds of every name of a list holds of a word that is in it.
pub contains-All :
    (P : Str → Type 0) (names : List Str) (w : Str) → All P names → contains names w ≡ true → P w
unfolding contains
contains-All P [] w h e = cc
contains-All P (n ∷ names) w h e = elim (Bool-cases (text_eq w n)) [
  | inl q ↦ subst P (sym ((text_eq_iff w n).0 q)) h.0
  | inr q ↦ contains-All P names w h.1 (rw (q, contains) at e)
]

abbrev IsQuiet : Kind → Type 0
IsQuiet kind = (is_mutating kind ≡ false) × (kind ≢ forbidden)

with_quiet :
    (words : List Str) → IsQuiet (classify_with words).kind → All (NoneOf words) row_writers
unfolding classify_with any
with_quiet words h =
    let none_of = λ (name : Str) (e : contains words name ≡ false). not_contains words name e in
    (
      none_of (codes "DELETE") (ground arith),
      (
        none_of (codes "INSERT") (ground arith),
        (none_of (codes "UPDATE") (ground arith), (none_of (codes "MERGE") (ground arith), tt)),
      ),
    )

read_commands-writers : (w : Str) → contains read_commands w ≡ true → contains writers w ≡ false
unfolding contains text_eq
read_commands-writers w =
    contains-All (λ v. contains writers v ≡ false) read_commands w
      (refl, (refl, (refl, (refl, tt))))

or_false : (b : Bool) → (b || false) ≡ b
or_false true = refl
or_false false = refl

contains-writers :
    (w : Str)
    → contains writers w ≡ (
        contains modify_commands w
        || (contains delete_commands w
            || (contains schema_commands w
                || (contains maintenance_commands w
                    || (contains transaction_commands w || is "COPY" w)))))
unfolding contains
contains-writers w =
    ap (λ (names : List Str). contains names w) writers-listed
    ∙ contains-append modify_commands removals w
    ∙ under (contains modify_commands w) (
        contains-append delete_commands definitions w
        ∙ under (contains delete_commands w) (
            contains-append schema_commands other_writers w
            ∙ under (contains schema_commands w) (
                contains-append maintenance_commands refused_commands w
                ∙ under (contains maintenance_commands w) (
                    contains-append transaction_commands (codes "COPY" ∷ []) w
                    ∙ under (contains transaction_commands w) (or_false (is "COPY" w))))))
  where
    under : (a : Bool) {b c : Bool} → b ≡ c → (a || b) ≡ (a || c)
    under a e = ap (λ (d : Bool). a || d) e

command_quiet :
    (first : Str) (top rest : List Str)
    → IsQuiet (classify_command first top rest).kind
    → is "WITH" first ≡ false
    → contains transaction_commands first ≡ false
    → is "COPY" first ≡ false
    → contains writers first ≡ false
unfolding classify_command classify_drop classify_delete classify_schema
command_quiet first top rest h w t k = elim (Bool-cases (contains read_commands first)) [
  | inl e ↦ read_commands-writers first e
  | inr e ↦ rw (contains-writers first) (ground arith)
]

select_into :
    (top rest : List Str)
    → contains top (codes "INTO") ≡ true
    → (classify_command (codes "SELECT") top rest).kind ≡ schema
unfolding classify_command text_eq contains
select_into top rest h = ground arith

select_quiet :
    (first : Str) (top rest : List Str)
    → IsQuiet (classify_command first top rest).kind
    → first ≡ codes "SELECT"
    → contains top (codes "INTO") ≡ false
select_quiet first top rest h e = elim (Bool-cases (contains top (codes "INTO"))) [
  | inl q ↦
      absurd (
        cc
          (select_into top rest q, h.0, ap (λ f. is_mutating (classify_command f top rest).kind) e))
  | inr q ↦ q
]

command_with :
    (first : Str) (top rest : List Str)
    → is "WITH" first ≡ true
    → classify_command first top rest ≡ classify_with (first ∷ rest)
unfolding classify_command
command_with first top rest h = rw h

explain_class-IsQuiet : (inner : Class) → IsQuiet (explain_class inner).kind → IsQuiet inner.kind
explain_class-IsQuiet inner h = ground arith

module _ (f : List Str → Option Class) (first : Str) (rest : List Str) (c : Class) where
  admitted :
      classify_words f (first ∷ rest) ≡ some c
      → IsQuiet c.kind
      → (is_transaction_control first rest ≡ false) × (is "COPY" first ≡ false)
  unfolding classify_words
  admitted h k = ground arith

  by_command :
      classify_words f (first ∷ rest) ≡ some c
      → IsQuiet c.kind
      → is "EXPLAIN" first ≡ false
      → classify_command first (top_level_words 0 (first ∷ rest)) rest ≡ c
  unfolding classify_words
  by_command h k e = ground arith

  by_explained :
      classify_words f (first ∷ rest) ≡ some c
      → IsQuiet c.kind
      → is "EXPLAIN" first ≡ true
      → any is_analyze (explain_options rest) ≡ true
      → (d : Class) × (f (explained rest) ≡ some d) × (explain_class d ≡ c)
  unfolding classify_words
  by_explained h k e a = elim (Option-cases (f (explained rest))) [
    | inl q ↦ absurd (ground arith)
    | inr (d, q) ↦ (d, q, ground arith)
  ]

  command-Harmless :
      (words : List Str)
      → Unwrapped words (first ∷ rest)
      → classify_words f (first ∷ rest) ≡ some c
      → IsQuiet c.kind
      → is "EXPLAIN" first ≡ false
      → Harmless words
  unfolding is_transaction_control
  command-Harmless words e h k x =
      let top = top_level_words 0 (first ∷ rest) in
      let quiet : IsQuiet (classify_command first top rest).kind = rw (by_command h k x) k in
      elim (Bool-cases (is "WITH" first)) [
        | inl w ↦
            let name = (text_eq_iff first (codes "WITH")).0 w in
            query words rest (subst (λ (w : Str). Unwrapped words (w ∷ rest)) name e) (
              rw (← name) (with_quiet (first ∷ rest) (rw (command_with first top rest w) at quiet)))
        | inr w ↦
            command words first rest e
              (not_contains writers first (
                command_quiet first top rest quiet w (ground (arith, admitted h k))
                  (admitted h k).1))
              (ne_of_text_eq first (codes "WITH") w) (ne_of_text_eq first (codes "EXPLAIN") x)
              (λ s. not_contains top (codes "INTO") (select_quiet first top rest quiet s))
      ]

-- The tests of `classify_words` in their order, for a statement that is quiet.
classify_words-Harmless :
    (f : List Str → Option Class) (words ws : List Str) (c : Class)
    → Unwrapped words ws
    → ((rest : List Str) (d : Class) → f rest ≡ some d → IsQuiet d.kind → Harmless rest)
    → classify_words f ws ≡ some c
    → IsQuiet c.kind
    → Harmless words
classify_words-Harmless f words [] c e ih h k = empty words e
classify_words-Harmless f words (first ∷ rest) c e ih h k = elim (Bool-cases (is "EXPLAIN" first)) [
  | inr x ↦ command-Harmless f first rest c words e h k x
  | inl x ↦
      let named =
        subst (λ (w : Str). Unwrapped words (w ∷ rest)) ((text_eq_iff first (codes "EXPLAIN")).0 x)
          e in
      let found = explained-Explained rest in
      elim (Bool-cases (any is_analyze (explain_options rest))) [
        | inr a ↦
            explain words rest (explain_options rest) (explained rest) named found
              (not_analyzed (explain_options rest) a)
        | inl a ↦
            let (d, q, s) = by_explained f first rest c h k x a in
            explain_analyze words rest (explain_options rest) (explained rest) named found
              (ih (explained rest) d q (explain_class-IsQuiet d (rw s k)))
      ]
]

-- Condition: the classifier gives a statement a class that neither changes data nor is refused, with
-- which the console runs it without a confirmation. Then behind its opening parentheses, as far as
-- its words show: it has no word; or its command is none of the writers, and a SELECT has no word
-- INTO outside parentheses; or it is a WITH query with no word INSERT, UPDATE, DELETE or MERGE (one
-- with a SELECT INTO is not excluded); or it is EXPLAIN without ANALYZE or ANALYSE among its options;
-- or it is EXPLAIN of a statement of which the same holds.
pub classify-Harmless :
    (frames : ℕ) (words : List Str) (c : Class)
    → classify frames words ≡ some c
    → is_mutating c.kind ≡ false
    → c.kind ≢ forbidden
    → Harmless words
unfolding classify
classify-Harmless zero words c h k l = cc
classify-Harmless (suc frames) words c h k l =
    classify_words-Harmless (classify frames) words (unwrap words) c (unwrap-Unwrapped words)
      (λ rest d e quiet. classify-Harmless frames rest d e quiet.0 quiet.1) h (k, l)

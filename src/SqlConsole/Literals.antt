-- ===== src/SqlConsole/Literals.antt =====
-- Quoted text is opaque to the splitter (ppbase/services/sql_console.py).
use ppbase.Prelude.{
  Str, Unicode, ℕ, suc, ◌+◌, ◌≡◌, refl, [], ◌∷◌, ◌++◌, true, false, some, arith, length,
  length-append, ◌==◌, if◌then◌else◌, append_assoc, reverse, ap, ◌∙◌, append-nil, or_true, ◌<◌, ◌⊎◌,
  Bool-cases, inl, inr,
}
use ppbase.SqlConsole.Lexer.{piece, turn, skip_quoted, escape_string, begins}
use ppbase.SqlConsole.Split.{Splitter, split_from, advance}
use ppbase.SqlConsole.Progress.{split_from-step}

-- SQL's way to write a text between two quotes: each quote in it is doubled.
unfoldable pub double : ℕ → Str → Str
double q [] = []
double q (c ∷ s) = if c == q then q ∷ (q ∷ double q s) else c ∷ double q s

skip_quoted-cons_ne :
    (q c : ℕ) (s : Str)
    → (c == q) ≡ false
    → 0 < length s
    → skip_quoted q false (c ∷ s) ≡ 1 + skip_quoted q false s
unfolding skip_quoted
skip_quoted-cons_ne q c [] h k = absurd (omega arith)
skip_quoted-cons_ne q c (d ∷ s) h k = ground arith

-- Behind the opening quote, the code stops right behind the closing one.
skip_quoted-double :
    (q : ℕ) (body rest : Str)
    → begins q rest ≡ false
    → skip_quoted q false (double q body ++ (q ∷ rest)) ≡ length (double q body) + 1
unfolding skip_quoted double
skip_quoted-double q [] [] h = refl
skip_quoted-double q [] (d ∷ rest) h = ground arith
skip_quoted-double q (c ∷ body) rest h = elim (Bool-cases (c == q)) [
  | inl e ↦ rw e (ground (arith, skip_quoted-double q body rest h))
  | inr e ↦
      rw
        (
          e,
          skip_quoted-cons_ne q c (double q body ++ (q ∷ rest)) e
              (omega (arith, length-append {0} (double q body) (q ∷ rest))),
        )
        (omega (arith, skip_quoted-double q body rest h))
]

-- The literal `body`, between its quotes.
abbrev pub literal : ℕ → Str → Str
literal q body = q ∷ (double q body ++ (q ∷ []))

literal-append :
    (q : ℕ) (body rest : Str) → literal q body ++ rest ≡ q ∷ (double q body ++ (q ∷ rest))
literal-append q body rest = ap (λ (t : Str). q ∷ t) (append_assoc (double q body) (q ∷ []) rest)

module _ (U : Unicode) where
  turn-literal :
      (back body rest : Str) (q : ℕ)
      → (q ≡ b'"') ⊎ ((q ≡ b'\'') × (escape_string U back ≡ false))
      → begins q rest ≡ false
      → turn U back q (double q body ++ (q ∷ rest)) ≡ some (piece [] true, length (literal q body))
  unfolding turn
  turn-literal back body rest q how h =
      ground (arith, skip_quoted-double q body rest h, length-append {0} (double q body) (q ∷ []))

  -- Conditions: `q` is a double quote, or a single quote where the code sees no escape string (it
  -- sees one behind an `e` prefix and at the very start of the script), and the text behind the
  -- literal does not go on with `q`. Then one turn of the loop takes the whole literal into the
  -- statement: whatever the body holds, no statement ends and no word is recorded.
  pub split_from-literal :
      (fuel : ℕ) (st : Splitter) (body rest : Str) (q : ℕ)
      → (q ≡ b'"') ⊎ ((q ≡ b'\'') × (escape_string U st.back ≡ false))
      → begins q rest ≡ false
      → split_from U (suc fuel) st (literal q body ++ rest)
        ≡ split_from U fuel
            (record st {
              back = reverse (literal q body) ++ st.back;
              text = st.text ++ literal q body;
              has_content = true;
            })
            rest
  unfolding split_from advance
  split_from-literal fuel st body rest q h k = rw (literal-append q body rest) (
      split_from-step U fuel st q (double q body ++ (q ∷ rest)) (piece [] true) (literal q body)
        rest (turn-literal st.back body rest q h k) (literal-append q body rest)
      ∙ rw (append-nil st.words, or_true st.has_content))

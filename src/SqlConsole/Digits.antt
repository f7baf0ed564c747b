-- ===== src/SqlConsole/Digits.antt =====
-- When `split_statements` raises: `ch.isdigit()` holds of characters that `_NUMBER_RE` does not
-- match (ppbase/services/sql_console.py).
use ppbase.Prelude.{
  Str, Unicode, ℕ, zero, suc, ◌≡◌, ◌≢◌, refl, List, [], ◌∷◌, true, arith, take, drop, length, All,
  Option, none, some, inl, inr, Option-cases,
}
use ppbase.SqlConsole.Lexer.{turn, plain_turn, dollar_turn, dollar_tag, is_ascii_digit}
use ppbase.SqlConsole.Split.{
  Splitter, Split, ok, attribute_error, out_of_fuel, split_from, advance, start, split_statements,
}
use ppbase.SqlConsole.Progress.{split_statements-ne-out_of_fuel}

module _ (U : Unicode) where
  -- `c` is no digit, or one of 0 to 9.
  abbrev pub IsPlain : ℕ → Type 0
  IsPlain c = U.is_digit c ≡ true → is_ascii_digit c ≡ true

  dollar_turn-ne-none : (c : ℕ) (s : Str) (o : Option Str) → IsPlain c → dollar_turn U c s o ≢ none
  unfolding dollar_turn plain_turn
  dollar_turn-ne-none c s none h = ground arith
  dollar_turn-ne-none c s (some tag) h = ground arith

  plain_turn-ne-none : (c : ℕ) (s : Str) → IsPlain c → plain_turn U c s ≢ none
  unfolding plain_turn
  plain_turn-ne-none c s h = ground arith

  turn-ne-none : (back : Str) (c : ℕ) (s : Str) → IsPlain c → turn U back c s ≢ none
  unfolding turn
  turn-ne-none back c s h =
      ground (arith, dollar_turn-ne-none c s (dollar_tag s) h, plain_turn-ne-none c s h)

  All-drop : (n : ℕ) (s : Str) → All IsPlain s → All IsPlain (drop n s)
  All-drop zero s h = h
  All-drop (suc n) [] h = tt
  All-drop (suc n) (c ∷ s) h = All-drop n s h.1

  split_from-ne-attribute_error :
      (fuel : ℕ) (st : Splitter) (s : Str)
      → All IsPlain s
      → split_from U fuel st s ≢ attribute_error
  unfolding split_from
  split_from-ne-attribute_error zero st s h = λ e. cc
  split_from-ne-attribute_error (suc fuel) st [] h = λ e. cc
  split_from-ne-attribute_error (suc fuel) st (c ∷ s) h = elim (Option-cases (turn U st.back c s)) [
    | inl q ↦ absurd (turn-ne-none st.back c s h.0 q)
    | inr (en, q) ↦
        rw (q, split_from)
          (split_from-ne-attribute_error fuel (advance U en.0 (take en.1 (c ∷ s)) st)
            (drop en.1 (c ∷ s)) (All-drop en.1 (c ∷ s) h))
  ]

  Split-cases :
      (r : Split)
      → r ≢ out_of_fuel
      → r ≢ attribute_error
      → (out : List (Str × List Str)) × (r ≡ ok out)
  Split-cases (ok out) h k = (out, refl)
  Split-cases attribute_error h k = absurd (k refl)
  Split-cases out_of_fuel h k = absurd (h refl)

  -- Condition: every character of the script that `str.isdigit` accepts is one of 0 to 9. Then the
  -- splitter ends and returns statements.
  pub split_statements-total :
      (sql : Str)
      → All IsPlain sql
      → (out : List (Str × List Str)) × (split_statements U sql ≡ ok out)
  unfolding split_statements
  split_statements-total sql h =
      Split-cases (split_statements U sql) (split_statements-ne-out_of_fuel U sql)
        (split_from-ne-attribute_error (suc (length sql)) (start U) sql h)

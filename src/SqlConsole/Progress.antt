-- ===== src/SqlConsole/Progress.antt =====
-- Every turn of the splitter consumes a character, so that the fuel of `split_statements` is
-- enough (ppbase/services/sql_console.py).
use ppbase.Prelude.{
  Str, Unicode, ℕ, zero, suc, ◌<◌, ◌≡◌, ◌≢◌, refl, [], ◌∷◌, ◌++◌, Option, none, some, arith, length,
  length-drop, take, drop, take-append, drop-append, inl, inr, Option-cases,
}
use ppbase.SqlConsole.Lexer.{
  Effect, turn, plain_turn, dollar_turn, dollar_tag, skip_dollar, skip_line,
}
use ppbase.SqlConsole.Split.{Splitter, out_of_fuel, split_from, advance, start, split_statements}

dollar_tag_pos : (s : Str) {tag : Str} → dollar_tag s ≡ some tag → 0 < length tag
unfolding dollar_tag
dollar_tag_pos s h = ground arith

skip_dollar_pos : (tag : Str) (c : ℕ) (s : Str) → 0 < length tag → 0 < skip_dollar tag (c ∷ s)
unfolding skip_dollar
skip_dollar_pos tag c s h = ground arith

skip_line_pos : (c : ℕ) (s : Str) → 0 < skip_line (c ∷ s)
unfolding skip_line
skip_line_pos c s = ground arith

module _ (U : Unicode) where
  plain_turn_pos : (c : ℕ) (s : Str) (e : Effect) (n : ℕ) → plain_turn U c s ≡ some (e, n) → 0 < n
  unfolding plain_turn
  plain_turn_pos c s e n h = ground arith

  dollar_turn_pos :
      (c : ℕ) (s : Str) (o : Option Str) (e : Effect) (n : ℕ)
      → ((tag : Str) → o ≡ some tag → 0 < length tag)
      → dollar_turn U c s o ≡ some (e, n)
      → 0 < n
  unfolding dollar_turn
  dollar_turn_pos c s none e n long h = plain_turn_pos c s e n h
  dollar_turn_pos c s (some tag) e n long h =
      ground (arith, skip_dollar_pos tag c s (long tag refl))

  turn_pos :
      (back : Str) (c : ℕ) (s : Str) (e : Effect) (n : ℕ) → turn U back c s ≡ some (e, n) → 0 < n
  unfolding turn
  turn_pos back c s e n h = ground (
    arith,
    plain_turn_pos c s e n,
    dollar_turn_pos c s (dollar_tag s) e n (λ tag. dollar_tag_pos s),
    skip_line_pos c s,
  )

  split_from_fuel :
      (fuel : ℕ) (st : Splitter) (s : Str) → length s < fuel → split_from U fuel st s ≢ out_of_fuel
  unfolding split_from
  split_from_fuel zero st s h = absurd (omega arith)
  split_from_fuel (suc fuel) st [] h = λ e. cc
  split_from_fuel (suc fuel) st (c ∷ s) h = elim (Option-cases (turn U st.back c s)) [
    | inl q ↦ rw (q, split_from) (λ e. cc)
    | inr (en, q) ↦
        rw (q, split_from)
          (split_from_fuel fuel (advance U en.0 (take en.1 (c ∷ s)) st) (drop en.1 (c ∷ s))
            (omega (arith, length-drop en.1 (c ∷ s), turn_pos st.back c s en.0 en.1 q)))
  ]

  -- The fuel of `split_statements` is enough for every script.
  pub split_statements-ne-out_of_fuel : (sql : Str) → split_statements U sql ≢ out_of_fuel
  unfolding split_statements
  split_statements-ne-out_of_fuel sql =
      split_from_fuel (suc (length sql)) (start U) sql (omega arith)

  -- A turn that takes `taken` off the front, leaving `rest`.
  pub split_from-step :
      (fuel : ℕ) (st : Splitter) (c : ℕ) (s : Str) (e : Effect) (taken rest : Str)
      → turn U st.back c s ≡ some (e, length taken)
      → taken ++ rest ≡ c ∷ s
      → split_from U (suc fuel) st (c ∷ s) ≡ split_from U fuel (advance U e taken st) rest
  unfolding split_from
  split_from-step fuel st c s e taken rest q h =
      rw (q, split_from) (rw (← h, take-append taken rest, drop-append taken rest))

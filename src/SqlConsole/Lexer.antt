-- ===== src/SqlConsole/Lexer.antt =====
-- One turn of the loop of `split_statements`: how far the token at the current position reaches
-- and what it adds (ppbase/services/sql_console.py). A position is the text that is left; an index
-- that the code advances to is the number of characters consumed.
use ppbase.Prelude.{
  Str, Unicode, ℕ, zero, suc, ◌+◌, List, [], ◌∷◌, ◌++◌, Bool, true, false, ◌&&◌, ◌||◌, not, Option,
  none, some, ◌==◌, leb, length, drop, take_while, drop_while, starts_with, if◌then◌else◌,
}
use mathlib.Core.List.{flat_map}
use mathlib.Core.Option

-- `_skip_quoted`, from behind the opening quote.
unfoldable pub skip_quoted : ℕ → Bool → Str → ℕ
skip_quoted quote escapes [] = 0
skip_quoted quote escapes (_ ∷ []) = 1
skip_quoted quote escapes (c ∷ d ∷ s) =
    let two = 2 + skip_quoted quote escapes s in
    let one = 1 + skip_quoted quote escapes (d ∷ s) in
    if escapes && c == b'\\'
    then two
    else if c == quote
    then (if d == quote then two else 1)
    else one

-- The nested block comment, from behind its `/*`, at a depth.
unfoldable pub skip_block : ℕ → Str → ℕ
skip_block zero s = 0
skip_block (suc depth) [] = 0
skip_block (suc depth) (_ ∷ []) = 1
skip_block (suc depth) (a ∷ b ∷ s) =
    let deeper = 2 + skip_block (suc (suc depth)) s in
    let closed = 2 + skip_block depth s in
    let one = 1 + skip_block (suc depth) (b ∷ s) in
    if a == b'/' && b == b'*' then deeper else if a == b'*' && b == b'/' then closed else one

-- Up to and with the newline, or to the end.
unfoldable pub skip_line : Str → ℕ
skip_line [] = 0
skip_line (c ∷ s) = let rest = skip_line s in if c == b'\n' then 1 else 1 + rest

-- `str.find`: the index of the first occurrence.
unfoldable pub find : Str → Str → Option ℕ
unfolding starts_with
find t [] = if starts_with [] t then some 0 else none
find t (c ∷ s) =
    let later = Option.map suc (find t s) in if starts_with (c ∷ s) t then some 0 else later

abbrev pub is_ascii_digit : ℕ → Bool
is_ascii_digit c = leb b'0' c && leb c b'9'

abbrev is_ascii_letter : ℕ → Bool
is_ascii_letter c = (leb b'A' c && leb c b'Z') || (leb b'a' c && leb c b'z')

abbrev is_tag_char : ℕ → Bool
is_tag_char c = is_ascii_letter c || is_ascii_digit c || c == b'_'

abbrev opens_tag : Str → Bool
opens_tag [] = true
opens_tag (c ∷ _) = not (is_ascii_digit c)

abbrev pub begins : ℕ → Str → Bool
begins c [] = false
begins c (d ∷ _) = d == c

-- `_DOLLAR_TAG_RE.match`, from behind the first `$`: the whole tag with both signs.
unfoldable pub dollar_tag : Str → Option Str
dollar_tag s =
    let name = take_while is_tag_char s in
    if opens_tag name && begins b'$' (drop_while is_tag_char s)
    then some (b'$' ∷ (name ++ (b'$' ∷ [])))
    else none

-- The length of the dollar-quoted body whose tag stands at the front of `s`.
unfoldable pub skip_dollar : Str → Str → ℕ
skip_dollar tag s = elim (find tag (drop (length tag) s)) [
  | none ↦ length s
  | some n ↦ length tag + (n + length tag)
]

-- `_NUMBER_RE` behind its first digit
abbrev is_number_char : ℕ → Bool
is_number_char c = is_ascii_digit c || is_ascii_letter c || c == b'_' || c == b'.'

-- What a turn does: the words it appends and whether it sets `has_content`, or the flush at `;`.
pub data Effect : Type 0 where
  piece : List Str → Bool → Effect
  boundary : Effect

module _ (U : Unicode) where
  -- The test before a quote, on the text in front of it, last character first. `prev in "eE"`
  -- holds of the empty string too, which stands for the start of the script.
  unfoldable pub escape_string : Str → Bool
  escape_string [] = true
  escape_string (prev ∷ []) = prev == b'e' || prev == b'E'
  escape_string (prev ∷ before ∷ _) =
      (prev == b'e' || prev == b'E') && not (U.is_alnum before || before == b'_')

  -- The regular expression's `\w` and `[^\W\d]`
  abbrev is_word_char : ℕ → Bool
  is_word_char c = U.is_alnum c || c == b'_'

  abbrev is_word_start : ℕ → Bool
  is_word_start c = is_word_char c && not (U.is_decimal c)

  abbrev word_tail : Str → Str
  word_tail s = take_while (λ d. is_word_char d || d == b'$') s

  -- The tests of the turn from `;` on. `none` is the AttributeError of `None.end()`.
  unfoldable pub plain_turn : ℕ → Str → Option (Effect × ℕ)
  plain_turn c s =
      if c == b';'
      then some (boundary, 1)
      else if U.is_digit c
      then (if is_ascii_digit c
          then some (piece [] true, 1 + length (take_while is_number_char s))
          else none)
      else if (U.is_alpha c || c == b'_') && is_word_start c
      then some (piece (flat_map U.upper (c ∷ word_tail s) ∷ []) true, 1 + length (word_tail s))
      else if c == b'(' || c == b')'
      then some (piece ((c ∷ []) ∷ []) (not (U.is_space c)), 1)
      else some (piece [] (not (U.is_space c)), 1)

  unfoldable pub dollar_turn : ℕ → Str → Option Str → Option (Effect × ℕ)
  unfolding plain_turn
  dollar_turn c s none = plain_turn c s
  dollar_turn c s (some tag) = some (piece [] true, skip_dollar tag (c ∷ s))

  -- One turn at character `c` with `s` behind it and `back` in front, last character first.
  unfoldable pub turn : Str → ℕ → Str → Option (Effect × ℕ)
  unfolding dollar_turn
  turn back c s =
      if c == b'-' && begins b'-' s
      then some (piece [] false, skip_line (c ∷ s))
      else if c == b'/' && begins b'*' s
      then some (piece [] false, 2 + skip_block 1 (drop 1 s))
      else if c == b'\''
      then some (piece [] true, 1 + skip_quoted c (escape_string back) s)
      else if c == b'"'
      then some (piece [] true, 1 + skip_quoted c false s)
      else if c == b'$'
      then dollar_turn c s (dollar_tag s)
      else plain_turn c s

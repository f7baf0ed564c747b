-- ===== src/Tests/Ascii.antt =====
-- The Unicode tables on the ASCII characters, and three characters above them: U+00B2 is a digit
-- and no decimal, U+00E9 is a letter, U+00A0 is a space.
use ppbase.Prelude.{
  ℕ, ◌-◌, Bool, ◌&&◌, ◌||◌, Unicode, [], ◌∷◌, leb, ltb, ◌==◌, if◌then◌else◌, true, none, some,
}
use ppbase.Value.{Builtins, int}

abbrev pub lower_letter : ℕ → Bool
lower_letter c = leb b'a' c && leb c b'z'

abbrev pub letter : ℕ → Bool
letter c = lower_letter c || (leb b'A' c && leb c b'Z') || c == 233

abbrev pub decimal : ℕ → Bool
decimal c = leb b'0' c && leb c b'9'

abbrev pub ascii : Unicode
ascii = record {
  is_alpha = letter;
  is_digit = λ c. decimal c || c == 178;
  is_decimal = decimal;
  is_alnum = λ c. letter c || decimal c || c == 178;
  is_space = λ c. c == 32 || (leb 9 c && leb c 13) || c == 160;
  upper = λ c. (if lower_letter c then c - 32 else if c == 233 then 201 else c) ∷ [];
  is_control = λ c. ltb c 32 || c == 127 || (leb 55296 c && leb c 57343);
}

-- Built-ins for values without floats.
abbrev pub builtins : Builtins Unit
builtins = record {
  show = λ v. [];
  int_of = λ v. elim v [ int n ↦ some n | _ ↦ none ];
  is_zero = λ f. true;
  lower = λ s. s;
}

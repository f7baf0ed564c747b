-- ===== src/Prelude/Text.antt =====
-- A Python `str` as the list of its code points, with what the code uses of `str` and of the
-- Unicode tables. The tables are Python's: `Unicode` has the predicates of `str` on one character.
use Prim.Native.Nat.{ℕ}
use Prim.Native.Char.{code}
use Prim.Native.String.{String}
use mathlib.Core.Path.{◌≡◌, refl}
use mathlib.Core.Logic.{◌↔◌}
use mathlib.Core.Bool.{Bool, true, false, ◌&&◌, ◌||◌}
use mathlib.Core.List.{List, [], ◌∷◌, reverse}
use native.Mathlib.Omega.{arith}
use ppbase.Prelude.Tests.{◌==◌, if◌then◌else◌}
use ppbase.Prelude.Lists.{drop_while}

abbrev pub Str : Type 0
Str = List ℕ

-- A literal of the source.
abbrev pub codes : String → Str
codes String.[] = []
codes (String.◌∷◌ c s) = code c ∷ codes s

unfoldable pub text_eq : Str → Str → Bool
text_eq [] [] = true
text_eq [] (_ ∷ _) = false
text_eq (_ ∷ _) [] = false
text_eq (a ∷ s) (b ∷ t) = a == b && text_eq s t

pub eq_of_text_eq : (s t : Str) → text_eq s t ≡ true → s ≡ t
unfolding text_eq
eq_of_text_eq [] [] h = refl
eq_of_text_eq [] (_ ∷ _) h = cc
eq_of_text_eq (_ ∷ _) [] h = cc
eq_of_text_eq (a ∷ s) (b ∷ t) h = ground (arith, eq_of_text_eq s t)

pub text_eq_refl : (s : Str) → text_eq s s ≡ true
unfolding text_eq
text_eq_refl [] = refl
text_eq_refl (a ∷ s) = ground (arith, text_eq_refl s)

pub text_eq_iff : (s t : Str) → (text_eq s t ≡ true) ↔ (s ≡ t)
text_eq_iff s t = (eq_of_text_eq s t, λ e. rw e (text_eq_refl t))

-- `value in xs`
unfoldable pub contains : List Str → Str → Bool
contains [] a = false
contains (x ∷ xs) a = text_eq a x || contains xs a

-- `c in xs`, for one character
unfoldable pub has_char : Str → ℕ → Bool
has_char [] c = false
has_char (x ∷ xs) c = c == x || has_char xs c

pub record Unicode : Type 0 where
  pub is_alpha : ℕ → Bool
  pub is_digit : ℕ → Bool
  pub is_decimal : ℕ → Bool
  pub is_alnum : ℕ → Bool
  pub is_space : ℕ → Bool
  pub upper : ℕ → Str
  -- The general category is Cc or Cs.
  pub is_control : ℕ → Bool

-- `s.strip()`, for `p` the test of white space
unfoldable pub strip : (ℕ → Bool) → Str → Str
unfolding drop_while
strip p s = reverse (drop_while p (reverse (drop_while p s)))

-- `s.startswith(t)`
unfoldable pub starts_with : Str → Str → Bool
starts_with s [] = true
starts_with [] (_ ∷ _) = false
starts_with (c ∷ s) (d ∷ t) = c == d && starts_with s t

abbrev pub push_char : ℕ → ℕ → List Str → List Str
push_char sep c [] = (c ∷ []) ∷ []
push_char sep c (part ∷ parts) = if c == sep then [] ∷ (part ∷ parts) else (c ∷ part) ∷ parts

-- `value.split(sep)` for one character
unfoldable pub split_on : ℕ → Str → List Str
split_on sep [] = [] ∷ []
split_on sep (c ∷ s) = push_char sep c (split_on sep s)

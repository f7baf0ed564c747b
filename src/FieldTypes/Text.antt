-- ===== src/FieldTypes/Text.antt =====
-- `_validate_text`, `_validate_password` and `_validate_bool` (ppbase/models/field_types.py).
-- Python's regular expressions are a parameter, `none` for a pattern that does not compile.
use ppbase.Prelude.{
  Str, codes, ◌≤◌, ℕ, ◌≢◌, length, is_empty, [], ◌∷◌, Bool, true, false, not, ◌&&◌, Option, none,
  some, if◌then◌else◌, ◌≡◌, refl, ◌⊎◌, ◌↔◌, inl, inr, arith,
}
use ppbase.Value.{ℤ, pos, negsuc, Value, text, str, Builtins, truthy}
use ppbase.FieldTypes.Definition.{
  FieldDefinition, missing, setting_or, Validated, valid, invalid, raised, above, below, refuse,
  str_or_blank,
}

abbrev is_too_short : Option ℤ → Str → Bool
is_too_short none val = false
is_too_short (some min) val = above min (length val)

abbrev is_too_long : Option ℤ → Str → Bool
is_too_long none val = false
is_too_long (some max) val = below max (length val)

abbrev of_search : Option Bool → Str → Validated Str
of_search none val = raised
of_search (some true) val = valid val
of_search (some false) val = invalid (codes "validation_invalid_format")

module _ {F : Type 0} (B : Builtins F) (search : Str → Str → Option Bool)
    (field : FieldDefinition) where
  abbrev check_pattern : Option Str → Str → Validated Str
  check_pattern none val = valid val
  check_pattern (some pattern) val =
      if is_empty pattern then valid val else of_search (search pattern val) val

  -- What the two validators share, for the limits that each reads.
  unfoldable pub check_text : Option ℤ → Option ℤ → Str → Validated Str
  check_text min max val = refuse (field.required && is_empty val) (codes "validation_required") (
      if is_empty val
      then valid val
      else refuse (is_too_short min val) (codes "validation_min_text_constraint") (
          refuse (is_too_long max val) (codes "validation_max_text_constraint")
            (check_pattern field.options.pattern val)))

  unfoldable pub validate_text : Value F → Validated Str
  validate_text value =
      check_text (setting_or none field.options.min) (setting_or none field.options.max)
        (str_or_blank B value)

  unfoldable pub validate_password : Value F → Validated Str
  validate_password value =
      check_text (setting_or (some (pos 8)) field.options.min)
        (setting_or (some (pos 71)) field.options.max) (str_or_blank B value)

  unfoldable pub validate_bool : Value F → Validated Bool
  validate_bool value =
      refuse (field.required && not (truthy B value)) (codes "validation_required")
        (valid (truthy B value))

  -- The pattern of the field, where it has one that is not blank, is found in the text.
  abbrev pub IsFound : Str → Type 0
  IsFound val =
      (pattern : Str)
      → field.options.pattern ≡ some pattern
      → pattern ≢ []
      → search pattern val ≡ some true

  -- What an accepted text meets, for the limits.
  pub data IsAccepted (min max : Option ℤ) (val : Str) : Type 0 where
    blank : val ≡ [] → field.required ≡ false → IsAccepted min max val
    written :
        val ≢ []
        → ((n : ℕ) → min ≡ some (pos n) → n ≤ length val)
        → ((z : ℤ) → max ≡ some z → (n : ℕ) × (z ≡ pos n) × (length val ≤ n))
        → IsFound val
        → IsAccepted min max val

  is_too_short-within :
      (min : Option ℤ) (val : Str) (n : ℕ)
      → is_too_short min val ≡ false
      → min ≡ some (pos n)
      → n ≤ length val
  is_too_short-within none val n h e = cc
  is_too_short-within (some (pos m)) val n h e = let same : m ≡ n = cc in ground (arith, same, h)
  is_too_short-within (some (negsuc m)) val n h e = let same : negsuc m ≡ pos n = cc in cc same

  is_too_short_of :
      (min : Option ℤ) (val : Str)
      → ((n : ℕ) → min ≡ some (pos n) → n ≤ length val)
      → is_too_short min val ≡ false
  is_too_short_of none val h = refl
  is_too_short_of (some (pos m)) val h = ground (arith, h m refl)
  is_too_short_of (some (negsuc m)) val h = refl

  is_too_long-within :
      (max : Option ℤ) (val : Str) (z : ℤ)
      → is_too_long max val ≡ false
      → max ≡ some z
      → (n : ℕ) × (z ≡ pos n) × (length val ≤ n)
  is_too_long-within none val z h e = cc
  is_too_long-within (some (pos m)) val z h e =
      let same : z ≡ pos m = cc in (m, same, ground (arith, h))
  is_too_long-within (some (negsuc m)) val z h e = cc

  is_too_long_of :
      (max : Option ℤ) (val : Str)
      → ((z : ℤ) → max ≡ some z → (n : ℕ) × (z ≡ pos n) × (length val ≤ n))
      → is_too_long max val ≡ false
  is_too_long_of none val h = refl
  is_too_long_of (some z) val h =
      let (n, same, within) = h z refl in rw same (ground (arith, within))

  of_search-found :
      (found : Option Bool) (val s : Str) → of_search found val ≡ valid s → found ≡ some true
  of_search-found none val s h = cc
  of_search-found (some true) val s h = refl
  of_search-found (some false) val s h = cc

  check_pattern-found :
      (pattern : Option Str) (name val s : Str)
      → check_pattern pattern val ≡ valid s
      → pattern ≡ some name
      → name ≢ []
      → search name val ≡ some true
  check_pattern-found none name val s h e k = cc
  check_pattern-found (some []) name val s h e k = absurd (k cc)
  check_pattern-found (some (c ∷ pattern)) name val s h e k =
      let same : c ∷ pattern ≡ name = cc in
      rw (← same) (of_search-found (search (c ∷ pattern) val) val s h)

  check_pattern_of :
      (pattern : Option Str) (val : Str)
      → ((name : Str) → pattern ≡ some name → name ≢ [] → search name val ≡ some true)
      → check_pattern pattern val ≡ valid val
  check_pattern_of none val h = refl
  check_pattern_of (some []) val h = refl
  check_pattern_of (some (c ∷ pattern)) val h = rw (h (c ∷ pattern) refl (λ e. cc)) refl

  IsAccepted-check_text :
      (min max : Option ℤ) (val : Str) → IsAccepted min max val → check_text min max val ≡ valid val
  unfolding check_text
  IsAccepted-check_text min max val (blank e r) = rw (e, r) refl
  IsAccepted-check_text min max [] (written k _ _ _) = absurd (k refl)
  IsAccepted-check_text min max (c ∷ val) (written _ short long found) = ground (
    arith,
    is_too_short_of min (c ∷ val) short,
    is_too_long_of max (c ∷ val) long,
    check_pattern_of field.options.pattern (c ∷ val) found,
  )

  of_search-same : (found : Option Bool) (val s : Str) → of_search found val ≡ valid s → s ≡ val
  of_search-same none val s h = cc
  of_search-same (some true) val s h = ground arith
  of_search-same (some false) val s h = cc

  check_pattern-same :
      (pattern : Option Str) (val s : Str) → check_pattern pattern val ≡ valid s → s ≡ val
  check_pattern-same none val s h = ground arith
  check_pattern-same (some []) val s h = ground arith
  check_pattern-same (some (c ∷ pattern)) val s h =
      of_search-same (search (c ∷ pattern) val) val s h

  check_text-IsAccepted :
      (min max : Option ℤ) (val s : Str)
      → check_text min max val ≡ valid s
      → (s ≡ val) × IsAccepted min max val
  unfolding check_text
  check_text-IsAccepted min max [] s h = (ground arith, blank refl (ground arith))
  check_text-IsAccepted min max (c ∷ val) s h =
      let short : is_too_short min (c ∷ val) ≡ false = ground arith in
      let long : is_too_long max (c ∷ val) ≡ false = ground arith in
      let found : check_pattern field.options.pattern (c ∷ val) ≡ valid s = ground arith in
      let same = check_pattern-same field.options.pattern (c ∷ val) s found in
      (
        same,
        written (λ e. cc) (λ n. is_too_short-within min (c ∷ val) n short)
            (λ z. is_too_long-within max (c ∷ val) z long)
            (λ name. check_pattern-found field.options.pattern name (c ∷ val) s found),
      )

  check_text_iff :
      (min max : Option ℤ) (val s : Str)
      → (check_text min max val ≡ valid s) ↔ ((s ≡ val) × IsAccepted min max s)
  check_text_iff min max val s = (
    λ h. (let (same, accepted) = check_text-IsAccepted min max val s h in (same, rw same accepted)),
    λ (same, accepted). rw (← same) (IsAccepted-check_text min max s accepted),
  )

  -- What an accepted password meets without limits
  abbrev pub IsPassword : Str → Type 0
  IsPassword s =
      ((s ≡ []) × (field.required ≡ false)) ⊎ ((8 ≤ length s) × (length s ≤ 71) × IsFound s)

  IsAccepted-IsPassword : (s : Str) → IsAccepted (some (pos 8)) (some (pos 71)) s → IsPassword s
  IsAccepted-IsPassword s (blank e r) = inl (e, r)
  IsAccepted-IsPassword s (written _ short long found) =
      let (n, e, h) = long (pos 71) refl in
      let same : 71 ≡ n = cc in inr (short 8 refl, omega arith, found)

  IsPassword-IsAccepted : (s : Str) → IsPassword s → IsAccepted (some (pos 8)) (some (pos 71)) s
  IsPassword-IsAccepted s (inl (e, r)) = blank e r
  IsPassword-IsAccepted s (inr (low, high, found)) =
      written (λ e. absurd (ground (arith, low, e))) (λ n e. (let same : 8 ≡ n = cc in omega arith))
        (λ z e. (71, cc, high)) found

-- For every value, the validator of a text field returns a text exactly if it is the text of the
-- value and it is blank where the field is not required, or is not blank, has the lengths that the
-- field sets at least and at most, and the field's pattern, if not blank, is found in it. Given the
-- text of the value instead of the value, the validator ends alike.
pub validate_text-IsAccepted :
    {F : Type 0} (B : Builtins F) (search : Str → Str → Option Bool) (field : FieldDefinition)
    (value : Value F) (s : Str)
    → ((validate_text B search field value ≡ valid s) ↔ (
        (s ≡ str_or_blank B value)
        × IsAccepted B search field
            (setting_or none field.options.min)
            (setting_or none field.options.max)
            s))
      × (validate_text B search field (text (str_or_blank B value))
          ≡ validate_text B search field value)
unfolding validate_text str
validate_text-IsAccepted B search field value s = (
  check_text_iff B search field (setting_or none field.options.min)
      (setting_or none field.options.max) (str_or_blank B value) s,
  refl,
)

-- Condition: a password field sets neither limit. Then its validator returns a text exactly if it is
-- the text of the value and it is blank where the field is not required, or has 8 to 71 characters
-- and the field's pattern, if not blank, is found in it.
pub validate_password_default :
    {F : Type 0} (B : Builtins F) (search : Str → Str → Option Bool) (field : FieldDefinition)
    (value : Value F) (s : Str)
    → field.options.min ≡ missing
    → field.options.max ≡ missing
    → (validate_password B search field value ≡ valid s)
      ↔ ((s ≡ str_or_blank B value) × IsPassword B search field s)
unfolding validate_password
validate_password_default B search field value s no_min no_max =
    let (there, back) =
      check_text_iff B search field (some (pos 8)) (some (pos 71)) (str_or_blank B value) s in
    let low : setting_or (some (pos 8)) field.options.min ≡ some (pos 8) = rw no_min refl in
    let high : setting_or (some (pos 71)) field.options.max ≡ some (pos 71) = rw no_max refl in
    rw (low, high)
      (
        λ h.
            (let (same, accepted) = there h in
              (same, IsAccepted-IsPassword B search field s accepted)),
        λ (same, password). back (same, IsPassword-IsAccepted B search field s password),
      )

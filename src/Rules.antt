-- ===== src/Rules.antt =====
-- API rules (ppbase/services/rule_engine.py).
use ppbase.Prelude.{
  Str, ℕ, codes, text_eq, [], ◌∷◌, Bool, true, false, Option, none, some, is_empty, if◌then◌else◌,
  ◌≡◌, ◌≢◌, refl, ◌⊎◌, ◌↔◌, arith,
}
use ppbase.Value.{
  Value, bool, text, Fields, end, field, dict, Builtins, get, get_null, get_default, truthy,
}

-- `True`, `False` and a filter expression
pub data Decision : Type 0 where
  granted : Decision
  denied : Decision
  filtered : Str → Decision

-- What the code reads of an `AdminRecord`, where it has the attribute.
pub record Admin (F : Type 0) : Type 0 where
  pub id : Option (Value F)
  pub email : Option (Value F)

module _ {F : Type 0} (B : Builtins F) where
  -- `auth_context and auth_context.get("is_admin")`
  abbrev pub is_admin : Option (Fields F) → Bool
  is_admin none = false
  is_admin (some context) =
      if truthy B (dict context) then truthy B (get_null (codes "is_admin") context) else false

  unfoldable pub check_rule : Option Str → Option (Fields F) → Decision
  check_rule none context = if is_admin context then granted else denied
  check_rule (some rule) context =
      if is_empty rule then granted else if is_admin context then granted else filtered rule

abbrev or_blank : {F : Type 0} → Option (Value F) → Value F
or_blank none = text []
or_blank (some value) = value

unfoldable pub build_auth_context :
    {F : Type 0} → Option (Fields F) → Option (Admin F) → Option (Fields F)
build_auth_context token_payload (some admin) = some (
    field (codes "is_admin") (bool true) (
      field (codes "@request.auth.id") (or_blank admin.id)
        (field (codes "@request.auth.email") (or_blank admin.email) end)))
build_auth_context none none = none
build_auth_context (some payload) none = some (
    field (codes "is_admin") (bool false) (
      field (codes "@request.auth.id") (get_default (codes "id") (text []) payload) (
        field (codes "@request.auth.collectionId")
          (get_default (codes "collectionId") (text []) payload)
          (field (codes "@request.auth.type") (get_default (codes "type") (text []) payload) end))))

-- No rule but the context decides.
module _ {F : Type 0} (B : Builtins F) where
  null_rule :
      (payload : Option (Fields F)) (admin : Option (Admin F))
      → check_rule B none (build_auth_context payload admin)
        ≡ elim admin [ none ↦ denied | some _ ↦ granted ]
  unfolding check_rule build_auth_context get truthy text_eq
  null_rule payload (some admin) = refl
  null_rule none none = refl
  null_rule (some p) none = refl

  expression_rule :
      (payload : Option (Fields F)) (c : ℕ) (s : Str) (admin : Option (Admin F))
      → check_rule B (some (c ∷ s)) (build_auth_context payload admin)
        ≡ elim admin [ none ↦ filtered (c ∷ s) | some _ ↦ granted ]
  unfolding check_rule build_auth_context get truthy text_eq
  expression_rule payload c s (some admin) = refl
  expression_rule none c s none = refl
  expression_rule (some p) c s none = refl

-- Whatever a token claims, a rule gives unconditional access exactly if it is the empty rule or an
-- admin asks, denies access exactly if it is null and no admin asks, and is a filter, itself, exactly
-- if it is an expression and no admin asks.
pub check_rule_iff :
    {F : Type 0} (B : Builtins F) (rule : Option Str) (payload : Option (Fields F))
    (admin : Option (Admin F)) (filter : Str)
    → ((check_rule B rule (build_auth_context payload admin) ≡ granted)
        ↔ ((rule ≡ some []) ⊎ (admin ≢ none)))
      × ((check_rule B rule (build_auth_context payload admin) ≡ denied)
          ↔ ((rule ≡ none) × (admin ≡ none)))
      × ((check_rule B rule (build_auth_context payload admin) ≡ filtered filter)
          ↔ ((rule ≡ some filter) × (filter ≢ []) × (admin ≡ none)))
check_rule_iff B none payload none filter = rw (null_rule B payload none) (
  (λ h. ground arith, λ h. ground arith),
  (λ h. ground arith, λ h. ground arith),
  (λ h. ground arith, λ h. ground arith),
)
check_rule_iff B none payload (some admin) filter = rw (null_rule B payload (some admin)) (
  (λ h. ground arith, λ h. ground arith),
  (λ h. ground arith, λ h. ground arith),
  (λ h. ground arith, λ h. ground arith),
)
check_rule_iff B (some []) payload admin filter =
    unfold check_rule in
    (
      (λ h. ground arith, λ h. ground arith),
      (λ h. ground arith, λ h. ground arith),
      (λ h. ground arith, λ h. ground arith),
    )
check_rule_iff B (some (c ∷ s)) payload none filter = rw (expression_rule B payload c s none) (
  (λ h. ground arith, λ h. ground arith),
  (λ h. ground arith, λ h. ground arith),
  (λ h. ground arith, λ h. ground arith),
)
check_rule_iff B (some (c ∷ s)) payload (some admin) filter =
    rw (expression_rule B payload c s (some admin)) (
      (λ h. ground arith, λ h. ground arith),
      (λ h. ground arith, λ h. ground arith),
      (λ h. ground arith, λ h. ground arith),
    )

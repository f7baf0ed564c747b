-- ===== src/Realtime/Receive.antt =====
-- Who receives what (ppbase/services/realtime_service.py).
use ppbase.Prelude.{
  Str, Unicode, codes, text_eq, text_eq_refl, eq_of_text_eq, [], ◌∷◌, ◌++◌, Bool, true, false,
  Option, none, some, ◌≡◌, ◌≢◌, ◌↔◌, ◌⊎◌, refl, sym, ◌∙◌, arith, Bool-cases, inl, inr,
}
use ppbase.Value.{Fields, Builtins, get, truthy}
use ppbase.Rules.{Decision, granted, denied, filtered, check_rule, is_admin}
use ppbase.Realtime.Manager.{RealtimeSubscription}
use ppbase.Realtime.Allow.{
  CollectionRecord, is_admin_type, auth_context, context_of, option_text, rule_of, with_filter,
  is_met, is_allowed, is_subscription_allowed_for_event,
}

module _ {F : Type 0} (U : Unicode) (B : Builtins F) where
  -- A superuser's token
  abbrev pub is_superuser : Option (Fields F) → Bool
  is_superuser none = false
  is_superuser (some payload) = is_admin_type (get (codes "type") payload)

  -- The expression that a row must meet, for a rule, a superuser and a filter
  pub data Condition : Option Str → Bool → Str → Str → Type 0 where
    filter_of_superuser :
        {rule : Option Str} {c : _} {filter : Str} → Condition rule true (c ∷ filter) (c ∷ filter)
    filter_of_open : {c : _} {filter : Str} → Condition (some []) false (c ∷ filter) (c ∷ filter)
    rule_alone : {c : _} {rule : Str} → Condition (some (c ∷ rule)) false [] (c ∷ rule)
    rule_and_filter :
        {c d : _} {rule filter : Str}
        → Condition
            (some (c ∷ rule))
            false
            (d ∷ filter)
            (codes "(" ++ ((c ∷ rule) ++ (codes ") && (" ++ ((d ∷ filter) ++ codes ")"))))

  -- When a subscriber may get an event of a record: without a filter, the rule is open to all or the
  -- subscriber is a superuser, or the row, which is not deleted, meets the condition.
  pub data MayReceive (check : CollectionRecord → Str → Str → Fields F → Option Bool)
      (collection : CollectionRecord) (sub : RealtimeSubscription F) (record_id action : Str)
      : Type 0 where
    unconditionally :
        (rule_of collection sub ≡ some []) ⊎ (is_superuser sub.auth_payload ≡ true)
        → option_text U (codes "filter") sub ≡ []
        → MayReceive check collection sub record_id action
    on_condition :
        (expression : Str)
        → Condition
            (rule_of collection sub)
            (is_superuser sub.auth_payload)
            (option_text U (codes "filter") sub)
            expression
        → action ≢ codes "delete"
        → check collection record_id expression (context_of B sub) ≡ some true
        → MayReceive check collection sub record_id action

  is_admin-auth_context :
      (payload : Option (Fields F)) → is_admin B (auth_context payload) ≡ is_superuser payload
  unfolding auth_context get truthy text_eq
  is_admin-auth_context none = refl
  is_admin-auth_context (some payload) =
      elim (Bool-cases (is_admin_type (get (codes "type") payload))) [
        | inl e ↦ rw e refl
        | inr e ↦ rw e refl
      ]

-- A rule for a superuser or another
judge : Option Str → Bool → Decision
judge rule true = granted
judge none false = denied
judge (some []) false = granted
judge (some (c ∷ rule)) false = filtered (c ∷ rule)

data Verdict {F : Type 0} (U : Unicode) (B : Builtins F) (rule : Option Str) (admin : Bool)
    (filter : Str) : Decision → Type 0 where
  open_to : (rule ≡ some []) ⊎ (admin ≡ true) → filter ≡ [] → Verdict U B rule admin filter granted
  closed : Verdict U B rule admin filter denied
  needs :
      (expression : Str)
      → Condition U B rule admin filter expression
      → Verdict U B rule admin filter (filtered expression)

module _ {F : Type 0} (U : Unicode) (B : Builtins F) where
  check_rule-judge :
      (rule : Option Str) (context : Option (Fields F))
      → check_rule B rule context ≡ judge rule (is_admin B context)
  unfolding check_rule judge
  check_rule-judge none context = elim (Bool-cases (is_admin B context)) [
    | inl e ↦ rw e refl
    | inr e ↦ rw e refl
  ]
  check_rule-judge (some []) context = elim (Bool-cases (is_admin B context)) [
    | inl e ↦ rw e refl
    | inr e ↦ rw e refl
  ]
  check_rule-judge (some (c ∷ rule)) context = elim (Bool-cases (is_admin B context)) [
    | inl e ↦ rw e refl
    | inr e ↦ rw e refl
  ]

  verdict :
      (rule : Option Str) (admin : Bool) (filter : Str)
      → Verdict U B rule admin filter (with_filter filter (judge rule admin))
  unfolding with_filter judge
  verdict rule true [] = open_to (inr refl) refl
  verdict rule true (c ∷ filter) = needs (c ∷ filter) filter_of_superuser
  verdict none false [] = closed
  verdict none false (c ∷ filter) = closed
  verdict (some []) false [] = open_to (inl refl) refl
  verdict (some []) false (c ∷ filter) = needs (c ∷ filter) filter_of_open
  verdict (some (c ∷ rule)) false [] = needs (c ∷ rule) rule_alone
  verdict (some (c ∷ rule)) false (d ∷ filter) = needs _ rule_and_filter

  Condition-judge :
      (rule : Option Str) (admin : Bool) (filter expression : Str)
      → Condition U B rule admin filter expression
      → with_filter filter (judge rule admin) ≡ filtered expression
  unfolding with_filter judge
  Condition-judge _ _ _ _ filter_of_superuser = refl
  Condition-judge _ _ _ _ filter_of_open = refl
  Condition-judge _ _ _ _ rule_alone = refl
  Condition-judge _ _ _ _ rule_and_filter = refl

  open_judge :
      (rule : Option Str) (admin : Bool)
      → (rule ≡ some []) ⊎ (admin ≡ true)
      → judge rule admin ≡ granted
  unfolding judge
  open_judge rule true h = refl
  open_judge rule false (inl e) = rw e refl
  open_judge rule false (inr e) = cc

  module _ (check : CollectionRecord → Str → Str → Fields F → Option Bool)
      (collection : CollectionRecord) (sub : RealtimeSubscription F) (record_id action : Str) where
    met : (answer : Option Bool) → is_met U B check answer ≡ true → answer ≡ some true
    met none h = cc
    met (some true) h = refl
    met (some false) h = cc

    Verdict-MayReceive :
        (decision : Decision)
        → Verdict U B
            (rule_of collection sub)
            (is_superuser U B sub.auth_payload)
            (option_text U (codes "filter") sub)
            decision
        → is_allowed U B check collection record_id action (context_of B sub) decision ≡ true
        → MayReceive U B check collection sub record_id action
    Verdict-MayReceive _ (open_to open_for blank) h = unconditionally open_for blank
    Verdict-MayReceive _ closed h = cc
    Verdict-MayReceive _ (needs expression condition) h =
        elim (Bool-cases (text_eq action (codes "delete"))) [
          | inl e ↦ absurd (ground (arith, e, h))
          | inr e ↦
              on_condition expression condition
                (λ same. absurd (cc (same, e, text_eq_refl (codes "delete"))))
                (met (check collection record_id expression (context_of B sub))
                  (ground (arith, e, h)))
        ]

    decision_lem :
        is_subscription_allowed_for_event U B check collection sub record_id action
        ≡ is_allowed U B check collection record_id action (context_of B sub) (
            with_filter
              (option_text U (codes "filter") sub)
              (judge (rule_of collection sub) (is_superuser U B sub.auth_payload)))
    unfolding is_subscription_allowed_for_event
    decision_lem =
        rw
          (
            check_rule-judge (rule_of collection sub) (auth_context sub.auth_payload),
            is_admin-auth_context U B sub.auth_payload,
          )
          refl

    MayReceive-allowed :
        MayReceive U B check collection sub record_id action
        → is_subscription_allowed_for_event U B check collection sub record_id action ≡ true
    unfolding with_filter
    MayReceive-allowed (unconditionally open_for blank) =
        decision_lem
        ∙ rw
            (
              blank,
              open_judge (rule_of collection sub) (is_superuser U B sub.auth_payload) open_for,
            )
            refl
    MayReceive-allowed (on_condition expression condition kept answer) =
        let expressed =
          Condition-judge (rule_of collection sub) (is_superuser U B sub.auth_payload)
            (option_text U (codes "filter") sub) expression condition in
        decision_lem
        ∙ rw expressed (elim (Bool-cases (text_eq action (codes "delete"))) [
          | inl e ↦ absurd (kept (eq_of_text_eq action (codes "delete") e))
          | inr e ↦ rw (e, answer) refl
        ])

  -- A subscription may get an event of a record exactly if its filter is blank and the rule is open to
  -- all or the subscriber is a superuser, or if the event is no deletion and the row meets the filter,
  -- the rule, or, where both are there, the text of both in brackets with `&&` between.
  pub is_subscription_allowed_for_event_iff :
      (check : CollectionRecord → Str → Str → Fields F → Option Bool)
      (collection : CollectionRecord) (sub : RealtimeSubscription F) (record_id action : Str)
      → (is_subscription_allowed_for_event U B check collection sub record_id action ≡ true)
        ↔ MayReceive U B check collection sub record_id action
  is_subscription_allowed_for_event_iff check collection sub record_id action = (
    λ h.
        Verdict-MayReceive check collection sub record_id action _
          (verdict (rule_of collection sub) (is_superuser U B sub.auth_payload)
            (option_text U (codes "filter") sub))
          (sym (decision_lem check collection sub record_id action) ∙ h),
    MayReceive-allowed check collection sub record_id action,
  )

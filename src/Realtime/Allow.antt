-- ===== src/Realtime/Allow.antt =====
-- `_build_rule_context` and `_is_subscription_allowed_for_event`
-- (ppbase/services/realtime_service.py). The check of a record against an expression is a parameter.
use ppbase.Prelude.{
  Str, Unicode, codes, text_eq, strip, starts_with, ◌==◌, [], ◌∷◌, ◌++◌, map, reverse, Bool, true,
  false, Option, none, some, if◌then◌else◌,
}
use ppbase.Value.{Value, text, bool, dict, Fields, end, field, Builtins, get, get_default}
use ppbase.Rules.{Decision, granted, denied, filtered, check_rule}
use ppbase.Realtime.Manager.{RealtimeSubscription}

-- What the code reads of a collection
pub record CollectionRecord : Type 0 where
  pub name : Str
  pub list_rule : Option Str
  pub view_rule : Option Str

-- `s.endswith(t)`
abbrev ends_with : Str → Str → Bool
ends_with s t = starts_with (reverse s) (reverse t)

-- `key.replace("-", "_")`
abbrev underscored : Str → Str
underscored = map (λ c. if c == b'-' then b'_' else c)

-- The rule with the filter of the subscription
unfoldable pub with_filter : Str → Decision → Decision
with_filter [] result = result
with_filter (c ∷ filter) granted = filtered (c ∷ filter)
with_filter (c ∷ filter) denied = denied
with_filter (c ∷ filter) (filtered rule) =
    filtered (codes "(" ++ (rule ++ (codes ") && (" ++ ((c ∷ filter) ++ codes ")"))))

module _ {F : Type 0} where
  -- `fields[key] = value`
  unfoldable pub put : Str → Value F → Fields F → Fields F
  put key value end = field key value end
  put key value (field name old fields) =
      let later = put key value fields in
      if text_eq name key then field name value fields else field name old later

  abbrev pub is_admin_type : Option (Value F) → Bool
  is_admin_type (some (text type)) = text_eq type (codes "admin")
  is_admin_type _ = false

  abbrev blank : Str → Fields F → Value F
  blank key payload = get_default key (text []) payload

  unfoldable pub auth_context : Option (Fields F) → Option (Fields F)
  auth_context none = none
  auth_context (some payload) =
      if is_admin_type (get (codes "type") payload)
      then some (
          field (codes "is_admin") (bool true) (
            field (codes "@request.auth.id") (blank (codes "id") payload)
              (field (codes "@request.auth.email") (blank (codes "email") payload) end)))
      else some (
          field (codes "is_admin") (bool false) (
            field (codes "@request.auth.id") (blank (codes "id") payload) (
              field (codes "@request.auth.collectionId") (blank (codes "collectionId") payload) (
                field (codes "@request.auth.collectionName")
                  (blank (codes "collectionName") payload)
                  (field (codes "@request.auth.type") (blank (codes "type") payload) end)))))

  unfoldable pub auth_info : Option (Fields F) → Fields F
  auth_info none = end
  auth_info (some payload) = field (codes "id") (blank (codes "id") payload) (
      field (codes "email") (blank (codes "email") payload) (
        field (codes "type") (blank (codes "type") payload) (
          field (codes "collectionId") (blank (codes "collectionId") payload)
            (field (codes "collectionName") (blank (codes "collectionName") payload) end))))

  unfoldable pub request_context : Option (Fields F) → Fields F
  request_context payload = field (codes "context") (text (codes "realtime")) (
      field (codes "method") (text (codes "GET")) (
        field (codes "headers") (dict end) (
          field (codes "auth") (dict (auth_info payload))
            (field (codes "data") (dict end) (field (codes "query") (dict end) end)))))

  -- The loop of `_normalize_request_headers`
  unfoldable pub normalize : Builtins F → Fields F → Fields F → Fields F
  normalize B normalized end = normalized
  normalize B normalized (field raw_key value headers) =
      let key = B.lower raw_key in
      normalize B (put (underscored key) value (put key value normalized)) headers

  abbrev with_query : Fields F → Fields F → Fields F
  with_query end context = context
  with_query (field k v query) context = put (codes "query") (dict (field k v query)) context

  abbrev with_headers : Builtins F → Fields F → Fields F → Fields F
  with_headers B end context = context
  with_headers B (field k v headers) context =
      put (codes "headers") (dict (normalize B end (field k v headers))) context

  unfoldable pub context_of : Builtins F → RealtimeSubscription F → Fields F
  context_of B subscription =
      with_headers B subscription.options_headers
        (with_query subscription.options_query (request_context subscription.auth_payload))

  abbrev text_of : Unicode → Option (Value F) → Str
  text_of U (some (text value)) = strip U.is_space value
  text_of U _ = []

  -- A text among the options of the query, stripped, or the empty text
  unfoldable pub option_text : Unicode → Str → RealtimeSubscription F → Str
  option_text U key subscription = text_of U (get key subscription.options_query)

  unfoldable pub rule_of : CollectionRecord → RealtimeSubscription F → Option Str
  rule_of collection subscription =
      if ends_with subscription.base_topic (codes "/*")
      then collection.list_rule
      else collection.view_rule

  -- `check_record_rule`; `none` is an exception, which is caught.
  module _ (U : Unicode) (B : Builtins F)
      (check_record_rule : CollectionRecord → Str → Str → Fields F → Option Bool) where
    abbrev pub is_met : Option Bool → Bool
    is_met none = false
    is_met (some met) = met

    abbrev pub is_allowed : CollectionRecord → Str → Str → Fields F → Decision → Bool
    is_allowed collection record_id action context denied = false
    is_allowed collection record_id action context granted = true
    is_allowed collection record_id action context (filtered expression) =
        if text_eq action (codes "delete")
        then false
        else is_met (check_record_rule collection record_id expression context)

    unfoldable pub is_subscription_allowed_for_event :
        CollectionRecord → RealtimeSubscription F → Str → Str → Bool
    is_subscription_allowed_for_event collection subscription record_id action =
        is_allowed collection record_id action (context_of B subscription) (
          with_filter (option_text U (codes "filter") subscription) (
            check_rule B (rule_of collection subscription)
              (auth_context subscription.auth_payload)))

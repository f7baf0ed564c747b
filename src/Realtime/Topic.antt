-- ===== src/Realtime/Topic.antt =====
-- `parse_realtime_topic` (ppbase/services/realtime_service.py). What `parse_qs` and `json.loads` make
-- of a query are parameters.
use ppbase.Prelude.{
  Str, Unicode, codes, text_eq, has_char, strip, starts_with, split_on, take_while, drop_while,
  drop, ◌==◌, List, [], ◌∷◌, not, ◌||◌, Option, none, some, is_empty, if◌then◌else◌,
}
use ppbase.Value.{Value, null, dict, Fields, end, get}

-- The causes of a `ValueError`
pub data TopicFault : Type 0 where
  empty_topic invalid_topic invalid_json invalid_object invalid_query invalid_headers : TopicFault

pub data Outcome (A : Type 0) : Type 0 where
  rejected : TopicFault → Outcome A
  accepted : A → Outcome A

pub record ParsedRealtimeTopic (F : Type 0) : Type 0 where
  pub raw_topic : Str
  pub base_topic : Str
  pub collection_name : Str
  pub resource : Str
  pub options_query : Fields F
  pub options_headers : Fields F

-- `raw_topic.partition("?")`, the part in front of the sign and the one behind it
abbrev pub base_of : Str → Str
base_of raw = take_while (λ c. not (c == b'?')) raw

abbrev query_of : Str → Str
query_of raw = drop 1 (drop_while (λ c. not (c == b'?')) raw)

abbrev pub two_names : List Str → Option (Str × Str)
two_names (collection ∷ resource ∷ []) =
    if is_empty collection || is_empty resource then none else some (collection, resource)
two_names _ = none

-- `collection_name` and `resource`; `none` is an invalid format.
unfoldable pub names_of : Str → Option (Str × Str)
names_of base =
    if not (has_char base b'/')
    then if text_eq base (codes "PB_CONNECT") || starts_with base (codes "@")
      then some ([], base)
      else none
    else two_names (split_on b'/' base)

module _ {F : Type 0} where
  -- `parsed.get(key, {})` is a dictionary or `None`, and then `or {}`.
  abbrev part : Option (Value F) → TopicFault → Outcome (Fields F)
  part none fault = accepted end
  part (some null) fault = accepted end
  part (some (dict fields)) fault = accepted fields
  part (some _) fault = rejected fault

  abbrev both : Outcome (Fields F) → Outcome (Fields F) → Outcome (Fields F × Fields F)
  both (rejected fault) headers = rejected fault
  both (accepted query) (rejected fault) = rejected fault
  both (accepted query) (accepted headers) = accepted (query, headers)

  abbrev of_json : Option (Value F) → Outcome (Fields F × Fields F)
  of_json none = rejected invalid_json
  of_json (some (dict options)) =
      both (part (get (codes "query") options) invalid_query)
        (part (get (codes "headers") options) invalid_headers)
  of_json (some _) = rejected invalid_object

  -- `parse_qs(...).get("options", [None])[0]`, and `json.loads`, where `none` is an exception
  module _ (U : Unicode) (options_of : Str → Option Str) (loads : Str → Option (Value F)) where
    abbrev raw_options : Option Str → Outcome (Fields F × Fields F)
    raw_options none = accepted (end, end)
    raw_options (some []) = accepted (end, end)
    raw_options (some (c ∷ raw)) = of_json (loads (c ∷ raw))

    unfoldable pub topic_options : Str → Outcome (Fields F × Fields F)
    topic_options query =
        if is_empty query then accepted (end, end) else raw_options (options_of query)

    abbrev pub with_options :
        Str → Str × Str → Outcome (Fields F × Fields F) → Outcome (ParsedRealtimeTopic F)
    with_options raw names (rejected fault) = rejected fault
    with_options raw (collection, resource) (accepted (query, headers)) = accepted (record {
      raw_topic = raw;
      base_topic = base_of raw;
      collection_name = collection;
      resource = resource;
      options_query = query;
      options_headers = headers;
    })

    abbrev pub named : Str → Option (Str × Str) → Outcome (ParsedRealtimeTopic F)
    named raw none = rejected invalid_topic
    named raw (some names) = with_options raw names (topic_options (query_of raw))

    unfoldable pub parse_realtime_topic : Str → Outcome (ParsedRealtimeTopic F)
    parse_realtime_topic topic =
        let raw = strip U.is_space topic in
        if is_empty raw then rejected empty_topic else named raw (names_of (base_of raw))

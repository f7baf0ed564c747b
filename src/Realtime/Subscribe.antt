-- ===== src/Realtime/Subscribe.antt =====
-- `realtime_subscribe` (ppbase/api/realtime.py), where no extension takes part
use ppbase.Prelude.{
  Str, Unicode, codes, text_eq, strip, starts_with, drop, ℕ, List, [], ◌∷◌, ◌++◌, map, Bool, true,
  false, not, ◌&&◌, Option, none, some, is_empty, if◌then◌else◌,
}
use ppbase.Value.{
  Value, null, bool, int, float, text, list, dict, Items, nil, cons, Fields, end, field, Builtins,
  get_default, str,
}
use ppbase.Realtime.Topic.{Outcome, rejected, accepted, ParsedRealtimeTopic, parse_realtime_topic}
use ppbase.Realtime.Manager.{
  RealtimeSubscription, RealtimeSession, Sessions, Reply, done, client_not_found, invalid,
  get_session, set_session, replace_subscriptions,
}

-- A response with its status, or an exception that the route does not catch
pub data Response : Type 0 where
  response : ℕ → Response
  uncaught : Response

abbrev pub same_key : Option Str → Option Str → Bool
same_key none none = true
same_key none (some _) = false
same_key (some _) none = false
same_key (some a) (some b) = text_eq a b

module _ {F : Type 0} (U : Unicode) (B : Builtins F) where
  abbrev auth_part : Str → Fields F → Str
  auth_part key auth = str B (get_default key (text []) auth)

  -- `_build_realtime_auth_key`
  unfoldable pub auth_key_of : Option (Fields F) → Option Str
  auth_key_of none = none
  auth_key_of (some end) = none
  auth_key_of (some (field k v fields)) =
      let auth = field k v fields in
      some (
        auth_part (codes "type") auth
        ++ (b':' ∷ (auth_part (codes "collectionId") auth ++ (b':' ∷ auth_part (codes "id") auth))))

  -- The token of the header: without the word Bearer
  unfoldable pub token_of : Option Str → Option Str
  token_of none = none
  token_of (some []) = none
  token_of (some (c ∷ header)) = some (
      if starts_with (B.lower (c ∷ header)) (codes "bearer ")
      then strip U.is_space (drop 7 (c ∷ header))
      else c ∷ header)

  unfoldable pub texts : Items F → List Str
  texts nil = []
  texts (cons (text s) items) = s ∷ texts items
  texts (cons _ items) = texts items

  unfoldable pub keys_of : Fields F → List Str
  keys_of end = []
  keys_of (field key _ fields) = key ∷ keys_of fields

  -- `[str(item) for item in subscriptions if isinstance(item, str)]`; `none` is a value that cannot
  -- be iterated. A text is its characters.
  unfoldable pub items_of : Value F → Option (List Str)
  items_of (list items) = some (texts items)
  items_of (dict fields) = some (keys_of fields)
  items_of (text s) = some (map (λ c. c ∷ []) s)
  items_of null = none
  items_of (bool _) = none
  items_of (int _) = none
  items_of (float _) = none

  module _ (options_of : Str → Option Str) (loads : Str → Option (Value F))
      (resolve_collection : Str → Option Bool) (authorization : Option Str)
      (auth : Option (Fields F)) where
    -- Whether the collection of a topic is there; `none` is an exception.
    abbrev is_there : Option Bool → Bool
    is_there none = false
    is_there (some found) = found

    abbrev resolves : Str → Bool
    resolves [] = true
    resolves (c ∷ name) = is_there (resolve_collection (c ∷ name))

    abbrev append_parsed :
        Outcome (ParsedRealtimeTopic F)
        → List (RealtimeSubscription F)
        → List (RealtimeSubscription F)
    append_parsed (rejected _) later = later
    append_parsed (accepted parsed) later =
        if resolves parsed.collection_name
        then record {
          topic = parsed.raw_topic;
          base_topic = parsed.base_topic;
          auth_token = token_of authorization;
          auth_payload = auth;
          options_query = parsed.options_query;
          options_headers = parsed.options_headers;
        }
          ∷ later
        else later

    -- The loop over the topics
    unfoldable pub parse_subscriptions : List Str → List (RealtimeSubscription F)
    parse_subscriptions [] = []
    parse_subscriptions (sub ∷ subs) =
        let later = parse_subscriptions subs in
        let raw_topic = strip U.is_space sub in
        if is_empty raw_topic
        then later
        else append_parsed (parse_realtime_topic U options_of loads raw_topic) later

    abbrev pub answer : Reply × Sessions F → Response × Sessions F
    answer (done, sessions) = (response 204, sessions)
    answer (client_not_found, sessions) = (uncaught, sessions)
    answer (invalid _, sessions) = (uncaught, sessions)

    abbrev pub replaced : Str → Option (List Str) → Sessions F → Response × Sessions F
    replaced client_id none sessions = (uncaught, sessions)
    replaced client_id (some subs) sessions =
        answer (replace_subscriptions client_id (parse_subscriptions subs) sessions)

    abbrev pub bound_session : RealtimeSession F → RealtimeSession F
    bound_session session =
        if not session.auth_key_set
        then record session { auth_key = auth_key_of auth; auth_key_set = true }
        else session

    -- For a session that is there
    abbrev pub for_session : Str → Value F → RealtimeSession F → Sessions F → Response × Sessions F
    for_session client_id subscriptions session sessions =
        if session.auth_key_set && not (same_key session.auth_key (auth_key_of auth))
        then (response 403, sessions)
        else replaced client_id (items_of subscriptions)
            (set_session client_id (bound_session session) sessions)

    abbrev pub for_client : Str → Value F → Sessions F → Response × Sessions F
    for_client [] subscriptions sessions = (response 400, sessions)
    for_client (c ∷ client_id) subscriptions sessions =
        elim (get_session (c ∷ client_id) sessions) [
          | none ↦ (response 404, sessions)
          | some session ↦ for_session (c ∷ client_id) subscriptions session sessions
        ]

    abbrev pub for_id : Value F → Value F → Sessions F → Response × Sessions F
    for_id (text client_id) subscriptions sessions =
        for_client (strip U.is_space client_id) subscriptions sessions
    for_id _ subscriptions sessions = (uncaught, sessions)

    -- With the JSON of the body; `none` is a body that is no JSON.
    unfoldable pub realtime_subscribe : Option (Value F) → Sessions F → Response × Sessions F
    realtime_subscribe none sessions = (response 400, sessions)
    realtime_subscribe (some (dict body)) sessions =
        for_id (get_default (codes "clientId") (text []) body)
          (get_default (codes "subscriptions") (list nil) body) sessions
    realtime_subscribe (some _) sessions = (uncaught, sessions)

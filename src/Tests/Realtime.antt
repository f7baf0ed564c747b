-- ===== src/Tests/Realtime.antt =====
-- Realtime at concrete inputs. The options of a topic are the filter itself.
use ppbase.Prelude.{
  Str, codes, text_eq, contains, has_char, strip, starts_with, split_on, take_while, drop_while,
  drop, List, [], ◌∷◌, Bool, true, false, ◌&&◌, ◌||◌, Option, none, some, if◌then◌else◌, ◌≡◌, ◌↔◌,
  refl,
}
use ppbase.Value.{Value, text, dict, end, field, get}
use ppbase.Rules.{filtered}
use ppbase.Tests.Ascii.{ascii, builtins}
use ppbase.Realtime.Topic.{
  Outcome, rejected, accepted, invalid_topic, ParsedRealtimeTopic, names_of, topic_options,
  parse_realtime_topic,
}
use ppbase.Realtime.Names.{topics_of, parse_realtime_topic-topics_of}
use ppbase.Realtime.Manager.{
  RealtimeSubscription, RealtimeSession, Sessions, Message, Request, Call, register, add, remove,
  get_session, set_session, register_client, subscribe, without, has_topic, get_clients_for_topic,
  add_subscription, remove_subscription, perform, perform_all,
}
use ppbase.Realtime.View.{connected}
use ppbase.Realtime.Audience.{nobody, after_all, perform_all-after_all}
use ppbase.Realtime.Allow.{CollectionRecord, with_filter, is_subscription_allowed_for_event}
use ppbase.Realtime.Receive.{MayReceive, is_subscription_allowed_for_event_iff}
use ppbase.Realtime.Delivery.{Services, event, broadcast_record_change}
use ppbase.Realtime.Sent.{Sent}
use ppbase.Realtime.Subscribe.{
  Response, response, auth_key_of, token_of, texts, items_of, parse_subscriptions,
  realtime_subscribe,
}
use ppbase.Value.{list, nil, cons, str, Fields}
use ppbase.Realtime.Manager.{replace_subscriptions}
use ppbase.Realtime.Bound.{StaysBound, realtime_subscribe-StaysBound}

abbrev options_of : Str → Option Str
options_of query = if starts_with query (codes "options=") then some (drop 8 query) else none

abbrev loads : Str → Option (Value Unit)
loads raw = some (dict (field (codes "query") (dict (field (codes "filter") (text raw) end)) end))

abbrev parse : Str → Outcome (ParsedRealtimeTopic Unit)
parse = parse_realtime_topic ascii options_of loads

abbrev parsed : ParsedRealtimeTopic Unit
parsed = record {
  raw_topic = codes "posts/*?options=id=1";
  base_topic = codes "posts/*";
  collection_name = codes "posts";
  resource = codes "*";
  options_query = field (codes "filter") (text (codes "id=1")) end;
  options_headers = end;
}

whole_topic : parse (codes " posts/*?options=id=1 ") ≡ accepted parsed
unfolding parse_realtime_topic names_of topic_options strip drop_while take_while has_char split_on
    starts_with text_eq get
whole_topic = refl

three_parts : parse (codes "posts/1/2") ≡ rejected invalid_topic
unfolding parse_realtime_topic names_of topic_options strip drop_while take_while has_char split_on
    starts_with text_eq get
three_parts = refl

no_slash : has_char (codes "posts") b'/' ≡ false
unfolding has_char
no_slash = refl

parse_realtime_topic-topics_of_example :
    contains (topics_of (codes "posts") (codes "7")) (codes "posts/*") ≡ (
      text_eq (codes "posts") (codes "posts")
      && (text_eq (codes "*") (codes "*") || text_eq (codes "*") (codes "7")))
parse_realtime_topic-topics_of_example =
    parse_realtime_topic-topics_of ascii options_of loads (codes " posts/*?options=id=1 ")
      (codes "posts") (codes "7") parsed refl no_slash whole_topic

abbrev request_for : Str → Request Unit
request_for topic = record {
  topic = topic;
  auth_token = none;
  auth_payload = none;
  base_topic = none;
  options_query = none;
  options_headers = none;
}

abbrev calls : List (Call Unit)
calls =
    register (codes "a")
    ∷ register (codes "b")
    ∷ add (codes "a") (request_for (codes "posts/*"))
    ∷ add (codes "b") (request_for (codes "posts/*"))
    ∷ add (codes "c") (request_for (codes "posts/*"))
    ∷ remove (codes "b") (codes "posts/*")
    ∷ []

listed :
    get_clients_for_topic (codes "posts/*") (perform_all ascii options_of loads calls [])
    ≡ codes "a" ∷ []
unfolding perform_all perform register_client add_subscription remove_subscription set_session
    get_session subscribe without has_topic get_clients_for_topic parse_realtime_topic names_of
    topic_options strip drop_while take_while has_char split_on starts_with text_eq get
listed = refl

perform_all-after_all_example :
    (contains
        (get_clients_for_topic (codes "posts/*") (perform_all ascii options_of loads calls []))
        (codes "a")
      ≡ (after_all ascii options_of loads calls nobody).is_subscribed (codes "a") (codes "posts/*"))
    × (connected (perform_all ascii options_of loads calls []) (codes "a")
        ≡ (after_all ascii options_of loads calls nobody).is_connected (codes "a"))
    × (contains
          (get_clients_for_topic (codes "posts/*") (perform_all ascii options_of loads calls []))
          (codes "a")
        ≡ (connected (perform_all ascii options_of loads calls []) (codes "a")
            && contains
                (get_clients_for_topic
                  (codes "posts/*")
                  (perform_all ascii options_of loads calls []))
                (codes "a")))
perform_all-after_all_example =
    perform_all-after_all ascii options_of loads calls (codes "a") (codes "posts/*")

-- A filter that closes the bracket is not held inside it.
escaped_filter :
    with_filter (codes "id != '') || (id != ''") (filtered (codes "owner = 2"))
    ≡ filtered (codes "(owner = 2) && (id != '') || (id != '')")
unfolding with_filter
escaped_filter = refl

abbrev posts : CollectionRecord
posts = record {
  name = codes "posts";
  list_rule = some (codes "public = true");
  view_rule = some [];
}

abbrev subscription : Str → RealtimeSubscription Unit
subscription topic = record {
  topic = topic;
  base_topic = topic;
  auth_token = none;
  auth_payload = none;
  options_query = end;
  options_headers = end;
}

-- The row 7 is public.
abbrev services : Services Unit
services = record {
  check_record_rule = λ collection id rule context. some (text_eq id (codes "7"));
  get_record = λ collection id context. some none;
  AllCollections = Unit;
  get_all_collections = some tt;
  expand_records = λ collection fields expand collections context. some fields;
  resolve_collection = λ name. some (some posts);
}

is_subscription_allowed_for_event_iff_example :
    (is_subscription_allowed_for_event ascii builtins services.check_record_rule posts
        (subscription (codes "posts/*"))
        (codes "7")
        (codes "update")
      ≡ true)
    ↔ MayReceive ascii builtins services.check_record_rule posts
        (subscription (codes "posts/*"))
        (codes "7")
        (codes "update")
is_subscription_allowed_for_event_iff_example =
    is_subscription_allowed_for_event_iff ascii builtins services.check_record_rule posts
      (subscription (codes "posts/*")) (codes "7") (codes "update")

abbrev session : List (Message Unit) → RealtimeSession Unit
session queue = record {
  client_id = codes "a";
  response_queue = queue;
  subscriptions = subscription (codes "posts/*") ∷ subscription (codes "posts/8") ∷ [];
  auth_key = none;
  auth_key_set = true;
}

abbrev sessions : Sessions Unit
sessions = (codes "a", session []) ∷ []

abbrev broadcast : Bool × Sessions Unit
broadcast =
    broadcast_record_change ascii builtins services (codes "posts") (codes "7") (codes "update")
      none none true (some posts) sessions

abbrev message : Message Unit
message = record {
  topic = codes "posts/*";
  event_data = event (codes "update") (field (codes "id") (text (codes "7")) end);
}

-- A request of another identity
abbrev user : Str → Option (Fields Unit)
user id = some (field (codes "type") (text (codes "authRecord")) (field (codes "id") (text id) end))

abbrev bound : RealtimeSession Unit
bound = record (session []) { auth_key = some (codes "authRecord::u1") }

abbrev body : Option (Value Unit)
body = some (
    dict (
      field (codes "clientId") (text (codes "a"))
        (field (codes "subscriptions") (list (cons (text (codes "posts/9")) nil)) end)))

abbrev subscribes : Option (Fields Unit) → Response × Sessions Unit
subscribes auth =
    realtime_subscribe ascii builtins options_of loads (λ name. some true) none auth body
      ((codes "a", bound) ∷ [])

foreign : subscribes (user (codes "u2")) ≡ (response 403, (codes "a", bound) ∷ [])
unfolding realtime_subscribe auth_key_of get_session get str text_eq strip drop_while
foreign = refl

own : (subscribes (user (codes "u1"))).0 ≡ response 204
unfolding realtime_subscribe replace_subscriptions parse_subscriptions auth_key_of items_of texts
    token_of get_session set_session parse_realtime_topic names_of topic_options take_while has_char
    split_on starts_with get str text_eq strip drop_while
own = refl

known_bound : get_session (codes "a") ((codes "a", bound) ∷ []) ≡ some bound
unfolding get_session text_eq
known_bound = refl

realtime_subscribe-StaysBound_example :
    StaysBound
      (auth_key_of ascii builtins (user (codes "u2")))
      bound
      (get_session (codes "a") (subscribes (user (codes "u2"))).1)
realtime_subscribe-StaysBound_example =
    realtime_subscribe-StaysBound ascii builtins options_of loads (λ name. some true) none
      (user (codes "u2")) (codes "a") body bound ((codes "a", bound) ∷ []) refl known_bound

-- ===== src/Realtime/Manager.antt =====
-- `SubscriptionManager` (ppbase/services/realtime_service.py). The lock makes each operation one step.
use ppbase.Prelude.{
  Str, Unicode, text_eq, List, [], ◌∷◌, Bool, true, false, not, Option, none, some, if◌then◌else◌,
}
use ppbase.Value.{Value, Fields, end, field}
use ppbase.Realtime.Topic.{
  TopicFault, Outcome, rejected, accepted, ParsedRealtimeTopic, parse_realtime_topic,
}

module _ (F : Type 0) where
  pub record RealtimeSubscription : Type 0 where
    pub topic : Str
    pub base_topic : Str
    pub auth_token : Option Str
    pub auth_payload : Option (Fields F)
    pub options_query : Fields F
    pub options_headers : Fields F

  -- An entry of the response queue
  pub record Message : Type 0 where
    pub topic : Str
    pub event_data : Value F

  -- `created_at` is left out, since nothing reads it.
  pub record RealtimeSession : Type 0 where
    pub client_id : Str
    pub response_queue : List Message
    pub subscriptions : List RealtimeSubscription
    pub auth_key : Option Str
    pub auth_key_set : Bool

  -- `self.sessions`, in the order of insertion
  abbrev pub Sessions : Type 0
  Sessions = List (Str × RealtimeSession)

  -- The arguments of `add_subscription`
  pub record Request : Type 0 where
    pub topic : Str
    pub auth_token : Option Str
    pub auth_payload : Option (Fields F)
    pub base_topic : Option Str
    pub options_query : Option (Fields F)
    pub options_headers : Option (Fields F)

  -- A call of an operation that changes the sessions
  pub data Call : Type 0 where
    register : Str → Call
    add : Str → Request → Call
    replace : Str → List RealtimeSubscription → Call
    remove : Str → Str → Call
    clear : Str → Call
    disconnect : Str → Call

-- How an operation ends; the second and the third are `ValueError`.
pub data Reply : Type 0 where
  done : Reply
  client_not_found : Reply
  invalid : TopicFault → Reply

abbrev or_text : Option Str → Str → Str
or_text none default = default
or_text (some []) default = default
or_text (some (c ∷ s)) default = c ∷ s

module _ {F : Type 0} where
  -- `get_session`
  unfoldable pub get_session : Str → Sessions F → Option (RealtimeSession F)
  get_session client_id [] = none
  get_session client_id ((key, session) ∷ sessions) =
      let later = get_session client_id sessions in
      if text_eq client_id key then some session else later

  -- `self.sessions[client_id] = session`
  unfoldable pub set_session : Str → RealtimeSession F → Sessions F → Sessions F
  set_session client_id new [] = (client_id, new) ∷ []
  set_session client_id new ((key, session) ∷ sessions) =
      let later = set_session client_id new sessions in
      if text_eq client_id key then (key, new) ∷ sessions else (key, session) ∷ later

  -- `del self.sessions[client_id]`, where it is there
  unfoldable pub del_session : Str → Sessions F → Sessions F
  del_session client_id [] = []
  del_session client_id ((key, session) ∷ sessions) =
      let later = del_session client_id sessions in
      if text_eq client_id key then later else (key, session) ∷ later

  -- The new client's identifier is random.
  unfoldable pub register_client : Str → Sessions F → Sessions F
  register_client client_id sessions =
      set_session client_id
        (record {
          client_id = client_id;
          response_queue = [];
          subscriptions = [];
          auth_key = none;
          auth_key_set = false;
        })
        sessions

  -- A session that is there is changed.
  abbrev pub change :
      Str → (RealtimeSession F → RealtimeSession F) → Reply → Sessions F → Reply × Sessions F
  change client_id f missing sessions = elim (get_session client_id sessions) [
    | none ↦ (missing, sessions)
    | some session ↦ (done, set_session client_id (f session) sessions)
  ]

  -- The loop over the subscriptions, with the new one behind them
  unfoldable pub subscribe :
      RealtimeSubscription F → List (RealtimeSubscription F) → List (RealtimeSubscription F)
  subscribe new [] = new ∷ []
  subscribe new (sub ∷ subs) =
      let later = subscribe new subs in
      if text_eq sub.topic new.topic
      then record sub {
        base_topic = new.base_topic;
        auth_token = new.auth_token;
        auth_payload = new.auth_payload;
        options_query = new.options_query;
        options_headers = new.options_headers;
      }
        ∷ subs
      else sub ∷ later

  abbrev or_fields : Option (Fields F) → Fields F → Fields F
  or_fields none default = default
  or_fields (some end) default = default
  or_fields (some (field k v fields)) default = field k v fields

  abbrev pub requested : Request F → ParsedRealtimeTopic F → RealtimeSubscription F
  requested r parsed = record {
    topic = r.topic;
    base_topic = or_text r.base_topic parsed.base_topic;
    auth_token = r.auth_token;
    auth_payload = r.auth_payload;
    options_query = or_fields r.options_query parsed.options_query;
    options_headers = or_fields r.options_headers parsed.options_headers;
  }

  -- Behind the test of the client
  abbrev pub add_parsed :
      Str
      → Request F
      → Outcome (ParsedRealtimeTopic F)
      → RealtimeSession F
      → Sessions F
      → Reply × Sessions F
  add_parsed client_id r (rejected fault) session sessions = (invalid fault, sessions)
  add_parsed client_id r (accepted parsed) session sessions = (
    done,
    set_session client_id
        (record session { subscriptions = subscribe (requested r parsed) session.subscriptions })
        sessions,
  )

  unfoldable pub replace_subscriptions :
      Str → List (RealtimeSubscription F) → Sessions F → Reply × Sessions F
  replace_subscriptions client_id subscriptions =
      change client_id (λ session. record session { subscriptions = subscriptions })
        client_not_found

  unfoldable pub without : Str → List (RealtimeSubscription F) → List (RealtimeSubscription F)
  without topic [] = []
  without topic (sub ∷ subs) =
      let later = without topic subs in if not (text_eq sub.topic topic) then sub ∷ later else later

  unfoldable pub remove_subscription : Str → Str → Sessions F → Reply × Sessions F
  remove_subscription client_id topic =
      change client_id
        (λ session. record session { subscriptions = without topic session.subscriptions }) done

  unfoldable pub clear_subscriptions : Str → Sessions F → Reply × Sessions F
  clear_subscriptions client_id =
      change client_id (λ session. record session { subscriptions = [] }) done

  unfoldable pub disconnect_client : Str → Sessions F → Sessions F
  disconnect_client client_id sessions = del_session client_id sessions

  -- Whether a subscription has the topic
  unfoldable pub has_topic : Str → List (RealtimeSubscription F) → Bool
  has_topic topic [] = false
  has_topic topic (sub ∷ subs) =
      let later = has_topic topic subs in if text_eq sub.topic topic then true else later

  unfoldable pub get_clients_for_topic : Str → Sessions F → List Str
  get_clients_for_topic topic [] = []
  get_clients_for_topic topic ((client_id, session) ∷ sessions) =
      let later = get_clients_for_topic topic sessions in
      if has_topic topic session.subscriptions then client_id ∷ later else later

  module _ (U : Unicode) (options_of : Str → Option Str) (loads : Str → Option (Value F)) where
    unfoldable pub add_subscription : Str → Request F → Sessions F → Reply × Sessions F
    add_subscription client_id r sessions = elim (get_session client_id sessions) [
      | none ↦ (client_not_found, sessions)
      | some session ↦
          add_parsed client_id r (parse_realtime_topic U options_of loads r.topic) session sessions
    ]

    unfoldable pub perform : Call F → Sessions F → Reply × Sessions F
    perform (register client_id) sessions = (done, register_client client_id sessions)
    perform (add client_id r) sessions = add_subscription client_id r sessions
    perform (replace client_id subs) sessions = replace_subscriptions client_id subs sessions
    perform (remove client_id topic) sessions = remove_subscription client_id topic sessions
    perform (clear client_id) sessions = clear_subscriptions client_id sessions
    perform (disconnect client_id) sessions = (done, disconnect_client client_id sessions)

    unfoldable pub perform_all : List (Call F) → Sessions F → Sessions F
    perform_all [] sessions = sessions
    perform_all (call ∷ calls) sessions = perform_all calls (perform call sessions).1

-- ===== src/Realtime/Delivery.antt =====
-- `broadcast_record_change` (ppbase/services/realtime_service.py). The database and the expansion of
-- relations are parameters.
use ppbase.Prelude.{
  Str, Unicode, codes, text_eq, contains, strip, split_on, ℕ, List, [], ◌∷◌, ◌++◌, Bool, true,
  false, not, ◌||◌, ◌&&◌, Option, none, some, is_empty, if◌then◌else◌,
}
use ppbase.Value.{Value, text, dict, Fields, end, field, Builtins, get}
use ppbase.Realtime.Manager.{RealtimeSubscription, Sessions, Message}
use ppbase.Realtime.Names.{topics_of}
use ppbase.Realtime.Allow.{
  CollectionRecord, context_of, option_text, is_subscription_allowed_for_event,
}

-- What is used of other modules; the outer `none` is an exception.
pub record Services (F : Type 0) : Type 1 where
  pub check_record_rule : CollectionRecord → Str → Str → Fields F → Option Bool
  pub get_record : CollectionRecord → Str → Fields F → Option (Option (Fields F))
  pub AllCollections : Type 0
  pub get_all_collections : Option AllCollections
  pub expand_records :
      CollectionRecord → Fields F → Str → AllCollections → Fields F → Option (Fields F)
  -- `resolve_collection`
  pub resolve_collection : Str → Option (Option CollectionRecord)

-- What is sent for a subscription: an exception, nothing, or an event
pub data Built (F : Type 0) : Type 0 where
  raised : Built F
  skipped : Built F
  built : Value F → Built F

-- Without an engine nothing is checked.
pub data Target : Type 0 where
  unchecked : Target
  checked : CollectionRecord → Target

-- The stripped parts that are not empty
unfoldable pub stripped_names : (ℕ → Bool) → List Str → List Str
stripped_names space [] = []
stripped_names space (name ∷ names) =
    let rest = stripped_names space names in
    if is_empty (strip space name) then rest else strip space name ∷ rest

module _ {F : Type 0} where
  -- `_parse_fields`, where no names are `None`
  abbrev pub parse_fields : Unicode → Option (Value F) → List Str
  parse_fields U (some (text fields)) = stripped_names U.is_space (split_on b',' fields)
  parse_fields U _ = []

  unfoldable pub keep_fields : List Str → Fields F → Fields F
  keep_fields names end = end
  keep_fields names (field key value fields) =
      let rest = keep_fields names fields in
      if contains names key then field key value rest else rest

  unfoldable pub apply_fields_filter : List Str → Fields F → Fields F
  apply_fields_filter names fields =
      if is_empty names || contains names (codes "*") then fields else keep_fields names fields

  abbrev pub is_none : Fields F → Bool
  is_none end = true
  is_none (field _ _ _) = false

  abbrev pub event : Str → Fields F → Value F
  event action fields =
      dict (field (codes "action") (text action) (field (codes "record") (dict fields) end))

  -- `record_data if record_data else {"id": record_id}`
  abbrev pub shown : Str → Option (Fields F) → Fields F
  shown record_id none = field (codes "id") (text record_id) end
  shown record_id (some end) = field (codes "id") (text record_id) end
  shown record_id (some (field k v fields)) = field k v fields

  module _ (U : Unicode) (B : Builtins F) (S : Services F) where
    abbrev finish_event : Str → RealtimeSubscription F → Fields F → Built F
    finish_event action subscription fields = built (
        event action (
          apply_fields_filter (parse_fields U (get (codes "fields") subscription.options_query))
            fields))

    -- Behind the record
    abbrev expanded :
        CollectionRecord
        → Str
        → RealtimeSubscription F
        → Fields F
        → Str
        → Option S.AllCollections
        → Built F
    expanded collection action subscription fields [] collections =
        finish_event action subscription fields
    expanded collection action subscription fields (c ∷ expand) none = raised
    expanded collection action subscription fields (c ∷ expand) (some collections) =
        elim (S.expand_records collection fields (c ∷ expand) collections
          (context_of B subscription)) [
            | none ↦ skipped
            | some result ↦ finish_event action subscription result
          ]

    abbrev with_record :
        CollectionRecord → Str → RealtimeSubscription F → Option (Option (Fields F)) → Built F
    with_record collection action subscription none = raised
    with_record collection action subscription (some none) = skipped
    with_record collection action subscription (some (some fields)) =
        expanded collection action subscription fields (option_text U (codes "expand") subscription)
          S.get_all_collections

    abbrev base_or_row :
        CollectionRecord
        → Str
        → RealtimeSubscription F
        → Option (Fields F)
        → Option (Option (Fields F))
    base_or_row collection record_id subscription (some fields) = some (some fields)
    base_or_row collection record_id subscription none =
        S.get_record collection record_id (context_of B subscription)

    unfoldable pub build_subscription_event_data :
        CollectionRecord → Str → Str → Option (Fields F) → RealtimeSubscription F → Built F
    build_subscription_event_data collection record_id action base_record subscription =
        with_record collection action subscription
          (base_or_row collection record_id subscription base_record)

    module _ (collection_name record_id action : Str) (record_data : Option (Fields F)) where
      abbrev pub allowed_event : CollectionRecord → RealtimeSubscription F → Built F
      allowed_event collection sub =
          if not (text_eq action (codes "delete")) && not (is_none sub.options_query)
          then build_subscription_event_data collection record_id action record_data sub
          else built (event action (shown record_id record_data))

      -- The body of the loop, up to the message
      unfoldable pub event_for : Target → RealtimeSubscription F → Built F
      event_for unchecked sub =
          if not (contains (topics_of collection_name record_id) sub.base_topic)
          then skipped
          else built (event action (shown record_id record_data))
      event_for (checked collection) sub =
          if not (contains (topics_of collection_name record_id) sub.base_topic)
          then skipped
          else if not (
              is_subscription_allowed_for_event U B S.check_record_rule collection sub record_id
                action)
          then skipped
          else allowed_event collection sub

      -- What `_send_realtime_message` makes of the queue: it is put there, or the hook of the extension
      -- registry decides; what that raises is logged.
      abbrev pub send :
          Option (Str → RealtimeSubscription F → Message F → List (Message F) → List (Message F))
          → Str
          → RealtimeSubscription F
          → Message F
          → List (Message F)
          → List (Message F)
      send none client_id sub message queue = queue ++ (message ∷ [])
      send (some trigger) client_id sub message queue = trigger client_id sub message queue

      module _
          (registry : Option
            (Str → RealtimeSubscription F → Message F → List (Message F) → List (Message F)))
          (target : Target) where
        -- The loop over the subscriptions of one client: whether it comes to its end, and the queue
        unfoldable pub deliver :
            Str → List (RealtimeSubscription F) → List (Message F) → Bool × List (Message F)
        deliver client_id [] queue = (true, queue)
        deliver client_id (sub ∷ subs) queue = elim (event_for target sub) [
          | raised ↦ (false, queue)
          | skipped ↦ deliver client_id subs queue
          | built data_of ↦ deliver client_id subs (
              send registry client_id sub (record { topic = sub.topic; event_data = data_of })
                queue)
        ]

        unfoldable pub deliver_all : Sessions F → Bool × Sessions F
        deliver_all [] = (true, [])
        deliver_all ((client_id, session) ∷ sessions) =
            let (ended, queue) = deliver client_id session.subscriptions session.response_queue in
            let (all_ended, later) = deliver_all sessions in
            if ended
            then (all_ended, (client_id, record session { response_queue = queue }) ∷ later)
            else (false, (client_id, record session { response_queue = queue }) ∷ sessions)

      abbrev resolved :
          Option (Str → RealtimeSubscription F → Message F → List (Message F) → List (Message F))
          → Option (Option CollectionRecord)
          → Sessions F
          → Bool × Sessions F
      resolved registry none sessions = (false, sessions)
      resolved registry (some none) sessions = (true, sessions)
      resolved registry (some (some collection)) sessions =
          deliver_all registry (checked collection) sessions

      -- Whether there is an engine, the collection where it is given, and the sessions
      unfoldable pub broadcast_record_change :
          Option (Str → RealtimeSubscription F → Message F → List (Message F) → List (Message F))
          → Bool
          → Option CollectionRecord
          → Sessions F
          → Bool × Sessions F
      broadcast_record_change registry false collection sessions =
          deliver_all registry unchecked sessions
      broadcast_record_change registry true (some collection) sessions =
          deliver_all registry (checked collection) sessions
      broadcast_record_change registry true none sessions =
          resolved registry (S.resolve_collection collection_name) sessions

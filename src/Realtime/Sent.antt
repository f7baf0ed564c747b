-- ===== src/Realtime/Sent.antt =====
-- What a broadcast puts into the queues (ppbase/services/realtime_service.py).
use ppbase.Prelude.{
  Str, Unicode, contains, List, [], ◌∷◌, ◌++◌, append_assoc, append-nil, Bool, true, Option, none,
  some, All, ◌≡◌, refl, sym, ◌∙◌, arith, Bool-cases, inl, inr,
}
use mathlib.Core.List.{Memᴰ}
use ppbase.Value.{Value, Fields, Builtins}
use ppbase.Realtime.Manager.{RealtimeSubscription, RealtimeSession, Sessions, Message}
use ppbase.Realtime.Names.{topics_of}
use ppbase.Realtime.Allow.{CollectionRecord, is_subscription_allowed_for_event}
use ppbase.Realtime.Delivery.{
  Services, Built, raised, skipped, built, checked, event_for, deliver, deliver_all,
}
use ppbase.Realtime.Receive.{MayReceive, is_subscription_allowed_for_event_iff}

module _ {F : Type 0} (U : Unicode) (B : Builtins F) (S : Services F)
    (collection_name record_id action : Str) (record_data : Option (Fields F))
    (collection : CollectionRecord) where
  -- A message for one of some subscriptions, which is to a topic of the record and may get the event
  abbrev pub IsFor : List (RealtimeSubscription F) → Message F → Type 0
  IsFor subs message =
      (sub : RealtimeSubscription F) × Memᴰ sub subs
      × (message.topic ≡ sub.topic)
      × (contains (topics_of collection_name record_id) sub.base_topic ≡ true)
      × MayReceive U B S.check_record_rule collection sub record_id action

  event_for-built :
      (sub : RealtimeSubscription F) (d : Value F)
      → event_for U B S collection_name record_id action record_data (checked collection) sub
        ≡ built d
      → (contains (topics_of collection_name record_id) sub.base_topic ≡ true)
        × (is_subscription_allowed_for_event U B S.check_record_rule collection sub record_id action
            ≡ true)
  unfolding event_for
  event_for-built sub d h =
      elim (Bool-cases (contains (topics_of collection_name record_id) sub.base_topic)) [
        | inr e ↦ absurd (ground (arith, e, h))
        | inl e ↦
            elim (Bool-cases (
              is_subscription_allowed_for_event U B S.check_record_rule collection sub record_id
                action)) [ inr k ↦ absurd (ground (arith, e, k, h)) | inl k ↦ (e, k) ]
      ]

  abbrev pub run : Str → List (RealtimeSubscription F) → List (Message F) → Bool × List (Message F)
  run = deliver U B S collection_name record_id action record_data none (checked collection)

  -- What a run over some subscriptions adds to a queue
  pub record Adds (all : List (RealtimeSubscription F)) (queue queue' : List (Message F))
      : Type 0 where
    pub added : List (Message F)
    pub whole : queue' ≡ queue ++ added
    pub sound : All (IsFor all) added

  -- With what is built for the first subscription
  deliver-cons :
      (client_id : Str) (sub : RealtimeSubscription F) (subs all : List (RealtimeSubscription F))
      (queue : List (Message F)) (b : Built F)
      → event_for U B S collection_name record_id action record_data (checked collection) sub ≡ b
      → Memᴰ sub all
      → ((q : List (Message F)) → Adds all q (run client_id subs q).1)
      → Adds all queue (run client_id (sub ∷ subs) queue).1
  unfolding deliver
  deliver-cons client_id sub subs all queue raised e here rest =
      rw (deliver, e) (record { added = []; whole = sym (append-nil queue); sound = tt })
  deliver-cons client_id sub subs all queue skipped e here rest = rw (deliver, e) (rest queue)
  deliver-cons client_id sub subs all queue (built d) e here rest =
      let (topical, allowed) = event_for-built sub d e in
      let message : Message F = record { topic = sub.topic; event_data = d } in
      let later = rest (queue ++ (message ∷ [])) in
      rw (deliver, e)
        (record {
          added = message ∷ later.added;
          whole = later.whole ∙ append_assoc queue (message ∷ []) later.added;
          sound = (
            (
              sub,
              here,
              refl,
              topical,
              (is_subscription_allowed_for_event_iff U B S.check_record_rule collection sub
                    record_id action).0
                  allowed,
            ),
            later.sound,
          );
        })

  pub deliver-Adds :
      (client_id : Str) (subs all : List (RealtimeSubscription F))
      → ((sub : RealtimeSubscription F) → Memᴰ sub subs → Memᴰ sub all)
      → (queue : List (Message F)) → Adds all queue (run client_id subs queue).1
  unfolding deliver
  deliver-Adds client_id [] all within queue = record {
    added = [];
    whole = sym (append-nil queue);
    sound = tt;
  }
  deliver-Adds client_id (sub ∷ subs) all within queue =
      deliver-cons client_id sub subs all queue _ refl (within sub (Memᴰ.head refl))
        (deliver-Adds client_id subs all (λ x n. within x (Memᴰ.tail n)))

  abbrev pub run_all : Sessions F → Bool × Sessions F
  run_all = deliver_all U B S collection_name record_id action record_data none (checked collection)

  -- What a broadcast leaves of a session
  pub record Sent (session : RealtimeSession F) (found : Option (RealtimeSession F)) : Type 0 where
    pub session' : RealtimeSession F
    pub still_there : found ≡ some session'
    pub same : session'.subscriptions ≡ session.subscriptions
    pub added : List (Message F)
    pub queued : session'.response_queue ≡ session.response_queue ++ added
    pub received : All (IsFor session.subscriptions) added

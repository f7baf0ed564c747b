-- ===== src/Realtime/Received.antt =====
-- That a broadcast reaches its subscribers (ppbase/services/realtime_service.py).
use ppbase.Prelude.{Str, Unicode, List, [], ◌∷◌, ◌++◌, Bool, false, Option, ◌≡◌, refl}
use ppbase.Value.{Value, Fields, Builtins}
use ppbase.Realtime.Manager.{RealtimeSubscription, RealtimeSession, Sessions, Message}
use ppbase.Realtime.Allow.{CollectionRecord}
use ppbase.Realtime.Delivery.{Services, Built, raised, skipped, built, checked, event_for, deliver}
use ppbase.Realtime.Sent.{run, run_all}

module _ {F : Type 0} (U : Unicode) (B : Builtins F) (S : Services F)
    (collection_name record_id action : Str) (record_data : Option (Fields F))
    (collection : CollectionRecord) where
  abbrev built_for : RealtimeSubscription F → Built F
  built_for = event_for U B S collection_name record_id action record_data (checked collection)

  abbrev run_of : Str → List (RealtimeSubscription F) → List (Message F) → Bool × List (Message F)
  run_of = run U B S collection_name record_id action record_data collection

  abbrev message_for : RealtimeSubscription F → Value F → Message F
  message_for sub d = record { topic = sub.topic; event_data = d }

  -- How the loop goes on behind the first subscription
  data Turn (client_id : Str) (first : RealtimeSubscription F)
      (subs : List (RealtimeSubscription F)) (queue : List (Message F)) : Type 0 where
    broken :
        built_for first ≡ raised
        → (run_of client_id (first ∷ subs) queue).0 ≡ false
        → Turn client_id first subs queue
    passed :
        built_for first ≡ skipped
        → run_of client_id (first ∷ subs) queue ≡ run_of client_id subs queue
        → Turn client_id first subs queue
    sent :
        (d : Value F)
        → built_for first ≡ built d
        → run_of client_id (first ∷ subs) queue
          ≡ run_of client_id subs (queue ++ (message_for first d ∷ []))
        → Turn client_id first subs queue

  turn :
      (client_id : Str) (first : RealtimeSubscription F) (subs : List (RealtimeSubscription F))
      (queue : List (Message F)) (b : Built F)
      → built_for first ≡ b
      → Turn client_id first subs queue
  unfolding deliver
  turn client_id first subs queue raised e = broken e (rw (deliver, e) refl)
  turn client_id first subs queue skipped e = passed e (rw (deliver, e) refl)
  turn client_id first subs queue (built d) e = sent d e (rw (deliver, e) refl)

  abbrev all_of : Sessions F → Bool × Sessions F
  all_of = run_all U B S collection_name record_id action record_data collection

  abbrev after_run : Str → RealtimeSession F → RealtimeSession F
  after_run key first = record first {
    response_queue = (run_of key first.subscriptions first.response_queue).1;
  }

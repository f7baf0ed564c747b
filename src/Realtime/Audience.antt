-- ===== src/Realtime/Audience.antt =====
-- What the calls of a subscription manager mean (ppbase/services/realtime_service.py).
use ppbase.Prelude.{
  Str, Unicode, text_eq, contains, List, [], ◌∷◌, Bool, true, false, not, ◌&&◌, ◌||◌, Option, none,
  some, if◌then◌else◌, ◌≡◌, refl, sym, ◌∙◌, Bool-cases, Option-cases, inl, inr,
}
use ppbase.Value.{Value}
use ppbase.Realtime.Topic.{Outcome, rejected, accepted, ParsedRealtimeTopic, parse_realtime_topic}
use ppbase.Realtime.Manager.{
  RealtimeSubscription, RealtimeSession, Sessions, Reply, client_not_found, get_session,
  register_client, change, Request, requested, add_parsed, replace_subscriptions,
  remove_subscription, clear_subscriptions, disconnect_client, has_topic, get_clients_for_topic,
  add_subscription, Call, register, add, replace, remove, clear, disconnect, perform, perform_all,
}
use ppbase.Realtime.View.{
  connected, subscribed, AreDistinct, get_session-set_session, get_session-del_session,
  subscribed-connected, change-subscribed, has_topic-subscribe, has_topic-without,
  get_clients_for_topic-subscribed, AreDistinct-set_session, AreDistinct-del_session,
  AreDistinct-change,
}

-- Who is connected, and who is subscribed to which topic.
pub record Audience : Type 0 where
  pub is_connected : Str → Bool
  pub is_subscribed : Str → Str → Bool

abbrev pub nobody : Audience
nobody = record { is_connected = λ c. false; is_subscribed = λ c t. false }

abbrev pub is_valid : {F : Type 0} → Outcome (ParsedRealtimeTopic F) → Bool
is_valid (rejected _) = false
is_valid (accepted _) = true

-- What the conditions of the operations come to
removed :
    (key x b e : Bool)
    → b ≡ (x && b)
    → (if key then x && (b && not e) else b) ≡ (b && not (key && e))
removed false x true e h = refl
removed false x false e h = refl
removed true true b e h = refl
removed true false b e h = rw h refl

cleared : (key x b : Bool) → (if key then x && false else b) ≡ (not key && b)
cleared false x b = refl
cleared true true b = refl
cleared true false b = refl

added :
    (key x b e : Bool)
    → b ≡ (x && b)
    → (if key then x && (b || e) else b) ≡ (b || (key && x && true && e))
added false x true e h = refl
added false x false e h = refl
added true true b e h = refl
added true false b e h = rw h refl

unchanged : (key x b e : Bool) → b ≡ (b || (key && x && false && e))
unchanged key x true e = refl
unchanged false x false e = refl
unchanged true true false e = refl
unchanged true false false e = refl

module _ {F : Type 0} (U : Unicode) (options_of : Str → Option Str)
    (loads : Str → Option (Value F)) where
  -- What a call changes
  unfoldable pub after : Call F → Audience → Audience
  after (register k) a = record {
    is_connected = λ c. text_eq c k || a.is_connected c;
    is_subscribed = λ c t. not (text_eq c k) && a.is_subscribed c t;
  }
  after (add k r) a = record {
    is_connected = a.is_connected;
    is_subscribed = λ c t.
        a.is_subscribed c t
        || (text_eq c k
            && a.is_connected c
            && is_valid (parse_realtime_topic U options_of loads r.topic)
            && text_eq r.topic t);
  }
  after (replace k subs) a = record {
    is_connected = a.is_connected;
    is_subscribed =
        λ c t. if text_eq c k then a.is_connected c && has_topic t subs else a.is_subscribed c t;
  }
  after (remove k topic) a = record {
    is_connected = a.is_connected;
    is_subscribed = λ c t. a.is_subscribed c t && not (text_eq c k && text_eq topic t);
  }
  after (clear k) a = record {
    is_connected = a.is_connected;
    is_subscribed = λ c t. not (text_eq c k) && a.is_subscribed c t;
  }
  after (disconnect k) a = record {
    is_connected = λ c. not (text_eq c k) && a.is_connected c;
    is_subscribed = λ c t. not (text_eq c k) && a.is_subscribed c t;
  }

  unfoldable pub after_all : List (Call F) → Audience → Audience
  after_all [] a = a
  after_all (call ∷ calls) a = after_all calls (after call a)

  -- The audience is what the sessions show.
  record Shows (a : Audience) (m : Sessions F) : Type 0 where
    distinct : AreDistinct m
    connection : (c : Str) → connected m c ≡ a.is_connected c
    subscription : (c t : Str) → subscribed m c t ≡ a.is_subscribed c t

  register-Shows :
      (k : Str) (a : Audience) (m : Sessions F)
      → Shows a m
      → Shows (after (register k) a) (register_client k m)
  unfolding after register_client has_topic
  register-Shows k a m s = record {
    distinct = AreDistinct-set_session k _ m s.distinct;
    connection = λ c.
        rw (get_session-set_session c k _ m)
          (elim (Bool-cases (text_eq c k)) [ inl e ↦ rw e refl | inr e ↦ rw e (s.connection c) ]);
    subscription = λ c t.
        rw (get_session-set_session c k _ m) (elim (Bool-cases (text_eq c k)) [
          | inl e ↦ rw e refl
          | inr e ↦ rw e (s.subscription c t)
        ]);
  }

  disconnect-Shows :
      (k : Str) (a : Audience) (m : Sessions F)
      → Shows a m
      → Shows (after (disconnect k) a) (disconnect_client k m)
  unfolding after disconnect_client
  disconnect-Shows k a m s = record {
    distinct = AreDistinct-del_session k m s.distinct;
    connection = λ c.
        rw (get_session-del_session c k m)
          (elim (Bool-cases (text_eq c k)) [ inl e ↦ rw e refl | inr e ↦ rw e (s.connection c) ]);
    subscription = λ c t.
        rw (get_session-del_session c k m) (elim (Bool-cases (text_eq c k)) [
          | inl e ↦ rw e refl
          | inr e ↦ rw e (s.subscription c t)
        ]);
  }

  viewed :
      (a : Audience) (m : Sessions F)
      → Shows a m
      → (c t : Str) → a.is_subscribed c t ≡ (a.is_connected c && a.is_subscribed c t)
  viewed a m s c t = rw (← s.connection c, ← s.subscription c t) (subscribed-connected m c t)

  -- A change of one session that decides which topics it has by those it had.
  change-Shows :
      (k : Str) (f : RealtimeSession F → RealtimeSession F) (g : Str → Bool → Bool)
      (missing : Reply) (a a' : Audience) (m : Sessions F)
      → ((t : Str) (s : RealtimeSession F)
          → has_topic t (f s).subscriptions ≡ g t (has_topic t s.subscriptions))
      → ((c : Str) → a'.is_connected c ≡ a.is_connected c)
      → ((c t : Str)
          → (a.is_subscribed c t ≡ (a.is_connected c && a.is_subscribed c t))
          → (if text_eq c k
              then a.is_connected c && g t (a.is_subscribed c t)
              else a.is_subscribed c t)
            ≡ a'.is_subscribed c t)
      → Shows a m
      → Shows a' (change k f missing m).1
  change-Shows k f g missing a a' m h j i s = record {
    distinct = AreDistinct-change k f missing m s.distinct;
    connection =
        λ c. (change-subscribed c k [] f (g []) missing m (h [])).0 ∙ s.connection c ∙ sym (j c);
    subscription = λ c t.
        (change-subscribed c k t f (g t) missing m (h t)).1
        ∙ rw (s.connection c, s.subscription c t) (i c t (viewed a m s c t));
  }

  replace-Shows :
      (k : Str) (subs : List (RealtimeSubscription F)) (a : Audience) (m : Sessions F)
      → Shows a m
      → Shows (after (replace k subs) a) (replace_subscriptions k subs m).1
  unfolding after replace_subscriptions
  replace-Shows k subs a m s =
      change-Shows k _ (λ t b. has_topic t subs) _ a _ m (λ t x. refl) (λ c. refl) (λ c t e. refl) s

  remove-Shows :
      (k topic : Str) (a : Audience) (m : Sessions F)
      → Shows a m
      → Shows (after (remove k topic) a) (remove_subscription k topic m).1
  unfolding after remove_subscription
  remove-Shows k topic a m s =
      change-Shows k _ (λ t b. b && not (text_eq topic t)) _ a _ m
        (λ t x. has_topic-without t topic x.subscriptions) (λ c. refl)
        (λ c t e.
          removed (text_eq c k) (a.is_connected c) (a.is_subscribed c t) (text_eq topic t) e)
        s

  clear-Shows :
      (k : Str) (a : Audience) (m : Sessions F)
      → Shows a m
      → Shows (after (clear k) a) (clear_subscriptions k m).1
  unfolding after clear_subscriptions has_topic
  clear-Shows k a m s =
      change-Shows k _ (λ t b. false) _ a _ m (λ t x. refl) (λ c. refl)
        (λ c t e. cleared (text_eq c k) (a.is_connected c) (a.is_subscribed c t)) s

  -- With the outcome of the parser
  add-Shows :
      (k : Str) (r : Request F) (o : Outcome (ParsedRealtimeTopic F)) (a : Audience)
      (m : Sessions F)
      → Shows a m
      → Shows
          (record {
            is_connected = a.is_connected;
            is_subscribed = λ c t.
                a.is_subscribed c t
                || (text_eq c k && a.is_connected c && is_valid o && text_eq r.topic t);
          })
          (elim (get_session k m) as (λ _. Reply × Sessions F) [
            | none ↦ (client_not_found, m)
            | some session ↦ add_parsed k r o session m
          ]).1
  add-Shows k r (rejected fault) a m s = record {
    distinct = elim (Option-cases (get_session k m)) [
      | inl e ↦ rw e s.distinct
      | inr (x, e) ↦ rw e s.distinct
    ];
    connection = λ c. elim (Option-cases (get_session k m)) [
      | inl e ↦ rw e (s.connection c)
      | inr (x, e) ↦ rw e (s.connection c)
    ];
    subscription = λ c t. elim (Option-cases (get_session k m)) [
      | inl e ↦ rw e (
          s.subscription c t
          ∙ unchanged (text_eq c k) (a.is_connected c) (a.is_subscribed c t) (text_eq r.topic t))
      | inr (x, e) ↦ rw e (
          s.subscription c t
          ∙ unchanged (text_eq c k) (a.is_connected c) (a.is_subscribed c t) (text_eq r.topic t))
    ];
  }
  add-Shows k r (accepted p) a m s =
      change-Shows k _ (λ t b. b || text_eq r.topic t) client_not_found a _ m
        (λ t x. has_topic-subscribe t (requested r p) x.subscriptions) (λ c. refl)
        (λ c t e.
          added (text_eq c k) (a.is_connected c) (a.is_subscribed c t) (text_eq r.topic t) e)
        s

  perform-Shows :
      (call : Call F) (a : Audience) (m : Sessions F)
      → Shows a m
      → Shows (after call a) (perform U options_of loads call m).1
  unfolding perform after add_subscription
  perform-Shows (register k) a m s = register-Shows k a m s
  perform-Shows (add k r) a m s =
      add-Shows k r (parse_realtime_topic U options_of loads r.topic) a m s
  perform-Shows (replace k subs) a m s = replace-Shows k subs a m s
  perform-Shows (remove k topic) a m s = remove-Shows k topic a m s
  perform-Shows (clear k) a m s = clear-Shows k a m s
  perform-Shows (disconnect k) a m s = disconnect-Shows k a m s

  perform_all-Shows :
      (calls : List (Call F)) (a : Audience) (m : Sessions F)
      → Shows a m
      → Shows (after_all calls a) (perform_all U options_of loads calls m)
  unfolding perform_all after_all
  perform_all-Shows [] a m s = s
  perform_all-Shows (call ∷ calls) a m s =
      perform_all-Shows calls (after call a) (perform U options_of loads call m).1
        (perform-Shows call a m s)

-- Whatever calls a manager has had since it was made, the clients that it lists for a topic are those
-- that the meaning of the calls says are subscribed to it, and none of them is disconnected.
pub perform_all-after_all :
    {F : Type 0} (U : Unicode) (options_of : Str → Option Str) (loads : Str → Option (Value F))
    (calls : List (Call F)) (client_id topic : Str)
    → (contains (get_clients_for_topic topic (perform_all U options_of loads calls [])) client_id
        ≡ (after_all U options_of loads calls nobody).is_subscribed client_id topic)
      × (connected (perform_all U options_of loads calls []) client_id
          ≡ (after_all U options_of loads calls nobody).is_connected client_id)
      × (contains (get_clients_for_topic topic (perform_all U options_of loads calls [])) client_id
          ≡ (connected (perform_all U options_of loads calls []) client_id
              && contains
                  (get_clients_for_topic topic (perform_all U options_of loads calls []))
                  client_id))
unfolding get_session AreDistinct
perform_all-after_all U options_of loads calls client_id topic =
    let m = perform_all U options_of loads calls [] in
    let s =
      perform_all-Shows U options_of loads calls nobody []
        (record { distinct = tt; connection = λ c. refl; subscription = λ c t. refl }) in
    let listed = get_clients_for_topic-subscribed topic client_id m s.distinct in
    (
      listed ∙ s.subscription client_id topic,
      s.connection client_id,
      rw listed (subscribed-connected m client_id topic),
    )

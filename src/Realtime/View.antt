-- ===== src/Realtime/View.antt =====
-- Which client is subscribed to which topic (ppbase/services/realtime_service.py).
use ppbase.Prelude.{
  Str, text_eq, text_eq_refl, eq_of_text_eq, contains, List, [], ◌∷◌, Bool, true, false, not, ◌&&◌,
  ◌||◌, Option, none, some, if◌then◌else◌, ◌≡◌, refl, sym, ◌∙◌, Bool-cases, Option-cases, inl, inr,
}
use ppbase.Realtime.Manager.{
  RealtimeSubscription, RealtimeSession, Sessions, Reply, get_session, set_session, del_session,
  change, subscribe, without, has_topic, get_clients_for_topic,
}

text_neq : (a b k : Str) → text_eq a k ≡ true → text_eq b k ≡ false → text_eq a b ≡ false
text_neq a b k h e = elim (Bool-cases (text_eq a b)) [
  | inr n ↦ n
  | inl n ↦ absurd (cc (eq_of_text_eq a b n, h, e))
]

text_neq' : (a b : Str) → text_eq b a ≡ false → text_eq a b ≡ false
text_neq' a b e = text_neq a b a (text_eq_refl a) e

or_false : (b : Bool) → b ≡ (b || false)
or_false true = refl
or_false false = refl

and_false_right : (b : Bool) → (b && false) ≡ false
and_false_right true = refl
and_false_right false = refl

module _ {F : Type 0} where
  abbrev pub topic_of : Str → Option (RealtimeSession F) → Bool
  topic_of topic none = false
  topic_of topic (some session) = has_topic topic session.subscriptions

  abbrev pub is_some : Option (RealtimeSession F) → Bool
  is_some none = false
  is_some (some _) = true

  -- What the sessions say to the outside: who is connected, and who is subscribed to what.
  abbrev pub connected : Sessions F → Str → Bool
  connected sessions client_id = is_some (get_session client_id sessions)

  abbrev pub subscribed : Sessions F → Str → Str → Bool
  subscribed sessions client_id topic = topic_of topic (get_session client_id sessions)

  -- No key stands twice.
  unfoldable pub AreDistinct : Sessions F → Type 0
  AreDistinct [] = Unit
  AreDistinct ((key, session) ∷ sessions) = (get_session key sessions ≡ none) × AreDistinct sessions

  pub get_session-set_session :
      (c k : Str) (new : RealtimeSession F) (m : Sessions F)
      → get_session c (set_session k new m) ≡ (if text_eq c k then some new else get_session c m)
  unfolding get_session set_session
  get_session-set_session c k new [] = refl
  get_session-set_session c k new ((key, s) ∷ m) = elim (Bool-cases (text_eq k key)) [
    | inl e ↦
        let same = eq_of_text_eq k key e in
        rw (e, same) (elim (Bool-cases (text_eq c key)) [ inl f ↦ rw f refl | inr f ↦ rw f refl ])
    | inr e ↦
        rw (e, get_session-set_session c k new m)
          (elim (Bool-cases (text_eq c key)) [
            | inr f ↦ rw f refl
            | inl f ↦ rw (f, text_neq c k key f e) refl
          ])
  ]

  pub get_session-del_session :
      (c k : Str) (m : Sessions F)
      → get_session c (del_session k m) ≡ (if text_eq c k then none else get_session c m)
  unfolding get_session del_session
  get_session-del_session c k [] = elim (Bool-cases (text_eq c k)) [
    | inl e ↦ rw e refl
    | inr e ↦ rw e refl
  ]
  get_session-del_session c k ((key, s) ∷ m) = elim (Bool-cases (text_eq k key)) [
    | inl e ↦
        let same = eq_of_text_eq k key e in
        rw (e, get_session-del_session c k m, same)
          (elim (Bool-cases (text_eq c key)) [ inl f ↦ rw f refl | inr f ↦ rw f refl ])
    | inr e ↦
        rw (e, get_session-del_session c k m)
          (elim (Bool-cases (text_eq c key)) [
            | inr f ↦ rw f refl
            | inl f ↦ rw (f, text_neq c k key f e) refl
          ])
  ]

  changed :
      (RealtimeSession F → RealtimeSession F)
      → Option (RealtimeSession F)
      → Option (RealtimeSession F)
  changed f none = none
  changed f (some session) = some (f session)

  get_session-change :
      (c k : Str) (f : RealtimeSession F → RealtimeSession F) (missing : Reply) (m : Sessions F)
      → get_session c (change k f missing m).1
        ≡ (if text_eq c k then changed f (get_session k m) else get_session c m)
  unfolding changed
  get_session-change c k f missing m = elim (Option-cases (get_session k m)) [
    | inl e ↦
        rw (change, e)
          (elim (Bool-cases (text_eq c k)) [
            | inl h ↦ let same = eq_of_text_eq c k h in rw (h, same) e
            | inr h ↦ rw h refl
          ])
    | inr (s, e) ↦ rw (change, e, get_session-set_session c k (f s) m) refl
  ]

  pub subscribed-connected :
      (m : Sessions F) (c t : Str) → subscribed m c t ≡ (connected m c && subscribed m c t)
  subscribed-connected m c t = elim (Option-cases (get_session c m)) [
    | inl e ↦ rw e refl
    | inr (s, e) ↦ rw e refl
  ]

  -- A change of a session that decides whether it has a topic by whether it had it.
  pub change-subscribed :
      (c k t : Str) (f : RealtimeSession F → RealtimeSession F) (g : Bool → Bool) (missing : Reply)
      (m : Sessions F)
      → ((s : RealtimeSession F)
          → has_topic t (f s).subscriptions ≡ g (has_topic t s.subscriptions))
      → (connected (change k f missing m).1 c ≡ connected m c)
        × (subscribed (change k f missing m).1 c t
            ≡ (if text_eq c k then connected m c && g (subscribed m c t) else subscribed m c t))
  unfolding changed
  change-subscribed c k t f g missing m h = elim (Bool-cases (text_eq c k)) [
    | inr e ↦ rw (get_session-change c k f missing m, e) (refl, refl)
    | inl e ↦
        let same = eq_of_text_eq c k e in
        elim (Option-cases (get_session k m)) [
          | inl n ↦ rw (get_session-change c k f missing m, e, same, n) (refl, refl)
          | inr (s, n) ↦ rw (get_session-change c k f missing m, e, same, n) (refl, h s)
        ]
  ]

  pub has_topic-subscribe :
      (t : Str) (new : RealtimeSubscription F) (subs : List (RealtimeSubscription F))
      → has_topic t (subscribe new subs) ≡ (has_topic t subs || text_eq new.topic t)
  unfolding has_topic subscribe
  has_topic-subscribe t new [] = elim (Bool-cases (text_eq new.topic t)) [
    | inl e ↦ rw e refl
    | inr e ↦ rw e refl
  ]
  has_topic-subscribe t new (sub ∷ subs) = elim (Bool-cases (text_eq sub.topic new.topic)) [
    | inr e ↦
        rw (e, has_topic-subscribe t new subs)
          (elim (Bool-cases (text_eq sub.topic t)) [ inl h ↦ rw h refl | inr h ↦ rw h refl ])
    | inl e ↦
        let same = eq_of_text_eq sub.topic new.topic e in
        rw (e, same)
          (elim (Bool-cases (text_eq new.topic t)) [
            | inl h ↦ rw h refl
            | inr h ↦ rw h (or_false (has_topic t subs))
          ])
  ]

  pub has_topic-without :
      (t topic : Str) (subs : List (RealtimeSubscription F))
      → has_topic t (without topic subs) ≡ (has_topic t subs && not (text_eq topic t))
  unfolding has_topic without
  has_topic-without t topic [] = refl
  has_topic-without t topic (sub ∷ subs) = elim (Bool-cases (text_eq sub.topic topic)) [
    | inl e ↦
        let same = eq_of_text_eq sub.topic topic e in
        rw (e, same, has_topic-without t topic subs)
          (elim (Bool-cases (text_eq topic t)) [
            | inl h ↦ rw h (and_false_right (has_topic t subs))
            | inr h ↦ rw h refl
          ])
    | inr e ↦
        rw (e, has_topic-without t topic subs)
          (elim (Bool-cases (text_eq sub.topic t)) [
            | inr h ↦ rw h refl
            | inl h ↦
                let same = eq_of_text_eq sub.topic t h in
                rw (h, ← same, text_neq' topic sub.topic e) refl
          ])
  ]

  pub get_clients_for_topic-subscribed :
      (topic c : Str) (m : Sessions F)
      → AreDistinct m
      → contains (get_clients_for_topic topic m) c ≡ subscribed m c topic
  unfolding get_clients_for_topic get_session AreDistinct contains
  get_clients_for_topic-subscribed topic c [] d = refl
  get_clients_for_topic-subscribed topic c ((key, s) ∷ m) (fresh, d) =
      let later = get_clients_for_topic-subscribed topic c m d in
      elim (Bool-cases (text_eq c key)) [
        | inr e ↦ elim (Bool-cases (has_topic topic s.subscriptions)) [
          | inl h ↦ rw (h, e) later
          | inr h ↦ rw (h, e) later
        ]
        | inl e ↦ elim (Bool-cases (has_topic topic s.subscriptions)) [
          | inl h ↦ rw (h, e) (sym h)
          | inr h ↦ let same = eq_of_text_eq c key e in rw (h, e) (later ∙ rw (same, fresh) (sym h))
        ]
      ]

  pub AreDistinct-set_session :
      (k : Str) (new : RealtimeSession F) (m : Sessions F)
      → AreDistinct m
      → AreDistinct (set_session k new m)
  unfolding AreDistinct set_session get_session
  AreDistinct-set_session k new [] d = (refl, tt)
  AreDistinct-set_session k new ((key, s) ∷ m) (fresh, d) = elim (Bool-cases (text_eq k key)) [
    | inl e ↦ rw e (fresh, d)
    | inr e ↦ rw e (
      get_session-set_session key k new m ∙ rw (text_neq' key k e) fresh,
      AreDistinct-set_session k new m d,
    )
  ]

  pub AreDistinct-del_session :
      (k : Str) (m : Sessions F) → AreDistinct m → AreDistinct (del_session k m)
  unfolding AreDistinct del_session
  AreDistinct-del_session k [] d = tt
  AreDistinct-del_session k ((key, s) ∷ m) (fresh, d) = elim (Bool-cases (text_eq k key)) [
    | inl e ↦ rw e (AreDistinct-del_session k m d)
    | inr e ↦ rw e (
      get_session-del_session key k m ∙ rw (text_neq' key k e) fresh,
      AreDistinct-del_session k m d,
    )
  ]

  pub AreDistinct-change :
      (k : Str) (f : RealtimeSession F → RealtimeSession F) (missing : Reply) (m : Sessions F)
      → AreDistinct m
      → AreDistinct (change k f missing m).1
  AreDistinct-change k f missing m d = elim (Option-cases (get_session k m)) [
    | inl e ↦ rw (change, e) d
    | inr (s, e) ↦ rw (change, e) (AreDistinct-set_session k (f s) m d)
  ]

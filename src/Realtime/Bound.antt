-- ===== src/Realtime/Bound.antt =====
-- The identity that a realtime session is bound to (ppbase/api/realtime.py)
use ppbase.Prelude.{
  Str, Unicode, text_eq, text_eq_refl, eq_of_text_eq, strip, List, [], ◌∷◌, Bool, true, false, not,
  ◌&&◌, Option, none, some, if◌then◌else◌, ◌≡◌, refl, sym, ap, ◌∙◌, Bool-cases, Option-cases, inl,
  inr, ◌⊎◌,
}
use ppbase.Value.{Value, null, bool, int, float, text, list, dict, Fields, Builtins}
use ppbase.Realtime.Manager.{
  RealtimeSubscription, RealtimeSession, Sessions, Reply, done, client_not_found, invalid,
  get_session, set_session, change, replace_subscriptions,
}
use ppbase.Realtime.View.{get_session-set_session}
use ppbase.Realtime.Subscribe.{
  same_key, auth_key_of, items_of, bound_session, replaced, answer, parse_subscriptions, for_client,
  for_id, realtime_subscribe,
}

module _ {F : Type 0} where
  -- What a request leaves of a bound session, for the identity of the request
  pub record StaysBound (key : Option Str) (session : RealtimeSession F)
      (found : Option (RealtimeSession F)) : Type 0 where
    pub session' : RealtimeSession F
    pub still_there : found ≡ some session'
    pub same : session'.auth_key ≡ session.auth_key
    pub is_set : session'.auth_key_set ≡ true
    pub owned : (session'.subscriptions ≡ session.subscriptions) ⊎ (session.auth_key ≡ key)

  untouched :
      (key : Option Str) (session : RealtimeSession F) (found : Option (RealtimeSession F))
      → session.auth_key_set ≡ true
      → found ≡ some session
      → StaysBound key session found
  untouched key session found h e = record {
    session' = session;
    still_there = e;
    same = refl;
    is_set = h;
    owned = inl refl;
  }

some-injective : {A : Type 0} {x y : A} → some x ≡ some y → x ≡ y
some-injective h = cc

put_back :
    {F : Type 0} (c k : Str) (old session : RealtimeSession F) (sessions : Sessions F)
    → get_session c sessions ≡ some session
    → (text_eq c k ≡ true → old ≡ session)
    → (if text_eq c k then some old else get_session c sessions) ≡ some session
put_back c k old session sessions e same = elim (Bool-cases (text_eq c k)) [
  | inl n ↦ rw (n, same n) refl
  | inr n ↦ rw n e
]

eq_of_same_key : (a b : Option Str) → same_key a b ≡ true → a ≡ b
eq_of_same_key none none h = refl
eq_of_same_key none (some b) h = cc
eq_of_same_key (some a) none h = cc
eq_of_same_key (some a) (some b) h = ap (λ (s : Str). some s) (eq_of_text_eq a b h)

not_taken : {A : Type 0} (b : Bool) (x y : A) → b ≡ true → (if not b then x else y) ≡ y
not_taken true x y h = refl
not_taken false x y h = cc

agrees : (b c : Bool) → b ≡ true → (b && not c) ≡ false → c ≡ true
agrees true true h k = refl
agrees true false h k = cc
agrees false c h k = cc

module _ {F : Type 0} (U : Unicode) (B : Builtins F) (options_of : Str → Option Str)
    (loads : Str → Option (Value F)) (resolve_collection : Str → Option Bool)
    (authorization : Option Str) (auth : Option (Fields F)) where
  abbrev key : Option Str
  key = auth_key_of U B auth

  answer-sessions :
      (r : Reply × Sessions F)
      → (answer U B options_of loads resolve_collection authorization auth r).1 ≡ r.1
  answer-sessions (done, sessions) = refl
  answer-sessions (client_not_found, sessions) = refl
  answer-sessions (invalid _, sessions) = refl

  abbrev replaces : Str → Option (List Str) → Sessions F → Sessions F
  replaces k subs sessions =
      (replaced U B options_of loads resolve_collection authorization auth k subs sessions).1

  replace-StaysBound :
      (c k : Str) (subs : List (RealtimeSubscription F)) (old session : RealtimeSession F)
      (sessions : Sessions F)
      → session.auth_key_set ≡ true
      → get_session c sessions ≡ some session
      → get_session k sessions ≡ some old
      → (text_eq c k ≡ true → session.auth_key ≡ key)
      → StaysBound key session (get_session c (replace_subscriptions k subs sessions).1)
  unfolding replace_subscriptions
  replace-StaysBound c k subs old session sessions h e found owner =
      rw (change, found, get_session-set_session c k (record old { subscriptions = subs }) sessions)
        (elim (Bool-cases (text_eq c k)) [
          | inr n ↦ rw n (untouched key session (get_session c sessions) h e)
          | inl n ↦
              let one = eq_of_text_eq c k n in
              let same : old ≡ session =
                some-injective
                  (sym found ∙ sym (ap (λ (x : Str). get_session x sessions) one) ∙ e) in
              rw n (record {
                session' = record old { subscriptions = subs };
                still_there = refl;
                same = λ i. (same i).auth_key;
                is_set = (λ i. (same i).auth_key_set) ∙ h;
                owned = inr (owner n);
              })
        ])

  -- A session is put back, and its subscriptions may be replaced.
  replaced-StaysBound :
      (c k : Str) (subs : Option (List Str)) (old session : RealtimeSession F)
      (sessions : Sessions F)
      → session.auth_key_set ≡ true
      → get_session c sessions ≡ some session
      → (text_eq c k ≡ true → (old ≡ session) × (session.auth_key ≡ key))
      → StaysBound key session (get_session c (replaces k subs (set_session k old sessions)))
  replaced-StaysBound c k none old session sessions h e owner = untouched key session _ h (
      get_session-set_session c k old sessions
      ∙ put_back c k old session sessions e (λ n. (owner n).0))
  replaced-StaysBound c k (some names) old session sessions h e owner =
      let subs =
        parse_subscriptions U B options_of loads resolve_collection authorization auth names in
      let kept : get_session c (set_session k old sessions) ≡ some session =
        get_session-set_session c k old sessions
        ∙ put_back c k old session sessions e (λ n. (owner n).0) in
      rw (answer-sessions (replace_subscriptions k subs (set_session k old sessions))) (
        replace-StaysBound c k subs old session (set_session k old sessions) h kept
          (get_session-set_session k k old sessions ∙ rw (text_eq_refl k) refl) (λ n. (owner n).1))

  abbrev session_bound : RealtimeSession F → RealtimeSession F
  session_bound = bound_session U B options_of loads resolve_collection authorization auth

  put_in :
      (found session : RealtimeSession F)
      → found ≡ session
      → found.auth_key_set ≡ true
      → session_bound found ≡ session
  put_in found session same h = not_taken found.auth_key_set _ found h ∙ same

  -- The session of the request is the bound one, where they have one identifier.
  owner_lem :
      (c k : Str) (found session : RealtimeSession F) (sessions : Sessions F)
      → session.auth_key_set ≡ true
      → get_session c sessions ≡ some session
      → get_session k sessions ≡ some found
      → (found.auth_key_set && not (same_key found.auth_key key)) ≡ false
      → text_eq c k ≡ true
      → (session_bound found ≡ session) × (session.auth_key ≡ key)
  owner_lem c k found session sessions h e there free n =
      let one = eq_of_text_eq c k n in
      let same : found ≡ session =
        some-injective (sym there ∙ sym (ap (λ (x : Str). get_session x sessions) one) ∙ e) in
      let set : found.auth_key_set ≡ true = (λ i. (same i).auth_key_set) ∙ h in
      (
        put_in found session same set,
        sym (λ i. (same i).auth_key)
            ∙ eq_of_same_key found.auth_key key
                (agrees found.auth_key_set (same_key found.auth_key key) set free),
      )

  for_client-StaysBound :
      (c k : Str) (subscriptions : Value F) (session : RealtimeSession F) (sessions : Sessions F)
      → session.auth_key_set ≡ true
      → get_session c sessions ≡ some session
      → StaysBound key session (
          get_session c
            (for_client U B options_of loads resolve_collection authorization auth k subscriptions
              sessions).1)
  for_client-StaysBound c [] subscriptions session sessions h e = untouched key session _ h e
  for_client-StaysBound c (d ∷ k) subscriptions session sessions h e =
      elim (Option-cases (get_session (d ∷ k) sessions)) [
        | inl n ↦ rw (for_client, n) (untouched key session _ h e)
        | inr (found, n) ↦
            elim (Bool-cases (found.auth_key_set && not (same_key found.auth_key key))) [
              | inl b ↦ rw (for_client, n, b) (untouched key session _ h e)
              | inr b ↦
                  rw (for_client, n, b)
                    (replaced-StaysBound c (d ∷ k) (items_of U B subscriptions)
                      (session_bound found) session sessions h e
                      (owner_lem c (d ∷ k) found session sessions h e n b))
            ]
      ]

  for_id-StaysBound :
      (c : Str) (id subscriptions : Value F) (session : RealtimeSession F) (sessions : Sessions F)
      → session.auth_key_set ≡ true
      → get_session c sessions ≡ some session
      → StaysBound key session (
          get_session c
            (for_id U B options_of loads resolve_collection authorization auth id subscriptions
              sessions).1)
  for_id-StaysBound c (text k) subscriptions session sessions h e =
      for_client-StaysBound c (strip U.is_space k) subscriptions session sessions h e
  for_id-StaysBound c null subscriptions session sessions h e = untouched key session _ h e
  for_id-StaysBound c (bool _) subscriptions session sessions h e = untouched key session _ h e
  for_id-StaysBound c (int _) subscriptions session sessions h e = untouched key session _ h e
  for_id-StaysBound c (float _) subscriptions session sessions h e = untouched key session _ h e
  for_id-StaysBound c (list _) subscriptions session sessions h e = untouched key session _ h e
  for_id-StaysBound c (dict _) subscriptions session sessions h e = untouched key session _ h e

  -- Conditions: a client is connected, its session is bound to an identity, and some request to
  -- subscribe is made, for this or another client. Then the session is still there and bound to the
  -- same identity, and its subscriptions are the same unless the request has that identity.
  pub realtime_subscribe-StaysBound :
      (client_id : Str) (body : Option (Value F)) (session : RealtimeSession F)
      (sessions : Sessions F)
      → session.auth_key_set ≡ true
      → get_session client_id sessions ≡ some session
      → StaysBound (auth_key_of U B auth) session (
          get_session client_id
            (realtime_subscribe U B options_of loads resolve_collection authorization auth body
              sessions).1)
  unfolding realtime_subscribe
  realtime_subscribe-StaysBound c none session sessions h e = untouched key session _ h e
  realtime_subscribe-StaysBound c (some (dict body)) session sessions h e =
      for_id-StaysBound c _ _ session sessions h e
  realtime_subscribe-StaysBound c (some null) session sessions h e = untouched key session _ h e
  realtime_subscribe-StaysBound c (some (bool _)) session sessions h e = untouched key session _ h e
  realtime_subscribe-StaysBound c (some (int _)) session sessions h e = untouched key session _ h e
  realtime_subscribe-StaysBound c (some (float _)) session sessions h e =
      untouched key session _ h e
  realtime_subscribe-StaysBound c (some (text _)) session sessions h e = untouched key session _ h e
  realtime_subscribe-StaysBound c (some (list _)) session sessions h e = untouched key session _ h e

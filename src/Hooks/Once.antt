-- ===== src/Hooks/Once.antt =====
-- No handler of a chain is entered twice (ppbase/ext/hooks.py, ppbase/ext/events.py).
use ppbase.Prelude.{
  Str, ℕ, suc, List, [], ◌∷◌, ◌++◌, append_assoc, append-nil, take, Bool, true, false, not, Option,
  none, some, if◌then◌else◌, ◌≡◌, refl, sym, ap, ◌∙◌, Bool-cases, inl, inr, ◌⊎◌,
}
use ppbase.Hooks.Chain.{
  Outcome, unavailable, called_twice, Program, finish, call_next, Entry, handler_of,
  default_handler, Event, enter, set_next_handler, run, dispatch,
}

-- The entries of a chain that goes to its end
unfoldable pub entries :
    {V E : Type 0} → List (Str × Program V E) → Option (Program V E) → List Entry
entries [] none = []
entries [] (some _) = default_handler ∷ []
entries ((id, _) ∷ bindings) default = handler_of id ∷ entries bindings default

-- `next` raises.
abbrev pub IsSpent : Event → Type 0
IsSpent event = (event.next_handler ≡ false) ⊎ (event.next_called ≡ true)

-- What a step of a chain does: it enters some of the first entries that are left.
pub record Enters (left : List Entry) (before after : Event) : Type 0 where
  pub count : ℕ
  pub entered : after.entered ≡ before.entered ++ take count left

first_step :
    {A : Type 0} (b c : Bool) (x y z : A)
    → b ≡ true
    → c ≡ false
    → (if not b then x else if c then y else z) ≡ z
first_step true false x y z h k = refl
first_step true true x y z h k = cc
first_step false c x y z h k = cc

module _ {V E : Type 0} where
  -- What `next` promises where it is called the first time
  pub record IsNext (left : List Entry) (next : Event → Outcome V E × Event) : Type 0 where
    pub enters : (event : Event) → IsSpent event → Enters left event (next event).1
    pub spends : (event : Event) → IsSpent event → IsSpent (next event).1

  -- One step of a handler
  run_spent :
      (next : Event → Outcome V E × Event) (go_on : Outcome V E → Program V E) (event : Event)
      → IsSpent event
      → (outcome : Outcome V E) × (run next (call_next go_on) event
          ≡ run next (go_on outcome) event)
  unfolding run
  run_spent next go_on event (inl h) = (unavailable, rw (run, h) refl)
  run_spent next go_on event (inr h) = elim (Bool-cases event.next_handler) [
    | inl k ↦ (called_twice, rw (run, h, k) refl)
    | inr k ↦ (unavailable, rw (run, k) refl)
  ]

  spent-kept :
      (next : Event → Outcome V E × Event) (program : Program V E) (event : Event)
      → IsSpent event
      → (run next program event).1 ≡ event
  unfolding run
  spent-kept next (finish outcome) event h = refl
  spent-kept next (call_next go_on) event h =
      let (outcome, e) = run_spent next go_on event h in
      rw e (spent-kept next (go_on outcome) event h)

  unchanged :
      (left : List Entry) (next : Event → Outcome V E × Event) (program : Program V E)
      (event : Event)
      → IsSpent event
      → Enters left event (run next program event).1
  unchanged left next program event h = record {
    count = 0;
    entered =
        ap (λ (e : Event). e.entered) (spent-kept next program event h)
        ∙ sym (append-nil event.entered);
  }

  run-Enters :
      (left : List Entry) (next : Event → Outcome V E × Event) (program : Program V E)
      (event : Event)
      → IsNext left next
      → Enters left event (run next program event).1
  unfolding run
  run-Enters left next (finish outcome) event n = record {
    count = 0;
    entered = sym (append-nil event.entered);
  }
  run-Enters left next (call_next go_on) event n = elim (Bool-cases event.next_handler) [
    | inr k ↦ unchanged left next (call_next go_on) event (inl k)
    | inl k ↦ elim (Bool-cases event.next_called) [
      | inl h ↦ unchanged left next (call_next go_on) event (inr h)
      | inr h ↦
          let called : Event = record event { next_called = true } in
          let first = n.enters called (inr refl) in
          record {
            count = first.count;
            entered =
                ap (λ (o : Outcome V E × Event). o.1.entered)
                  (first_step event.next_handler event.next_called _ _ _ k h)
                ∙ ap (λ (e : Event). e.entered)
                    (spent-kept next (go_on (next called).0) (next called).1
                      (n.spends called (inr refl)))
                ∙ first.entered;
          }
    ]
  ]

  abbrev no_next : Event → Outcome V E × Event
  no_next event = (unavailable, event)

  defaulted :
      (default : Program V E) (event : Event)
      → IsSpent event
      → (run no_next default (enter default_handler event)).1 ≡ enter default_handler event
  defaulted default event h = spent-kept no_next default (enter default_handler event) h

  module _ (no_value : V) where
    pub dispatch-IsNext :
        (default : Option (Program V E)) (bindings : List (Str × Program V E))
        → IsNext (entries bindings default) (dispatch no_value default bindings)
    unfolding dispatch entries
    dispatch-IsNext none [] = record {
      enters = λ event h. record { count = 0; entered = sym (append-nil event.entered) };
      spends = λ event h. h;
    }
    dispatch-IsNext (some default) [] = record {
      enters = λ event h. record {
        count = 1;
        entered = ap (λ (e : Event). e.entered) (defaulted default event h);
      };
      spends = λ event h. rw (defaulted default event h) h;
    }
    dispatch-IsNext default ((id, handler) ∷ bindings) = record {
      enters = λ event h.
          (let later =
              run-Enters (entries bindings default) (dispatch no_value default bindings) handler
                (enter (handler_of id) (set_next_handler event))
                (dispatch-IsNext default bindings) in
            record {
              count = suc later.count;
              entered =
                  later.entered
                  ∙ append_assoc event.entered (handler_of id ∷ [])
                      (take later.count (entries bindings default));
            });
      spends = λ event h. inl refl;
    }

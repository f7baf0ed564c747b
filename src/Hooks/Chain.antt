-- ===== src/Hooks/Chain.antt =====
-- `run_hook_chain` (ppbase/ext/hooks.py) and `HookEvent.next` (ppbase/ext/events.py). A handler is what
-- it does to the chain: it ends, or it calls `next` and goes on with what comes back.
use ppbase.Prelude.{
  Str, List, [], ◌∷◌, ◌++◌, Bool, true, false, not, Option, none, some, if◌then◌else◌,
}

-- The values that handlers return, and the exceptions of their own
module _ (V E : Type 0) where
  pub data Outcome : Type 0 where
    returned : V → Outcome
    -- The `RuntimeError`s of `next`, and another exception
    unavailable called_twice : Outcome
    failed : E → Outcome

  pub data Program : Type 0 where
    finish : Outcome → Program
    call_next : (Outcome → Program) → Program

-- What is entered: a handler or the default handler
pub data Entry : Type 0 where
  handler_of : Str → Entry
  default_handler : Entry

-- `_next_handler` is there or not: a handler that runs finds its own or none, since the handlers
-- behind it clear theirs. The entries are those of the whole chain.
pub record Event : Type 0 where
  pub next_handler : Bool
  pub next_called : Bool
  pub entered : List Entry

abbrev pub enter : Entry → Event → Event
enter entry event = record event { entered = event.entered ++ (entry ∷ []) }

abbrev pub set_next_handler : Event → Event
set_next_handler event = record event { next_handler = true; next_called = false }

abbrev pub clear_next_handler : Event → Event
clear_next_handler event = record event { next_handler = false; next_called = false }

abbrev pub new_event : Event
new_event = record { next_handler = false; next_called = false; entered = [] }

module _ {V E : Type 0} where
  -- A handler, for what `_next` does
  unfoldable pub run : (Event → Outcome V E × Event) → Program V E → Event → Outcome V E × Event
  run next (finish outcome) event = (outcome, event)
  run next (call_next go_on) event =
      let (outcome, later) = next (record event { next_called = true }) in
      let at_end = run next (go_on unavailable) event in
      let again = run next (go_on called_twice) event in
      let continued = run next (go_on outcome) later in
      if not event.next_handler then at_end else if event.next_called then again else continued

  -- The handlers with their identifiers
  module _ (no_value : V) where
    unfoldable pub dispatch :
        Option (Program V E) → List (Str × Program V E) → Event → Outcome V E × Event
    dispatch none [] event = (returned no_value, event)
    dispatch (some default) [] event =
        run (λ later. (unavailable, later)) default (enter default_handler event)
    dispatch default ((id, handler) ∷ bindings) event =
        let (outcome, later) =
          run (dispatch default bindings) handler
            (enter (handler_of id) (set_next_handler event)) in
        (outcome, clear_next_handler later)

    unfoldable pub run_hook_chain :
        List (Str × Program V E) → Option (Program V E) → Outcome V E × Event
    run_hook_chain bindings default = dispatch default bindings new_event

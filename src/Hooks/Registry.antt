-- ===== src/Hooks/Registry.antt =====
-- `HookBinding` and `Hook` (ppbase/ext/hooks.py)
use ppbase.Prelude.{
  Str, text_eq, ℕ, ◌+◌, ◌==◌, leb, ltb, List, [], ◌∷◌, ◌++◌, Bool, true, false, not, ◌&&◌, ◌||◌,
  Option, none, some, if◌then◌else◌, map,
}
use ppbase.Value.{ℤ, pos, negsuc}
use ppbase.Hooks.Chain.{Outcome, Program, Event, run_hook_chain}

-- `a > b`
abbrev pub above : ℤ → ℤ → Bool
above (pos m) (pos n) = ltb n m
above (pos m) (negsuc n) = true
above (negsuc m) (pos n) = false
above (negsuc m) (negsuc n) = ltb m n

abbrev is_zero : ℤ → Bool
is_zero (pos n) = n == 0
is_zero (negsuc n) = false

-- The data of the events
module _ (X V E : Type 0) where
  pub record HookBinding : Type 0 where
    pub id : Str
    pub handler : X → Program V E
    pub priority : ℤ
    pub order : ℕ
    pub predicate : Option (X → Bool)

  -- `_bindings` in the order of the dictionary
  pub record Hook : Type 0 where
    pub name : Str
    pub bindings : List HookBinding
    pub next_order : ℕ
    pub next_id : ℕ

  -- What `bind` is called with: a function or a binding
  pub data Handler : Type 0 where
    function : (X → Program V E) → Handler
    binding : HookBinding → Handler

abbrev holds : {X : Type 0} → Option (X → Bool) → X → Bool
holds none event = true
holds (some predicate) event = predicate event

abbrev or_predicate : {X : Type 0} → Option (X → Bool) → Option (X → Bool) → Option (X → Bool)
or_predicate none old = old
or_predicate (some predicate) old = some predicate

abbrev or_id : Option Str → Str → Str
or_id none old = old
or_id (some id) old = id

module _ {X V E : Type 0} where
  abbrev pub matches : HookBinding X V E → X → Bool
  matches b event = holds b.predicate event

  -- `self._bindings[binding.id] = binding`
  unfoldable pub set_binding :
      HookBinding X V E → List (HookBinding X V E) → List (HookBinding X V E)
  set_binding new [] = new ∷ []
  set_binding new (b ∷ bindings) =
      let later = set_binding new bindings in
      if text_eq b.id new.id then new ∷ bindings else b ∷ later

  unfoldable pub del_binding : Str → List (HookBinding X V E) → List (HookBinding X V E)
  del_binding id [] = []
  del_binding id (b ∷ bindings) =
      let later = del_binding id bindings in if text_eq b.id id then bindings else b ∷ later

  -- `f"{self.name}:{self._next_id}"`; the digits of a number are a parameter.
  module _ (show : ℕ → Str) where
    abbrev generated : Hook X V E → Str
    generated h = h.name ++ (b':' ∷ show (h.next_id + 1))

    -- `id or self._generate_id()`, and the hook behind it
    abbrev id_for : Option Str → Hook X V E → Str × Hook X V E
    id_for none h = (generated h, record h { next_id = h.next_id + 1 })
    id_for (some []) h = (generated h, record h { next_id = h.next_id + 1 })
    id_for (some (c ∷ id)) h = (c ∷ id, h)

    abbrev made :
        Handler X V E
        → Option Str
        → ℤ
        → Option (X → Bool)
        → Hook X V E
        → HookBinding X V E × Hook X V E
    made (binding b) id priority predicate h = (
      record b {
        id = or_id id b.id;
        priority = if not (is_zero priority) then priority else b.priority;
        predicate = or_predicate predicate b.predicate;
      },
      h,
    )
    made (function f) id priority predicate h =
        let (name, later) = id_for id h in
        (
          record { id = name; handler = f; priority = priority; order = 0; predicate = predicate },
          later,
        )

    unfoldable pub bind :
        Handler X V E → Option Str → ℤ → Option (X → Bool) → Hook X V E → Str × Hook X V E
    bind handler id priority predicate h =
        let (b, later) = made handler id priority predicate h in
        (
          b.id,
          record later {
            bindings = set_binding (record b { order = later.next_order }) later.bindings;
            next_order = later.next_order + 1;
          },
        )

  unfoldable pub unbind : Str → Hook X V E → Hook X V E
  unbind id h = record h { bindings = del_binding id h.bindings }

  unfoldable pub unbind_all : Hook X V E → Hook X V E
  unbind_all h = record h { bindings = [] }

  -- `(-a.priority, a.order) <= (-b.priority, b.order)`
  abbrev pub is_before : HookBinding X V E → HookBinding X V E → Bool
  is_before a b =
      above a.priority b.priority || (not (above b.priority a.priority) && leb a.order b.order)

  -- `sorted`: an element stands in front of those behind it that are not smaller.
  unfoldable pub insert : HookBinding X V E → List (HookBinding X V E) → List (HookBinding X V E)
  insert a [] = a ∷ []
  insert a (b ∷ bindings) =
      let later = insert a bindings in if is_before a b then a ∷ (b ∷ bindings) else b ∷ later

  unfoldable pub ordered_bindings : X → List (HookBinding X V E) → List (HookBinding X V E)
  ordered_bindings event [] = []
  ordered_bindings event (b ∷ bindings) =
      let later = ordered_bindings event bindings in
      if matches b event then insert b later else later

  abbrev pub program_of : X → HookBinding X V E → Str × Program V E
  program_of event b = (b.id, b.handler event)

  unfoldable pub trigger : V → X → Option (Program V E) → Hook X V E → Outcome V E × Event
  trigger no_value event default h =
      run_hook_chain no_value (map (program_of event) (ordered_bindings event h.bindings)) default

-- ===== src/Tests/Hooks.antt =====
-- Hooks at concrete inputs: three handlers, of which the second ends the chain.
use ppbase.Prelude.{
  Str, codes, text_eq, ℕ, ◌+◌, [], ◌∷◌, take, true, false, Option, none, some, map, ◌≡◌, ◌↔◌, refl,
}
use mathlib.Core.List.{Memᴰ}
use ppbase.Value.{ℤ, pos, negsuc}
use ppbase.Hooks.Chain.{
  returned, unavailable, called_twice, Program, finish, call_next, handler_of, run, dispatch,
  run_hook_chain,
}
use ppbase.Hooks.Registry.{
  HookBinding, Hook, function, matches, set_binding, bind, insert, ordered_bindings, program_of,
  trigger,
}
use ppbase.Hooks.Once.{entries}
use ppbase.Hooks.Order.{AreOrdered, matching, trigger-entries}
use mathlib.Core.List.{Perm}

-- A handler that gives back what comes back, one that ends, and one that calls `next` again
abbrev passes : Program ℕ Unit
passes = call_next (λ outcome. finish outcome)

abbrev stops : Program ℕ Unit
stops = finish (returned 2)

abbrev repeats : Program ℕ Unit
repeats = call_next (λ outcome. call_next (λ again. finish again))

abbrev default : Option (Program ℕ Unit)
default = some (finish (returned 7))

abbrev empty_hook : Hook ℕ ℕ Unit
empty_hook = record { name = codes "h"; bindings = []; next_order = 0; next_id = 0 }

abbrev digit : ℕ → Str
digit n = (48 + n) ∷ []

abbrev bound : Str → Program ℕ Unit → ℤ → Hook ℕ ℕ Unit → Hook ℕ ℕ Unit
bound id program priority h = (bind digit (function (λ event. program)) (some id) priority none h).1

abbrev three : Hook ℕ ℕ Unit
three =
    bound (codes "c") passes (negsuc 0)
      (bound (codes "b") stops (pos 0) (bound (codes "a") passes (pos 0) empty_hook))

stopped : trigger 0 5 default three ≡ (
  returned 2,
  record {
    next_handler = false;
    next_called = false;
    entered = handler_of (codes "a") ∷ handler_of (codes "b") ∷ [];
  },
)
unfolding trigger run_hook_chain dispatch run ordered_bindings insert bind set_binding text_eq
stopped = refl

-- The default handler does not clear `_next_handler`, another handler does.
once : (run_hook_chain 0 ((codes "a", repeats) ∷ []) default).0 ≡ called_twice
unfolding run_hook_chain dispatch run
once = refl

gone : (run_hook_chain 0 ((codes "a", repeats) ∷ (codes "b", passes) ∷ []) default).0 ≡ unavailable
unfolding run_hook_chain dispatch run
gone = refl

generated : (bind digit (function (λ event. passes)) none (pos 0) none empty_hook).0 ≡ codes "h:1"
unfolding bind
generated = refl

abbrev first : HookBinding ℕ ℕ Unit
first = record {
  id = codes "a";
  handler = λ event. passes;
  priority = pos 0;
  order = 0;
  predicate = none;
}

trigger-entries_example :
    ((count : ℕ) × ((trigger 0 5 default three).1.entered
        ≡ take count (entries (map (program_of 5) (ordered_bindings 5 three.bindings)) default)))
    × AreOrdered (ordered_bindings 5 three.bindings)
    × Perm (ordered_bindings 5 three.bindings) (matching 5 three.bindings)
    × (Memᴰ first (ordered_bindings 5 three.bindings)
        ↔ (Memᴰ first three.bindings × (matches first 5 ≡ true)))
trigger-entries_example = trigger-entries 0 5 default three first

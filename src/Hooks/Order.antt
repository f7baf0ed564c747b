-- ===== src/Hooks/Order.antt =====
-- Which handlers a trigger enters, and in which order (ppbase/ext/hooks.py).
use ppbase.Prelude.{
  ℕ, leb, List, [], ◌∷◌, take, Bool, true, false, not, ◌&&◌, ◌||◌, Option, All, map, ◌≡◌, ◌↔◌, refl,
  arith, Bool-cases, inl, inr, ◌⊎◌, if◌then◌else◌,
}
use mathlib.Core.List.{Memᴰ}
use mathlib.Core.List.Memᴰ
use mathlib.Core.List.{Perm}
use mathlib.Core.List.Perm
use ppbase.Value.{ℤ, pos, negsuc}
use ppbase.Hooks.Chain.{Program, run_hook_chain, new_event}
use ppbase.Hooks.Registry.{
  above, HookBinding, Hook, matches, is_before, insert, ordered_bindings, program_of, trigger,
}
use ppbase.Hooks.Once.{entries, dispatch-IsNext}

-- The order of the keys
abbrev before_key : ℤ → ℕ → ℤ → ℕ → Bool
before_key p m q n = above p q || (not (above q p) && leb m n)

before_key_total :
    (p : ℤ) (m : ℕ) (q : ℤ) (n : ℕ) → before_key p m q n ≡ false → before_key q n p m ≡ true
before_key_total (pos i) m (pos j) n h = ground (arith, h)
before_key_total (pos i) m (negsuc j) n h = cc
before_key_total (negsuc i) m (pos j) n h = refl
before_key_total (negsuc i) m (negsuc j) n h = ground (arith, h)

before_key_trans :
    (p : ℤ) (m : ℕ) (q : ℤ) (n : ℕ) (r : ℤ) (o : ℕ)
    → before_key p m q n ≡ true
    → before_key q n r o ≡ true
    → before_key p m r o ≡ true
before_key_trans (pos i) m (pos j) n (pos k) o h l = ground (arith, h, l)
before_key_trans (pos i) m (pos j) n (negsuc k) o h l = refl
before_key_trans (pos i) m (negsuc j) n (pos k) o h l = cc
before_key_trans (pos i) m (negsuc j) n (negsuc k) o h l = refl
before_key_trans (negsuc i) m (pos j) n r o h l = cc
before_key_trans (negsuc i) m (negsuc j) n (pos k) o h l = cc
before_key_trans (negsuc i) m (negsuc j) n (negsuc k) o h l = ground (arith, h, l)

module _ {X V E : Type 0} where
  abbrev IsBefore : HookBinding X V E → HookBinding X V E → Type 0
  IsBefore a b = is_before a b ≡ true

  unfoldable pub AreOrdered : List (HookBinding X V E) → Type 0
  AreOrdered [] = Unit
  AreOrdered (b ∷ bindings) = All (IsBefore b) bindings × AreOrdered bindings

  All-insert :
      (a b : HookBinding X V E) (bindings : List (HookBinding X V E))
      → IsBefore b a
      → All (IsBefore b) bindings
      → All (IsBefore b) (insert a bindings)
  unfolding insert
  All-insert a b [] h k = (h, tt)
  All-insert a b (c ∷ bindings) h (k, later) = elim (Bool-cases (is_before a c)) [
    | inl e ↦ rw e (h, (k, later))
    | inr e ↦ rw e (k, All-insert a b bindings h later)
  ]

  All-trans :
      (a b : HookBinding X V E) (bindings : List (HookBinding X V E))
      → IsBefore a b
      → All (IsBefore b) bindings
      → All (IsBefore a) bindings
  All-trans a b [] h k = tt
  All-trans a b (c ∷ bindings) h (k, later) = (
    before_key_trans a.priority a.order b.priority b.order c.priority c.order h k,
    All-trans a b bindings h later,
  )

  insert-AreOrdered :
      (a : HookBinding X V E) (bindings : List (HookBinding X V E))
      → AreOrdered bindings
      → AreOrdered (insert a bindings)
  unfolding insert AreOrdered
  insert-AreOrdered a [] h = (tt, tt)
  insert-AreOrdered a (b ∷ bindings) (h, later) = elim (Bool-cases (is_before a b)) [
    | inl e ↦ rw e ((e, All-trans a b bindings e h), (h, later))
    | inr e ↦ rw e (
      All-insert a b bindings (before_key_total a.priority a.order b.priority b.order e) h,
      insert-AreOrdered a bindings later,
    )
  ]

  ordered_bindings-AreOrdered :
      (event : X) (bindings : List (HookBinding X V E))
      → AreOrdered (ordered_bindings event bindings)
  unfolding ordered_bindings AreOrdered
  ordered_bindings-AreOrdered event [] = tt
  ordered_bindings-AreOrdered event (b ∷ bindings) = elim (Bool-cases (matches b event)) [
    | inl e ↦ rw e (
        insert-AreOrdered b (ordered_bindings event bindings)
          (ordered_bindings-AreOrdered event bindings))
    | inr e ↦ rw e (ordered_bindings-AreOrdered event bindings)
  ]

  either :
      (x b : HookBinding X V E) (bindings : List (HookBinding X V E))
      → Memᴰ x (b ∷ bindings)
      → Memᴰ x bindings ⊎ (x ≡ b)
  either x b bindings (Memᴰ.head e) = inr e
  either x b bindings (Memᴰ.tail n) = inl n

  swap_there :
      (x a b : HookBinding X V E) (bindings inserted : List (HookBinding X V E))
      → (Memᴰ x inserted → Memᴰ x (a ∷ bindings))
      → Memᴰ x (b ∷ inserted)
      → Memᴰ x (a ∷ (b ∷ bindings))
  swap_there x a b bindings inserted there n = elim (either x b inserted n) [
    | inr e ↦ Memᴰ.tail (Memᴰ.head e)
    | inl j ↦ elim (either x a bindings (there j)) [
      | inr e ↦ Memᴰ.head e
      | inl k ↦ Memᴰ.tail (Memᴰ.tail k)
    ]
  ]

  swap_back :
      (x a b : HookBinding X V E) (bindings inserted : List (HookBinding X V E))
      → (Memᴰ x (a ∷ bindings) → Memᴰ x inserted)
      → Memᴰ x (a ∷ (b ∷ bindings))
      → Memᴰ x (b ∷ inserted)
  swap_back x a b bindings inserted back n = elim (either x a (b ∷ bindings) n) [
    | inr e ↦ Memᴰ.tail (back (Memᴰ.head e))
    | inl j ↦ elim (either x b bindings j) [
      | inr e ↦ Memᴰ.head e
      | inl k ↦ Memᴰ.tail (back (Memᴰ.tail k))
    ]
  ]

  swap :
      (x a b : HookBinding X V E) (bindings inserted : List (HookBinding X V E))
      → Memᴰ x inserted ↔ Memᴰ x (a ∷ bindings)
      → Memᴰ x (b ∷ inserted) ↔ Memᴰ x (a ∷ (b ∷ bindings))
  swap x a b bindings inserted (there, back) =
      (swap_there x a b bindings inserted there, swap_back x a b bindings inserted back)

  insert_iff :
      (x a : HookBinding X V E) (bindings : List (HookBinding X V E))
      → Memᴰ x (insert a bindings) ↔ Memᴰ x (a ∷ bindings)
  unfolding insert
  insert_iff x a [] = (λ n. n, λ n. n)
  insert_iff x a (b ∷ bindings) = elim (Bool-cases (is_before a b)) [
    | inl e ↦ rw e (λ n. n, λ n. n)
    | inr e ↦ rw e (swap x a b bindings (insert a bindings) (insert_iff x a bindings))
  ]

  kept_there :
      (event : X) (x b : HookBinding X V E) (bindings : List (HookBinding X V E))
      → matches b event ≡ true
      → (Memᴰ x bindings × (matches x event ≡ true)) ⊎ (x ≡ b)
      → Memᴰ x (b ∷ bindings) × (matches x event ≡ true)
  kept_there event x b bindings h (inl (n, m)) = (Memᴰ.tail n, m)
  kept_there event x b bindings h (inr e) = (Memᴰ.head e, rw e h)

  -- The handlers whose predicate holds
  ordered_bindings_iff :
      (event : X) (x : HookBinding X V E) (bindings : List (HookBinding X V E))
      → Memᴰ x (ordered_bindings event bindings) ↔ (Memᴰ x bindings × (matches x event ≡ true))
  unfolding ordered_bindings
  ordered_bindings_iff event x [] = (λ n. absurd (Memᴰ.not-nil n), λ n. n.0)
  ordered_bindings_iff event x (b ∷ bindings) =
      let (there, back) = ordered_bindings_iff event x bindings in
      elim (Bool-cases (matches b event)) [
        | inr e ↦ rw e (
          λ n. (Memᴰ.tail (there n).0, (there n).1),
          λ n. elim (either x b bindings n.0) [
            | inl j ↦ back (j, n.1)
            | inr same ↦ absurd (cc (same, e, n.1))
          ],
        )
        | inl e ↦
            let (out, into) = insert_iff x b (ordered_bindings event bindings) in
            rw e (
              λ n. elim (either x b (ordered_bindings event bindings) (out n)) [
                | inl j ↦ kept_there event x b bindings e (inl (there j))
                | inr same ↦ kept_there event x b bindings e (inr same)
              ],
              λ n. elim (either x b bindings n.0) [
                | inl j ↦ into (Memᴰ.tail (back (j, n.1)))
                | inr same ↦ into (Memᴰ.head same)
              ],
            )
      ]

  -- The bindings whose predicate holds, in the order in which they stand, each as often
  unfoldable pub matching : X → List (HookBinding X V E) → List (HookBinding X V E)
  matching event [] = []
  matching event (b ∷ bindings) =
      let later = matching event bindings in if matches b event then b ∷ later else later

  insert-perm :
      (a : HookBinding X V E) (bindings : List (HookBinding X V E))
      → Perm (insert a bindings) (a ∷ bindings)
  unfolding insert
  insert-perm a [] = Perm.refl (a ∷ [])
  insert-perm a (b ∷ bindings) = elim (Bool-cases (is_before a b)) [
    | inl e ↦ rw e (Perm.refl (a ∷ (b ∷ bindings)))
    | inr e ↦ rw e (Perm.trans (Perm.cons b (insert-perm a bindings)) (Perm.swap a b bindings))
  ]

  ordered_bindings-perm :
      (event : X) (bindings : List (HookBinding X V E))
      → Perm (ordered_bindings event bindings) (matching event bindings)
  unfolding ordered_bindings matching
  ordered_bindings-perm event [] = Perm.nil
  ordered_bindings-perm event (b ∷ bindings) = elim (Bool-cases (matches b event)) [
    | inl e ↦ rw e (
        Perm.trans (insert-perm b (ordered_bindings event bindings))
          (Perm.cons b (ordered_bindings-perm event bindings)))
    | inr e ↦ rw e (ordered_bindings-perm event bindings)
  ]

  -- Whatever the handlers do, what is entered for an event that is triggered is a front part of the
  -- ordered bindings with, behind all of them, the default handler. The ordered bindings are in the
  -- order of falling priority and, among equals, of registration; they are a permutation of the
  -- bindings whose predicate holds, so each of them stands there exactly as often as it is
  -- registered; and a binding is among them exactly if it is registered and its predicate holds.
  pub trigger-entries :
      (no_value : V) (event : X) (default : Option (Program V E)) (h : Hook X V E)
      (x : HookBinding X V E)
      → ((count : ℕ) × ((trigger no_value event default h).1.entered
            ≡ take count
                (entries (map (program_of event) (ordered_bindings event h.bindings)) default)))
        × AreOrdered (ordered_bindings event h.bindings)
        × Perm (ordered_bindings event h.bindings) (matching event h.bindings)
        × (Memᴰ x (ordered_bindings event h.bindings)
            ↔ (Memᴰ x h.bindings × (matches x event ≡ true)))
  unfolding trigger run_hook_chain
  trigger-entries no_value event default h x =
      let programs = map (program_of event) (ordered_bindings event h.bindings) in
      let entered = (dispatch-IsNext no_value default programs).enters new_event (inl refl) in
      (
        (entered.count, entered.entered),
        ordered_bindings-AreOrdered event h.bindings,
        ordered_bindings-perm event h.bindings,
        ordered_bindings_iff event x h.bindings,
      )

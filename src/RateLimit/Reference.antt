-- ===== src/RateLimit/Reference.antt =====
-- The bucket against a limiter that remembers every admission
-- (ppbase/middleware/rate_limit.py).
use ppbase.Prelude.{
  ℕ, ◌+◌, ◌≤◌, ◌<◌, ◌≡◌, refl, List, [], ◌∷◌, ◌++◌, append-nil, leb, ltb, length, drop_while, All,
  All-append, arith, Bool-cases, inl, inr, if◌then◌else◌, sym, ◌∙◌,
}
use ppbase.RateLimit.Bucket.{prune}
use ppbase.RateLimit.Window.{
  IsClock, within, within-append, within-prune, admissions, admissions-full, admissions-free,
}

module _ (second window max_requests : ℕ) where
  -- A request is let through exactly if fewer than `max_requests` of all that were let through
  -- before lie in the window that ends now.
  unfoldable pub reference : List ℕ → List ℕ → List ℕ
  reference history [] = []
  reference history (now ∷ times) =
      let let_in = now ∷ reference (history ++ (now ∷ [])) times in
      let turned_away = reference history times in
      if ltb (within second window max_requests now history) max_requests
      then let_in
      else turned_away

  abbrev UpTo : ℕ → List ℕ → Type 0
  UpTo now xs = All (λ t. t ≤ now) xs

  UpTo-mono : (now later : ℕ) (xs : List ℕ) → now ≤ later → UpTo now xs → UpTo later xs
  UpTo-mono now later [] h k = tt
  UpTo-mono now later (x ∷ xs) h k = (omega arith, UpTo-mono now later xs h k.1)

  IsClock-mono : (a b : ℕ) (xs : List ℕ) → a ≤ b → IsClock b xs → IsClock a xs
  IsClock-mono a b [] h k = tt
  IsClock-mono a b (x ∷ xs) h k = (omega arith, k.1)

  IsClock-append :
      (lo now : ℕ) (xs : List ℕ)
      → lo ≤ now
      → IsClock lo xs
      → UpTo now xs
      → IsClock lo (xs ++ (now ∷ []))
  IsClock-append lo now [] h c u = (h, tt)
  IsClock-append lo now (x ∷ xs) h c u = (c.0, IsClock-append x now xs u.0 c.1 u.1)

  prune-IsClock :
      (lo now : ℕ) (xs : List ℕ)
      → IsClock lo xs
      → IsClock lo (prune second window max_requests now xs)
  unfolding prune drop_while
  prune-IsClock lo now [] c = tt
  prune-IsClock lo now (x ∷ xs) c = elim (Bool-cases (leb (x + window) now)) [
    | inl e ↦ rw (e, drop_while) (prune-IsClock lo now xs (IsClock-mono lo x xs c.0 c.1))
    | inr e ↦ rw (e, drop_while) c
  ]

  prune-UpTo :
      (at now : ℕ) (xs : List ℕ) → UpTo at xs → UpTo at (prune second window max_requests now xs)
  unfolding prune drop_while
  prune-UpTo at now [] u = tt
  prune-UpTo at now (x ∷ xs) u = elim (Bool-cases (leb (x + window) now)) [
    | inl e ↦ rw (e, drop_while) (prune-UpTo at now xs u.1)
    | inr e ↦ rw (e, drop_while) u
  ]

  within-live :
      (lo now : ℕ) (xs : List ℕ)
      → now < lo + window
      → IsClock lo xs
      → UpTo now xs
      → within second window max_requests now xs ≡ length xs
  unfolding within
  within-live lo now [] h c u = refl
  within-live lo now (x ∷ xs) h c u =
      ground (arith, within-live x now xs (omega arith) c.1 u.1, c.0, u.0)

  -- The deque is in the order of time, so the loop leaves the window's entries and no others.
  within-prune_self :
      (lo now : ℕ) (xs : List ℕ)
      → IsClock lo xs
      → UpTo now xs
      → within second window max_requests now (prune second window max_requests now xs)
        ≡ length (prune second window max_requests now xs)
  unfolding prune drop_while
  within-prune_self lo now [] c u = unfold within in refl
  within-prune_self lo now (x ∷ xs) c u = elim (Bool-cases (leb (x + window) now)) [
    | inl e ↦ rw (e, drop_while) (within-prune_self x now xs c.1 u.1)
    | inr e ↦ rw (e, drop_while) (within-live x now (x ∷ xs) (ground arith) (omega arith, c.1) u)
  ]

  within-pruned :
      (now later : ℕ) (xs : List ℕ)
      → now ≤ later
      → within second window max_requests later (prune second window max_requests now xs)
        ≡ within second window max_requests later xs
  within-pruned now later xs h = cc (
    within-prune second window max_requests now later xs [] h,
    append-nil xs,
    append-nil (prune second window max_requests now xs),
  )

  -- The bucket counts like the whole history, from `now` on.
  abbrev Agrees : ℕ → List ℕ → List ℕ → Type 0
  Agrees now history bucket =
      (later : ℕ)
      → now ≤ later
      → within second window max_requests later history
        ≡ within second window max_requests later bucket

  admissions-reference_from :
      (now : ℕ) (history bucket times : List ℕ)
      → Agrees now history bucket
      → IsClock 0 bucket
      → UpTo now bucket
      → IsClock now times
      → admissions second window max_requests bucket times ≡ reference history times
  unfolding reference
  admissions-reference_from now history bucket [] agrees c u k = unfold admissions in refl
  admissions-reference_from now history bucket (t ∷ times) agrees c u k =
      let b = prune second window max_requests t bucket in
      let up = UpTo-mono now t bucket k.0 u in
      let same : within second window max_requests t history ≡ length b =
        agrees t k.0
        ∙ sym (within-pruned t t bucket (omega arith))
        ∙ within-prune_self 0 t bucket c up in
      let kept : Agrees t history b =
        λ later h. agrees later (omega (arith, k.0)) ∙ sym (within-pruned t later bucket h) in
      let b_clock = prune-IsClock 0 t bucket c in
      let b_up = prune-UpTo t t bucket up in
      elim (Bool-cases (leb max_requests (length b))) [
        | inl e ↦
            rw (admissions-full second window max_requests bucket t times e, same)
              (ground (arith, e, admissions-reference_from t history b times kept b_clock b_up k.1))
        | inr e ↦
            rw (admissions-free second window max_requests bucket t times e, same)
              (ground (
                arith,
                e,
                admissions-reference_from t (history ++ (t ∷ [])) (b ++ (t ∷ [])) times
                    (λ later h. rw (
                      within-append second window max_requests later history (t ∷ []),
                      within-append second window max_requests later b (t ∷ []),
                      kept later h,
                    ))
                    (IsClock-append 0 t b (omega arith) b_clock b_up)
                    (All-append (λ (x : ℕ). x ≤ t) b (t ∷ []) b_up ((omega arith), tt)) k.1,
              ))
      ]

-- Condition: the times of a client's requests never go back. Then the limiter lets through exactly
-- the requests that the reference does, which counts all admissions of the window.
pub admissions-reference :
    (second window max_requests : ℕ) (times : List ℕ)
    → IsClock 0 times
    → admissions second window max_requests [] times ≡ reference second window max_requests [] times
admissions-reference second window max_requests times k =
    admissions-reference_from second window max_requests 0 [] [] times (λ later h. refl) tt tt k

-- ===== src/RateLimit/Window.antt =====
-- The limiter against its specification: a client's requests in the last window
-- (ppbase/middleware/rate_limit.py).
use ppbase.Prelude.{
  ℕ, suc, ◌+◌, ◌≤◌, ◌<◌, ◌≡◌, refl, List, [], ◌∷◌, ◌++◌, append_assoc, append-nil, true, false,
  ◌&&◌, leb, ltb, length, length-append, drop_while, arith, Bool-cases, inl, inr, if◌then◌else◌,
}
use ppbase.RateLimit.Bucket.{is_admitted, prune, decide, hit}

-- Each time is at most the next.
abbrev pub IsClock : ℕ → List ℕ → Type 0
IsClock now [] = Unit
IsClock now (t ∷ ts) = (now ≤ t) × IsClock t ts

module _ (second window max_requests : ℕ) where
  -- How many of the times lie in the window that ends at `now`.
  unfoldable pub within : ℕ → List ℕ → ℕ
  within now [] = 0
  within now (t ∷ ts) =
      let rest = within now ts in if leb t now && ltb now (t + window) then suc rest else rest

  -- The times at which a client is let through, of the times of its requests.
  unfoldable pub admissions : List ℕ → List ℕ → List ℕ
  admissions bucket [] = []
  admissions bucket (now ∷ times) =
      let (verdict, bucket') = hit second window max_requests now bucket in
      let rest = admissions bucket' times in
      if is_admitted second window max_requests verdict then now ∷ rest else rest

  pub within-append :
      (now : ℕ) (xs ys : List ℕ) → within now (xs ++ ys) ≡ within now xs + within now ys
  unfolding within
  within-append now [] ys = omega arith
  within-append now (x ∷ xs) ys = ground (arith, within-append now xs ys)

  within-le-length : (now : ℕ) (xs : List ℕ) → within now xs ≤ length xs
  unfolding within
  within-le-length now [] = omega arith
  within-le-length now (x ∷ xs) = ground (arith, within-le-length now xs)

  -- What the loop drops is out of the window from then on.
  pub within-prune :
      (now later : ℕ) (xs ys : List ℕ)
      → now ≤ later
      → within later (prune second window max_requests now xs ++ ys) ≡ within later (xs ++ ys)
  unfolding within prune drop_while
  within-prune now later [] ys h = refl
  within-prune now later (x ∷ xs) ys h = ground (arith, within-prune now later xs ys h)

  prune-length :
      (now : ℕ) (xs : List ℕ) → length (prune second window max_requests now xs) ≤ length xs
  unfolding prune drop_while
  prune-length now [] = omega arith
  prune-length now (x ∷ xs) = ground (arith, prune-length now xs)

  pub admissions-full :
      (bucket : List ℕ) (now : ℕ) (times : List ℕ)
      → leb max_requests (length (prune second window max_requests now bucket)) ≡ true
      → admissions bucket (now ∷ times)
        ≡ admissions (prune second window max_requests now bucket) times
  unfolding admissions hit decide
  admissions-full bucket now times h = rw h

  pub admissions-free :
      (bucket : List ℕ) (now : ℕ) (times : List ℕ)
      → leb max_requests (length (prune second window max_requests now bucket)) ≡ false
      → admissions bucket (now ∷ times)
        ≡ now ∷ admissions (prune second window max_requests now bucket ++ (now ∷ [])) times
  unfolding admissions hit decide
  admissions-free bucket now times h = rw h

  -- Nothing is admitted before the clock.
  within-admissions_of_lt :
      (earlier now : ℕ) (bucket times : List ℕ)
      → earlier < now
      → IsClock now times
      → within earlier (admissions bucket times) ≡ 0
  unfolding within
  within-admissions_of_lt earlier now bucket [] h c = unfold admissions in refl
  within-admissions_of_lt earlier now bucket (t ∷ times) h c =
      let b = prune second window max_requests t bucket in
      elim (Bool-cases (leb max_requests (length b))) [
        | inl e ↦
            rw (admissions-full bucket t times e)
              (within-admissions_of_lt earlier t b times (omega arith) c.1)
        | inr e ↦ rw (admissions-free bucket t times e) (
            ground
              (arith, within-admissions_of_lt earlier t (b ++ (t ∷ [])) times (omega arith) c.1))
      ]

  within-admissions_bound :
      (now : ℕ) (bucket times : List ℕ) (at : ℕ)
      → length bucket ≤ max_requests
      → IsClock now times
      → within at (bucket ++ admissions bucket times) ≤ max_requests
  within-admissions_bound now bucket [] at h c =
      let e : admissions bucket [] ≡ [] = unfold admissions in refl in
      rw (e, append-nil) (omega (arith, within-le-length at bucket))
  within-admissions_bound now bucket (t ∷ times) at h c =
      let b = prune second window max_requests t bucket in
      elim (Bool-cases (leb t at)) [
        | inr early ↦
            rw
              (
                within-append,
                within-admissions_of_lt at t bucket (t ∷ times) (ground arith) (omega arith, c.1),
              )
              (omega (arith, within-le-length at bucket))
        | inl late ↦ elim (Bool-cases (leb max_requests (length b))) [
          | inl e ↦
              rw
                (
                  admissions-full bucket t times e,
                  ← within-prune t at bucket (admissions b times) (ground arith),
                )
                (within-admissions_bound t b times at (omega (arith, prune-length t bucket)) c.1)
          | inr e ↦
              rw
                (
                  admissions-free bucket t times e,
                  ← within-prune t at bucket (t ∷ admissions (b ++ (t ∷ [])) times) (ground arith),
                  ← append_assoc b (t ∷ []) (admissions (b ++ (t ∷ [])) times),
                )
                (within-admissions_bound t (b ++ (t ∷ [])) times at
                  (ground (arith, e, length-append b (t ∷ []))) c.1)
        ]
      ]

-- Condition: the times of a client's requests never go back. Then, in every window of the
-- configured length, at most `max_requests` of them are let through.
pub admissions_bound :
    (second window max_requests : ℕ) (times : List ℕ) (at : ℕ)
    → IsClock 0 times
    → within second window max_requests at (admissions second window max_requests [] times)
      ≤ max_requests
admissions_bound second window max_requests times at c =
    within-admissions_bound second window max_requests 0 [] times at (omega arith) c

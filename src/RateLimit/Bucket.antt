-- ===== src/RateLimit/Bucket.antt =====
-- The bucket of one client in `RateLimitMiddleware.dispatch` (ppbase/middleware/rate_limit.py).
-- Times are ticks of the monotonic clock, `second` of them to a second. A window is written in
-- ticks; `bucket[0] <= now - window` is tested as `bucket[0] + window <= now`, since `-` stops at 0.
use ppbase.Prelude.{
  ℕ, ◌+◌, ◌-◌, ◌/◌, max, List, [], ◌∷◌, ◌++◌, Bool, leb, length, drop_while, if◌then◌else◌,
}

-- The two ways that the locked region ends, with the values of the headers.
pub data Verdict : Type 0 where
  -- Retry-After
  too_many : ℕ → Verdict
  -- X-RateLimit-Remaining and X-RateLimit-Reset
  admitted : ℕ → ℕ → Verdict

module _ (second window max_requests : ℕ) where
  abbrev pub expired : ℕ → ℕ → Bool
  expired now t = leb (t + window) now

  -- The `while` loop on the front of the deque.
  unfoldable pub prune : ℕ → List ℕ → List ℕ
  prune now bucket = drop_while (expired now) bucket

  -- Whole seconds until the first entry leaves the window: `int(...)` of a number that is positive
  -- here.
  abbrev pub seconds_left : ℕ → List ℕ → ℕ
  seconds_left now [] = 0
  seconds_left now (first ∷ _) = (first + window - now) / second

  -- The decision on the pruned bucket.
  unfoldable pub decide : ℕ → List ℕ → Verdict × List ℕ
  decide now bucket =
      if leb max_requests (length bucket)
      then (too_many (max 1 (seconds_left now bucket)), bucket)
      else (
        admitted (max_requests - length (bucket ++ (now ∷ [])))
            (seconds_left now (bucket ++ (now ∷ []))),
        bucket ++ (now ∷ []),
      )

  -- The locked region.
  unfoldable pub hit : ℕ → List ℕ → Verdict × List ℕ
  hit now bucket = decide now (prune now bucket)

  abbrev pub is_admitted : Verdict → Bool
  is_admitted (too_many _) = Bool.false
  is_admitted (admitted _ _) = Bool.true

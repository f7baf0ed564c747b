-- ===== src/RateLimit/Retry.antt =====
-- The Retry-After header (ppbase/middleware/rate_limit.py).
use native.Mathlib.Nat.{div-add-mod, mod-lt}
use ppbase.Prelude.{
  ℕ, ◌+◌, ◌-◌, ◌*◌, ◌/◌, ◌%◌, ◌≤◌, ◌<◌, ◌≡◌, ◌≢◌, List, [], ◌∷◌, false, max, length, drop_while,
  arith,
}
use ppbase.RateLimit.Bucket.{too_many, is_admitted, prune, decide, hit}

module _ (second window max_requests : ℕ) where
  decide-refusal :
      (now r first : ℕ) (b rest : List ℕ)
      → decide second window max_requests now b ≡ (too_many r, first ∷ rest)
      → (max_requests ≤ length (first ∷ rest)) × (r ≡ max 1 ((first + window - now) / second))
  unfolding decide
  decide-refusal now r first [] rest h = ground arith
  decide-refusal now r first (x ∷ xs) rest h = ground arith

  -- What a refusal says of the bucket and of the header.
  refusal :
      (now r first : ℕ) (bucket rest : List ℕ)
      → hit second window max_requests now bucket ≡ (too_many r, first ∷ rest)
      → (max_requests ≤ length (first ∷ rest)) × (r ≡ max 1 ((first + window - now) / second))
  unfolding hit
  refusal now r first bucket rest h =
      decide-refusal now r first (prune second window max_requests now bucket) rest h

  above_last_second : (d : ℕ) → d % second ≢ 0 → d / second * second < d
  above_last_second d h = grind (arith, div-add-mod d second)

  hit-full :
      (now : ℕ) (bucket : List ℕ)
      → max_requests ≤ length (prune second window max_requests now bucket)
      → is_admitted second window max_requests (hit second window max_requests now bucket).0 ≡ false
  unfolding hit decide
  hit-full now bucket h = ground arith

  prune-live :
      (now first : ℕ) (rest : List ℕ)
      → now < first + window
      → prune second window max_requests now (first ∷ rest) ≡ first ∷ rest
  unfolding prune drop_while
  prune-live now first rest h = ground arith

div_pos : (s d : ℕ) → 0 < s → s ≤ d → 0 < d / s
div_pos s d h k = grind (arith, div-add-mod d s, mod-lt d h)

-- Conditions: the client was refused with `Retry-After: r`, and at least a second is left, but not a
-- whole number of them. Then a request after exactly the announced delay is refused again.
pub retry_refused :
    (second window max_requests now r first : ℕ) (bucket rest : List ℕ)
    → second ≤ first + window - now
    → (first + window - now) % second ≢ 0
    → 0 < second
    → hit second window max_requests now bucket ≡ (too_many r, first ∷ rest)
    → is_admitted second window max_requests
        (hit second window max_requests (now + r * second) (first ∷ rest)).0
      ≡ false
retry_refused second window max_requests now r first bucket rest left uneven pos h =
    let (full, header) = refusal second window max_requests now r first bucket rest h in
    let d = first + window - now in
    let whole : r ≡ d / second = omega (arith, header, div_pos second d pos left) in
    hit-full second window max_requests (now + r * second) (first ∷ rest) (
      rw
        (prune-live second window max_requests (now + r * second) first rest
          (rw whole (omega (arith, above_last_second second window max_requests d uneven))))
        full)

-- ===== src/RateLimit/Clients.antt =====
-- The clients of one limiter do not disturb each other (ppbase/middleware/rate_limit.py).
use ppbase.Prelude.{
  Str, text_eq, text_eq_iff, ℕ, ◌*◌, ◌≤◌, ◌≡◌, refl, List, [], ◌∷◌, arith, Bool-cases, inl, inr,
  if◌then◌else◌,
}
use ppbase.RateLimit.Config.{RateLimitConfig}
use ppbase.RateLimit.Bucket.{is_admitted, hit}
use ppbase.RateLimit.Window.{IsClock, within, admissions, admissions_bound}
use ppbase.RateLimit.Middleware.{Hits, bucket_of, put_bucket, hit_client}

bucket_of-put_bucket :
    (j k : Str) (bucket : List ℕ) (hits : Hits)
    → bucket_of j (put_bucket k bucket hits) ≡ (if text_eq k j then bucket else bucket_of j hits)
unfolding bucket_of put_bucket
bucket_of-put_bucket j k bucket [] = refl
bucket_of-put_bucket j k bucket ((name, old) ∷ hits) = ground (
  arith,
  bucket_of-put_bucket j k bucket hits,
  text_eq_iff name k,
  text_eq_iff name j,
  text_eq_iff k j,
)

module _ (second : ℕ) (config : RateLimitConfig) where
  abbrev window : ℕ
  window = config.window_seconds * second

  -- The times at which `client` is let through while all clients send, each request its client and
  -- its time.
  unfoldable pub served : Str → Hits → List (Str × ℕ) → List ℕ
  served client hits [] = []
  served client hits ((name, now) ∷ requests) =
      let (verdict, hits') = hit_client second config name now hits in
      let rest = served client hits' requests in
      if text_eq name client
      then (if is_admitted second window config.max_requests verdict then now ∷ rest else rest)
      else rest

  unfoldable pub times_of : Str → List (Str × ℕ) → List ℕ
  times_of client [] = []
  times_of client ((name, now) ∷ requests) =
      let rest = times_of client requests in if text_eq name client then now ∷ rest else rest

  bucket_of-hit_client :
      (j k : Str) (now : ℕ) (hits : Hits)
      → bucket_of j (hit_client second config k now hits).1 ≡ (
          if text_eq k j
          then (hit second window config.max_requests now (bucket_of k hits)).1
          else bucket_of j hits)
  unfolding hit_client
  bucket_of-hit_client j k now hits = bucket_of-put_bucket j k _ hits

  served-admissions :
      (client : Str) (hits : Hits) (requests : List (Str × ℕ))
      → served client hits requests
        ≡ admissions second window config.max_requests
            (bucket_of client hits)
            (times_of client requests)
  unfolding served times_of
  served-admissions client hits [] = unfold admissions in refl
  served-admissions client hits ((name, now) ∷ requests) =
      let ih = served-admissions client (hit_client second config name now hits).1 requests in
      let moved = bucket_of-hit_client client name now hits in
      elim (Bool-cases (text_eq name client)) [
        | inr e ↦ rw (e, ih, moved) (rw e)
        | inl e ↦
            let same : name ≡ client = (text_eq_iff name client).0 e in
            rw (e, ih, moved) (rw e (rw same (unfold admissions hit_client in refl)))
      ]

-- Condition: the times of the client's requests never go back. Then, while any clients send in any
-- order to one limiter that starts empty, at most `max_requests` requests of this client are let
-- through in every window of the configured seconds.
pub served_bound :
    (second : ℕ) (config : RateLimitConfig) (client : Str) (requests : List (Str × ℕ)) (at : ℕ)
    → IsClock 0 (times_of second config client requests)
    → within second
        (config.window_seconds * second)
        config.max_requests
        at
        (served second config client [] requests)
      ≤ config.max_requests
unfolding bucket_of
served_bound second config client requests at h =
    rw (served-admissions second config client [] requests) (
      admissions_bound second (config.window_seconds * second) config.max_requests
        (times_of second config client requests) at h)

-- A client is let through as if it were the only one: the requests of the others change nothing.
pub served_alone :
    (second : ℕ) (config : RateLimitConfig) (client : Str) (requests : List (Str × ℕ))
    → served second config client [] requests
      ≡ admissions second
          (config.window_seconds * second)
          config.max_requests
          []
          (times_of second config client requests)
unfolding bucket_of
served_alone second config client requests = served-admissions second config client [] requests

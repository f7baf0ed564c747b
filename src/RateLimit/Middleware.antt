-- ===== src/RateLimit/Middleware.antt =====
-- `RateLimitMiddleware` (ppbase/middleware/rate_limit.py): the cache of the settings, the buckets
-- by client, and `dispatch`. The settings row and the response of the application are parameters.
use ppbase.Prelude.{
  Str, Unicode, codes, text_eq, ℕ, ◌+◌, ◌*◌, ◌==◌, ltb, List, [], ◌∷◌, Bool, false, not, Option,
  some, any, starts_with, if◌then◌else◌,
}
use ppbase.Value.{ℤ, pos, negsuc, Value, Fields, dict, end, Builtins}
use ppbase.RateLimit.Config.{RateLimitConfig, disabled, extract_rate_limit_config}
use ppbase.RateLimit.Identity.{Request, resolve_client_identifier}
use ppbase.RateLimit.Bucket.{Verdict, too_many, admitted, hit}

abbrev pub Hits : Type 0
Hits = List (Str × List ℕ)

-- `self._hits.get(identifier)`, with the empty deque for a new client
unfoldable pub bucket_of : Str → Hits → List ℕ
bucket_of identifier [] = []
bucket_of identifier ((name, bucket) ∷ hits) =
    let later = bucket_of identifier hits in if text_eq name identifier then bucket else later

unfoldable pub put_bucket : Str → List ℕ → Hits → Hits
put_bucket identifier bucket [] = (identifier, bucket) ∷ []
put_bucket identifier bucket ((name, old) ∷ hits) =
    let later = put_bucket identifier bucket hits in
    if text_eq name identifier then (name, bucket) ∷ hits else (name, old) ∷ later

-- The region under the lock.
unfoldable pub hit_client : ℕ → RateLimitConfig → Str → ℕ → Hits → Verdict × Hits
hit_client second config identifier now hits =
    let (verdict, bucket) =
      hit second (config.window_seconds * second) config.max_requests now
        (bucket_of identifier hits) in
    (verdict, put_bucket identifier bucket hits)

pub record Limiter (F : Type 0) : Type 0 where
  pub hits : Hits
  pub cache_expires_at : ℕ
  pub cache_version : ℤ
  pub cached_settings : Fields F
  pub cached_config : RateLimitConfig

abbrev same : ℤ → ℤ → Bool
same (pos a) (pos b) = a == b
same (negsuc a) (negsuc b) = a == b
same _ _ = false

-- What `dispatch` does with a request: it passes it on, refuses it with Retry-After and the limit,
-- or passes it on and sets the headers limit, remaining and reset.
pub data Outcome : Type 0 where
  passed : Outcome
  refused : ℕ → ℕ → Outcome
  limited : ℕ → ℕ → ℕ → Outcome

abbrev skip_prefixes : List Str
skip_prefixes = codes "/api/health" ∷ codes "/api/realtime" ∷ []

module _ {F : Type 0} (U : Unicode) (B : Builtins F) (second : ℕ) where
  unfoldable pub initial : Limiter F
  initial = record {
    hits = [];
    cache_expires_at = 0;
    cache_version = negsuc 0;
    cached_settings = end;
    cached_config = disabled;
  }

  abbrev settings_of : Option (Value F) → Fields F
  settings_of (some (dict settings)) = settings
  settings_of _ = end

  abbrev refresh_version : ℤ → Limiter F → Limiter F
  refresh_version version l =
      if same version l.cache_version
      then l
      else record l { cache_version = version; cache_expires_at = 0 }

  -- `_load_settings_and_config`; `row` is the settings row, `none` on any exception.
  unfoldable pub load_settings_and_config : ℕ → ℤ → Option (Value F) → Limiter F → Limiter F
  load_settings_and_config now version row l =
      let l' = refresh_version version l in
      if ltb now l'.cache_expires_at then l' else record l' {
        cached_settings = settings_of row;
        cached_config = extract_rate_limit_config B (settings_of row);
        cache_expires_at = now + 2 * second;
      }

  abbrev outcome_of : RateLimitConfig → Verdict → Outcome
  outcome_of config (too_many retry) = refused retry config.max_requests
  outcome_of config (admitted remaining reset) = limited config.max_requests remaining reset

  unfoldable pub limit : Request → ℕ → Limiter F → Outcome × Limiter F
  limit request now l =
      if not l.cached_config.enabled
      then (passed, l)
      else (let identifier = resolve_client_identifier U B request l.cached_settings in
          let (verdict, hits) = hit_client second l.cached_config identifier now l.hits in
          (outcome_of l.cached_config verdict, record l { hits = hits }))

  -- The clock is read once for the cache and once for the bucket.
  unfoldable pub dispatch :
      Str → Request → ℕ → ℕ → ℤ → Option (Value F) → Limiter F → Outcome × Limiter F
  dispatch path request loaded now version row l =
      if not (starts_with path (codes "/api"))
      then (passed, l)
      else if any (starts_with path) skip_prefixes
      then (passed, l)
      else limit request now (load_settings_and_config loaded version row l)

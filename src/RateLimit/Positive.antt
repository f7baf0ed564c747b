-- ===== src/RateLimit/Positive.antt =====
-- The configuration that the limiter reads (ppbase/middleware/rate_limit.py).
use ppbase.Prelude.{Bool, ℕ, ◌<◌, arith, codes}
use ppbase.Value.{Value, Fields, list, dict, cons, Builtins, get_null}
use ppbase.RateLimit.Config.{
  RateLimitConfig, to_positive_int, extract_rate_limit_config, first_rule, legacy_config, of_direct,
}

-- Both numbers are positive.
record IsPositive (c : RateLimitConfig) : Type 0 where
  requests : 0 < c.max_requests
  window : 0 < c.window_seconds

module _ {F : Type 0} (B : Builtins F) where
  to_positive_int_pos :
      (value : Value F) (default : ℕ) → 0 < default → 0 < to_positive_int B value default
  unfolding to_positive_int
  to_positive_int_pos value default h = ground arith

  first_rule-IsPositive : (b : Bool) (rules : Value F) → IsPositive (first_rule B b rules)
  first_rule-IsPositive b (list (cons (dict d) xs)) = record {
    requests = to_positive_int_pos _ 1000 (omega arith);
    window = to_positive_int_pos _ 60 (omega arith);
  }
  first_rule-IsPositive b rules = omega arith

  legacy_config-IsPositive : (v : Value F) → IsPositive (legacy_config B v)
  legacy_config-IsPositive (dict legacy) = first_rule-IsPositive _ (get_null (codes "rules") legacy)
  legacy_config-IsPositive _ = omega arith

  of_direct-IsPositive : (v : Value F) (settings : Fields F) → IsPositive (of_direct B v settings)
  of_direct-IsPositive (dict direct) settings = record {
    requests = to_positive_int_pos _ 1000 (omega arith);
    window = to_positive_int_pos _ 60 (omega arith);
  }
  of_direct-IsPositive _ settings =
      legacy_config-IsPositive (get_null (codes "rateLimits") settings)

-- Whatever the settings row holds, in the preferred shape, the legacy shape or neither, the limiter
-- works with a positive number of requests and a positive window.
extract_rate_limit_config-IsPositive :
    {F : Type 0} (B : Builtins F) (settings : Fields F)
    → IsPositive (extract_rate_limit_config B settings)
unfolding extract_rate_limit_config
extract_rate_limit_config-IsPositive B settings =
    of_direct-IsPositive B (get_null (codes "rateLimiting") settings) settings

-- ===== src/RateLimit/Config.antt =====
-- The settings of the rate limiter and the client's name (ppbase/middleware/rate_limit.py).
use ppbase.Prelude.{codes, ℕ, suc, Bool, false, some}
use ppbase.Value.{
  Value, Fields, bool, list, dict, cons, pos, Builtins, get_default, get_null, truthy,
}

-- `_RateLimitConfig`
pub record RateLimitConfig : Type 0 where
  pub enabled : Bool
  pub max_requests : ℕ
  pub window_seconds : ℕ

abbrev pub disabled : RateLimitConfig
disabled = record { enabled = false; max_requests = 1000; window_seconds = 60 }

module _ {F : Type 0} (B : Builtins F) where
  -- `_to_positive_int`
  unfoldable pub to_positive_int : Value F → ℕ → ℕ
  to_positive_int value default = elim (B.int_of value) [ some (pos (suc n)) ↦ suc n | _ ↦ default ]

  abbrev pub direct_config : Fields F → RateLimitConfig
  direct_config direct = record {
    enabled = truthy B (get_default (codes "enabled") (bool false) direct);
    max_requests = to_positive_int (get_null (codes "maxRequests") direct) 1000;
    window_seconds = to_positive_int (get_null (codes "window") direct) 60;
  }

  abbrev pub first_rule : Bool → Value F → RateLimitConfig
  first_rule enabled (list (cons (dict first) _)) = record {
    enabled = enabled;
    max_requests = to_positive_int (get_null (codes "maxRequests") first) 1000;
    window_seconds =
        to_positive_int (get_default (codes "window") (get_null (codes "duration") first) first) 60;
  }
  first_rule enabled _ = record { enabled = enabled; max_requests = 1000; window_seconds = 60 }

  abbrev pub legacy_config : Value F → RateLimitConfig
  legacy_config (dict legacy) =
      first_rule (truthy B (get_default (codes "enabled") (bool false) legacy))
        (get_null (codes "rules") legacy)
  legacy_config _ = disabled

  abbrev pub of_direct : Value F → Fields F → RateLimitConfig
  of_direct (dict direct) settings = direct_config direct
  of_direct _ settings = legacy_config (get_null (codes "rateLimits") settings)

  -- `_extract_rate_limit_config`
  unfoldable pub extract_rate_limit_config : Fields F → RateLimitConfig
  unfolding to_positive_int
  extract_rate_limit_config settings = of_direct (get_null (codes "rateLimiting") settings) settings

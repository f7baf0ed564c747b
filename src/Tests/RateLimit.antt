-- ===== src/Tests/RateLimit.antt =====
-- Runs of the rate limiter's model, and its theorems at concrete requests.
use ppbase.Prelude.{
  split_on, Str, codes, ℕ, ◌≤◌, ◌≡◌, refl, List, [], ◌∷◌, true, false, none, some, arith, text_eq,
  drop_while, strip, starts_with, any, if◌then◌else◌,
}
use ppbase.Value.{pos, Fields, field, end, dict, int, bool, text, list, cons, nil, get, truthy, str}
use ppbase.RateLimit.Config.{RateLimitConfig, extract_rate_limit_config}
use ppbase.RateLimit.Identity.{
  Request, stripped, from_header, from_headers, resolve_client_identifier,
}
use ppbase.RateLimit.Bucket.{too_many, is_admitted, prune, decide, hit}
use ppbase.RateLimit.Window.{within, admissions, admissions_bound}
use ppbase.RateLimit.Reference.{reference, admissions-reference}
use ppbase.RateLimit.Retry.{retry_refused}
use ppbase.RateLimit.Middleware.{
  limited, initial, dispatch, limit, load_settings_and_config, hit_client, bucket_of, put_bucket,
}
use ppbase.RateLimit.Clients.{served, times_of, served_bound, served_alone}
use ppbase.Tests.Ascii.{ascii, builtins}

abbrev times : List ℕ
times = 0 ∷ 5 ∷ 10 ∷ 15 ∷ 20 ∷ 21 ∷ []

two_in_a_window : admissions 10 20 2 [] times ≡ 0 ∷ 5 ∷ 20 ∷ []
unfolding admissions hit prune decide drop_while
two_in_a_window = refl

admissions_bound_example : within 10 20 2 12 (admissions 10 20 2 [] times) ≤ 2
admissions_bound_example = admissions_bound 10 20 2 times 12 (omega arith)

admissions-reference_example : admissions 10 20 2 [] times ≡ reference 10 20 2 [] times
admissions-reference_example = admissions-reference 10 20 2 times (omega arith)

-- 15 ticks are left, one second and a half, and the header says 1.
refused_at_10 : hit 10 20 2 10 (5 ∷ 6 ∷ []) ≡ (too_many 1, 5 ∷ 6 ∷ [])
unfolding hit prune decide drop_while
refused_at_10 = refl

retry_refused_example : is_admitted 10 20 2 (hit 10 20 2 20 (5 ∷ 6 ∷ [])).0 ≡ false
retry_refused_example =
    retry_refused 10 20 2 10 1 5 (5 ∷ 6 ∷ []) (6 ∷ []) (omega arith) (omega arith) (omega arith)
      refused_at_10

abbrev config : RateLimitConfig
config = record { enabled = true; max_requests = 1; window_seconds = 2 }

abbrev requests : List (Str × ℕ)
requests = (codes "a", 0) ∷ (codes "b", 1) ∷ (codes "a", 3) ∷ (codes "b", 30) ∷ []

served_bound_example : within 10 20 1 3 (served 10 config (codes "a") [] requests) ≤ 1
unfolding times_of text_eq
served_bound_example = served_bound 10 config (codes "a") requests 3 (omega arith)

served_alone_example :
    served 10 config (codes "a") [] requests
    ≡ admissions 10 20 1 [] (times_of 10 config (codes "a") requests)
served_alone_example = served_alone 10 config (codes "a") requests

abbrev settings : Fields Unit
settings =
    field (codes "rateLimiting")
      (dict (field (codes "enabled") (bool true) (field (codes "maxRequests") (int (pos 0)) end)))
      (field (codes "trustedProxy")
        (dict (field (codes "headers") (list (cons (text (codes "x")) nil)) end)) end)

abbrev request : Request
request = record {
  header =
      λ name. (if text_eq name (codes "x") then some (codes " 10.0.0.1, ,10.0.0.2 ") else none);
  client_host = none;
}

resolved : resolve_client_identifier ascii builtins request settings ≡ codes "10.0.0.2"
unfolding resolve_client_identifier from_headers from_header stripped split_on strip drop_while get
    truthy str text_eq
resolved = refl

first_request :
    (dispatch ascii builtins 10
      (codes "/api/x")
      request
      0
      3
      (pos 0)
      (some (dict settings))
      (initial ascii builtins 10)).0
    ≡ limited 1000 999 60
unfolding dispatch limit load_settings_and_config initial extract_rate_limit_config hit_client hit
    prune decide drop_while bucket_of put_bucket resolve_client_identifier from_headers from_header
    stripped split_on strip get truthy str text_eq starts_with any
first_request = refl

-- ===== src/Requests/Tests.antt =====
-- Runs of the limiter, the retries and the redirects, and the theorems at concrete inputs.
use mcp4openapi.Prelude.{
  ℕ, ◌+◌, ◌*◌, ◌-◌, ◌≤◌, ◌≡◌, refl, inl, inr, String, Bool, true, Option, some, none, [], ◌∷◌,
  arith, if◌then◌else◌, str_eq, Among, Map, get, set,
}
use mcp4openapi.Requests.RateLimit.{
  RateLimitConfig, Bucket, Limiter, token, ms_per_minute, init_buckets, create_rate_limit,
  take_token, acquire,
}
use mcp4openapi.Requests.Buckets.{Requests, passed, passed_lem, route, bucket_at}
use mcp4openapi.Requests.Waits.{wait_paid_twice}
use mcp4openapi.Requests.Status.{text, Response, Outcome, check_status, status_error}
use mcp4openapi.Requests.Retry.{RetryConfig, attempts, retry}
use mcp4openapi.Requests.Redirect.{
  Hop, same_origin, next_headers, follow, send, final_handler, basic_sensitive_headers,
}
use mcp4openapi.Requests.Confined.{
  Guarded, Log, validated, fetches, fetched, log_of, send-Guarded, send-confined,
}
use mcp4openapi.Requests.Attempts.{
  Spent, counted, sleeping, without_list, retry-Spent, retry-without_list,
}

-- 60 requests per minute, and one of its own for an operation.
abbrev config : RateLimitConfig
config = record { max_requests_per_minute = 60; overrides = ("export", 1) ∷ [] }

abbrev limiter : Limiter
limiter = record {
  global = record { tokens_per_ms = 60; tokens = 3600000; last_refill = 0 };
  endpoint_buckets = ("export", record { tokens_per_ms = 1; tokens = 60000; last_refill = 0 }) ∷ [];
}

limiter_created : create_rate_limit config 0 ≡ limiter
unfolding create_rate_limit init_buckets set
limiter_created = refl

abbrev some_requests : Requests
some_requests = (some "export", 0) ∷ (some "export", 1000) ∷ (none, 2000) ∷ []

exports_passed : passed (some "export") some_requests limiter ≡ 1
unfolding passed route acquire take_token get set
exports_passed = refl

abbrev exports : Bucket
exports = record { tokens_per_ms = 1; tokens = 60000; last_refill = 0 }

exports_stored : bucket_at (some "export") limiter ≡ some exports
unfolding get
exports_stored = refl

passed_lem_example :
    token * passed (some "export") some_requests limiter ≤ 1 * ms_per_minute + (2000 - 0) * 1
passed_lem_example =
    passed_lem (some "export") some_requests limiter exports 0 2000 exports_stored
      (omega arith, (omega arith, (omega arith, omega arith)))

abbrev drained : Bucket
drained = record { tokens_per_ms = 60; tokens = 0; last_refill = 5000 }

abbrev empty_limiter : Limiter
empty_limiter = record { global = drained; endpoint_buckets = [] }

drained_stored : bucket_at (route none empty_limiter) empty_limiter ≡ some drained
unfolding route
drained_stored = refl

drained_waits : (acquire none 5000 empty_limiter).0 ≡ some 60000
unfolding acquire take_token
drained_waits = refl

wait_paid_twice_example : (acquire none 6000 (acquire none 5000 empty_limiter).1).0 ≡ none
wait_paid_twice_example =
    wait_paid_twice none 5000 6000 60000 empty_limiter drained drained_stored drained_waits
      (omega arith)

-- A server that redirects one URL to another host.
abbrev moved_to : Map String → ℕ → Response
moved_to headers status = record { status = status; headers = headers; body = text "" }

abbrev fetch_moved : Hop → ℕ → Option Response × ℕ
fetch_moved hop w =
    if str_eq hop.url "https://api.test/a"
    then (some (moved_to (("location", "https://cdn.test/b") ∷ []) 302), w + 1)
    else (some (moved_to [] 404), w + 1)

abbrev validate_all : String → ℕ → Bool × ℕ
validate_all url w = (true, w)

abbrev resolve_absolute : String → String → Option String
resolve_absolute location base = some location

abbrev origin_of : String → String
origin_of url = if str_eq url "https://cdn.test/b" then "https://cdn.test" else "https://api.test"

abbrev first_hop : Hop
first_hop = record {
  url = "https://api.test/a";
  method = "GET";
  body = none;
  headers = ("Accept", "*/*") ∷ ("Authorization", "Bearer x") ∷ [];
}

abbrev second_hop : Hop
second_hop = record {
  url = "https://cdn.test/b";
  method = "GET";
  body = none;
  headers = ("Accept", "*/*") ∷ [];
}

abbrev sample_log : Log
sample_log =
    fetched second_hop
    ∷ validated "https://cdn.test/b"
    ∷ fetched first_hop
    ∷ validated "https://api.test/a"
    ∷ []

sample_logged :
    log_of fetch_moved validate_all resolve_absolute origin_of same_origin basic_sensitive_headers
      first_hop 0
    ≡ sample_log
unfolding send follow next_headers get
sample_logged = refl

send-Guarded_example :
    (let log =
        log_of fetch_moved validate_all resolve_absolute origin_of same_origin
          basic_sensitive_headers first_hop 0 in
      Guarded log × (fetches log ≤ 6))
send-Guarded_example =
    send-Guarded fetch_moved validate_all resolve_absolute origin_of same_origin
      basic_sensitive_headers first_hop 0

first_sent : Among (fetched first_hop) (
    log_of fetch_moved validate_all resolve_absolute origin_of same_origin basic_sensitive_headers
      first_hop 0)
first_sent = rw sample_logged (inr (inr (inl refl)))

send-confined_example : origin_of "https://api.test/a" ≡ origin_of "https://api.test/a"
send-confined_example =
    send-confined fetch_moved validate_all resolve_absolute origin_of same_origin
      basic_sensitive_headers first_hop first_hop 0 first_sent refl

abbrev retry_config : RetryConfig
retry_config = record {
  max_attempts = 3;
  backoff_ms = 100 ∷ 0 ∷ [];
  retry_on_status = 429 ∷ 503 ∷ [];
}

abbrev no_sleep : Option ℕ → ℕ → ℕ
no_sleep ms w = w

abbrev status_text : ℕ → String
status_text status = "HTTP error"

abbrev failing : ℕ → Outcome × ℕ
failing =
    final_handler fetch_moved validate_all resolve_absolute origin_of same_origin
      basic_sensitive_headers status_text second_hop

-- A response of 404, which is not listed, is asked for three times.
not_found_retried :
    (retry
      (counted failing no_sleep retry_config)
      (sleeping failing no_sleep retry_config)
      retry_config
      (0, 0)).1.0
    ≡ 3
unfolding retry attempts final_handler send follow check_status status_error
not_found_retried = refl

retry-Spent_example :
    (let r =
        retry
          (counted failing no_sleep retry_config)
          (sleeping failing no_sleep retry_config)
          retry_config
          (0, 0) in
      Spent 0 3 r.0 r.1.0)
retry-Spent_example = retry-Spent failing no_sleep retry_config 0

retry-without_list_example :
    retry failing no_sleep retry_config 0 ≡ retry failing no_sleep (without_list retry_config) 0
retry-without_list_example =
    retry-without_list fetch_moved validate_all resolve_absolute origin_of same_origin
      basic_sensitive_headers status_text second_hop no_sleep retry_config 0 refl

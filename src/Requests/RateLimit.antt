-- ===== src/Requests/RateLimit.antt =====
-- src/transport/interceptors.ts, `createRateLimitInterceptor`: the token buckets.
use Prim.Native.Nat.{min}
use mcp4openapi.Prelude.{
  ℕ, ◌+◌, ◌-◌, ◌*◌, String, Option, none, some, [], ◌∷◌, Map, get, set, ltb, if◌then◌else◌, str_eq,
}

pub record RateLimitConfig : Type 0 where
  pub max_requests_per_minute : ℕ
  -- The limit of each operation that has its own.
  pub overrides : Map ℕ

-- Tokens are counted in parts of one in `ms_per_minute`, so a limit is the number of parts that
-- come in per millisecond.
pub record Bucket : Type 0 where
  pub tokens_per_ms : ℕ
  pub tokens : ℕ
  pub last_refill : ℕ

pub record Limiter : Type 0 where
  pub global : Bucket
  pub endpoint_buckets : Map Bucket

abbrev pub ms_per_minute : ℕ
ms_per_minute = 60000

-- One token.
abbrev pub token : ℕ
token = ms_per_minute

abbrev pub full_bucket : ℕ → ℕ → Bucket
full_bucket limit now = record { tokens_per_ms = limit; tokens = limit * token; last_refill = now }

unfoldable pub init_buckets : ℕ → Map ℕ → Map Bucket → Map Bucket
init_buckets now [] m = m
init_buckets now ((operation, limit) ∷ rest) m =
    init_buckets now rest (set operation (full_bucket limit now) m)

-- The clock reads the same for all buckets.
unfoldable pub create_rate_limit : RateLimitConfig → ℕ → Limiter
create_rate_limit config now = record {
  global = full_bucket config.max_requests_per_minute now;
  endpoint_buckets = init_buckets now config.overrides [];
}

-- The operation whose own bucket the request uses, and the bucket; the empty text is no operation.
abbrev pub own_bucket : Option String → Limiter → Option (String × Bucket)
own_bucket none s = none
own_bucket (some operation) s =
    if str_eq operation ""
    then none
    else elim (get operation s.endpoint_buckets) [ none ↦ none | some b ↦ some (operation, b) ]

-- The clock does not run backwards.
abbrev pub refill : ℕ → Bucket → Bucket
refill now b = record b {
  tokens =
      min (b.tokens_per_ms * ms_per_minute) (b.tokens + (now - b.last_refill) * b.tokens_per_ms);
  last_refill = now;
}

-- What a request does with a bucket: the parts of a token that it waits for, `none` if it has not
-- to wait, and the bucket when it goes on.
unfoldable pub take_token : ℕ → Bucket → Option ℕ × Bucket
take_token now b =
    let r = refill now b in
    if ltb r.tokens token
    then (some (token - r.tokens), record r { tokens = 0 })
    else (none, record r { tokens = r.tokens - token })

unfoldable pub acquire : Option String → ℕ → Limiter → Option ℕ × Limiter
acquire operation now s = elim (own_bucket operation s) [
  | some (key, b) ↦
      let (wait, b') = take_token now b in
      (wait, record s { endpoint_buckets = set key b' s.endpoint_buckets })
  | none ↦ let (wait, b') = take_token now s.global in (wait, record s { global = b' })
]

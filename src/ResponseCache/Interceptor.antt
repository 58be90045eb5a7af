-- ===== src/ResponseCache/Interceptor.antt =====
-- src/transport/response-cache-interceptor.ts and src/transport/cache-revalidation-utils.ts: the
-- interceptor in front of the requests to the upstream API. A request is two steps: up to the call
-- of the next handler, or the wait for a request in flight, and from its answer on; the steps of all
-- requests interleave. The recorded events are left out.
use mcp4openapi.Prelude.{
  ℕ, String, Bool, true, false, not, ◌||◌, Option, none, some, List, [], ◌∷◌, ◌++◌, codes, leb, ltb,
  ◌==◌, if◌then◌else◌, Text, text_eq, integer, pos, str_eq, any,
}
use mcp4openapi.Cache.{Store, Platform, read, write, clear, ok, throw, Result}
use mcp4openapi.ResponseCache.Headers.{
  Headers, get_header, present, has_directive, parse_cache_control,
}
use mcp4openapi.ResponseCache.Policy.{
  CachePolicy, RequestContext, ResponseContext, RequestCacheDecision, skip, cacheable,
  evaluate_request_cache_decision, evaluate_response_cache_decision,
}

-- Assignment to a field of an object of headers.
unfoldable pub set_header : Text → Text → Headers → Headers
set_header name v [] = (name, v) ∷ []
set_header name v ((n, w) ∷ hs) =
    if text_eq n name then (n, v) ∷ hs else (n, w) ∷ set_header name v hs

-- `{...hs, ...more}`
unfoldable pub merge_headers : Headers → Headers → Headers
merge_headers hs [] = hs
merge_headers hs ((name, v) ∷ more) = merge_headers (set_header name v hs) more

abbrev pub optional_header : String → Option Text → Headers
optional_header name none = []
optional_header name (some v) = (codes name, v) ∷ []

-- The conditions that the validators of a stored response give; none if it has no validator.
unfoldable pub build_conditional_request_headers : Headers → Headers
build_conditional_request_headers hs =
    optional_header "If-None-Match" (present (get_header (codes "etag") hs))
    ++ optional_header "If-Modified-Since" (present (get_header (codes "last-modified") hs))

unfoldable pub cached_response_requires_revalidation : {B : Type 0} → ResponseContext B → Bool
cached_response_requires_revalidation r =
    has_directive (parse_cache_control (get_header (codes "cache-control") r.headers))
      (codes "no-cache")

unfoldable pub merge_not_modified_response :
    {B : Type 0} → ResponseContext B → ResponseContext B → ResponseContext B
merge_not_modified_response cached fresh = record {
  status = cached.status;
  headers = merge_headers cached.headers fresh.headers;
  body = cached.body;
}

pub record State (B : Type 0) : Type 0 where
  pub store : Store (ResponseContext B)
  pub in_flight : List String

-- What a request does first: it calls the next handler past the cache, is answered from the cache,
-- waits for the request in flight, or calls the next handler with the headers given, and keeps the
-- stored response that is validated again.
pub data Start (B : Type 0) : Type 0 where
  bypass : Start B
  hit : ResponseContext B → Start B
  wait : String → Start B
  fetch : String → Headers → Option (ResponseContext B) → Start B

-- What the interceptor is made with; the builder of keys and `Date.parse` are parameters.
pub record Parts (B : Type 0) : Type 0 where
  pub policy : CachePolicy
  pub sensitive_headers : List Text
  pub build_key : RequestContext B → String
  pub parse_date : Text → Option ℕ
  pub platform : Platform (ResponseContext B)

abbrev pub is_in_flight : String → List String → Bool
is_in_flight key keys = any (λ k. str_eq k key) keys

unfoldable pub remove_key : String → List String → List String
remove_key key [] = []
remove_key key (k ∷ ks) = if str_eq k key then remove_key key ks else k ∷ remove_key key ks

module _ {B : Type 0} (p : Parts B) where
  -- The stored response that has to be validated again, if it has a validator.
  abbrev pub conditions : Option (ResponseContext B) → Bool → Headers
  conditions none must = []
  conditions (some cached) must =
      if must then build_conditional_request_headers cached.headers else []

  abbrev pub validated : Option (ResponseContext B) → Headers → Option (ResponseContext B)
  validated cached [] = none
  validated cached (h ∷ hs) = cached

  -- From the test of the requests in flight on.
  unfoldable pub begin_origin_request :
      RequestContext B → String → Option (ResponseContext B) → Bool → State B → State B × Start B
  begin_origin_request ctx key cached must s =
      if is_in_flight key s.in_flight then (s, wait key) else (
        record s { in_flight = key ∷ s.in_flight },
        fetch key (merge_headers ctx.headers (conditions cached must))
            (validated cached (conditions cached must)),
      )

  abbrev pub must_revalidate : RequestCacheDecision → Option (ResponseContext B) → Bool
  must_revalidate decision none = false
  must_revalidate decision (some cached) =
      decision.requires_revalidation || cached_response_requires_revalidation cached

  -- What is done with the entry that was read.
  unfoldable pub use_cached :
      RequestContext B
      → RequestCacheDecision
      → String
      → Option (ResponseContext B)
      → State B
      → State B × Start B
  use_cached ctx decision key none s = begin_origin_request ctx key none false s
  use_cached ctx decision key (some cached) s =
      if must_revalidate decision (some cached)
      then begin_origin_request ctx key (some cached) true s
      else (s, hit cached)

  abbrev pub decision_of : RequestContext B → RequestCacheDecision
  decision_of ctx = evaluate_request_cache_decision p.policy p.sensitive_headers ctx

  -- The interceptor up to its first wait.
  unfoldable pub begin : RequestContext B → ℕ → State B → State B × Start B
  begin ctx now s =
      if not (decision_of ctx).can_read_from_cache
      then (s, bypass)
      else (let (store, cached) = read (p.build_key ctx) now s.store in
          use_cached ctx (decision_of ctx) (p.build_key ctx) cached (record s { store = store }))

  -- A write that throws leaves the store as it was.
  abbrev pub stored :
      {E : Type 0}
      → Store (ResponseContext B)
      → Result (Store (ResponseContext B) × E)
      → Store (ResponseContext B)
  stored s (ok (t, e)) = t
  stored s (throw e) = s

  unfoldable pub store_if_cacheable : String → ResponseContext B → ℕ → State B → State B
  store_if_cacheable key response now s =
      elim (evaluate_response_cache_decision p.parse_date response p.policy now) [
        | skip reason ↦ s
        | cacheable ttl revalidate ↦ record s {
          store = stored s.store (write p.platform key response (integer (pos ttl)) now s.store);
        }
      ]

  unfoldable pub invalidate_after_unsafe_mutation :
      RequestContext B → ResponseContext B → State B → State B
  invalidate_after_unsafe_mutation ctx response s =
      if not (decision_of ctx).is_unsafe_mutation_method
      then s
      else if ltb response.status 200 || leb 300 response.status
      then s
      else record { store = clear s.store; in_flight = [] }

  abbrev pub not_modified : ℕ
  not_modified = 304

  -- The response that a request for a validation ends with.
  unfoldable pub revalidated : Option (ResponseContext B) → ResponseContext B → ResponseContext B
  revalidated none response = response
  revalidated (some cached) response =
      if response.status == not_modified
      then merge_not_modified_response cached response
      else response

  -- A request past the cache is answered.
  unfoldable pub finish_bypass : RequestContext B → ResponseContext B → State B → State B
  finish_bypass ctx response s = invalidate_after_unsafe_mutation ctx response s

  -- A request that leads is answered.
  unfoldable pub finish_fetch :
      RequestContext B
      → String
      → Option (ResponseContext B)
      → ResponseContext B
      → ℕ
      → State B
      → State B × ResponseContext B
  finish_fetch ctx key cached response now s =
      let r = revalidated cached response in
      let s' = if (decision_of ctx).can_store_response then store_if_cacheable key r now s else s in
      let s'' = invalidate_after_unsafe_mutation ctx r s' in
      (record s'' { in_flight = remove_key key s''.in_flight }, r)

  -- The next handler throws: nothing is stored.
  unfoldable pub finish_throw : String → State B → State B
  finish_throw key s = record s { in_flight = remove_key key s.in_flight }

-- ===== src/ResponseCache/Policy.antt =====
-- src/transport/cache-policy-evaluator.ts: whether a request may be answered from the cache, and
-- whether a response may be stored. `Date.parse` is a parameter.
use mcp4openapi.Prelude.{
  ℕ, ◌-◌, ◌*◌, Bool, true, false, not, ◌&&◌, ◌||◌, Option, none, some, List, [], ◌∷◌, map, codes,
  leb, ltb, all, any, if◌then◌else◌, Text, text_eq, is_empty, lower, one_of, trim, parts_of,
}
use Prim.Native.Nat.{◌/◌}
use mcp4openapi.ResponseCache.Headers.{
  Headers, get_header, present, Directive, flag, value, Directives, get_directive, has_directive,
  parse_cache_control, parse_non_negative_integer, VaryHeader, parse_vary_header,
}

pub data CacheScope : Type 0 where
  public : CacheScope
  private : CacheScope
  session : CacheScope

pub record CachePolicy : Type 0 where
  pub scope : CacheScope
  pub allow_shared_with_auth : Bool
  pub ttl_seconds : ℕ
  pub methods : List Text
  pub vary_headers : List Text

pub record RequestContext (B : Type 0) : Type 0 where
  pub method : Text
  pub url : Text
  pub headers : Headers
  pub body : Option B

pub record ResponseContext (B : Type 0) : Type 0 where
  pub status : ℕ
  pub headers : Headers
  pub body : B

pub data CacheSkipReason : Type 0 where
  req_no_store : CacheSkipReason
  req_public_scope_auth : CacheSkipReason
  resp_non_success : CacheSkipReason
  resp_no_store : CacheSkipReason
  resp_no_cache : CacheSkipReason
  resp_private : CacheSkipReason
  resp_set_cookie_shared : CacheSkipReason
  resp_vary_star : CacheSkipReason
  resp_vary_unsupported : CacheSkipReason
  resp_ttl_non_positive : CacheSkipReason
  resp_invalid_directive : CacheSkipReason

pub record RequestCacheDecision : Type 0 where
  pub can_read_from_cache : Bool
  pub can_store_response : Bool
  pub skip_reason : Option CacheSkipReason
  pub is_unsafe_mutation_method : Bool
  pub requires_revalidation : Bool

pub data ResponseCacheDecision : Type 0 where
  skip : CacheSkipReason → ResponseCacheDecision
  cacheable : ℕ → Bool → ResponseCacheDecision

-- `toUpperCase` on ASCII.
abbrev pub upper : Text → Text
upper = map (λ c. if leb b'a' c && leb c b'z' then c - 32 else c)

abbrev pub text_among : Text → List Text → Bool
text_among t ts = any (λ s. text_eq s t) ts

abbrev pub is_unsafe : Text → Bool
is_unsafe method = one_of ("POST" ∷ "PUT" ∷ "PATCH" ∷ "DELETE" ∷ []) (upper method)

abbrev pub is_public : CacheScope → Bool
is_public public = true
is_public private = false
is_public session = false

unfoldable pub has_sensitive_headers : List Text → Headers → Bool
has_sensitive_headers sensitive [] = false
has_sensitive_headers sensitive ((name, v) ∷ hs) =
    not (is_empty v) && text_among (lower name) sensitive || has_sensitive_headers sensitive hs

abbrev pub is_there : {A : Type 0} → Option A → Bool
is_there none = false
is_there (some a) = true

-- `pragma?.toLowerCase().split(',').map(trim).includes('no-cache')`
abbrev pub pragma_no_cache : Option Text → Bool
pragma_no_cache none = false
pragma_no_cache (some t) =
    any (λ part. text_eq (trim part) (codes "no-cache")) (parts_of b',' (lower t))

abbrev pub passed_by : Option CacheSkipReason → Bool → RequestCacheDecision
passed_by reason unsafe_method = record {
  can_read_from_cache = false;
  can_store_response = false;
  skip_reason = reason;
  is_unsafe_mutation_method = unsafe_method;
  requires_revalidation = false;
}

abbrev pub from_cache : Bool → Bool → RequestCacheDecision
from_cache revalidate unsafe_method = record {
  can_read_from_cache = true;
  can_store_response = true;
  skip_reason = none;
  is_unsafe_mutation_method = unsafe_method;
  requires_revalidation = revalidate;
}

module _ {B : Type 0} (policy : CachePolicy) where
  -- The tests of the headers, with the directives of the request.
  unfoldable pub decide_request : List Text → RequestContext B → Directives → RequestCacheDecision
  decide_request sensitive ctx ds =
      if has_directive ds (codes "no-store")
      then passed_by (some req_no_store) (is_unsafe ctx.method)
      else if has_directive ds (codes "no-cache")
      then from_cache true (is_unsafe ctx.method)
      else if pragma_no_cache (get_header (codes "pragma") ctx.headers)
      then from_cache true (is_unsafe ctx.method)
      else if is_public policy.scope
          && not policy.allow_shared_with_auth
          && has_sensitive_headers sensitive ctx.headers
      then passed_by (some req_public_scope_auth) (is_unsafe ctx.method)
      else from_cache false (is_unsafe ctx.method)

  unfoldable pub evaluate_request_cache_decision :
      List Text → RequestContext B → RequestCacheDecision
  evaluate_request_cache_decision sensitive ctx =
      if not (text_among (upper ctx.method) policy.methods)
      then passed_by none (is_unsafe ctx.method)
      else if is_there ctx.body
      then passed_by none (is_unsafe ctx.method)
      else decide_request sensitive ctx
          (parse_cache_control (get_header (codes "cache-control") ctx.headers))

-- The text of a directive's value; one without a value is the empty text.
abbrev pub directive_text : Option Directive → Option Text
directive_text none = none
directive_text (some flag) = some []
directive_text (some (value t)) = some t

unfoldable pub select_age_directive : Directives → Bool → Option Text
select_age_directive ds shared = elim (directive_text (get_directive (codes "s-maxage") ds)) [
  | none ↦ directive_text (get_directive (codes "max-age") ds)
  | some age ↦ if shared then some age else directive_text (get_directive (codes "max-age") ds)
]

-- Milliseconds of a date, or nothing for a text that is none. Times before 1970 count as 1970.
module _ (parse_date : Text → Option ℕ) where
  -- The time that is left by the headers `Expires`, `Date` and `Age`, in whole seconds; a time that
  -- is over counts as 0, as all that is not positive does below.
  unfoldable pub resolve_expires_based_ttl : Headers → ℕ → Option ℕ
  resolve_expires_based_ttl hs now = elim (present (get_header (codes "expires") hs)) [
    | none ↦ none
    | some expires ↦ elim (parse_date expires) [
      | none ↦ none
      | some expires_ms ↦
          let reference : ℕ = elim (present (get_header (codes "date") hs)) [
            | none ↦ now
            | some date ↦ elim (parse_date date) [ none ↦ now | some ms ↦ ms ]
          ] in
          elim (present (get_header (codes "age") hs)) [
            | none ↦ some ((expires_ms - reference) / 1000)
            | some age ↦ elim (parse_non_negative_integer age) [
              | none ↦ none
              | some seconds ↦ some ((expires_ms - reference - seconds * 1000) / 1000)
            ]
          ]
    ]
  ]

  -- `none` stands for 'invalid'.
  unfoldable pub resolve_ttl_seconds : Headers → Directives → CachePolicy → ℕ → Option ℕ
  resolve_ttl_seconds hs ds policy now = elim (select_age_directive ds (is_public policy.scope)) [
    | some age ↦ parse_non_negative_integer age
    | none ↦ elim (resolve_expires_based_ttl hs now) [
      | some ttl ↦ some ttl
      | none ↦ some policy.ttl_seconds
    ]
  ]

  abbrev pub has_revalidation_validators : Headers → Bool
  has_revalidation_validators hs =
      is_there (present (get_header (codes "etag") hs))
      || is_there (present (get_header (codes "last-modified") hs))

  -- From the time to live to the end.
  unfoldable pub decide_ttl : Headers → CachePolicy → Bool → Option ℕ → ResponseCacheDecision
  decide_ttl hs policy revalidate none = skip resp_invalid_directive
  decide_ttl hs policy revalidate (some ttl) =
      if revalidate && not (has_revalidation_validators hs)
      then skip resp_no_cache
      else if not revalidate && leb ttl 0
      then skip resp_ttl_non_positive
      else cacheable (if leb ttl 0 then policy.ttl_seconds else ttl) revalidate

  -- From the header `Vary` on.
  unfoldable pub decide_vary :
      Headers → CachePolicy → Directives → ℕ → VaryHeader → ResponseCacheDecision
  decide_vary hs policy ds now vary =
      if vary.star
      then skip resp_vary_star
      else if not (all (λ name. text_among name policy.vary_headers) vary.headers)
      then skip resp_vary_unsupported
      else decide_ttl hs policy (has_directive ds (codes "no-cache"))
          (resolve_ttl_seconds hs ds policy now)

  unfoldable pub decide_response : Headers → CachePolicy → ℕ → Directives → ResponseCacheDecision
  decide_response hs policy now ds =
      if has_directive ds (codes "no-store")
      then skip resp_no_store
      else if is_public policy.scope && has_directive ds (codes "private")
      then skip resp_private
      else if is_public policy.scope
          && not policy.allow_shared_with_auth
          && is_there (present (get_header (codes "set-cookie") hs))
      then skip resp_set_cookie_shared
      else decide_vary hs policy ds now (parse_vary_header (get_header (codes "vary") hs))

  unfoldable pub evaluate_response_cache_decision :
      {B : Type 0} → ResponseContext B → CachePolicy → ℕ → ResponseCacheDecision
  evaluate_response_cache_decision response policy now =
      if ltb response.status 200 || leb 300 response.status
      then skip resp_non_success
      else decide_response response.headers policy now
          (parse_cache_control (get_header (codes "cache-control") response.headers))

-- ===== src/ResponseCache/Storable.antt =====
-- What a response has that may be stored.
use mcp4openapi.Prelude.{
  ℕ, ◌≤◌, ◌<◌, ◌≡◌, Bool, true, false, not, ◌&&◌, Option, none, some, codes, all, Text, arith, sym,
  ◌∙◌,
}
use mcp4openapi.ResponseCache.Headers.{
  Headers, get_header, present, Directives, has_directive, parse_cache_control, parse_vary_header,
  VaryHeader,
}
use mcp4openapi.ResponseCache.Policy.{
  CachePolicy, ResponseContext, cacheable, is_public, is_there, text_among, decide_ttl, decide_vary,
  decide_response, evaluate_response_cache_decision, has_revalidation_validators,
  resolve_ttl_seconds,
}

abbrev pub directives_of : Headers → Directives
directives_of hs = parse_cache_control (get_header (codes "cache-control") hs)

abbrev pub vary_of : Headers → VaryHeader
vary_of hs = parse_vary_header (get_header (codes "vary") hs)

module _ (parse_date : Text → Option ℕ) where
  pub record IsStorable {B : Type 0} (r : ResponseContext B) (policy : CachePolicy) (ttl : ℕ)
      (revalidate : Bool) : Type 0 where
    pub success : (200 ≤ r.status) × (r.status < 300)
    pub may_store : has_directive (directives_of r.headers) (codes "no-store") ≡ false
    pub not_private :
        is_public policy.scope ≡ true
        → has_directive (directives_of r.headers) (codes "private") ≡ false
    pub no_cookie :
        is_public policy.scope ≡ true
        → policy.allow_shared_with_auth ≡ false
        → is_there (present (get_header (codes "set-cookie") r.headers)) ≡ false
    pub no_star : (vary_of r.headers).star ≡ false
    pub varied :
        all (λ name. text_among name policy.vary_headers) (vary_of r.headers).headers ≡ true
    pub revalidated : revalidate ≡ has_directive (directives_of r.headers) (codes "no-cache")
    pub has_validator : revalidate ≡ true → has_revalidation_validators parse_date r.headers ≡ true
    pub lives : revalidate ≡ false → 0 < ttl

  ttl_lem :
      (hs : Headers) (policy : CachePolicy) (asks : Bool) (o : Option ℕ) (ttl : ℕ)
      (revalidate : Bool)
      → decide_ttl parse_date hs policy asks o ≡ cacheable ttl revalidate
      → (revalidate ≡ asks)
        × (asks ≡ true → has_revalidation_validators parse_date hs ≡ true)
        × (asks ≡ false → 0 < ttl)
  unfolding decide_ttl
  ttl_lem hs policy asks none ttl revalidate e = absurd (ground arith)
  ttl_lem hs policy true (some t) ttl revalidate e =
      (ground arith, λ _. ground arith, λ h. absurd (cc))
  ttl_lem hs policy false (some t) ttl revalidate e =
      (ground arith, λ h. absurd (cc), λ _. ground arith)

  vary_lem :
      (hs : Headers) (policy : CachePolicy) (ds : Directives) (now : ℕ) (vary : VaryHeader)
      (ttl : ℕ) (revalidate : Bool)
      → decide_vary parse_date hs policy ds now vary ≡ cacheable ttl revalidate
      → (vary.star ≡ false)
        × (all (λ name. text_among name policy.vary_headers) vary.headers ≡ true)
        × (decide_ttl parse_date hs policy
              (has_directive ds (codes "no-cache"))
              (resolve_ttl_seconds parse_date hs ds policy now)
            ≡ cacheable ttl revalidate)
  unfolding decide_vary
  vary_lem hs policy ds now vary ttl revalidate e = (ground arith, ground arith, ground arith)

  response_lem :
      (hs : Headers) (policy : CachePolicy) (now : ℕ) (ds : Directives) (ttl : ℕ)
      (revalidate : Bool)
      → decide_response parse_date hs policy now ds ≡ cacheable ttl revalidate
      → (has_directive ds (codes "no-store") ≡ false)
        × ((is_public policy.scope && has_directive ds (codes "private")) ≡ false)
        × ((is_public policy.scope
              && not policy.allow_shared_with_auth
              && is_there (present (get_header (codes "set-cookie") hs)))
            ≡ false)
        × (decide_vary parse_date hs policy ds now (vary_of hs) ≡ cacheable ttl revalidate)
  unfolding decide_response
  response_lem hs policy now ds ttl revalidate e =
      (ground arith, ground arith, ground arith, ground arith)

  -- A response that is stored is a success, its headers forbid no store, a policy that shares
  -- responses stores none that is private or sets a cookie, the headers it varies by are in the key,
  -- and it has time to live, or a validator if it must be validated each time.
  pub evaluate-IsStorable :
      {B : Type 0} (r : ResponseContext B) (policy : CachePolicy) (now ttl : ℕ) (revalidate : Bool)
      → evaluate_response_cache_decision parse_date r policy now ≡ cacheable ttl revalidate
      → IsStorable r policy ttl revalidate
  unfolding evaluate_response_cache_decision
  evaluate-IsStorable r policy now ttl revalidate e =
      let ds = directives_of r.headers in
      let decided : decide_response parse_date r.headers policy now ds ≡ cacheable ttl revalidate =
        ground arith in
      let (may_store, apart, cookie, vary) =
        response_lem r.headers policy now ds ttl revalidate decided in
      let (no_star, varied, rest) =
        vary_lem r.headers policy ds now (vary_of r.headers) ttl revalidate vary in
      let (same, validator, lives) =
        ttl_lem r.headers policy (has_directive ds (codes "no-cache"))
          (resolve_ttl_seconds parse_date r.headers ds policy now) ttl revalidate rest in
      record {
        success = ground arith;
        may_store = may_store;
        not_private = λ h. rw h at apart;
        no_cookie = λ h k. rw (h, k) at cookie;
        no_star = no_star;
        varied = varied;
        revalidated = same;
        has_validator = λ h. validator (sym same ∙ h);
        lives = λ h. lives (sym same ∙ h);
      }

-- ===== src/ResponseCache/Served.antt =====
-- What the interceptor stores is what it answers with, also where it had better not.
use mcp4openapi.Prelude.{
  ℕ, ◌+◌, ◌*◌, ◌<◌, ◌≡◌, refl, ap, ◌∙◌, String, true, false, Option, none, some, List, codes,
  integer, pos, arith,
}
use mcp4openapi.Cache.{Store, read, write, ok, EvictionReason}
use mcp4openapi.Cache.Writes.{IsValid, read-write}
use mcp4openapi.ResponseCache.Headers.{get_header, has_directive, parse_cache_control}
use mcp4openapi.ResponseCache.Policy.{
  RequestContext, ResponseContext, cacheable, is_unsafe, is_public, pragma_no_cache,
  has_sensitive_headers, evaluate_request_cache_decision, decide_request,
  evaluate_response_cache_decision, text_among, upper, is_there,
}
use mcp4openapi.ResponseCache.Interceptor.{
  State, hit, bypass, Parts, begin, use_cached, decision_of, finish_fetch, finish_bypass,
  revalidated, store_if_cacheable, invalidate_after_unsafe_mutation,
  cached_response_requires_revalidation,
}

module _ {B : Type 0} (p : Parts B) where
  -- A request that may be answered from the cache, without a validation.
  pub record IsPlain (ctx : RequestContext B) : Type 0 where
    pub reads : (decision_of p ctx).can_read_from_cache ≡ true
    pub trusting : (decision_of p ctx).requires_revalidation ≡ false

  -- The write of a response that may be stored, and that needs no validation.
  pub record IsStored (key : String) (r : ResponseContext B) (now ttl : ℕ)
      (s t : Store (ResponseContext B)) (reasons : List EvictionReason) : Type 0 where
    pub decided : evaluate_response_cache_decision p.parse_date r p.policy now ≡ cacheable ttl false
    pub some_time : 0 < ttl
    pub trusted : cached_response_requires_revalidation r ≡ false
    pub written : write p.platform key r (integer (pos ttl)) now s ≡ ok (t, reasons)

  begin-hit :
      (ctx : RequestContext B) (now : ℕ) (s : State B) (r : ResponseContext B)
      → IsPlain ctx
      → cached_response_requires_revalidation r ≡ false
      → (read (p.build_key ctx) now s.store).1 ≡ some r
      → (begin p ctx now s).1 ≡ hit r
  unfolding begin use_cached
  begin-hit ctx now s r plain trusted there =
      rw (plain.reads, begin, there, use_cached, plain.trusting, trusted) refl

  store_if_cacheable-store :
      (key : String) (r : ResponseContext B) (now ttl : ℕ) (s : State B)
      {t : Store (ResponseContext B)} {reasons : List EvictionReason}
      → IsStored key r now ttl s.store t reasons
      → store_if_cacheable p key r now s ≡ record s { store = t }
  unfolding store_if_cacheable
  store_if_cacheable-store key r now ttl s w = rw (w.decided, store_if_cacheable, w.written) refl

  finish-store :
      (ctx : RequestContext B) (key : String) (cached : Option (ResponseContext B))
      (response : ResponseContext B) (now ttl : ℕ) (s : State B) {t : Store (ResponseContext B)}
      {reasons : List EvictionReason}
      → (decision_of p ctx).can_store_response ≡ true
      → (decision_of p ctx).is_unsafe_mutation_method ≡ false
      → IsStored key (revalidated p cached response) now ttl s.store t reasons
      → (finish_fetch p ctx key cached response now s).0.store ≡ t
  unfolding finish_fetch invalidate_after_unsafe_mutation
  finish-store ctx key cached response now ttl s {t} stores safe w =
      let r = revalidated p cached response in
      let kept = store_if_cacheable-store key r now ttl s {t = t} w in
      rw (stores, safe) (ap (λ x. x.store) kept)

  -- A response that is stored answers every later request with the same key that may be answered
  -- from the cache and asks for no validation, until its time to live is over.
  pub finish_fetch-hit :
      (ctx ctx' : RequestContext B) (cached : Option (ResponseContext B))
      (response : ResponseContext B) (now ttl at : ℕ) (s : State B) {t : Store (ResponseContext B)}
      {reasons : List EvictionReason}
      → (decision_of p ctx).can_store_response ≡ true
      → (decision_of p ctx).is_unsafe_mutation_method ≡ false
      → IsStored (p.build_key ctx) (revalidated p cached response) now ttl s.store t reasons
      → IsValid s.store
      → IsPlain ctx'
      → p.build_key ctx' ≡ p.build_key ctx
      → at < now + ttl * 1000
      → (begin p ctx' at (finish_fetch p ctx (p.build_key ctx) cached response now s).0).1
        ≡ hit (revalidated p cached response)
  finish_fetch-hit ctx ctx' cached response now ttl at s {t} stores safe w v plain same fresh =
      let r = revalidated p cached response in
      let k = p.build_key ctx in
      let found =
        read-write p.platform k r now s.store ttl at {t = t} w.some_time fresh v w.written in
      begin-hit ctx' at (finish_fetch p ctx k cached response now s).0 r plain w.trusted
        (rw (same, finish-store ctx k cached response now ttl s {t = t} stores safe w) found)

  pub decision-unsafe :
      (ctx : RequestContext B)
      → (decision_of p ctx).is_unsafe_mutation_method ≡ is_unsafe ctx.method
  unfolding evaluate_request_cache_decision decide_request
  decision-unsafe ctx = ground arith

  sensitive_unread :
      (ctx : RequestContext B)
      → is_public p.policy.scope ≡ true
      → p.policy.allow_shared_with_auth ≡ false
      → has_sensitive_headers p.sensitive_headers ctx.headers ≡ true
      → has_directive
          (parse_cache_control (get_header (codes "cache-control") ctx.headers))
          (codes "no-cache")
        ≡ false
      → pragma_no_cache (get_header (codes "pragma") ctx.headers) ≡ false
      → (decision_of p ctx).can_read_from_cache ≡ false
  unfolding evaluate_request_cache_decision decide_request
  sensitive_unread ctx shared apart secret plain plain' =
      rw (shared, apart, secret, plain, plain') (ground arith)

  -- A request with a header that identifies its user is answered past the cache under a policy that
  -- shares responses, and touches nothing that is stored, unless it is a mutation that succeeds. It
  -- must not ask for a validation.
  pub sensitive_bypasses :
      (ctx : RequestContext B) (now : ℕ) (response : ResponseContext B) (s : State B)
      → is_public p.policy.scope ≡ true
      → p.policy.allow_shared_with_auth ≡ false
      → has_sensitive_headers p.sensitive_headers ctx.headers ≡ true
      → has_directive
          (parse_cache_control (get_header (codes "cache-control") ctx.headers))
          (codes "no-cache")
        ≡ false
      → pragma_no_cache (get_header (codes "pragma") ctx.headers) ≡ false
      → is_unsafe ctx.method ≡ false
      → (begin p ctx now s ≡ (s, bypass)) × (finish_bypass p ctx response s ≡ s)
  unfolding begin finish_bypass invalidate_after_unsafe_mutation
  sensitive_bypasses ctx now response s shared apart secret plain plain' safe =
      let unread = sensitive_unread ctx shared apart secret plain plain' in
      let harmless : (decision_of p ctx).is_unsafe_mutation_method ≡ false =
        decision-unsafe ctx ∙ safe in
      (rw (unread, begin) refl, rw (harmless, finish_bypass, invalidate_after_unsafe_mutation) refl)

  no_cache_stores :
      (ctx : RequestContext B)
      → text_among (upper ctx.method) p.policy.methods ≡ true
      → is_there ctx.body ≡ false
      → is_unsafe ctx.method ≡ false
      → has_directive
          (parse_cache_control (get_header (codes "cache-control") ctx.headers))
          (codes "no-store")
        ≡ false
      → has_directive
          (parse_cache_control (get_header (codes "cache-control") ctx.headers))
          (codes "no-cache")
        ≡ true
      → ((decision_of p ctx).can_store_response ≡ true)
        × ((decision_of p ctx).is_unsafe_mutation_method ≡ false)
  unfolding evaluate_request_cache_decision decide_request
  no_cache_stores ctx listed empty safe kept asks =
      (rw (listed, empty, kept, asks) refl, decision-unsafe ctx ∙ safe)

  -- With `no-cache` beside it the same request is stored, and what it was answered is what other
  -- requests with its key get, from whomever they come.
  pub sensitive_stored :
      (ctx ctx' : RequestContext B) (response : ResponseContext B) (now ttl at : ℕ) (s : State B)
      {t : Store (ResponseContext B)} {reasons : List EvictionReason}
      → text_among (upper ctx.method) p.policy.methods ≡ true
      → is_there ctx.body ≡ false
      → is_unsafe ctx.method ≡ false
      → has_directive
          (parse_cache_control (get_header (codes "cache-control") ctx.headers))
          (codes "no-store")
        ≡ false
      → has_directive
          (parse_cache_control (get_header (codes "cache-control") ctx.headers))
          (codes "no-cache")
        ≡ true
      → IsStored (p.build_key ctx) response now ttl s.store t reasons
      → IsValid s.store
      → IsPlain ctx'
      → p.build_key ctx' ≡ p.build_key ctx
      → at < now + ttl * 1000
      → (begin p ctx' at (finish_fetch p ctx (p.build_key ctx) none response now s).0).1
        ≡ hit response
  unfolding revalidated
  sensitive_stored ctx ctx' response now ttl at s {t} listed empty safe kept asks w v plain same
        fresh =
      let (stores, harmless) = no_cache_stores ctx listed empty safe kept asks in
      finish_fetch-hit ctx ctx' none response now ttl at s {t = t} stores harmless w v plain same
        fresh

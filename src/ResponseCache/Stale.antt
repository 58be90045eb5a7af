-- ===== src/ResponseCache/Stale.antt =====
-- A read in flight while a mutation clears the cache.
use mcp4openapi.Prelude.{
  ℕ, ◌+◌, ◌*◌, ◌<◌, ◌≡◌, refl, sym, ap, subst, ◌∙◌, String, Bool, true, false, not, Option, none,
  some, List, [], leb, ltb, get, Bool-cases, if◌then◌else◌, not, inl, inr,
}
use mcp4openapi.Cache.{Store, read, clear, EvictionReason}
use mcp4openapi.Cache.Writes.{IsValid, clear-IsValid}
use mcp4openapi.Cache.Reads.{read-IsValid}
use mcp4openapi.ResponseCache.Headers.{Headers}
use mcp4openapi.ResponseCache.Policy.{
  RequestContext, ResponseContext, is_unsafe, RequestCacheDecision,
}
use mcp4openapi.ResponseCache.Interceptor.{
  State, Start, hit, bypass, fetch, Parts, begin, begin_origin_request, use_cached, decision_of,
  finish_fetch, finish_bypass, revalidated, invalidate_after_unsafe_mutation, is_in_flight,
  must_revalidate,
}
use mcp4openapi.ResponseCache.Served.{IsPlain, IsStored, finish_fetch-hit, decision-unsafe}

module _ {B : Type 0} (p : Parts B) where
  begin_origin_request-store :
      (ctx : RequestContext B) (key : String) (cached : Option (ResponseContext B)) (must : Bool)
      (s : State B)
      → (begin_origin_request p ctx key cached must s).0.store ≡ s.store
  unfolding begin_origin_request
  begin_origin_request-store ctx key cached must s =
      elim (Bool-cases (is_in_flight key s.in_flight)) [
        | inl there ↦ rw (there, begin_origin_request) refl
        | inr new ↦ rw (new, begin_origin_request) refl
      ]

  use_cached-store :
      (ctx : RequestContext B) (decision : RequestCacheDecision) (key : String)
      (cached : Option (ResponseContext B)) (s : State B)
      → (use_cached p ctx decision key cached s).0.store ≡ s.store
  unfolding use_cached
  use_cached-store ctx decision key none s = begin_origin_request-store ctx key none false s
  use_cached-store ctx decision key (some cached) s =
      elim (Bool-cases (must_revalidate p decision (some cached))) [
        | inl must ↦ rw (must, use_cached) (begin_origin_request-store ctx key (some cached) true s)
        | inr trusted ↦ rw (trusted, use_cached) refl
      ]

  past_or_read :
      (s : State B) (reads : Bool) (found : State B × Start B)
      → IsValid s.store
      → IsValid found.0.store
      → IsValid (if not reads then (s, bypass) else found).0.store
  past_or_read s false found v w = v
  past_or_read s true found v w = w

  begin-IsValid :
      (ctx : RequestContext B) (now : ℕ) (s : State B)
      → IsValid s.store
      → IsValid (begin p ctx now s).0.store
  unfolding begin
  begin-IsValid ctx now s v =
      let key = p.build_key ctx in
      let there = read key now s.store in
      let s' : State B = record s { store = there.0 } in
      past_or_read s (decision_of p ctx).can_read_from_cache
        (use_cached p ctx (decision_of p ctx) key there.1 s') v
        (subst IsValid (sym (use_cached-store ctx (decision_of p ctx) key there.1 s'))
          (read-IsValid key now s.store v))

  -- A mutation that succeeds clears what is stored and forgets what is in flight.
  mutation-clears :
      (change : RequestContext B) (done : ResponseContext B) (s : State B)
      → is_unsafe change.method ≡ true
      → ltb done.status 200 ≡ false
      → leb 300 done.status ≡ false
      → finish_bypass p change done s ≡ record { store = clear s.store; in_flight = [] }
  unfolding finish_bypass invalidate_after_unsafe_mutation
  mutation-clears change done s unsafe ok_ ok' =
      let mutates : (decision_of p change).is_unsafe_mutation_method ≡ true =
        decision-unsafe p change ∙ unsafe in
      rw (mutates, finish_bypass, invalidate_after_unsafe_mutation, ok_, ok') refl

  cleared_read :
      {R : Type 0} (key : String) (now : ℕ) (s : Store R) → (read key now (clear s)).1 ≡ none
  unfolding read clear get
  cleared_read key now s = refl

  -- A read has called the next handler when a mutation comes, which passes the cache and succeeds.
  -- The mutation leaves no response in the cache and nothing in flight; yet the read stores its
  -- response when it ends, if it may be stored, and this response is served to the later requests
  -- with its key that may be answered from the cache, until its time to live is over.
  pub stale_after_mutation :
      (ctx ctx' change : RequestContext B) (response done : ResponseContext B)
      (start during now ttl at when : ℕ) (key : String) (s : State B) {reading cleared : State B}
      {headers : Headers} {cached : Option (ResponseContext B)} {t : Store (ResponseContext B)}
      {reasons : List EvictionReason}
      → IsValid s.store
      → begin p ctx start s ≡ (reading, fetch (p.build_key ctx) headers cached)
      → (decision_of p ctx).can_store_response ≡ true
      → is_unsafe ctx.method ≡ false
      → begin p change during reading ≡ (reading, bypass)
      → is_unsafe change.method ≡ true
      → ltb done.status 200 ≡ false
      → leb 300 done.status ≡ false
      → finish_bypass p change done reading ≡ cleared
      → IsStored p (p.build_key ctx) (revalidated p cached response) now ttl cleared.store t reasons
      → IsPlain p ctx'
      → p.build_key ctx' ≡ p.build_key ctx
      → at < now + ttl * 1000
      → ((read key when cleared.store).1 ≡ none)
        × (cleared.in_flight ≡ [])
        × ((begin p ctx' at (finish_fetch p ctx (p.build_key ctx) cached response now cleared).0).1
            ≡ hit (revalidated p cached response))
  stale_after_mutation ctx ctx' change response done start during now ttl at when key s {reading}
        {cleared} {headers} {cached} {t} v fetches stores safe bypasses unsafe ok_ ok' mutated w
        plain same fresh =
      let clears : cleared ≡ record { store = clear reading.store; in_flight = [] } =
        sym mutated ∙ mutation-clears change done reading unsafe ok_ ok' in
      let valid : IsValid reading.store =
        subst (λ r. IsValid r.0.store) fetches (begin-IsValid ctx start s v) in
      (
        rw clears (cleared_read key when reading.store),
        ap (λ c. c.in_flight) clears,
        finish_fetch-hit p ctx ctx' cached response now ttl at cleared {t = t} stores
            (decision-unsafe p ctx ∙ safe) w (rw clears (clear-IsValid reading.store valid)) plain
            same fresh,
      )

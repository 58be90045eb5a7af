-- ===== src/ResponseCache/Tests.antt =====
-- The theorems at concrete inputs: a shared cache, a request with a token, and a mutation.
use mcp4openapi.Prelude.{
  ℕ, ◌≡◌, refl, String, true, false, Option, none, some, [], ◌∷◌, codes, Text, arith, integer, pos,
  split_on, trim_start, get, set,
}
use mcp4openapi.Cache.{
  Store, write, write_entry, estimate_entry_size, remove_existing, remove_expired,
  remove_expired_from, insert, evict_until_within_budget, evict, clear, ok, read,
}
use mcp4openapi.Cache.Removal.{weight}
use mcp4openapi.Cache.Writes.{IsValid}
use mcp4openapi.ResponseCache.Headers.{
  Headers, get_header, parse_cache_control, parse_directive, add_directive, add_directives,
  set_directive, get_directive, split_equals, strip_optional_quotes, parse_non_negative_integer,
  decimal, parse_vary_header, vary_fields, flag, value,
}
use mcp4openapi.ResponseCache.Policy.{
  RequestContext, ResponseContext, public, cacheable, evaluate_response_cache_decision,
  decide_response, decide_vary, decide_ttl, resolve_ttl_seconds, select_age_directive,
  evaluate_request_cache_decision, decide_request, has_sensitive_headers,
}
use mcp4openapi.ResponseCache.Interceptor.{
  State, Parts, hit, bypass, fetch, begin, use_cached, begin_origin_request, merge_headers,
  finish_fetch, finish_bypass, revalidated, cached_response_requires_revalidation, decision_of,
  invalidate_after_unsafe_mutation,
}
use mcp4openapi.ResponseCache.Storable.{IsStorable, evaluate-IsStorable}
use mcp4openapi.ResponseCache.Served.{IsPlain, IsStored, sensitive_bypasses, sensitive_stored}
use mcp4openapi.ResponseCache.Stale.{stale_after_mutation}

abbrev a_header : Text
a_header = codes "Max-Age=60 , No-Store"

parse_test :
    parse_cache_control (some a_header)
    ≡ (codes "max-age", value (codes "60")) ∷ (codes "no-store", flag) ∷ []
unfolding parse_cache_control add_directives add_directive parse_directive set_directive
    split_equals strip_optional_quotes split_on trim_start
parse_test = refl

abbrev no_dates : Text → Option ℕ
no_dates text = none

abbrev parts : Parts String
parts = record {
  policy = record {
    scope = public;
    allow_shared_with_auth = false;
    ttl_seconds = 300;
    methods = codes "GET" ∷ [];
    vary_headers = codes "accept" ∷ [];
  };
  sensitive_headers = codes "authorization" ∷ [];
  build_key = λ ctx. "GET /items";
  parse_date = no_dates;
  platform = record { stringify = λ key r at. some "entry"; byte_length = λ text. 10 };
}

abbrev answer : ResponseContext String
answer = record {
  status = 200;
  headers = (codes "Cache-Control", codes "max-age=60") ∷ [];
  body = "items of alice";
}

abbrev request : Headers → RequestContext String
request headers = record {
  method = codes "GET";
  url = codes "https://api/items";
  headers = headers;
  body = none;
}

abbrev change : RequestContext String
change = record (request []) { method = codes "POST"; body = some "new item" }

abbrev with_token : Headers
with_token = (codes "Authorization", codes "Bearer alice") ∷ []

abbrev forced : Headers
forced = (codes "Cache-Control", codes "no-cache") ∷ with_token

abbrev nothing_cached : State String
nothing_cached = record {
  store = record {
    config = record { max_entries = 2; max_memory_bytes = 100 };
    entries = [];
    memory_bytes = 0;
  };
  in_flight = [];
}

abbrev one_cached : Store (ResponseContext String)
one_cached = record {
  config = record { max_entries = 2; max_memory_bytes = 100 };
  entries =
      ("GET /items", record { response = answer; expires_at_ms = 61000; size_bytes = 10 }) ∷ [];
  memory_bytes = 10;
}

empty-IsValid : IsValid nothing_cached.store
unfolding weight
empty-IsValid = record {
  counted = record { distinct = tt; counted = refl };
  within = record { entries = omega arith; memory = omega arith };
  some_room = omega arith;
}

evaluate_test :
    evaluate_response_cache_decision no_dates answer parts.policy 1000 ≡ cacheable 60 false
unfolding evaluate_response_cache_decision decide_response decide_vary decide_ttl
    resolve_ttl_seconds select_age_directive parse_non_negative_integer decimal parse_vary_header
    vary_fields get_header get_directive parse_cache_control add_directives add_directive
    parse_directive set_directive split_equals strip_optional_quotes split_on trim_start
evaluate_test = refl

evaluate-IsStorable_example : IsStorable no_dates answer parts.policy 60 false
evaluate-IsStorable_example =
    evaluate-IsStorable no_dates answer parts.policy 1000 60 false evaluate_test

answer_trusted : cached_response_requires_revalidation answer ≡ false
unfolding cached_response_requires_revalidation get_header get_directive parse_cache_control
    add_directives add_directive parse_directive set_directive split_equals strip_optional_quotes
    split_on trim_start
answer_trusted = refl

write_test :
    write parts.platform "GET /items" answer (integer (pos 60)) 1000 nothing_cached.store
    ≡ ok (one_cached, [])
unfolding write write_entry estimate_entry_size remove_existing remove_expired remove_expired_from
    insert evict_until_within_budget evict get set
write_test = refl

answer-IsStored : IsStored parts "GET /items" answer 1000 60 nothing_cached.store one_cached []
answer-IsStored = record {
  decided = evaluate_test;
  some_time = omega arith;
  trusted = answer_trusted;
  written = write_test;
}

request-IsPlain : IsPlain parts (request [])
unfolding evaluate_request_cache_decision decide_request get_header get_directive
    parse_cache_control has_sensitive_headers
request-IsPlain = record { reads = refl; trusting = refl }

stored_test : (decision_of parts (request [])).can_store_response ≡ true
unfolding evaluate_request_cache_decision decide_request get_header get_directive
    parse_cache_control has_sensitive_headers
stored_test = refl

harmless_test : (decision_of parts (request [])).is_unsafe_mutation_method ≡ false
unfolding evaluate_request_cache_decision decide_request get_header get_directive
    parse_cache_control has_sensitive_headers
harmless_test = refl

sensitive_bypasses_example :
    (begin parts (request with_token) 1000 nothing_cached ≡ (nothing_cached, bypass))
    × (finish_bypass parts (request with_token) answer nothing_cached ≡ nothing_cached)
unfolding has_sensitive_headers get_header get_directive parse_cache_control
sensitive_bypasses_example =
    sensitive_bypasses parts (request with_token) 1000 answer nothing_cached refl refl refl refl
      refl refl

-- Another user, or nobody, gets what was fetched with the token of Alice.
sensitive_stored_example :
    (begin parts
      (request [])
      60000
      (finish_fetch parts (request forced) "GET /items" none answer 1000 nothing_cached).0).1
    ≡ hit answer
unfolding get_header get_directive parse_cache_control add_directives add_directive parse_directive
    set_directive split_equals strip_optional_quotes split_on trim_start
sensitive_stored_example =
    sensitive_stored parts (request forced) (request []) answer 1000 60 60000 nothing_cached refl
      refl refl refl refl answer-IsStored empty-IsValid request-IsPlain refl (omega arith)

-- A read is in flight.
abbrev reading : State String
reading = record nothing_cached { in_flight = "GET /items" ∷ [] }

fetch_test : begin parts (request []) 500 nothing_cached ≡ (reading, fetch "GET /items" [] none)
unfolding begin use_cached begin_origin_request read get merge_headers
    evaluate_request_cache_decision decide_request get_header get_directive parse_cache_control
    has_sensitive_headers
fetch_test = refl

change_test : begin parts change 600 reading ≡ (reading, bypass)
unfolding begin evaluate_request_cache_decision decide_request get_header get_directive
    parse_cache_control has_sensitive_headers
change_test = refl

cleared_test : finish_bypass parts change answer reading ≡ nothing_cached
unfolding finish_bypass invalidate_after_unsafe_mutation clear evaluate_request_cache_decision
    decide_request get_header get_directive parse_cache_control has_sensitive_headers
cleared_test = refl

stale_after_mutation_example :
    ((read "GET /items" 700 nothing_cached.store).1 ≡ none)
    × (nothing_cached.in_flight ≡ [])
    × ((begin parts
          (request [])
          60000
          (finish_fetch parts (request []) "GET /items" none answer 1000 nothing_cached).0).1
        ≡ hit answer)
unfolding revalidated
stale_after_mutation_example =
    stale_after_mutation parts (request []) (request []) change answer answer 500 600 1000 60 60000
      700 "GET /items" nothing_cached empty-IsValid fetch_test stored_test refl change_test refl
      refl refl cleared_test answer-IsStored request-IsPlain refl (omega arith)

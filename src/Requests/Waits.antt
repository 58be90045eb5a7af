-- ===== src/Requests/Waits.antt =====
-- A request that waited leaves the bucket as if its wait had not been spent.
use mcp4openapi.Prelude.{
  ℕ, zero, suc, ◌-◌, ◌*◌, ◌≤◌, ◌≡◌, refl, sym, ◌∙◌, inl, inr, String, true, Option, none, some, get,
  set, get-set, eq_refl, eq_iff, arith,
}
use mcp4openapi.Requests.RateLimit.{Bucket, Limiter, token, take_token, acquire}
use mcp4openapi.Requests.Buckets.{
  route, bucket_at, same_route, acquire-cases, acquire-wait, acquire-bucket_at,
}

acquire-route :
    (operation : Option String) (now : ℕ) (s : Limiter)
    → route operation (acquire operation now s).1 ≡ route operation s
unfolding route
acquire-route operation now s = elim (acquire-cases operation now s) [
  | inl (r, e) ↦ rw e (same_buckets operation)
  | inr (key, b, r, there, e) ↦ rw e (stored operation key b there)
]
  where
    same_buckets :
        (o : Option String)
        → route o (record s { global = (take_token now s.global).1 }) ≡ route o s
    same_buckets none = refl
    same_buckets (some o) = refl

    stored :
        (o : Option String) (key : String) (b : Bucket)
        → get key s.endpoint_buckets ≡ some b
        → route o (record s { endpoint_buckets = set key (take_token now b).1 s.endpoint_buckets })
          ≡ route o s
    stored none key b there = refl
    stored (some o) key b there =
        ground (arith, get-set key o (take_token now b).1 s.endpoint_buckets, eq_iff key o)

same_route_refl : (r : Option String) → same_route r r ≡ true
same_route_refl none = refl
same_route_refl (some key) = eq_refl key

take_token_again :
    (now later parts : ℕ) (b : Bucket)
    → (take_token now b).0 ≡ some parts
    → token ≤ (later - now) * b.tokens_per_ms
    → (take_token later (take_token now b).1).0 ≡ none
unfolding take_token
take_token_again now later parts b waited enough =
    let some_rate : 1 ≤ b.tokens_per_ms = at_least b.tokens_per_ms enough in
    ground (arith, some_rate)
  where
    at_least : (rate : ℕ) → token ≤ (later - now) * rate → 1 ≤ rate
    at_least zero h = absurd (omega (arith, h))
    at_least (suc rate) h = omega arith

-- A request that comes by the time in which one token comes in, behind one that waited, does not
-- wait: the wait of the other is paid for twice.
pub wait_paid_twice :
    (operation : Option String) (now later parts : ℕ) (s : Limiter) (b : Bucket)
    → bucket_at (route operation s) s ≡ some b
    → (acquire operation now s).0 ≡ some parts
    → token ≤ (later - now) * b.tokens_per_ms
    → (acquire operation later (acquire operation now s).1).0 ≡ none
wait_paid_twice operation now later parts s b h waited enough =
    let at = route operation s in
    let next = (acquire operation now s).1 in
    let here = same_route_refl at in
    let first = acquire-wait at operation now s b h here in
    let kept = acquire-bucket_at at operation now s b h in
    acquire-wait at operation later next (take_token now b).1 (rw here at kept)
      (rw (acquire-route operation now s) here)
    ∙ take_token_again now later parts b (sym first ∙ waited) enough

-- ===== src/Requests/Buckets.antt =====
-- What the token buckets let through without a wait.
use native.Mathlib.Nat.{add-mul}
use mcp4openapi.Prelude.{
  ℕ, suc, ◌+◌, ◌-◌, ◌*◌, ◌≤◌, ◌≡◌, ◌⊎◌, refl, sym, ap, subst, ◌∙◌, inl, inr, String, Bool, true,
  false, Option, none, some, List, [], ◌∷◌, get, set, get-set, eq_iff, if◌then◌else◌, str_eq, arith,
  Bool-cases, Option-cases,
}
use mcp4openapi.Requests.RateLimit.{
  Bucket, Limiter, ms_per_minute, token, own_bucket, take_token, acquire,
}

-- A request's operation, and its time.
abbrev pub Requests : Type 0
Requests = List (Option String × ℕ)

-- The requests come in order, between the two times.
abbrev pub Between : ℕ → ℕ → Requests → Type 0
Between start last [] = start ≤ last
Between start last ((operation, now) ∷ rs) = (start ≤ now) × Between now last rs

-- The bucket that a request uses: the global one, or that of an operation.
unfoldable pub route : Option String → Limiter → Option String
route operation s = elim (own_bucket operation s) [ none ↦ none | some (key, b) ↦ some key ]

abbrev pub bucket_at : Option String → Limiter → Option Bucket
bucket_at none s = some s.global
bucket_at (some key) s = get key s.endpoint_buckets

abbrev pub same_route : Option String → Option String → Bool
same_route none none = true
same_route none (some b) = false
same_route (some a) none = false
same_route (some a) (some b) = str_eq a b

-- How many of the requests use the bucket and do not wait.
unfoldable pub passed : Option String → Requests → Limiter → ℕ
passed at [] s = 0
passed at ((operation, now) ∷ rs) s =
    let (wait, s') = acquire operation now s in
    let rest = passed at rs s' in
    if same_route (route operation s) at
    then elim wait [ none ↦ suc rest | some parts ↦ rest ]
    else rest

-- What a request does, for the bucket that it uses.
pub acquire-cases :
    (operation : Option String) (now : ℕ) (s : Limiter)
    → ((route operation s ≡ none)
        × (acquire operation now s
            ≡ ((take_token now s.global).0, record s { global = (take_token now s.global).1 })))
      ⊎ ((key : String) × (b : Bucket) × (route operation s ≡ some key)
          × (get key s.endpoint_buckets ≡ some b)
          × (acquire operation now s ≡ (
            (take_token now b).0,
            record s { endpoint_buckets = set key (take_token now b).1 s.endpoint_buckets },
          )))
unfolding acquire route
acquire-cases none now s = inl (refl, refl)
acquire-cases (some operation) now s = elim (Bool-cases (str_eq operation "")) [
  | inl empty ↦ inl (rw (empty, route) refl, rw (empty, acquire) refl)
  | inr named ↦ elim (Option-cases (get operation s.endpoint_buckets)) [
    | inl missed ↦ inl (rw (named, missed, route) refl, rw (named, missed, acquire) refl)
    | inr (b, there) ↦
        inr (operation, b, rw (named, there, route) refl, there, rw (named, there, acquire) refl)
  ]
]

-- A request changes the bucket that it uses and no other.
pub acquire-bucket_at :
    (at operation : Option String) (now : ℕ) (s : Limiter) (b : Bucket)
    → bucket_at at s ≡ some b
    → bucket_at at (acquire operation now s).1
      ≡ some (if same_route (route operation s) at then (take_token now b).1 else b)
acquire-bucket_at at operation now s b h = elim (acquire-cases operation now s) [
  | inl (r, e) ↦ rw (e, r) (at_global at h)
  | inr (key, c, r, there, e) ↦ rw (e, r) (at_key at key c there h)
]
  where
    at_global :
        (at : Option String)
        → bucket_at at s ≡ some b
        → bucket_at at (record s { global = (take_token now s.global).1 })
          ≡ some (if same_route none at then (take_token now b).1 else b)
    at_global none h = ground arith
    at_global (some k) h = h

    at_key :
        (at : Option String) (key : String) (c : Bucket)
        → get key s.endpoint_buckets ≡ some c
        → bucket_at at s ≡ some b
        → bucket_at at
            (record s { endpoint_buckets = set key (take_token now c).1 s.endpoint_buckets })
          ≡ some (if same_route (some key) at then (take_token now b).1 else b)
    at_key none key c there h = h
    at_key (some k) key c there h =
        ground (arith, get-set key k (take_token now c).1 s.endpoint_buckets, eq_iff key k)

pub acquire-wait :
    (at operation : Option String) (now : ℕ) (s : Limiter) (b : Bucket)
    → bucket_at at s ≡ some b
    → same_route (route operation s) at ≡ true
    → (acquire operation now s).0 ≡ (take_token now b).0
acquire-wait at operation now s b h e = elim (acquire-cases operation now s) [
  | inl (r, own) ↦ rw own (at_global at h (rw r at e))
  | inr (key, c, r, there, own) ↦ rw own (at_key at key c there h (rw r at e))
]
  where
    at_global :
        (at : Option String)
        → bucket_at at s ≡ some b
        → same_route none at ≡ true
        → (take_token now s.global).0 ≡ (take_token now b).0
    at_global none h e = ground arith
    at_global (some k) h e = absurd (cc)

    at_key :
        (at : Option String) (key : String) (c : Bucket)
        → get key s.endpoint_buckets ≡ some c
        → bucket_at at s ≡ some b
        → same_route (some key) at ≡ true
        → (take_token now c).0 ≡ (take_token now b).0
    at_key none key c there h e = absurd (cc)
    at_key (some k) key c there h e = ground (arith, eq_iff key k)

-- The tokens that the bucket could give until the time, had it no limit.
abbrev credit : Bucket → ℕ → ℕ
credit b last = b.tokens + (last - b.last_refill) * b.tokens_per_ms

abbrev charge : Option ℕ → ℕ
charge none = token
charge (some parts) = 0

span_mul : (a b c r : ℕ) → a ≤ b → b ≤ c → (c - a) * r ≡ (b - a) * r + (c - b) * r
span_mul a b c r h k =
    let e : c - a ≡ (b - a) + (c - b) = omega arith in ap (λ d. d * r) e ∙ add-mul (b - a) (c - b) r

take_token_kept :
    (now : ℕ) (b : Bucket)
    → ((take_token now b).1.tokens_per_ms ≡ b.tokens_per_ms)
      × ((take_token now b).1.last_refill ≡ now)
unfolding take_token
take_token_kept now b = ground arith

take_token-credit :
    (now last : ℕ) (b : Bucket)
    → b.last_refill ≤ now
    → now ≤ last
    → charge (take_token now b).0 + credit (take_token now b).1 last ≤ credit b last
unfolding take_token
take_token-credit now last b h k =
    ground (arith, span_mul b.last_refill now last b.tokens_per_ms h k)

take_token-limit :
    (now : ℕ) (b : Bucket)
    → charge (take_token now b).0 + (take_token now b).1.tokens ≤ b.tokens_per_ms * ms_per_minute
unfolding take_token
take_token-limit now b = ground arith

passed_nil : (at : Option String) (s : Limiter) → passed at [] s ≡ 0
unfolding passed
passed_nil at s = refl

-- One request more, as `passed` counts it.
passed_step :
    (at operation : Option String) (now : ℕ) (rs : Requests) (s : Limiter) (b : Bucket)
    → bucket_at at s ≡ some b
    → token * passed at ((operation, now) ∷ rs) s
      ≡ (if same_route (route operation s) at then charge (take_token now b).0 else 0)
        + token * passed at rs (acquire operation now s).1
unfolding passed
passed_step at operation now rs s b h = elim (Bool-cases (same_route (route operation s) at)) [
  | inl same ↦ rw (same, acquire-wait at operation now s b h same) (counted (take_token now b).0)
  | inr other ↦ rw other (omega arith)
]
  where
    counted :
        (w : Option ℕ)
        → token * (elim w [
          | none ↦ suc (passed at rs (acquire operation now s).1)
          | some parts ↦ passed at rs (acquire operation now s).1
        ])
          ≡ charge w + token * passed at rs (acquire operation now s).1
    counted none = omega arith
    counted (some parts) = omega arith

Between-le : (start last : ℕ) (rs : Requests) → Between start last rs → start ≤ last
Between-le start last [] t = t
Between-le start last ((operation, now) ∷ rs) (h, t) = omega (arith, h, Between-le now last rs t)

Between-weaken : (a b last : ℕ) (rs : Requests) → a ≤ b → Between b last rs → Between a last rs
Between-weaken a b last [] h t = omega arith
Between-weaken a b last ((operation, now) ∷ rs) h (before, t) = (omega arith, t)

-- What passes is paid for by the bucket's tokens and by those that come in.
passed-credit :
    (at : Option String) (rs : Requests) (s : Limiter) (b : Bucket) (last : ℕ)
    → bucket_at at s ≡ some b
    → Between b.last_refill last rs
    → token * passed at rs s ≤ credit b last
passed-credit at [] s b last h t = omega (arith, passed_nil at s)
passed-credit at ((operation, now) ∷ rs) s b last h (before, t) =
    let e = passed_step at operation now rs s b h in
    let kept = acquire-bucket_at at operation now s b h in
    elim (Bool-cases (same_route (route operation s) at)) [
      | inl same ↦
          let paid = rw same at e in
          let rest =
            passed-credit at rs (acquire operation now s).1 (take_token now b).1 last
              (kept ∙ rw same refl)
              (subst (λ n. Between n last rs) (sym (take_token_kept now b).1) t) in
          omega (arith, paid, rest, take_token-credit now last b before (Between-le now last rs t))
      | inr other ↦
          let paid = rw other at e in
          let rest =
            passed-credit at rs (acquire operation now s).1 b last (kept ∙ rw other refl)
              (Between-weaken b.last_refill now last rs before t) in
          omega (arith, paid, rest)
    ]

-- Requests of the same bucket between two times pass without a wait at most as often as the bucket
-- holds tokens and as tokens come in between the times, whatever was requested before.
pub passed_lem :
    (at : Option String) (rs : Requests) (s : Limiter) (b : Bucket) (start last : ℕ)
    → bucket_at at s ≡ some b
    → Between start last rs
    → token * passed at rs s ≤ b.tokens_per_ms * ms_per_minute + (last - start) * b.tokens_per_ms
passed_lem at [] s b start last h t = omega (arith, passed_nil at s)
passed_lem at ((operation, now) ∷ rs) s b start last h (before, t) =
    let e = passed_step at operation now rs s b h in
    let kept = acquire-bucket_at at operation now s b h in
    let split = span_mul start now last b.tokens_per_ms before (Between-le now last rs t) in
    elim (Bool-cases (same_route (route operation s) at)) [
      | inl same ↦
          let paid = rw same at e in
          let rest =
            passed-credit at rs (acquire operation now s).1 (take_token now b).1 last
              (kept ∙ rw same refl)
              (subst (λ n. Between n last rs) (sym (take_token_kept now b).1) t) in
          let later : credit (take_token now b).1 last
              ≡ (take_token now b).1.tokens + (last - now) * b.tokens_per_ms =
            rw ((take_token_kept now b).0, (take_token_kept now b).1) refl in
          omega (arith, paid, rest, later, split, take_token-limit now b)
      | inr other ↦
          let paid = rw other at e in
          let rest =
            passed_lem at rs (acquire operation now s).1 b now last (kept ∙ rw other refl) t in
          omega (arith, paid, rest, split)
    ]

-- ===== src/Requests/Attempts.antt =====
-- What the retries of a request come to.
use mcp4openapi.Prelude.{
  ℕ, zero, suc, ◌+◌, ◌≤◌, ◌≡◌, ◌⊎◌, refl, subst, inl, inr, String, Bool, true, false, not, ◌&&◌,
  Option, none, some, List, [], ◌∷◌, any, all, ◌==◌, arith, Bool-cases,
}
use mcp4openapi.Requests.Status.{
  Response, RequestError, Outcome, returned, thrown, is_success, status_error, check_status,
}
use mcp4openapi.Requests.Retry.{RetryConfig, is_listed, attempts, retry}
use mcp4openapi.Requests.Redirect.{RedirectAuthPolicy, Hop, send, outcome_of, final_handler}

abbrev Outcome-cases :
    (o : Outcome) → ((r : Response) × (o ≡ returned r)) ⊎ ((e : RequestError) × (o ≡ thrown e))
Outcome-cases (returned r) = inl (r, refl)
Outcome-cases (thrown e) = inr (e, refl)

-- The configuration without its list of statuses.
abbrev pub without_list : RetryConfig → RetryConfig
without_list config = record config { retry_on_status = [] }

unlisted :
    (status : ℕ) (statuses : List ℕ)
    → all (λ n. not (is_success n)) statuses ≡ true
    → is_success status ≡ true
    → any (λ n. n == status) statuses ≡ false
unlisted status [] h ok = refl
unlisted status (n ∷ ns) h ok = ground (arith, unlisted status ns)

module _ {W : Type 0} (next : W → Outcome × W) (sleep : Option ℕ → W → W)
    (config : RetryConfig) where
  attempts-without_list :
      (left attempt : ℕ) (e : Option RequestError) (w : W)
      → ((v : W) (r : Response) → (next v).0 ≡ returned r → is_success r.status ≡ true)
      → all (λ n. not (is_success n)) config.retry_on_status ≡ true
      → attempts next sleep config left attempt e w
        ≡ attempts next sleep (without_list config) left attempt e w
  unfolding attempts
  attempts-without_list zero attempt none w ok errors = refl
  attempts-without_list zero attempt (some e) w ok errors = refl
  attempts-without_list (suc left) attempt e w ok errors = elim (Outcome-cases (next w).0) [
    | inl (r, h) ↦ rw (h, attempts, unlisted r.status config.retry_on_status errors (ok w r h)) refl
    | inr (f, h) ↦ rw (h, attempts) (attempts-without_list left (suc attempt) (some f) _ ok errors)
  ]

check_status-returned :
    (show_status : ℕ → String) (r s : Response)
    → check_status show_status r ≡ returned s
    → is_success s.status ≡ true
unfolding check_status
check_status-returned show_status r s h = elim (Bool-cases (is_success r.status)) [
  | inl ok ↦
      let same : r ≡ s = injective (rw ok at h) in subst (λ x. is_success x.status ≡ true) same ok
  | inr bad ↦ absurd (differ (rw bad at h))
]
  where
    injective : returned r ≡ returned s → r ≡ s
    injective e = cc

    differ : thrown (status_error show_status r) ≡ returned s → ⊥
    differ e = cc

outcome_of-returned :
    (show_status : ℕ → String) (a : RequestError ⊎ Response) (s : Response)
    → outcome_of show_status a ≡ returned s
    → is_success s.status ≡ true
outcome_of-returned show_status (inl e) s h = absurd (cc)
outcome_of-returned show_status (inr r) s h = check_status-returned show_status r s h

-- What the calls of the rest of the chain have cost when the retries end.
abbrev pub Spent : ℕ → ℕ → Outcome → ℕ → Type 0
Spent before limit (returned r) calls = (before + 1 ≤ calls) × (calls ≤ before + limit)
Spent before limit (thrown e) calls = calls ≡ before + limit

module _ {W : Type 0} (next : W → Outcome × W) (sleep : Option ℕ → W → W)
    (config : RetryConfig) where
  -- `next` with a count of its calls.
  abbrev pub counted : ℕ × W → Outcome × (ℕ × W)
  counted (n, w) = let (o, w') = next w in (o, (n + 1, w'))

  abbrev pub sleeping : Option ℕ → ℕ × W → ℕ × W
  sleeping ms (n, w) = (n, sleep ms w)

  one_more : (left n : ℕ) (o : Outcome) (k : ℕ) → Spent (n + 1) left o k → Spent n (suc left) o k
  one_more left n (returned r) k (a, b) = (omega arith, omega arith)
  one_more left n (thrown e) k a = omega arith

  attempts-Spent :
      (left attempt n : ℕ) (e : Option RequestError) (w : W)
      → (let r = attempts counted sleeping config left attempt e (n, w) in Spent n left r.0 r.1.0)
  unfolding attempts
  attempts-Spent zero attempt n none w = omega arith
  attempts-Spent zero attempt n (some e) w = omega arith
  attempts-Spent (suc left) attempt n e w = elim (Outcome-cases (next w).0) [
    | inl (r, h) ↦ elim (Bool-cases (is_listed next sleep config r.status && not (left == 0))) [
      | inl again ↦
          rw (h, again, attempts)
            (one_more left n _ _ (attempts-Spent left (suc attempt) (n + 1) e _))
      | inr final ↦ rw (h, final, attempts) (omega arith, omega arith)
    ]
    | inr (f, h) ↦ elim (Bool-cases (left == 0)) [
      | inl end ↦
          rw (h, end, attempts)
            (one_more left n _ _ (attempts-Spent left (suc attempt) (n + 1) (some f) _))
      | inr more ↦
          rw (h, more, attempts)
            (one_more left n _ _ (attempts-Spent left (suc attempt) (n + 1) (some f) _))
    ]
  ]

  -- The retries of a request call the rest of the chain at least once and at most `max_attempts`
  -- times when they return a response, and exactly `max_attempts` times when they throw.
  pub retry-Spent :
      (w : W)
      → (let r = retry counted sleeping config (0, w) in Spent 0 config.max_attempts r.0 r.1.0)
  unfolding retry
  retry-Spent w = attempts-Spent config.max_attempts 0 0 none w

module _ {W : Type 0} (fetch : Hop → W → Option Response × W) (validate : String → W → Bool × W)
    (resolve : String → String → Option String) (origin : String → String)
    (policy : RedirectAuthPolicy) (sensitive : List String) (show_status : ℕ → String)
    (hop : Hop) where
  abbrev handler : W → Outcome × W
  handler = final_handler fetch validate resolve origin policy sensitive show_status hop

  final_handler-returned :
      (w : W) (r : Response) → (handler w).0 ≡ returned r → is_success r.status ≡ true
  unfolding final_handler
  final_handler-returned w r h =
      outcome_of-returned show_status (send fetch validate resolve origin policy sensitive hop w).0
        r h

  -- The retries of the HTTP client's own handler do not depend on the list of statuses to retry on,
  -- if the list names no status of a success and not 304.
  pub retry-without_list :
      (sleep : Option ℕ → W → W) (config : RetryConfig) (w : W)
      → all (λ n. not (is_success n)) config.retry_on_status ≡ true
      → retry handler sleep config w ≡ retry handler sleep (without_list config) w
  unfolding retry
  retry-without_list sleep config w errors =
      attempts-without_list handler sleep config config.max_attempts 0 none w final_handler-returned
        errors

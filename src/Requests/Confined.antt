-- ===== src/Requests/Confined.antt =====
-- What the redirects may reach: the calls of `fetch` and of the validator, in a log.
use mcp4openapi.Prelude.{
  ℕ, zero, suc, ◌+◌, subst, Among, ◌≤◌, ◌≡◌, refl, sym, ◌∙◌, String, Bool, true, false, ◌||◌, ◌⊎◌,
  inl, inr, Option, List, [], ◌∷◌, Map, any, if◌then◌else◌, str_eq, eq_iff, eq_refl, arith,
  Bool-cases, Option-cases,
}
use mcp4openapi.Requests.Status.{Response, RequestError, ssrf_refused}
use mcp4openapi.Requests.Redirect.{
  RedirectAuthPolicy, same_origin, never, is_sensitive, strip_sensitive_headers, Hop, is_redirect,
  next_headers, next_hop, location, follow, send,
}

pub data Event : Type 0 where
  -- The validator accepted the URL.
  validated : String → Event
  fetched : Hop → Event

-- The last event comes first.
abbrev pub Log : Type 0
Log = List Event

abbrev pub was_validated : String → Log → Bool
was_validated url [] = false
was_validated url (validated u ∷ log) = str_eq u url || was_validated url log
was_validated url (fetched hop ∷ log) = was_validated url log

-- Every URL was validated before it was fetched.
abbrev pub Guarded : Log → Type 0
Guarded [] = Unit
Guarded (validated u ∷ log) = Guarded log
Guarded (fetched hop ∷ log) = (was_validated hop.url log ≡ true) × Guarded log

abbrev pub fetches : Log → ℕ
fetches [] = 0
fetches (validated u ∷ log) = fetches log
fetches (fetched hop ∷ log) = suc (fetches log)

abbrev pub has_sensitive : List String → Map String → Bool
has_sensitive names headers = any (λ (name, value). is_sensitive names name) headers

strip_lem :
    (names : List String) (headers : Map String)
    → has_sensitive names (strip_sensitive_headers names headers) ≡ false
strip_lem names [] = refl
strip_lem names ((n, v) ∷ headers) = elim (Bool-cases (is_sensitive names n)) [
  | inl e ↦ rw e (strip_lem names headers)
  | inr e ↦ ground (arith, strip_lem names headers)
]

module _ {W : Type 0} (fetch : Hop → W → Option Response × W) (validate : String → W → Bool × W)
    (resolve : String → String → Option String) (origin : String → String)
    (policy : RedirectAuthPolicy) (sensitive : List String) where
  abbrev pub logged_fetch : Hop → Log × W → Option Response × (Log × W)
  logged_fetch hop (log, w) = let (r, w') = fetch hop w in (r, (fetched hop ∷ log, w'))

  abbrev pub logged_validate : String → Log × W → Bool × (Log × W)
  logged_validate url (log, w) =
      let (valid, w') = validate url w in
      (valid, ((if valid then validated url ∷ log else log), w'))

  -- The log of a request.
  abbrev pub log_of : Hop → W → Log
  log_of hop w = (send logged_fetch logged_validate resolve origin policy sensitive hop ([], w)).1.0

  module _ (start : String) where
    -- A sensitive header is sent to the origin of the first URL only.
    abbrev pub Kept : Hop → Type 0
    Kept hop = has_sensitive sensitive hop.headers ≡ true → origin start ≡ origin hop.url

    abbrev pub Confined : Log → Type 0
    Confined [] = Unit
    Confined (validated u ∷ log) = Confined log
    Confined (fetched hop ∷ log) = Kept hop × Confined log

    abbrev Good : ℕ → Log → Type 0
    Good n log = Guarded log × Confined log × (fetches log ≤ n)

    next_hop-Kept :
        (status : ℕ) (url : String) (hop : Hop)
        → Kept hop
        → Kept (next_hop origin policy sensitive status url hop)
    unfolding next_headers
    next_hop-Kept status url hop kept = go policy
      where
        stripped :
            has_sensitive sensitive (strip_sensitive_headers sensitive hop.headers) ≡ true → ⊥
        stripped h = cc (strip_lem sensitive hop.headers)

        go :
            (p : RedirectAuthPolicy)
            → has_sensitive sensitive (next_headers origin p sensitive url hop) ≡ true
            → origin start ≡ origin url
        go never h = absurd (cc (strip_lem sensitive hop.headers))
        go same_origin h = elim (Bool-cases (str_eq (origin hop.url) (origin url))) [
          | inl same ↦ kept (rw same at h) ∙ (eq_iff (origin hop.url) (origin url)).0 same
          | inr other ↦ absurd (stripped (rw other at h))
        ]

    follow-Good :
        (left m : ℕ) (hop : Hop) (log : Log) (w : W)
        → was_validated hop.url log ≡ true
        → Kept hop
        → Good m log
        → fetches log + left ≤ m
        → Good m
            (follow logged_fetch logged_validate resolve origin policy sensitive left hop
              (log, w)).1.0
    unfolding follow
    follow-Good zero m hop log w v kept good f = good
    follow-Good (suc left) m hop log w v kept (g, c, _) f =
        let now : Good m (fetched hop ∷ log) = ((v, g), (kept, c), omega arith) in
        elim (Option-cases (fetch hop w).0) [
          | inl e ↦ rw (e, follow) now
          | inr (r, e) ↦ elim (Bool-cases (is_redirect r.status)) [
            | inr final ↦ rw (e, final, follow) now
            | inl moved ↦ elim (Option-cases (location r)) [
              | inl e' ↦ rw (e, moved, e', follow) now
              | inr (l, e') ↦ elim (Option-cases (resolve l hop.url)) [
                | inl e'' ↦ rw (e, moved, e', e'', follow) now
                | inr (url, e'') ↦ elim (Bool-cases (validate url (fetch hop w).1).0) [
                  | inr refused ↦ rw (e, moved, e', e'', refused, follow, refused) now
                  | inl valid ↦
                      rw (e, moved, e', e'', valid, follow, valid)
                        (follow-Good left m (next_hop origin policy sensitive r.status url hop)
                          (validated url ∷ fetched hop ∷ log) (validate url (fetch hop w).1).1
                          (rw (eq_refl url) refl) (next_hop-Kept r.status url hop kept) now
                          (omega arith))
                ]
              ]
            ]
          ]
        ]

  send-Good : (hop : Hop) (w : W) → Good hop.url 6 (log_of hop w)
  unfolding send
  send-Good hop w = elim (Bool-cases (validate hop.url w).0) [
    | inr refused ↦ subst (λ b. Good hop.url 6 (log_if b).1.0) (sym refused) (tt, tt, omega arith)
    | inl valid ↦
        subst (λ b. Good hop.url 6 (log_if b).1.0) (sym valid)
          (follow-Good hop.url 6 6 hop (validated hop.url ∷ []) w' (rw (eq_refl hop.url) refl)
            (λ h. refl) (tt, tt, omega arith) (omega arith))
  ]
    where
      w' : W
      w' = (validate hop.url w).1

      log_if : Bool → (RequestError ⊎ Response) × (Log × W)
      log_if b = elim b as (λ x. (RequestError ⊎ Response) × (Log × W)) [
        | false ↦ (inl ssrf_refused, ((if b then validated hop.url ∷ [] else []), w'))
        | true ↦
            follow logged_fetch logged_validate resolve origin policy sensitive 6 hop
              ((if b then validated hop.url ∷ [] else []), w')
      ]

  -- Every URL that a request fetches was validated before, and a request makes at most six fetches.
  pub send-Guarded : (hop : Hop) (w : W) → Guarded (log_of hop w) × (fetches (log_of hop w) ≤ 6)
  send-Guarded hop w = let (g, c, f) = send-Good hop w in (g, f)

  Confined-Among :
      (start : String) (sent : Hop) (log : Log)
      → Confined start log
      → Among (fetched sent) log
      → has_sensitive sensitive sent.headers ≡ true
      → origin start ≡ origin sent.url
  Confined-Among start sent [] c a h = absurd a
  Confined-Among start sent (validated u ∷ log) c (inl e) h = absurd (cc)
  Confined-Among start sent (validated u ∷ log) c (inr a) h = Confined-Among start sent log c a h
  Confined-Among start sent (fetched hop ∷ log) (kept, c) (inl e) h =
      let same : sent ≡ hop = ground (arith, e) in rw same (kept (rw same at h))
  Confined-Among start sent (fetched hop ∷ log) (kept, c) (inr a) h =
      Confined-Among start sent log c a h

  -- A fetch with a sensitive header goes to the origin of the request's own URL, whatever redirects
  -- the servers answer.
  pub send-confined :
      (hop sent : Hop) (w : W)
      → Among (fetched sent) (log_of hop w)
      → has_sensitive sensitive sent.headers ≡ true
      → origin hop.url ≡ origin sent.url
  send-confined hop sent w a h =
      let (g, c, f) = send-Good hop w in Confined-Among hop.url sent (log_of hop w) c a h

-- ===== src/Redirects/Conformance.antt =====
-- What the registration accepts.
use mcp4openapi.Prelude.{
  Text, text_eq, lower, one_of, is_empty, ◌≡◌, refl, ap, ◌∙◌, ◌↔◌, ◌⊎◌, inl, inr, ◌≢◌, Bool, true,
  false, not, ◌&&◌, Option, some, [], ◌∷◌, arith, codes, Option-cases, Bool-cases,
}
use mcp4openapi.Redirects.{
  Url, has_star, is_safe, dangerous_redirect_schemes, loopback_hosts, strip_brackets,
  has_conformant_scheme, parse_safe_redirect_uri, is_conformant_registration_redirect_uri,
}

pub text_eq→≡ : (s t : Text) → text_eq s t ≡ true → s ≡ t
text_eq→≡ [] [] h = refl
text_eq→≡ [] (d ∷ t) h = cc
text_eq→≡ (c ∷ s) [] h = cc
text_eq→≡ (c ∷ s) (d ∷ t) h = ground (arith, text_eq→≡ s t)

pub text_eq_refl : (s : Text) → text_eq s s ≡ true
text_eq_refl [] = refl
text_eq_refl (c ∷ s) = ground (arith, text_eq_refl s)

-- No dangerous scheme, no credentials, no fragment and no wildcard.
pub record IsSafe (u : Url) : Type 0 where
  pub scheme : one_of dangerous_redirect_schemes (lower u.protocol) ≡ false
  pub username : u.username ≡ []
  pub password : u.password ≡ []
  pub hash : u.hash ≡ []
  pub hostname : has_star u.hostname ≡ false
  pub pathname : has_star u.pathname ≡ false

Text-cases : (t : Text) → (t ≡ []) ⊎ (is_empty t ≡ false)
Text-cases [] = inl refl
Text-cases (c ∷ t) = inr refl

is_empty_iff : (t : Text) → (is_empty t ≡ true) ↔ (t ≡ [])
is_empty_iff [] = ((λ _. refl), (λ _. refl))
is_empty_iff (c ∷ t) = ((λ h. cc), (λ h. cc))

pub is_empty→≡ : (t : Text) → is_empty t ≡ true → t ≡ []
is_empty→≡ t = (is_empty_iff t).0

all_tests :
    (a b c d e f : Bool)
    → (not a && b && c && d && not e && not f) ≡ true
    → (a ≡ false) × (b ≡ true) × (c ≡ true) × (d ≡ true) × (e ≡ false) × (f ≡ false)
all_tests a b c d e f h = ground arith

pub is_safe→IsSafe : (u : Url) → is_safe u ≡ true → IsSafe u
unfolding is_safe
is_safe→IsSafe u h =
    let (scheme, username, password, hash, hostname, pathname) = all_tests _ _ _ _ _ _ h in
    record {
      scheme = scheme;
      username = (is_empty_iff u.username).0 username;
      password = (is_empty_iff u.password).0 password;
      hash = (is_empty_iff u.hash).0 hash;
      hostname = hostname;
      pathname = pathname;
    }

IsSafe→is_safe : (u : Url) → IsSafe u → is_safe u ≡ true
unfolding is_safe
IsSafe→is_safe u h =
    ground (arith, h.scheme, h.username, h.password, h.hash, h.hostname, h.pathname)

-- https, http to a loopback host, or a scheme of neither kind.
abbrev pub HasConformantScheme : Url → Type 0
HasConformantScheme u =
    (lower u.protocol ≡ codes "https:")
    ⊎ (((lower u.protocol ≡ codes "http:")
          × (one_of loopback_hosts (strip_brackets (lower u.hostname)) ≡ true))
        ⊎ ((lower u.protocol ≢ codes "https:") × (lower u.protocol ≢ codes "http:")))

differs : (s t : Text) → text_eq s t ≡ false → s ≢ t
differs s t h e = let same : text_eq s t ≡ true = rw e (text_eq_refl t) in cc

conformant_scheme_iff : (u : Url) → (has_conformant_scheme u ≡ true) ↔ HasConformantScheme u
unfolding has_conformant_scheme
conformant_scheme_iff u = elim (Bool-cases (text_eq (lower u.protocol) (codes "https:"))) [
  | inl https ↦ ((λ _. inl (text_eq→≡ _ _ https)), (λ _. ground (arith, https)))
  | inr not_https ↦ elim (Bool-cases (text_eq (lower u.protocol) (codes "http:"))) [
    | inl http ↦ (
      (λ h. inr (inl (text_eq→≡ _ _ http, ground (arith, not_https, http)))),
      loopback not_https http,
    )
    | inr not_http ↦ (
      (λ _. inr (inr (differs _ _ not_https, differs _ _ not_http))),
      (λ _. ground (arith, not_https, not_http)),
    )
  ]
]
  where
    loopback :
        text_eq (lower u.protocol) (codes "https:") ≡ false
        → text_eq (lower u.protocol) (codes "http:") ≡ true
        → HasConformantScheme u
        → has_conformant_scheme u ≡ true
    loopback n y (inl e) = absurd (differs _ _ n e)
    loopback n y (inr (inl (_, host))) = ground arith
    loopback n y (inr (inr (_, other))) = absurd (other (text_eq→≡ _ _ y))

module _ (new_url : Text → Option Url) (uri : Text) where
  pub parse_safe_redirect_uri-eq-some :
      {u : Url} → parse_safe_redirect_uri new_url uri ≡ some u → (new_url uri ≡ some u) × IsSafe u
  unfolding parse_safe_redirect_uri
  parse_safe_redirect_uri-eq-some {u} h = elim (Option-cases (new_url uri)) [
    | inl bad ↦ absurd (ground arith)
    | inr (v, parsed) ↦
        let same : v ≡ u = ground arith in (parsed ∙ ap some same, is_safe→IsSafe u (ground arith))
  ]

  parse_safe_some :
      (u : Url) → new_url uri ≡ some u → IsSafe u → parse_safe_redirect_uri new_url uri ≡ some u
  unfolding parse_safe_redirect_uri
  parse_safe_some u parsed safe = ground (arith, IsSafe→is_safe u safe)

  abbrev Accepted : Type 0
  Accepted = (u : Url) × (new_url uri ≡ some u) × IsSafe u × HasConformantScheme u

  sound : is_conformant_registration_redirect_uri new_url uri ≡ true → Accepted
  unfolding is_conformant_registration_redirect_uri
  sound h = elim (Option-cases (parse_safe_redirect_uri new_url uri)) [
    | inl bad ↦ absurd (ground arith)
    | inr (u, parsed) ↦
        let (url, safe) = parse_safe_redirect_uri-eq-some parsed in
        (u, url, safe, (conformant_scheme_iff u).0 (ground arith))
  ]

  complete : Accepted → is_conformant_registration_redirect_uri new_url uri ≡ true
  unfolding is_conformant_registration_redirect_uri
  complete (u, url, safe, scheme) =
      ground (arith, parse_safe_some u url safe, (conformant_scheme_iff u).1 scheme)

  -- A redirect URI may be registered exactly if it parses to a URL with no dangerous scheme, no
  -- credentials, no fragment and no wildcard in host or path, whose scheme is https, http to a
  -- loopback host, or a private one.
  pub is_conformant_iff :
      (is_conformant_registration_redirect_uri new_url uri ≡ true)
      ↔ ((u : Url) × (new_url uri ≡ some u) × IsSafe u × HasConformantScheme u)
  is_conformant_iff = (sound, complete)

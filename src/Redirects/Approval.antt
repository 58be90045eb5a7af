-- ===== src/Redirects/Approval.antt =====
-- What an approved redirect rule lets through.
use mcp4openapi.Prelude.{
  Text, text_eq, lower, one_of, is_empty, has_prefix, ◌≡◌, refl, subst, ◌⊎◌, inl, inr, ◌≢◌, Bool,
  true, false, ◌&&◌, Option, none, some, List, [], ◌∷◌, ◌++◌, arith, codes, Option-cases,
  Bool-cases, Among, any,
}
use mcp4openapi.Redirects.{
  Url, loopback_hosts, strip_last, normalized_port, matches_port, matches_path_prefix, scheme_only,
  is_http, matches_url, matches_approved_redirect_rule, parse_safe_redirect_uri,
  is_approved_unregistered_client_redirect_uri,
}
use mcp4openapi.Redirects.Conformance.{
  text_eq→≡, is_empty→≡, IsSafe, parse_safe_redirect_uri-eq-some,
}

has_prefix_sound : (s t : Text) → has_prefix s t ≡ true → (rest : Text) × (t ≡ s ++ rest)
has_prefix_sound [] t h = (t, refl)
has_prefix_sound (c ∷ s) [] h = cc
has_prefix_sound (c ∷ s) (d ∷ t) h =
    let (rest, e) = has_prefix_sound s t (ground arith) in (rest, ground (arith, e))

-- The approved path is "" or "/", or the path itself, or whole segments in front of it.
abbrev pub IsUnder : Text → Text → Type 0
IsUnder approved path =
    ((approved ≡ []) ⊎ (approved ≡ codes "/"))
    ⊎ ((path ≡ approved)
        ⊎ ((rest : Text) × (path ≡ (strip_last b'/' approved ++ b'/' ∷ []) ++ rest)))

-- The ports agree, or the rule names a loopback host and no port.
abbrev pub PortAgrees : Url → Url → Type 0
PortAgrees candidate approved =
    (normalized_port candidate ≡ normalized_port approved)
    ⊎ ((approved.port ≡ []) × (one_of loopback_hosts (lower approved.hostname) ≡ true))

matches_path_prefix_sound :
    (candidate approved : Url)
    → matches_path_prefix candidate approved ≡ true
    → IsUnder approved.pathname candidate.pathname
unfolding matches_path_prefix
matches_path_prefix_sound candidate approved h = elim (Bool-cases (is_empty approved.pathname)) [
  | inl no_path ↦ inl (inl (is_empty→≡ _ no_path))
  | inr has_path ↦ elim (Bool-cases (text_eq approved.pathname (codes "/"))) [
    | inl root ↦ inl (inr (text_eq→≡ _ _ root))
    | inr not_root ↦ elim (Bool-cases (text_eq candidate.pathname approved.pathname)) [
      | inl same ↦ inr (inl (text_eq→≡ _ _ same))
      | inr differs ↦ inr (inr (has_prefix_sound _ _ (ground arith)))
    ]
  ]
]

matches_port_sound :
    (candidate approved : Url)
    → matches_port candidate approved ≡ true
    → PortAgrees candidate approved
unfolding matches_port
matches_port_sound candidate approved h = elim (Bool-cases (is_empty approved.port)) [
  | inr has_port ↦ inl (text_eq→≡ _ _ (ground arith))
  | inl no_port ↦ elim (Bool-cases (one_of loopback_hosts (lower approved.hostname))) [
    | inl local ↦ inr (is_empty→≡ _ no_port, local)
    | inr remote ↦ inl (text_eq→≡ _ _ (ground arith))
  ]
]

-- A rule that is a URL covers the URLs of its scheme, host and port that lie under its path.
pub record Covers (candidate approved : Url) : Type 0 where
  pub protocol : candidate.protocol ≡ approved.protocol
  pub hostname : lower candidate.hostname ≡ lower approved.hostname
  pub port : PortAgrees candidate approved
  pub path : IsUnder approved.pathname candidate.pathname

four_tests :
    (a b c d : Bool) → (a && b && c && d) ≡ true → (a ≡ true) × (b ≡ true) × (c ≡ true) × (d ≡ true)
four_tests a b c d h = ground arith

matches_url_sound :
    (candidate approved : Url) → matches_url candidate approved ≡ true → Covers candidate approved
unfolding matches_url
matches_url_sound candidate approved h =
    let (protocol, hostname, port, path) = four_tests _ _ _ _ h in
    record {
      protocol = text_eq→≡ _ _ protocol;
      hostname = text_eq→≡ _ _ hostname;
      port = matches_port_sound candidate approved port;
      path = matches_path_prefix_sound candidate approved path;
    }

-- What a rule that lets the URL through is: a scheme that is not http or https, or a URL.
abbrev pub Allows : (Text → Option Url) → Url → Text → Type 0
Allows new_url candidate rule =
    ((scheme : Text) × (scheme_only rule ≡ some scheme)
      × (is_http (lower scheme) ≡ false)
      × (candidate.protocol ≡ lower scheme ++ b':' ∷ []))
    ⊎ ((approved : Url) × (new_url rule ≡ some approved)
        × IsSafe approved
        × Covers candidate approved)

module _ (new_url : Text → Option Url) where
  rule_sound :
      (candidate : Url) (rule : Text)
      → matches_approved_redirect_rule new_url candidate rule ≡ true
      → Allows new_url candidate rule
  unfolding matches_approved_redirect_rule
  rule_sound candidate rule h = elim (Option-cases (scheme_only rule)) [
    | inr (scheme, is_scheme) ↦ elim (Bool-cases (is_http (lower scheme))) [
      | inl http ↦ absurd (ground arith)
      | inr other ↦ inl (scheme, is_scheme, other, text_eq→≡ _ _ (ground arith))
    ]
    | inl not_scheme ↦ elim (Option-cases (parse_safe_redirect_uri new_url rule)) [
      | inl bad ↦ absurd (ground arith)
      | inr (approved, parsed) ↦
          let (url, safe) = parse_safe_redirect_uri-eq-some new_url rule parsed in
          inr (approved, url, safe, matches_url_sound candidate approved (ground arith))
    ]
  ]

  some_rule :
      (candidate : Url) (rules : List Text)
      → any (matches_approved_redirect_rule new_url candidate) rules ≡ true
      → (rule : Text) × Among rule rules × Allows new_url candidate rule
  some_rule candidate [] h = cc
  some_rule candidate (r ∷ rules) h =
      elim (Bool-cases (matches_approved_redirect_rule new_url candidate r)) [
        | inl matched ↦ (r, inl refl, rule_sound candidate r matched)
        | inr unmatched ↦
            let (rule, among, allows) = some_rule candidate rules (ground arith) in
            (rule, inr among, allows)
      ]

  -- A redirect URI that is approved for a client that is not registered parses to a URL with no
  -- dangerous scheme, no credentials, no fragment and no wildcard, and one of the rules lets it
  -- through: a scheme other than http and https, or a safe URL with the same scheme, host and port
  -- (any port for a loopback host without one) whose path is the same or a parent in whole segments.
  pub approved_sound :
      (uri : Text) (rules : Option (List Text))
      → is_approved_unregistered_client_redirect_uri new_url uri rules ≡ true
      → (candidate : Url) × (new_url uri ≡ some candidate)
        × IsSafe candidate
        × (list : List Text) × (rules ≡ some list)
        × (rule : Text) × Among rule list
        × Allows new_url candidate rule
  unfolding is_approved_unregistered_client_redirect_uri
  approved_sound uri none h = cc
  approved_sound uri (some rules) h = elim (Option-cases (parse_safe_redirect_uri new_url uri)) [
    | inl bad ↦ absurd (ground arith)
    | inr (candidate, parsed) ↦
        let (url, safe) = parse_safe_redirect_uri-eq-some new_url uri parsed in
        let (rule, among, allows) = some_rule candidate rules (ground arith) in
        (candidate, url, safe, rules, refl, rule, among, allows)
  ]

-- A rule with the host `[::1]`, which is how a parsed URL spells the IPv6 loopback address, and
-- no port lets through the default port of its scheme only, unlike the other loopback hosts.
pub bracketed_loopback_port :
    (candidate approved : Url)
    → approved.port ≡ []
    → approved.hostname ≡ codes "[::1]"
    → matches_port candidate approved ≡ true
    → normalized_port candidate ≡ normalized_port approved
bracketed_loopback_port candidate approved no_port host h =
    elim (matches_port_sound candidate approved h) [
      | inl same ↦ same
      | inr (_, local) ↦
          absurd (not_loopback (subst (λ t. one_of loopback_hosts (lower t) ≡ true) host local))
    ]
  where
    not_loopback : one_of loopback_hosts (lower (codes "[::1]")) ≢ true
    not_loopback e = cc

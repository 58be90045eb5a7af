-- ===== src/Redirects.antt =====
-- src/auth/unregistered-client-redirect-policy.ts: which redirect URIs a client may use. Texts are
-- lists of code points. `new URL` is a parameter; the schemes and hosts of a parsed URL are ASCII,
-- so `toLowerCase` is needed for ASCII letters only. Warnings to the log are left out.
pub mod Conformance
pub mod Approval
mod Tests
use mcp4openapi.Prelude.{
  ℕ, ◌+◌, String, Bool, true, false, not, ◌&&◌, ◌||◌, Option, none, some, List, [], ◌∷◌, ◌++◌, map,
  codes, leb, ◌==◌, any, if◌then◌else◌, Text, text_eq, is_empty, lower, one_of, has_prefix,
}

-- A parsed URL.
pub record Url : Type 0 where
  pub protocol : Text
  pub username : Text
  pub password : Text
  pub hostname : Text
  pub port : Text
  pub pathname : Text
  pub hash : Text

abbrev pub dangerous_redirect_schemes : List String
dangerous_redirect_schemes =
    "javascript:" ∷ "data:" ∷ "vbscript:" ∷ "file:" ∷ "blob:" ∷ "about:" ∷ []

abbrev pub loopback_hosts : List String
loopback_hosts = "localhost" ∷ "127.0.0.1" ∷ "::1" ∷ []

abbrev pub has_star : Text → Bool
has_star = any (λ c. c == b'*')

-- `.replace(/\]$/, '')` and `.replace(/\/$/, '')`
unfoldable pub strip_last : ℕ → Text → Text
strip_last x [] = []
strip_last x (c ∷ cs) = if is_empty cs && c == x then [] else c ∷ strip_last x cs

abbrev pub strip_first : ℕ → Text → Text
strip_first x [] = []
strip_first x (c ∷ cs) = if c == x then cs else c ∷ cs

-- `.replace(/^\[|\]$/g, '')`
abbrev pub strip_brackets : Text → Text
strip_brackets t = strip_last b']' (strip_first b'[' t)

-- The tests of `parseSafeRedirectUri` on a parsed URL.
unfoldable pub is_safe : Url → Bool
is_safe u =
    not (one_of dangerous_redirect_schemes (lower u.protocol))
    && is_empty u.username
    && is_empty u.password
    && is_empty u.hash
    && not (has_star u.hostname)
    && not (has_star u.pathname)

-- The shape of `isConformantRegistrationRedirectUri` on a safe URL.
unfoldable pub has_conformant_scheme : Url → Bool
has_conformant_scheme u =
    if text_eq (lower u.protocol) (codes "https:")
    then true
    else if text_eq (lower u.protocol) (codes "http:")
    then one_of loopback_hosts (strip_brackets (lower u.hostname))
    else true

unfoldable pub normalized_port : Url → Text
normalized_port u =
    if not (is_empty u.port)
    then u.port
    else if text_eq u.protocol (codes "http:")
    then codes "80"
    else if text_eq u.protocol (codes "https:")
    then codes "443"
    else []

unfoldable pub matches_port : Url → Url → Bool
matches_port candidate approved =
    if not (is_empty approved.port)
    then text_eq (normalized_port candidate) (normalized_port approved)
    else if one_of loopback_hosts (lower approved.hostname)
    then true
    else text_eq (normalized_port candidate) (normalized_port approved)

unfoldable pub matches_path_prefix : Url → Url → Bool
matches_path_prefix candidate approved =
    if is_empty approved.pathname || text_eq approved.pathname (codes "/")
    then true
    else text_eq candidate.pathname approved.pathname
      || has_prefix (strip_last b'/' approved.pathname ++ b'/' ∷ []) candidate.pathname

abbrev pub is_letter : ℕ → Bool
is_letter c = (leb b'a' c && leb c b'z') || (leb b'A' c && leb c b'Z')

abbrev pub is_scheme_char : ℕ → Bool
is_scheme_char c = is_letter c || (leb b'0' c && leb c b'9') || c == b'+' || c == b'.' || c == b'-'

-- What follows the first letter in `SCHEME_ONLY_RULE`: scheme characters, then `://` at the end.
unfoldable pub scheme_rest : Text → Option Text
scheme_rest [] = none
scheme_rest (c ∷ cs) =
    if is_scheme_char c
    then elim (scheme_rest cs) [ none ↦ none | some scheme ↦ some (c ∷ scheme) ]
    else if text_eq (c ∷ cs) (codes "://")
    then some []
    else none

-- `SCHEME_ONLY_RULE.exec(rule)`, with the scheme.
unfoldable pub scheme_only : Text → Option Text
scheme_only [] = none
scheme_only (c ∷ cs) =
    if is_letter c
    then elim (scheme_rest cs) [ none ↦ none | some scheme ↦ some (c ∷ scheme) ]
    else none

abbrev pub is_http : Text → Bool
is_http scheme = text_eq scheme (codes "http") || text_eq scheme (codes "https")

-- The tests behind a rule that is a URL.
unfoldable pub matches_url : Url → Url → Bool
matches_url candidate approved =
    text_eq candidate.protocol approved.protocol
    && text_eq (lower candidate.hostname) (lower approved.hostname)
    && matches_port candidate approved
    && matches_path_prefix candidate approved

module _ (new_url : Text → Option Url) where
  unfoldable pub parse_safe_redirect_uri : Text → Option Url
  parse_safe_redirect_uri value = elim (new_url value) [
    | none ↦ none
    | some u ↦ if is_safe u then some u else none
  ]

  unfoldable pub is_conformant_registration_redirect_uri : Text → Bool
  is_conformant_registration_redirect_uri uri = elim (parse_safe_redirect_uri uri) [
    | none ↦ false
    | some u ↦ has_conformant_scheme u
  ]

  unfoldable pub matches_approved_redirect_rule : Url → Text → Bool
  matches_approved_redirect_rule candidate rule = elim (scheme_only rule) [
    | some scheme ↦
        if is_http (lower scheme)
        then false
        else text_eq candidate.protocol (lower scheme ++ b':' ∷ [])
    | none ↦ elim (parse_safe_redirect_uri rule) [
      | none ↦ false
      | some approved ↦ matches_url candidate approved
    ]
  ]

  -- `none` is a list of rules that is not set.
  unfoldable pub is_approved_unregistered_client_redirect_uri : Text → Option (List Text) → Bool
  is_approved_unregistered_client_redirect_uri uri none = false
  is_approved_unregistered_client_redirect_uri uri (some rules) =
      elim (parse_safe_redirect_uri uri) [
        | none ↦ false
        | some candidate ↦ any (matches_approved_redirect_rule candidate) rules
      ]

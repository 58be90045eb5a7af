-- ===== src/Redirects/Tests.antt =====
-- Redirect URIs and rules on concrete texts; `parse` stands for `new URL` on the texts used here.
use mcp4openapi.Prelude.{
  Text, text_eq, ◌≡◌, refl, true, false, Option, none, some, List, [], ◌∷◌, codes, if◌then◌else◌,
}
use mcp4openapi.Redirects.{
  Url, is_safe, strip_last, has_conformant_scheme, normalized_port, matches_port,
  matches_path_prefix, scheme_rest, scheme_only, matches_url, matches_approved_redirect_rule,
  parse_safe_redirect_uri, is_conformant_registration_redirect_uri,
  is_approved_unregistered_client_redirect_uri,
}
use mcp4openapi.Redirects.Conformance.{is_conformant_iff, IsSafe, HasConformantScheme}
use mcp4openapi.Redirects.Approval.{approved_sound, Allows}
use mcp4openapi.Prelude.{◌↔◌, Among}

abbrev url : Text → Text → Text → Text → Url
url protocol hostname port pathname = record {
  protocol = protocol;
  username = [];
  password = [];
  hostname = hostname;
  port = port;
  pathname = pathname;
  hash = [];
}

abbrev callback : Url
callback = url (codes "https:") (codes "app.example") [] (codes "/oauth/cb")

abbrev approved_root : Url
approved_root = url (codes "https:") (codes "app.example") [] (codes "/oauth/")

abbrev plain : Url
plain = url (codes "http:") (codes "app.example") [] (codes "/oauth/cb")

abbrev parse : Text → Option Url
parse t =
    if text_eq t (codes "https://app.example/oauth/cb")
    then some callback
    else if text_eq t (codes "https://app.example/oauth/")
    then some approved_root
    else if text_eq t (codes "http://app.example/oauth/cb")
    then some plain
    else none

https_conforms :
    is_conformant_registration_redirect_uri parse (codes "https://app.example/oauth/cb") ≡ true
unfolding is_conformant_registration_redirect_uri parse_safe_redirect_uri is_safe
    has_conformant_scheme
https_conforms = refl

remote_http_does_not :
    is_conformant_registration_redirect_uri parse (codes "http://app.example/oauth/cb") ≡ false
unfolding is_conformant_registration_redirect_uri parse_safe_redirect_uri is_safe
    has_conformant_scheme strip_last
remote_http_does_not = refl

cursor_scheme : scheme_only (codes "cursor://") ≡ some (codes "cursor")
unfolding scheme_only scheme_rest
cursor_scheme = refl

not_only_a_scheme : scheme_only (codes "https://app.example/") ≡ none
unfolding scheme_only scheme_rest
not_only_a_scheme = refl

abbrev rules : List Text
rules = codes "cursor://" ∷ codes "https://app.example/oauth/" ∷ []

under_rule :
    is_approved_unregistered_client_redirect_uri parse
      (codes "https://app.example/oauth/cb")
      (some rules)
    ≡ true
unfolding is_approved_unregistered_client_redirect_uri matches_approved_redirect_rule matches_url
    matches_port matches_path_prefix normalized_port strip_last scheme_only scheme_rest
    parse_safe_redirect_uri is_safe
under_rule = refl

is_conformant_iff_example :
    (is_conformant_registration_redirect_uri parse (codes "https://app.example/oauth/cb") ≡ true)
    ↔ ((u : Url) × (parse (codes "https://app.example/oauth/cb") ≡ some u)
        × IsSafe u
        × HasConformantScheme u)
is_conformant_iff_example = is_conformant_iff parse (codes "https://app.example/oauth/cb")

approved_sound_example :
    (candidate : Url) × (parse (codes "https://app.example/oauth/cb") ≡ some candidate)
    × IsSafe candidate
    × (list : List Text) × (some rules ≡ some list)
    × (rule : Text) × Among rule list
    × Allows parse candidate rule
approved_sound_example =
    approved_sound parse (codes "https://app.example/oauth/cb") (some rules) under_rule

abbrev loopback_rule : Url
loopback_rule = url (codes "http:") (codes "[::1]") [] (codes "/cb")

abbrev loopback_callback : Url
loopback_callback = url (codes "http:") (codes "[::1]") [] (codes "/cb/a")

default_port_matches : matches_port loopback_callback loopback_rule ≡ true
unfolding matches_port normalized_port
default_port_matches = refl

other_port_does_not :
    matches_port (url (codes "http:") (codes "[::1]") (codes "49152") (codes "/cb")) loopback_rule
    ≡ false
unfolding matches_port normalized_port
other_port_does_not = refl

-- ===== src/Requests/Redirect.antt =====
-- src/transport/interceptors.ts, `requestInternal`: one request with its redirects. `fetch`, `new URL`
-- and the SSRF validator are parameters. Header names are compared in lower case, that of ASCII.
use mcp4openapi.Prelude.{
  lower, text_eq, ℕ, zero, suc, String, Bool, true, false, not, ◌||◌, ◌&&◌, ◌⊎◌, inl, inr, Option,
  none, some, List, [], ◌∷◌, ◌++◌, Map, get, any, keep, codes, leb, ltb, ◌==◌, if◌then◌else◌,
  str_eq,
}
use mcp4openapi.Requests.Status.{
  Response, RequestError, Outcome, thrown, check_status, redirect_without_location,
  invalid_location, too_many_redirects, ssrf_refused, fetch_failed,
}

pub data AuthConfig : Type 0 where
  bearer : AuthConfig
  query : AuthConfig
  oauth : AuthConfig
  session_cookie : AuthConfig
  token : AuthConfig
  custom_header : Option String → AuthConfig

pub data RedirectAuthPolicy : Type 0 where
  same_origin : RedirectAuthPolicy
  never : RedirectAuthPolicy

abbrev pub basic_sensitive_headers : List String
basic_sensitive_headers = "authorization" ∷ "proxy-authorization" ∷ "cookie" ∷ []

-- The header that an authentication adds to the sensitive ones; its name is put in lower case
-- where it is compared.
abbrev pub sensitive_header : AuthConfig → List String
sensitive_header bearer = []
sensitive_header query = []
sensitive_header oauth = []
sensitive_header session_cookie = []
sensitive_header token = "authorization" ∷ []
sensitive_header (custom_header none) = []
sensitive_header (custom_header (some name)) = if str_eq name "" then [] else name ∷ []

unfoldable pub get_sensitive_redirect_header_names : List AuthConfig → List String
get_sensitive_redirect_header_names [] = basic_sensitive_headers
get_sensitive_redirect_header_names (a ∷ configs) =
    sensitive_header a ++ get_sensitive_redirect_header_names configs

abbrev pub is_sensitive : List String → String → Bool
is_sensitive names name = any (λ n. text_eq (lower (codes n)) (lower (codes name))) names

-- Headers are pairs of a name and a value; a later pair of the same name would replace an earlier.
abbrev pub strip_sensitive_headers : List String → Map String → Map String
strip_sensitive_headers names headers =
    keep (λ (name, value). not (is_sensitive names name)) headers

-- What one call of `fetch` is given.
pub record Hop : Type 0 where
  pub url : String
  pub method : String
  pub body : Option String
  pub headers : Map String

abbrev pub is_redirect : ℕ → Bool
is_redirect status = leb 300 status && ltb status 400 && not (status == 304)

-- The method and the body of the next hop.
abbrev pub next_request : ℕ → Hop → String × Option String
next_request status hop =
    if status == 303 || ((status == 301 || status == 302) && str_eq hop.method "POST")
    then ("GET", none)
    else (hop.method, hop.body)

abbrev pub max_redirects : ℕ
max_redirects = 5

-- The target of a redirect, if its response names one.
abbrev pub location : Response → Option String
location r = elim (get "location" r.headers) [
  | none ↦ none
  | some l ↦ if str_eq l "" then none else some l
]

-- `origin` is the origin of a URL.
module _ (origin : String → String) (policy : RedirectAuthPolicy) (sensitive : List String) where
  unfoldable pub next_headers : String → Hop → Map String
  next_headers url hop = elim policy [
    | never ↦ strip_sensitive_headers sensitive hop.headers
    | same_origin ↦
        if str_eq (origin hop.url) (origin url)
        then hop.headers
        else strip_sensitive_headers sensitive hop.headers
  ]

  abbrev pub next_hop : ℕ → String → Hop → Hop
  next_hop status url hop =
      let (method, body) = next_request status hop in
      record { url = url; method = method; body = body; headers = next_headers url hop }

abbrev pub outcome_of : (ℕ → String) → RequestError ⊎ Response → Outcome
outcome_of show_status (inl e) = thrown e
outcome_of show_status (inr r) = check_status show_status r

-- `fetch` and `validate` act on the state of the world; `resolve` is `new URL(location, base)`.
module _ {W : Type 0} (fetch : Hop → W → Option Response × W) (validate : String → W → Bool × W)
    (resolve : String → String → Option String) (origin : String → String)
    (policy : RedirectAuthPolicy) (sensitive : List String) where
  -- The loop over the redirects; `left` of them may still be followed, and one fetch more.
  unfoldable pub follow : ℕ → Hop → W → (RequestError ⊎ Response) × W
  follow zero hop w = (inl too_many_redirects, w)
  follow (suc left) hop w =
      let (fetched, w₁) = fetch hop w in
      elim fetched [
        | none ↦ (inl fetch_failed, w₁)
        | some r ↦ elim (is_redirect r.status) [
          | false ↦ (inr r, w₁)
          | true ↦ elim (location r) [
            | none ↦ (inl (redirect_without_location r.status), w₁)
            | some l ↦ elim (resolve l hop.url) [
              | none ↦ (inl invalid_location, w₁)
              | some url ↦
                  let (valid, w₂) = validate url w₁ in
                  elim valid [
                    | false ↦ (inl ssrf_refused, w₂)
                    | true ↦ follow left (next_hop origin policy sensitive r.status url hop) w₂
                  ]
            ]
          ]
        ]
      ]

  -- The request with the validation of its URL.
  unfoldable pub send : Hop → W → (RequestError ⊎ Response) × W
  send hop w =
      let (valid, w') = validate hop.url w in
      elim valid [ false ↦ (inl ssrf_refused, w') | true ↦ follow (suc max_redirects) hop w' ]

  -- What the chain's last handler returns or throws, for a client without an authentication runtime,
  -- which could recover from an error status with one more request.
  unfoldable pub final_handler : (ℕ → String) → Hop → W → Outcome × W
  final_handler show_status hop w =
      let (answer, w') = send hop w in (outcome_of show_status answer, w')

-- ===== src/Requests/Status.antt =====
-- src/transport/interceptors.ts: what the HTTP client makes of the status of a response.
use mcp4openapi.Prelude.{
  ℕ, String, Bool, ◌||◌, ◌&&◌, Option, none, some, List, [], ◌∷◌, Map, get, leb, ltb, ◌==◌,
  if◌then◌else◌, str_eq, Number, parse_int,
}

-- What the body of an error says, as far as its fields are texts.
pub data Body : Type 0 where
  object : Option String → Option String → Option String → Body
  text : String → Body
  other : Body

pub record Response : Type 0 where
  pub status : ℕ
  pub headers : Map String
  pub body : Body

pub data RequestError : Type 0 where
  authentication : String → RequestError
  authorization : String → RequestError
  rate_limited : String → Option Number → RequestError
  not_found : String → RequestError
  network : String → ℕ → RequestError
  -- The call of `fetch` failed or was aborted, or the body could not be read.
  fetch_failed : RequestError
  redirect_without_location : ℕ → RequestError
  invalid_location : RequestError
  too_many_redirects : RequestError
  ssrf_refused : RequestError
  all_attempts_failed : RequestError

pub data Outcome : Type 0 where
  returned : Response → Outcome
  thrown : RequestError → Outcome

-- The first text that is there and is not empty.
abbrev first_text : List (Option String) → String → String
first_text [] default = default
first_text (none ∷ rest) default = first_text rest default
first_text (some t ∷ rest) default = if str_eq t "" then first_text rest default else t

abbrev pub retry_after : Response → Option Number
retry_after r = elim (get "retry-after" r.headers) [
  | none ↦ none
  | some t ↦ if str_eq t "" then none else some (parse_int t)
]

abbrev pub is_success : ℕ → Bool
is_success status = status == 304 || (leb 200 status && ltb status 300)

module _ (show_status : ℕ → String) where
  -- `show_status` is the text `HTTP ${response.status}`.
  abbrev pub error_message : Response → String
  error_message r = elim r.body [
    | object description error message ↦
        first_text (description ∷ error ∷ message ∷ []) (show_status r.status)
    | text t ↦ if str_eq t "" then show_status r.status else t
    | other ↦ show_status r.status
  ]

  unfoldable pub status_error : Response → RequestError
  status_error r =
      if r.status == 401
      then authentication (error_message r)
      else if r.status == 403
      then authorization (error_message r)
      else if r.status == 429
      then rate_limited (error_message r) (retry_after r)
      else if r.status == 404
      then not_found (error_message r)
      else network (error_message r) r.status

  unfoldable pub check_status : Response → Outcome
  check_status r = if is_success r.status then returned r else thrown (status_error r)

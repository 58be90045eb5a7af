-- ===== src/Clients.antt =====
-- `InMemoryClientsStore` of src/auth/client-store/in-memory-clients-store.ts. The clock is the
-- argument `now` of each call that reads it. The metadata object of a client is reached through the
-- map alone, so an update of it is an update of the map.
pub mod Types
pub mod Policy
pub mod Eviction
pub mod Registration
pub mod Admission
pub mod Counters
mod Tests
use Prim.Native.Nat.{Ordering}
use mcp4openapi.Prelude.{
  Text, ℕ, zero, suc, ◌+◌, ◌-◌, String, Bool, true, false, not, ◌&&◌, Option, none, some, List, [],
  ◌∷◌, ◌++◌, map, Map, get, set, delete, values, length, ltb, leb, ◌==◌, if◌then◌else◌, any, all,
  keep, sub_ℕ, Number, positive, non_negative, parse_int, codes,
}
use text.Mathlib.Text.{starts_with}
use mcp4openapi.Redirects.{Url, is_conformant_registration_redirect_uri}
use Types.{
  Kind, dynamic, static, RedirectUri, literal, not_text, Client, ClientStoreLimits, RuntimeMeta,
  EvictionCandidate, EvictionDecision, evict, no_candidate, Stats,
}
use Policy.{choose_eviction_decision, is_dynamic}

pub record Store : Type 0 where
  pub clients : Map Client
  pub metadata : Map RuntimeMeta
  pub limits : ClientStoreLimits

pub data Error : Type 0 where
  not_an_array too_many_redirect_uris not_a_string uri_too_long : Error
  scheme_not_allowed : String → Error
  -- `OAuthClientStoreCapacityError` with the limit and the statistics.
  at_capacity : ℕ → Stats → Error

pub data Result {ℓ} (A : Type ℓ) : Type ℓ where
  ok : A → Result A
  throw : Error → Result A

-- What the store takes from the platform: `localeCompare`, the length of a text in UTF-16 units, and
-- `new URL`.
pub record Platform : Type 0 where
  pub locale_compare : String → String → Ordering
  pub utf16_length : String → ℕ
  pub new_url : Text → Option Url

pub record Options : Type 0 where
  pub max_clients : Option Number
  pub max_redirect_uris : Option Number
  pub max_redirect_uri_length : Option Number
  pub idle_grace_ms : Option Number

-- The four variables of `CLIENT_STORE_ENV`.
pub record Env : Type 0 where
  pub max_clients : Option String
  pub max_redirect_uris : Option String
  pub max_redirect_uri_length : Option String
  pub idle_grace_ms : Option String

abbrev pub accepted : (Number → Option ℕ) → Option Number → Option ℕ
accepted accept none = none
accepted accept (some n) = accept n

abbrev pub parsed : Option String → Option Number
parsed none = none
parsed (some text) = some (parse_int text)

abbrev pub or_else : Option ℕ → ℕ → ℕ
or_else none n = n
or_else (some m) n = m

-- The first of the option, the variable and the fallback that passes the test.
abbrev pub resolve : (Number → Option ℕ) → Option Number → Option String → ℕ → ℕ
resolve accept option env fallback =
    or_else (accepted accept option) (or_else (accepted accept (parsed env)) fallback)

unfoldable pub resolve_positive_integer : Option Number → Option String → ℕ → ℕ
resolve_positive_integer = resolve positive

unfoldable pub resolve_non_negative_integer : Option Number → Option String → ℕ → ℕ
resolve_non_negative_integer = resolve non_negative

abbrev pub client_store_defaults : ClientStoreLimits
client_store_defaults = record {
  max_clients = 1000;
  max_redirect_uris = 10;
  max_redirect_uri_length = 256;
  idle_grace_ms = 0;
}

-- The constructor.
unfoldable pub new_store : Options → Env → Store
new_store o env = record {
  clients = [];
  metadata = [];
  limits = record {
    max_clients =
        resolve_positive_integer o.max_clients env.max_clients client_store_defaults.max_clients;
    max_redirect_uris =
        resolve_positive_integer o.max_redirect_uris env.max_redirect_uris
          client_store_defaults.max_redirect_uris;
    max_redirect_uri_length =
        resolve_positive_integer o.max_redirect_uri_length env.max_redirect_uri_length
          client_store_defaults.max_redirect_uri_length;
    idle_grace_ms =
        resolve_non_negative_integer o.idle_grace_ms env.idle_grace_ms
          client_store_defaults.idle_grace_ms;
  };
}

-- `Array.from(this.metadata.values())`; a copy of a record is the record.
unfoldable pub get_client_metadata_snapshot : Store → List RuntimeMeta
get_client_metadata_snapshot s = values s.metadata

unfoldable pub get_client_count : Store → ℕ
get_client_count s = length s.clients

unfoldable pub get_limits : Store → ClientStoreLimits
get_limits s = s.limits

unfoldable pub is_idle : RuntimeMeta → Bool
is_idle m =
    m.active_session_count == 0 && m.pending_state_count == 0 && m.pending_auth_code_count == 0

abbrev pub is_dynamic_client_id : String → Bool
is_dynamic_client_id id = starts_with id "mcp-client-"

abbrev pub get_client_kind : String → Kind
get_client_kind id = if is_dynamic_client_id id then dynamic else static

abbrev pub is_none {ℓ} : {A : Type ℓ} → Option A → Bool
is_none none = true
is_none (some a) = false

abbrev pub to_candidate : ℕ → RuntimeMeta → EvictionCandidate
to_candidate now m = record {
  client_id = m.client_id;
  kind = m.kind;
  created_at = m.created_at;
  last_used_at = m.last_used_at;
  active_session_count = m.active_session_count;
  pending_state_count = m.pending_state_count;
  pending_auth_code_count = m.pending_auth_code_count;
  is_idle = is_idle m;
  is_never_used = is_none m.last_used_at;
  age_ms = sub_ℕ now m.created_at;
}

unfoldable pub build_eviction_candidates : ℕ → Store → List EvictionCandidate
build_eviction_candidates now s =
    map (to_candidate now)
      (keep (λ m. not (is_none (get m.client_id s.clients))) (values s.metadata))

-- `xs.filter(p).length`, which is what the counters of `getStats` come to.
abbrev pub count : (RuntimeMeta → Bool) → List RuntimeMeta → ℕ
count p [] = 0
count p (m ∷ ms) = if p m then suc (count p ms) else count p ms

unfoldable pub get_stats : Store → Stats
get_stats s = record {
  total_clients = length s.clients;
  dynamic_clients = count (λ m. is_dynamic m.kind) (values s.metadata);
  static_clients = count (λ m. not (is_dynamic m.kind)) (values s.metadata);
  active_session_clients = count (λ m. ltb 0 m.active_session_count) (values s.metadata);
  pending_state_clients = count (λ m. ltb 0 m.pending_state_count) (values s.metadata);
  pending_auth_code_clients = count (λ m. ltb 0 m.pending_auth_code_count) (values s.metadata);
  idle_clients = count is_idle (values s.metadata);
}

-- An update of the metadata of a client, if there is any.
unfoldable pub modify : String → (RuntimeMeta → RuntimeMeta) → Store → Store
modify id f s = elim (get id s.metadata) [
  | none ↦ s
  | some m ↦ record s { metadata = set id (f m) s.metadata }
]

abbrev pub mark_client_used : String → ℕ → Store → Store
mark_client_used id now = modify id (λ m. record m { last_used_at = some now })

unfoldable pub get_client : String → ℕ → Store → Store × Option Client
get_client id now s = elim (get id s.clients) [
  | none ↦ (s, none)
  | some client ↦ (mark_client_used id now s, some client)
]

-- `incrementCounter` and `decrementCounter` at each of the three fields. `Math.max(0, n - 1)` is the
-- subtraction of ℕ.
abbrev pub mark_session_attached : String → ℕ → Store → Store
mark_session_attached id now =
    modify id
      λ m. record m { active_session_count = m.active_session_count + 1; last_used_at = some now }

abbrev pub mark_session_detached : String → ℕ → Store → Store
mark_session_detached id now =
    modify id
      λ m. record m { active_session_count = m.active_session_count - 1; last_used_at = some now }

abbrev pub mark_auth_state_opened : String → ℕ → Store → Store
mark_auth_state_opened id now =
    modify id
      λ m. record m { pending_state_count = m.pending_state_count + 1; last_used_at = some now }

abbrev pub mark_auth_state_closed : String → ℕ → Store → Store
mark_auth_state_closed id now =
    modify id
      λ m. record m { pending_state_count = m.pending_state_count - 1; last_used_at = some now }

abbrev pub mark_auth_code_opened : String → ℕ → Store → Store
mark_auth_code_opened id now = modify id λ m. record m {
  pending_auth_code_count = m.pending_auth_code_count + 1;
  last_used_at = some now;
}

abbrev pub mark_auth_code_closed : String → ℕ → Store → Store
mark_auth_code_closed id now = modify id λ m. record m {
  pending_auth_code_count = m.pending_auth_code_count - 1;
  last_used_at = some now;
}

unfoldable pub remove_client : String → Store → Store
remove_client id s = record s { clients = delete id s.clients; metadata = delete id s.metadata }

abbrev pub is_text : RedirectUri → Bool
is_text (literal uri) = true
is_text not_text = false

abbrev pub uri_texts : List RedirectUri → List String
uri_texts [] = []
uri_texts (literal uri ∷ uris) = uri ∷ uri_texts uris
uri_texts (not_text ∷ uris) = uri_texts uris

-- The metadata written by `registerClient`.
abbrev pub new_meta : String → ℕ → RuntimeMeta
new_meta id now = record {
  client_id = id;
  kind = get_client_kind id;
  created_at = now;
  last_used_at = none;
  active_session_count = 0;
  pending_state_count = 0;
  pending_auth_code_count = 0;
}

abbrev pub meta_for : String → ℕ → Option RuntimeMeta → RuntimeMeta
meta_for id now none = new_meta id now
meta_for id now (some m) = record m { kind = get_client_kind id }

unfoldable pub put_client : Client → ℕ → Store → Store
put_client client now s = record s {
  clients = set client.client_id client s.clients;
  metadata =
      set client.client_id (meta_for client.client_id now (get client.client_id s.metadata))
        s.metadata;
}

-- `this.clients.size >= this.limits.maxClients` for a client that is not there.
abbrev pub is_full_for : String → Store → Bool
is_full_for id s = is_none (get id s.clients) && leb s.limits.max_clients (length s.clients)

module _ (p : Platform) where
  abbrev pub is_conformant : String → Bool
  is_conformant uri = is_conformant_registration_redirect_uri p.new_url (codes uri)

  -- The third loop of `validateClientMetadata`.
  unfoldable pub validate_schemes : List String → Result (Unit {0})
  validate_schemes [] = ok tt
  validate_schemes (uri ∷ uris) =
      if is_conformant uri then validate_schemes uris else throw (scheme_not_allowed uri)

  unfoldable pub validate_client_metadata : ClientStoreLimits → Client → Result (Unit {0})
  unfolding validate_schemes
  validate_client_metadata limits client = elim client.redirect_uris [
    | none ↦ throw not_an_array
    | some uris ↦
        if ltb limits.max_redirect_uris (length uris)
        then throw too_many_redirect_uris
        else if not (all is_text uris)
        then throw not_a_string
        else if any (λ uri. ltb limits.max_redirect_uri_length (p.utf16_length uri))
            (uri_texts uris)
        then throw uri_too_long
        else validate_schemes (uri_texts uris)
  ]

  -- Room for the client: the store without the evicted client, or an error.
  unfoldable pub make_room : String → ℕ → Store → Result Store
  make_room id now s =
      if is_full_for id s
      then elim (choose_eviction_decision p.locale_compare (build_eviction_candidates now s)
          s.limits.idle_grace_ms) [
            | no_candidate ↦ throw (at_capacity s.limits.max_clients (get_stats s))
            | evict victim tier ↦ ok (remove_client victim s)
          ]
      else ok s

  unfoldable pub admit : Client → ℕ → Store → Result (Store × Client)
  admit client now s = elim (make_room client.client_id now s) [
    | throw e ↦ throw e
    | ok t ↦ ok (put_client client now t, client)
  ]

  unfoldable pub register_client : Client → ℕ → Store → Result (Store × Client)
  register_client client now s =
      if is_dynamic_client_id client.client_id
      then elim (validate_client_metadata s.limits client) [
        | throw e ↦ throw e
        | ok _ ↦ admit client now s
      ]
      else admit client now s

-- ===== src/Clients/Tests.antt =====
-- Runs of the client store, and the theorems at them.
use Prim.Native.String
use mcp4openapi.Prelude.{
  ℕ, ◌≡◌, ◌≢◌, ◌⊎◌, refl, String, none, some, [], ◌∷◌, arith, get, set, delete, parse_int,
}
use mcp4openapi.Clients.Types.{Client, RuntimeMeta, static, tier_c_any_idle, evict, Stats}
use mcp4openapi.Clients.Policy.{
  choose_eviction_decision, choose_from, sort, insert_sorted, compare_candidates, in_tier,
  eviction_tiers,
}
use mcp4openapi.Clients.Eviction.{IsChosen, choose_eviction_decision-IsChosen}
use mcp4openapi.Clients.{
  Store, Platform, ok, throw, not_an_array, at_capacity, new_store, is_idle,
  build_eviction_candidates, get_stats, remove_client, put_client, make_room, admit,
  register_client, validate_client_metadata, modify, mark_session_attached,
  resolve_positive_integer, resolve_non_negative_integer,
}
use mcp4openapi.Clients.Registration.{IsValid, IsEvictable}
use mcp4openapi.Clients.Admission.{register_client-IsValid, register_client_evicts_idle}

calls : Unit {0}
unfolding register_client admit make_room put_client remove_client build_eviction_candidates
    get_stats choose_eviction_decision choose_from sort insert_sorted compare_candidates in_tier
    is_idle validate_client_metadata modify get set delete new_store resolve_positive_integer
    resolve_non_negative_integer
calls = tt

abbrev platform : Platform
platform = record {
  locale_compare = String.compare;
  utf16_length = String.len;
  new_url = λ t. none;
}

abbrev meta : String → ℕ → ℕ → RuntimeMeta
meta id created sessions = record {
  client_id = id;
  kind = static;
  created_at = created;
  last_used_at = none;
  active_session_count = sessions;
  pending_state_count = 0;
  pending_auth_code_count = 0;
}

abbrev client : String → Client
client id = record { client_id = id; redirect_uris = some [] }

-- Two clients of at most two; "busy" has a session.
abbrev full : ℕ → Store
full sessions = record {
  clients = ("busy", client "busy") ∷ ("idle", client "idle") ∷ [];
  metadata = ("busy", meta "busy" 1 1) ∷ ("idle", meta "idle" 5 sessions) ∷ [];
  limits = record {
    max_clients = 2;
    max_redirect_uris = 10;
    max_redirect_uri_length = 256;
    idle_grace_ms = 10;
  };
}

full-IsValid : IsValid (full 0)
unfolding calls
full-IsValid = record {
  clients = (refl, (refl, tt));
  metadata = (refl, (refl, tt));
  named = (refl, (refl, tt));
  bounded = omega arith;
}

abbrev after_third : Store
after_third = record (full 0) {
  clients = ("busy", client "busy") ∷ ("third", client "third") ∷ [];
  metadata = ("busy", meta "busy" 1 1) ∷ ("third", meta "third" 20 0) ∷ [];
}

third : register_client platform (client "third") 20 (full 0) ≡ ok (after_third, client "third")
unfolding calls
third = refl

abbrev no_room : Stats
no_room = record {
  total_clients = 2;
  dynamic_clients = 0;
  static_clients = 2;
  active_session_clients = 2;
  pending_state_clients = 0;
  pending_auth_code_clients = 0;
  idle_clients = 0;
}

refused : register_client platform (client "third") 20 (full 1) ≡ throw (at_capacity 2 no_room)
unfolding calls
refused = refl

no_uris :
    register_client platform
      (record { client_id = "mcp-client-x"; redirect_uris = none })
      20
      (full 0)
    ≡ throw not_an_array
unfolding calls
no_uris = refl

defaults :
    (new_store
      (record {
        max_clients = none;
        max_redirect_uris = none;
        max_redirect_uri_length = none;
        idle_grace_ms = none;
      })
      (record {
        max_clients = some " 12x";
        max_redirect_uris = some "0";
        max_redirect_uri_length = none;
        idle_grace_ms = some "0";
      })).limits
    ≡ record {
      max_clients = 12;
      max_redirect_uris = 10;
      max_redirect_uri_length = 256;
      idle_grace_ms = 0;
    }
unfolding calls parse_int
defaults = refl

choose_eviction_decision-IsChosen_example :
    IsChosen platform.locale_compare
      (build_eviction_candidates 20 (full 0))
      10
      eviction_tiers
      (evict "idle" tier_c_any_idle)
unfolding calls
choose_eviction_decision-IsChosen_example =
    choose_eviction_decision-IsChosen platform.locale_compare
      (build_eviction_candidates 20 (full 0)) 10

register_client-IsValid_example : IsValid after_third
register_client-IsValid_example =
    register_client-IsValid platform (client "third") 20 (full 0) full-IsValid third

idle_not_third : ◌≢◌ {A = String} "idle" "third"
idle_not_third e = cc

register_client_evicts_idle_example :
    (get "third" after_third.clients ≡ some (client "third"))
    × ((get "idle" after_third.clients ≡ get "idle" (full 0).clients)
        ⊎ (IsEvictable "idle" 20 (full 0) × (get "idle" after_third.clients ≡ none)))
register_client_evicts_idle_example =
    register_client_evicts_idle platform (client "third") 20 (full 0) "idle" full-IsValid
      idle_not_third third

idle_lem : get "idle" (full 0).metadata ≡ some (meta "idle" 5 0)
unfolding calls
idle_lem = refl

abbrev one_idle : Store
one_idle = record (full 0) { metadata = ("busy", meta "busy" 1 0) ∷ ("idle", meta "idle" 5 0) ∷ [] }

-- The store is full, so the registration evicts the client that is idle still.
both_idle : IsValid one_idle
unfolding calls
both_idle = record {
  clients = (refl, (refl, tt));
  metadata = (refl, (refl, tt));
  named = (refl, (refl, tt));
  bounded = omega arith;
}

one_idle_lem : get "busy" one_idle.metadata ≡ some (meta "busy" 1 0)
unfolding calls
one_idle_lem = refl

busy_not_third : ◌≢◌ {A = String} "busy" "third"
busy_not_third e = cc

abbrev in_place_of_idle : Store
in_place_of_idle = record (full 0) {
  clients = ("busy", client "busy") ∷ ("third", client "third") ∷ [];
  metadata =
      ("busy", record (meta "busy" 1 1) { last_used_at = some 15 })
      ∷ ("third", meta "third" 20 0)
      ∷ [];
}

idle_evicted :
    register_client platform (client "third") 20 (mark_session_attached "busy" 15 one_idle)
    ≡ ok (in_place_of_idle, client "third")
unfolding calls
idle_evicted = refl

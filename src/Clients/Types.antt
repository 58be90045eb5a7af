-- ===== src/Clients/Types.antt =====
-- The records of src/auth/client-store/types.ts, and the part of a registered client that the
-- store reads.
use mcp4openapi.Prelude.{ℕ, String, Bool, Option, List, ℤ}

pub data Kind : Type 0 where
  dynamic static : Kind

-- An element of `redirect_uris`: a text, or a value of another type.
pub data RedirectUri : Type 0 where
  literal : String → RedirectUri
  not_text : RedirectUri

-- `OAuthClientInformationFull` of the SDK, as far as it is read here; `none` where
-- `redirect_uris` is no array.
pub record Client : Type 0 where
  pub client_id : String
  pub redirect_uris : Option (List RedirectUri)

pub record ClientStoreLimits : Type 0 where
  pub max_clients : ℕ
  pub max_redirect_uris : ℕ
  pub max_redirect_uri_length : ℕ
  pub idle_grace_ms : ℕ

pub record RuntimeMeta : Type 0 where
  pub client_id : String
  pub kind : Kind
  pub created_at : ℕ
  pub last_used_at : Option ℕ
  pub active_session_count : ℕ
  pub pending_state_count : ℕ
  pub pending_auth_code_count : ℕ

pub record EvictionCandidate : Type 0 where
  pub client_id : String
  pub kind : Kind
  pub created_at : ℕ
  pub last_used_at : Option ℕ
  pub active_session_count : ℕ
  pub pending_state_count : ℕ
  pub pending_auth_code_count : ℕ
  pub is_idle : Bool
  pub is_never_used : Bool
  pub age_ms : ℤ

pub data EvictionTierId : Type 0 where
  tier_a_dynamic_idle_never_used tier_b_dynamic_idle tier_c_any_idle : EvictionTierId

pub data EvictionDecision : Type 0 where
  evict : String → EvictionTierId → EvictionDecision
  no_candidate : EvictionDecision

pub record Stats : Type 0 where
  pub total_clients : ℕ
  pub dynamic_clients : ℕ
  pub static_clients : ℕ
  pub active_session_clients : ℕ
  pub pending_state_clients : ℕ
  pub pending_auth_code_clients : ℕ
  pub idle_clients : ℕ

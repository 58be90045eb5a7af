-- ===== src/InboundTokens.antt =====
-- src/auth/inbound-auth-token-store.ts: the tokens that were issued to clients.
pub mod Kept
mod Tests
use mcp4openapi.Prelude.{
  ℕ, zero, suc, String, Bool, true, false, not, ◌&&◌, Option, none, some, List, [], ◌∷◌, Map, get,
  set, delete, delete_where, length, leb, ltb, if◌then◌else◌, str_eq,
}

-- `P` is the rest of a principal; its expiry is the record's.
pub record TokenRecord (P : Type 0) : Type 0 where
  pub token : String
  pub principal : P
  pub issued_at : ℕ
  pub expires_at : Option ℕ

abbrev pub is_expired : {P : Type 0} → ℕ → TokenRecord P → Bool
is_expired now r = elim r.expires_at [ none ↦ false | some at ↦ leb at now ]

module _ {P : Type 0} (max_tokens : ℕ) where
  -- The loop stops at an empty key. Each turn deletes a record, so the number of records is fuel
  -- enough.
  unfoldable pub evict_from : ℕ → Map (TokenRecord P) → Map (TokenRecord P)
  evict_from zero records = records
  evict_from (suc fuel) [] = []
  evict_from (suc fuel) ((oldest, r) ∷ rest) =
      elim (ltb max_tokens (length ((oldest, r) ∷ rest)) && not (str_eq oldest "")) [
        | false ↦ (oldest, r) ∷ rest
        | true ↦ evict_from fuel (delete oldest ((oldest, r) ∷ rest))
      ]

  abbrev pub evict_overflow : Map (TokenRecord P) → Map (TokenRecord P)
  evict_overflow records = evict_from (length records) records

  abbrev pub evict_expired : ℕ → Map (TokenRecord P) → Map (TokenRecord P)
  evict_expired now records = delete_where (is_expired now) records

  abbrev pub new_record : String → P → Option ℕ → ℕ → TokenRecord P
  new_record token principal expires_at now = record {
    token = token;
    principal = principal;
    issued_at = now;
    expires_at = expires_at;
  }

  -- The clock is read for the sweep and for the record.
  unfoldable pub store : String → P → Option ℕ → ℕ → ℕ → Map (TokenRecord P) → Map (TokenRecord P)
  store token principal expires_at sweep now records =
      evict_overflow
        (set token (new_record token principal expires_at now) (evict_expired sweep records))

  unfoldable pub get_token :
      String → ℕ → Map (TokenRecord P) → Option (TokenRecord P) × Map (TokenRecord P)
  get_token token now records = elim (get token records) [
    | none ↦ (none, records)
    | some r ↦ if is_expired now r then (none, delete token records) else (some r, records)
  ]

  -- `random` is the token from the random bytes.
  abbrev pub issue : String → P → Option ℕ → ℕ → ℕ → Map (TokenRecord P) → Map (TokenRecord P)
  issue random principal expires_at sweep now records =
      store random principal expires_at sweep now records

  abbrev pub delete_token : String → Map (TokenRecord P) → Map (TokenRecord P)
  delete_token token records = delete token records

  abbrev pub token_count : Map (TokenRecord P) → ℕ
  token_count records = length records

-- ===== src/InboundTokens/Kept.antt =====
-- How long an issued token is known.
use mcp4openapi.Prelude.{
  ℕ, zero, suc, ◌+◌, ◌≤◌, ◌<◌, ◌≡◌, refl, ◌∙◌, inl, inr, String, false, not, ◌&&◌, Option, none,
  some, List, [], ◌∷◌, Map, get, set, delete, length, ltb, str_eq, arith, Bool-cases, get-set,
  get-set_self, get-delete, behind, behind-delete-le, behind-set-le, behind-set_new,
  delete_where-kept,
}
use mcp4openapi.InboundTokens.{
  TokenRecord, is_expired, evict_from, evict_expired, new_record, store, get_token,
}

module _ (P : Type 0) (max_tokens : ℕ) where
  -- The token's record is stored, with so many behind it.
  abbrev Holds : String → TokenRecord P → ℕ → Map (TokenRecord P) → Type 0
  Holds token r n records = (get token records ≡ some r) × (behind token records ≤ n)

  evict_from-Holds :
      (fuel : ℕ) (token : String) (r : TokenRecord P) (n : ℕ) (records : Map (TokenRecord P))
      → n < max_tokens
      → Holds token r n records
      → Holds token r n (evict_from max_tokens fuel records)
  unfolding evict_from
  evict_from-Holds zero token r n records few h = h
  evict_from-Holds (suc fuel) token r n [] few h = h
  evict_from-Holds (suc fuel) token r n ((oldest, o) ∷ rest) few (there, b) =
      elim (Bool-cases (ltb max_tokens (length ((oldest, o) ∷ rest)) && not (str_eq oldest ""))) [
        | inr fits ↦ rw (fits, evict_from) (there, b)
        | inl over ↦
            let other : str_eq oldest token ≡ false = ground arith in
            rw (over, evict_from)
              (evict_from-Holds fuel token r n (delete oldest ((oldest, o) ∷ rest)) few (
                get-delete oldest token ((oldest, o) ∷ rest) ∙ rw other there,
                omega (arith, behind-delete-le token oldest ((oldest, o) ∷ rest) other),
              ))
      ]

  store-Holds :
      (token other : String) (r : TokenRecord P) (n : ℕ) (principal : P) (expires_at : Option ℕ)
      (sweep now : ℕ) (records : Map (TokenRecord P))
      → n + 1 < max_tokens
      → str_eq other token ≡ false
      → is_expired sweep r ≡ false
      → Holds token r n records
      → Holds token r (n + 1) (store max_tokens other principal expires_at sweep now records)
  unfolding store
  store-Holds token other r n principal expires_at sweep now records few differs live (there, b) =
      let swept = evict_expired max_tokens sweep records in
      let added = new_record max_tokens other principal expires_at now in
      let (kept, b') = delete_where-kept (is_expired sweep) token r records there live in
      let stored = set other added swept in
      evict_from-Holds (length stored) token r (n + 1) stored few (
        get-set other token added swept ∙ rw differs kept,
        omega (arith, b, b', behind-set-le token other added swept differs),
      )

  store_first :
      (token : String) (principal : P) (expires_at : Option ℕ) (sweep now : ℕ)
      (records : Map (TokenRecord P))
      → 0 < max_tokens
      → get token (evict_expired max_tokens sweep records) ≡ none
      → Holds token
          (new_record max_tokens token principal expires_at now)
          0
          (store max_tokens token principal expires_at sweep now records)
  unfolding store
  store_first token principal expires_at sweep now records few fresh =
      let swept = evict_expired max_tokens sweep records in
      let added = new_record max_tokens token principal expires_at now in
      evict_from-Holds (length (set token added swept)) token added 0 (set token added swept) few
        (get-set_self token added swept, omega (arith, behind-set_new token added swept fresh))

  -- Calls of `store`: the token, the principal, its expiry, and the two times.
  abbrev pub Calls : Type 0
  Calls = List (String × P × Option ℕ × ℕ × ℕ)

  abbrev pub store_all : Calls → Map (TokenRecord P) → Map (TokenRecord P)
  store_all [] records = records
  store_all ((token, principal, expires_at, sweep, now) ∷ calls) records =
      store_all calls (store max_tokens token principal expires_at sweep now records)

  -- The calls are for other tokens, at times when the record has not expired.
  abbrev pub Others : String → TokenRecord P → Calls → Type 0
  Others token r [] = Unit
  Others token r ((other, principal, expires_at, sweep, now) ∷ calls) =
      (str_eq other token ≡ false) × (is_expired sweep r ≡ false) × Others token r calls

  store_all-Holds :
      (token : String) (r : TokenRecord P) (n : ℕ) (calls : Calls) (records : Map (TokenRecord P))
      → n + length calls < max_tokens
      → Others token r calls
      → Holds token r n records
      → Holds token r (n + length calls) (store_all calls records)
  store_all-Holds token r n [] records few o (there, b) = (there, omega arith)
  store_all-Holds token r n ((other, principal, expires_at, sweep, now) ∷ calls) records few
        (differs, live, o) h =
      let next = store max_tokens other principal expires_at sweep now records in
      let (there, b) = store_all-Holds token r (n + 1) calls next (omega arith) o (
        store-Holds token other r n principal expires_at sweep now records (omega arith) differs
          live h) in
      (there, omega arith)

  -- A new token that is stored is found until it expires, if fewer than `max_tokens` tokens in all
  -- have been stored since, itself included.
  pub get_token-store :
      (token : String) (principal : P) (expires_at : Option ℕ) (sweep now at : ℕ) (calls : Calls)
      (records : Map (TokenRecord P))
      → get token (evict_expired max_tokens sweep records) ≡ none
      → length calls < max_tokens
      → Others token (new_record max_tokens token principal expires_at now) calls
      → is_expired at (new_record max_tokens token principal expires_at now) ≡ false
      → (get_token max_tokens token at
          (store_all calls (store max_tokens token principal expires_at sweep now records))).0
        ≡ some (new_record max_tokens token principal expires_at now)
  unfolding get_token
  get_token-store token principal expires_at sweep now at calls records fresh few o live =
      let r = new_record max_tokens token principal expires_at now in
      let first = store_first token principal expires_at sweep now records (omega arith) fresh in
      let next = store max_tokens token principal expires_at sweep now records in
      let (there, b) = store_all-Holds token r 0 calls next (omega arith) o first in
      rw (there, live, get_token) refl

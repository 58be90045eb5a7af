-- ===== src/PendingConsent.antt =====
-- src/auth/pending-consent-store.ts: the store of consents that wait for the user's answer, in
-- memory. The cipher, the hash, JSON and the source of random bytes are parameters.
pub mod Once
mod Tests
use mcp4openapi.Prelude.{
  ℕ, ◌+◌, ◌≡◌, String, Bool, true, false, not, ◌&&◌, ◌||◌, Option, none, some, List, [], ◌∷◌, Map,
  get, set, delete, delete_where, codes, length, all, leb, ltb, ◌==◌, if◌then◌else◌, str_eq,
}

abbrev pub pending_consent_ttl_ms : ℕ
pending_consent_ttl_ms = 600000

-- `/^[A-Za-z0-9_-]{43}$/`
unfoldable pub is_pending_id_shape : String → Bool
is_pending_id_shape id = length (codes id) == 43 && all is_id_char (codes id)
  where
    is_id_char : ℕ → Bool
    is_id_char c =
        (leb b'A' c && leb c b'Z')
        || (leb b'a' c && leb c b'z')
        || (leb b'0' c && leb c b'9')
        || c == b'_'
        || c == b'-'

pub record Row : Type 0 where
  pub profile_id : String
  pub ciphertext : String
  pub expires_at : ℕ

-- `null`, a payload, or the error that is thrown.
pub data Answer (P : Type 0) : Type 0 where
  absent : Answer P
  found : P → Answer P
  failed : Answer P

-- What `node:crypto` and JSON give. `seal` makes the text of an envelope from the key, the
-- initialization vector, the additional data and the plain text, and `unseal` opens it.
pub record Codec (Key P : Type 0) : Type 0 where
  pub hash_pending_id : String → String
  pub seal : Key → String → String → String → String
  pub unseal : Key → String → String → Option String
  pub additional_data : String → String → String
  pub to_json : P → String
  pub from_json : String → Option P
  pub profile_of : P → String

-- What is sealed can be opened with the same additional data, and a payload survives JSON.
pub record IsCodec {Key P : Type 0} (c : Codec Key P) : Type 0 where
  pub unseal-seal :
      (key : Key) (iv aad text : String) → c.unseal key aad (c.seal key iv aad text) ≡ some text
  pub from_json-to_json : (payload : P) → c.from_json (c.to_json payload) ≡ some payload

module _ {Key P : Type 0} (c : Codec Key P) (key : Key) where
  unfoldable pub encrypt_payload : String → String → P → String
  encrypt_payload iv pending_id payload =
      c.seal key iv (c.additional_data pending_id (c.profile_of payload)) (c.to_json payload)

  unfoldable pub decrypt_payload : String → String → String → Answer P
  decrypt_payload pending_id profile_id ciphertext =
      elim (c.unseal key (c.additional_data pending_id profile_id) ciphertext) [
        | none ↦ failed
        | some text ↦ elim (c.from_json text) [ none ↦ failed | some payload ↦ found payload ]
      ]

  -- Every insertion sweeps the expired rows first.
  unfoldable pub insert : String → String → String → ℕ → ℕ → Map Row → Map Row
  insert id_hash profile_id ciphertext expires_at now rows =
      set id_hash
        (record { profile_id = profile_id; ciphertext = ciphertext; expires_at = expires_at })
        (delete_where (λ row. leb row.expires_at now) rows)

  unfoldable pub read : String → String → ℕ → Map Row → Option String
  read id_hash profile_id now rows = elim (get id_hash rows) [
    | none ↦ none
    | some row ↦
        if not (str_eq row.profile_id profile_id) || leb row.expires_at now
        then none
        else some row.ciphertext
  ]

  unfoldable pub take : String → String → ℕ → Map Row → Option String × Map Row
  take id_hash profile_id now rows = elim (get id_hash rows) [
    | none ↦ (none, rows)
    | some row ↦
        if not (str_eq row.profile_id profile_id)
        then (none, rows)
        else (if leb row.expires_at now then none else some row.ciphertext, delete id_hash rows)
  ]

  -- The id and the vector are the random bytes; the clock is read for the expiry and for the sweep.
  unfoldable pub create : String → String → P → ℕ → ℕ → Map Row → Map Row
  create pending_id iv payload now sweep rows =
      insert (c.hash_pending_id pending_id) (c.profile_of payload)
        (encrypt_payload iv pending_id payload) (now + pending_consent_ttl_ms) sweep rows

  abbrev opened : String → String → Option String → Answer P
  opened pending_id profile_id none = absent
  opened pending_id profile_id (some ciphertext) = decrypt_payload pending_id profile_id ciphertext

  unfoldable pub peek : String → String → ℕ → Map Row → Answer P
  peek pending_id profile_id now rows =
      if is_pending_id_shape pending_id
      then opened pending_id profile_id (read (c.hash_pending_id pending_id) profile_id now rows)
      else absent

  unfoldable pub consume : String → String → ℕ → Map Row → Answer P × Map Row
  consume pending_id profile_id now rows =
      if is_pending_id_shape pending_id
      then (let (taken, rows') = take (c.hash_pending_id pending_id) profile_id now rows in
          (opened pending_id profile_id taken, rows'))
      else (absent, rows)

-- ===== src/PendingConsent/Once.antt =====
-- A pending consent is answered at most once, by its own profile and before it expires.
use mcp4openapi.Prelude.{
  ℕ, ◌+◌, ◌<◌, ◌≤◌, ◌≡◌, ◌≢◌, refl, ap, ◌∙◌, String, true, false, not, ◌||◌, none, some, Map, get,
  delete, get-set_self, get-delete_self, leb, str_eq, eq_refl, eq_iff, if◌then◌else◌, arith,
  Bool-cases, inl, inr,
}
use mcp4openapi.PendingConsent.{
  Row, absent, found, Codec, IsCodec, is_pending_id_shape, pending_consent_ttl_ms, encrypt_payload,
  decrypt_payload, insert, read, take, create, peek, consume,
}

module _ {Key P : Type 0} (c : Codec Key P) (key : Key) (law : IsCodec c) where
  decrypt-encrypt :
      (iv pending_id : String) (payload : P)
      → decrypt_payload c key pending_id
          (c.profile_of payload)
          (encrypt_payload c key iv pending_id payload)
        ≡ found payload
  unfolding decrypt_payload encrypt_payload
  decrypt-encrypt iv pending_id payload =
      rw
        (
          encrypt_payload,
          decrypt_payload,
          law.unseal-seal key iv (c.additional_data pending_id (c.profile_of payload))
              (c.to_json payload),
          law.from_json-to_json payload,
        )
        refl

  abbrev row : String → String → P → ℕ → Row
  row pending_id iv payload now = record {
    profile_id = c.profile_of payload;
    ciphertext = encrypt_payload c key iv pending_id payload;
    expires_at = now + pending_consent_ttl_ms;
  }

  get-create :
      (pending_id iv : String) (payload : P) (now sweep : ℕ) (rows : Map Row)
      → get (c.hash_pending_id pending_id) (create c key pending_id iv payload now sweep rows)
        ≡ some (row pending_id iv payload now)
  unfolding create insert
  get-create pending_id iv payload now sweep rows =
      get-set_self (c.hash_pending_id pending_id) (row pending_id iv payload now) _

  read_row :
      (id_hash profile : String) (now : ℕ) (rows : Map Row) (r : Row)
      → get id_hash rows ≡ some r
      → read c key id_hash profile now rows ≡ (
          if not (str_eq r.profile_id profile) || leb r.expires_at now
          then none
          else some r.ciphertext)
  unfolding read
  read_row id_hash profile now rows r e = rw (e, read) refl

  take_row :
      (id_hash profile : String) (now : ℕ) (rows : Map Row) (r : Row)
      → get id_hash rows ≡ some r
      → take c key id_hash profile now rows ≡ (
          if not (str_eq r.profile_id profile)
          then (none, rows)
          else (if leb r.expires_at now then none else some r.ciphertext, delete id_hash rows))
  unfolding take
  take_row id_hash profile now rows r e = rw (e, take) refl

  -- What is not taken is absent, whatever the id.
  not_taken :
      (pending_id profile : String) (now : ℕ) (rows left : Map Row)
      → take c key (c.hash_pending_id pending_id) profile now rows ≡ (none, left)
      → (consume c key pending_id profile now rows).0 ≡ absent
  unfolding consume
  not_taken pending_id profile now rows left e =
      elim (Bool-cases (is_pending_id_shape pending_id)) [
        | inl shape ↦ rw (shape, e) refl
        | inr other ↦ rw other refl
      ]

  left_alone :
      (pending_id profile : String) (now : ℕ) (rows : Map Row)
      → take c key (c.hash_pending_id pending_id) profile now rows ≡ (none, rows)
      → consume c key pending_id profile now rows ≡ (absent, rows)
  unfolding consume
  left_alone pending_id profile now rows e = elim (Bool-cases (is_pending_id_shape pending_id)) [
    | inl shape ↦ rw (shape, e) refl
    | inr other ↦ rw other refl
  ]

  not_read :
      (pending_id profile : String) (now : ℕ) (rows : Map Row)
      → read c key (c.hash_pending_id pending_id) profile now rows ≡ none
      → peek c key pending_id profile now rows ≡ absent
  unfolding peek
  not_read pending_id profile now rows e = elim (Bool-cases (is_pending_id_shape pending_id)) [
    | inl shape ↦ rw (shape, e) refl
    | inr other ↦ rw other refl
  ]

  missing_read :
      (id_hash profile : String) (now : ℕ) (rows : Map Row)
      → get id_hash rows ≡ none
      → read c key id_hash profile now rows ≡ none
  unfolding read
  missing_read id_hash profile now rows e = rw (e, read) refl

  missing_take :
      (id_hash profile : String) (now : ℕ) (rows : Map Row)
      → get id_hash rows ≡ none
      → take c key id_hash profile now rows ≡ (none, rows)
  unfolding take
  missing_take id_hash profile now rows e = rw (e, take) refl

  live_lem :
      (pending_id iv : String) (payload : P) (now at : ℕ) (rows : Map Row)
      → is_pending_id_shape pending_id ≡ true
      → get (c.hash_pending_id pending_id) rows ≡ some (row pending_id iv payload now)
      → at < now + pending_consent_ttl_ms
      → (peek c key pending_id (c.profile_of payload) at rows ≡ found payload)
        × (consume c key pending_id (c.profile_of payload) at rows
            ≡ (found payload, delete (c.hash_pending_id pending_id) rows))
  unfolding consume peek
  live_lem pending_id iv payload now at rows shape there live =
      let fresh : leb (now + pending_consent_ttl_ms) at ≡ false = ground arith in
      let r = row pending_id iv payload now in
      (
        rw
            (
              shape,
              read_row (c.hash_pending_id pending_id) (c.profile_of payload) at rows r there,
              eq_refl (c.profile_of payload),
              fresh,
            )
            (decrypt-encrypt iv pending_id payload),
        rw
            (
              shape,
              take_row (c.hash_pending_id pending_id) (c.profile_of payload) at rows r there,
              eq_refl (c.profile_of payload),
              fresh,
            )
            (ap (λ a. (a, delete (c.hash_pending_id pending_id) rows))
              (decrypt-encrypt iv pending_id payload)),
      )

  -- A consent that was created can be read until it expires, and is consumed once: it is then
  -- absent for every reader.
  pub consume_once :
      (pending_id iv other_profile : String) (payload : P) (now sweep at later : ℕ) (rows : Map Row)
      → is_pending_id_shape pending_id ≡ true
      → at < now + pending_consent_ttl_ms
      → (let s = create c key pending_id iv payload now sweep rows in
          let s' = (consume c key pending_id (c.profile_of payload) at s).1 in
          (peek c key pending_id (c.profile_of payload) at s ≡ found payload)
          × ((consume c key pending_id (c.profile_of payload) at s).0 ≡ found payload)
          × (consume c key pending_id other_profile later s' ≡ (absent, s'))
          × (peek c key pending_id other_profile later s' ≡ absent))
  consume_once pending_id iv other_profile payload now sweep at later rows shape live =
      let s = create c key pending_id iv payload now sweep rows in
      let (read_once, consumed) =
        live_lem pending_id iv payload now at s shape
          (get-create pending_id iv payload now sweep rows) live in
      let h = c.hash_pending_id pending_id in
      let s' = (consume c key pending_id (c.profile_of payload) at s).1 in
      let gone : get h s' ≡ none = ap (λ r. get h r.1) consumed ∙ get-delete_self h s in
      (
        read_once,
        ap (λ r. r.0) consumed,
        left_alone pending_id other_profile later s' (missing_take h other_profile later s' gone),
        not_read pending_id other_profile later s' (missing_read h other_profile later s' gone),
      )

  -- The id with another profile is absent and leaves the store as it is; behind the expiry it is
  -- absent also with its own.
  pub consume_refused :
      (pending_id iv profile : String) (payload : P) (now sweep at late : ℕ) (rows : Map Row)
      → c.profile_of payload ≢ profile
      → now + pending_consent_ttl_ms ≤ late
      → (let s = create c key pending_id iv payload now sweep rows in
          (consume c key pending_id profile at s ≡ (absent, s))
          × (peek c key pending_id profile at s ≡ absent)
          × ((consume c key pending_id (c.profile_of payload) late s).0 ≡ absent)
          × (peek c key pending_id (c.profile_of payload) late s ≡ absent))
  consume_refused pending_id iv profile payload now sweep at late rows other passed =
      let s = create c key pending_id iv payload now sweep rows in
      let h = c.hash_pending_id pending_id in
      let p = c.profile_of payload in
      let r = row pending_id iv payload now in
      let there = get-create pending_id iv payload now sweep rows in
      let differs : str_eq p profile ≡ false = ground (arith, eq_iff p profile) in
      let expired : leb (now + pending_consent_ttl_ms) late ≡ true = ground arith in
      (
        left_alone pending_id profile at s (take_row h profile at s r there ∙ rw differs refl),
        not_read pending_id profile at s (read_row h profile at s r there ∙ rw differs refl),
        not_taken pending_id p late s (delete h s)
            (take_row h p late s r there ∙ rw (eq_refl p, expired) refl),
        not_read pending_id p late s (read_row h p late s r there ∙ rw (eq_refl p, expired) refl),
      )

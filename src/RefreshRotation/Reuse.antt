-- ===== src/RefreshRotation/Reuse.antt =====
-- A replayed token revokes its family, and what the revoked family answers from then on.
use mcp4openapi.Prelude.{
  ℕ, ◌+◌, ◌<◌, ◌≡◌, refl, ap, ◌∙◌, String, false, some, none, arith, get, get-delete_self,
}
use mcp4openapi.RefreshRotation.{
  Store, Lease, Options, throws, superseded, chain_revoked, evict_expired, is_revoked, revoke,
  redeem, begin_rotation, commit,
}
use mcp4openapi.RefreshRotation.Keep.{
  IsMap, evict_expired-IsMap, is_revoked-IsMap, is_revoked_live, evict_expired-revoked,
  revoke-marker, revoke-IsMap,
}

module _ {T : Type 0} where
  -- The store after the sweep and the test at the start of `beginRotation`.
  abbrev pub swept : String → ℕ → Store T → Store T
  swept key now s = (is_revoked key now (evict_expired now s)).0

  pub swept-IsMap : (key : String) (now : ℕ) (s : Store T) → IsMap s → IsMap (swept key now s)
  swept-IsMap key now s v =
      is_revoked-IsMap key now (evict_expired now s) (evict_expired-IsMap now s v)

  pub swept-options : (key : String) (now : ℕ) (s : Store T) → (swept key now s).options ≡ s.options
  unfolding is_revoked evict_expired
  swept-options key now s = ground arith

  revoke-family :
      (key : String) (now : ℕ) (s : Store T) → get key (revoke key now s).families ≡ none
  unfolding revoke
  revoke-family key now s = get-delete_self key s.families

  pub begin_rotation-superseded :
      (key jti : String) (now : ℕ) (new_jti : String) (s : Store T) {t : Store T}
      → begin_rotation key jti now new_jti s ≡ (t, throws superseded)
      → t ≡ revoke key now (swept key now s)
  unfolding begin_rotation redeem
  begin_rotation-superseded key jti now new_jti s h = ground arith

  -- A live marker closes the family: each redemption fails, and the leader that is still at work
  -- fails when it commits.
  begin_rotation-chain_revoked :
      (key jti : String) (now : ℕ) (new_jti : String) (expires_at : ℕ) (s : Store T)
      → IsMap s
      → get key s.revoked ≡ some expires_at
      → now < expires_at
      → (begin_rotation key jti now new_jti s).1 ≡ throws chain_revoked
  unfolding begin_rotation
  begin_rotation-chain_revoked key jti now new_jti expires_at s v h live =
      rw
        (
          is_revoked_live key now expires_at (evict_expired now s)
              (evict_expired-revoked now key expires_at s v h live) live,
          begin_rotation,
        )
        refl

  commit-chain_revoked :
      (l : Lease) (result : T) (at expires_at : ℕ) (s : Store T)
      → l.settled ≡ false
      → get l.key s.revoked ≡ some expires_at
      → at < expires_at
      → (commit l result at s).2 ≡ throws chain_revoked
  unfolding commit
  commit-chain_revoked l result at expires_at s unsettled h live =
      rw (unsettled, is_revoked_live l.key at expires_at s h live, commit) refl

  -- When a redemption reports reuse, the family is revoked: until the time to live is over, every
  -- further redemption of the family fails, whatever the token, and so does the commit of a lease
  -- that was handed out before; the family's entry is gone.
  pub reuse_closes_family :
      (key jti : String) (now : ℕ) (new_jti : String) (s : Store T) {t : Store T} (later : ℕ)
      (jti' new_jti' : String) (l : Lease) (result : T)
      → IsMap s
      → 0 < s.options.max_revoked_families
      → begin_rotation key jti now new_jti s ≡ (t, throws superseded)
      → later < now + s.options.ttl_ms
      → l.key ≡ key
      → l.settled ≡ false
      → (get key t.families ≡ none)
        × ((begin_rotation key jti' later new_jti' t).1 ≡ throws chain_revoked)
        × ((commit l result later t).2 ≡ throws chain_revoked)
  reuse_closes_family key jti now new_jti s {t} later jti' new_jti' l result v room h live k
        unsettled =
      let same = begin_rotation-superseded key jti now new_jti s h in
      let v' = swept-IsMap key now s v in
      let o = swept-options key now s in
      let marker : get key t.revoked ≡ some (now + s.options.ttl_ms) =
        ap (λ u. get key u.revoked) same
        ∙ revoke-marker key now (swept key now s) v' (rw o room)
        ∙ ap (λ (options : Options). some (now + options.ttl_ms)) o in
      (
        ap (λ u. get key u.families) same ∙ revoke-family key now (swept key now s),
        begin_rotation-chain_revoked key jti' later new_jti' _ t
            (rw same (revoke-IsMap key now _ v')) marker live,
        commit-chain_revoked l result later _ t unsettled (rw k marker) live,
      )

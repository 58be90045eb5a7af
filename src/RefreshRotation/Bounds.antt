-- ===== src/RefreshRotation/Bounds.antt =====
-- The two limits hold after every call.
use mcp4openapi.Prelude.{
  ℕ, ◌≤◌, inl, inr, String, some, none, Option, arith, get, Option-cases, length-delete-le,
  length-delete_where-le, leb,
}
use mcp4openapi.RefreshRotation.{
  Store, Lease, Options, evict_expired, is_revoked, store_entry, revoke, redeem_live, redeem,
  begin_rotation, commit, lead, new_lease, advance, release, fail, size, revoked_size, new_store,
  FamilyEntry, assign, settle, Promise, rejected, chain_revoked, upstream,
}
use mcp4openapi.RefreshRotation.Keep.{
  IsMap, length-drop_oldest-le, evict_expired-IsMap, is_revoked-IsMap, store_entry-IsMap,
  revoke-IsMap,
}

module _ {T : Type 0} where
  -- The maps' keys differ, and both maps are within their limits.
  pub record IsBounded (s : Store T) : Type 0 where
    pub maps : IsMap s
    pub families : size s ≤ s.options.max_families
    pub revoked : revoked_size s ≤ s.options.max_revoked_families

  evict_expired-IsBounded : (now : ℕ) (s : Store T) → IsBounded s → IsBounded (evict_expired now s)
  unfolding evict_expired size revoked_size
  evict_expired-IsBounded now s v = record {
    maps = evict_expired-IsMap now s v.maps;
    families = omega (
      arith,
      length-delete_where-le (λ (a : ℕ). leb (s.heap a).expires_at now) s.families,
      v.families,
    );
    revoked = omega (arith, length-delete_where-le (λ (t : ℕ). leb t now) s.revoked, v.revoked);
  }

  is_revoked-IsBounded :
      (key : String) (now : ℕ) (s : Store T) → IsBounded s → IsBounded (is_revoked key now s).0
  unfolding is_revoked size revoked_size
  is_revoked-IsBounded key now s v = record {
    maps = is_revoked-IsMap key now s v.maps;
    families = ground arith;
    revoked = ground (arith, length-delete-le key s.revoked, v.revoked);
  }

  -- `store` cuts the families to their limit, whatever stood there.
  store_entry-IsBounded :
      (key : String) (a : ℕ) (s : Store T)
      → IsMap s
      → revoked_size s ≤ s.options.max_revoked_families
      → IsBounded (store_entry key a s)
  unfolding store_entry size revoked_size
  store_entry-IsBounded key a s v h = record {
    maps = store_entry-IsMap key a s v;
    families = length-drop_oldest-le _ _ _ (omega arith);
    revoked = h;
  }

  revoke-IsBounded :
      (key : String) (now : ℕ) (s : Store T) → IsBounded s → IsBounded (revoke key now s)
  unfolding revoke size revoked_size
  revoke-IsBounded key now s v = record {
    maps = revoke-IsMap key now s v.maps;
    families = omega (arith, length-delete-le key s.families, v.families);
    revoked = length-drop_oldest-le _ _ _ (omega arith);
  }

  new_lease-IsBounded :
      (key jti : String) (existing : Option ℕ) (now : ℕ) (new_jti : String) (s : Store T)
      → IsBounded s
      → IsBounded (new_lease key jti existing now new_jti s).0
  unfolding new_lease size revoked_size
  new_lease-IsBounded key jti none now new_jti s v = record {
    maps = record {
      families = (store_entry-IsMap key s.next_address s v.maps).families;
      revoked = v.maps.revoked;
    };
    families = (store_entry-IsBounded key s.next_address s v.maps v.revoked).families;
    revoked = v.revoked;
  }
  new_lease-IsBounded key jti (some a) now new_jti s v = record {
    maps = record {
      families = (store_entry-IsMap key a s v.maps).families;
      revoked = v.maps.revoked;
    };
    families = (store_entry-IsBounded key a s v.maps v.revoked).families;
    revoked = v.revoked;
  }

  redeem_live-IsBounded :
      (key jti : String) (a now : ℕ) (new_jti : String) (s : Store T)
      → IsBounded s
      → IsBounded (redeem_live key jti a now new_jti s).0
  unfolding redeem_live lead
  redeem_live-IsBounded key jti a now new_jti s v =
      ground
        (arith, revoke-IsBounded key now s v, new_lease-IsBounded key jti (some a) now new_jti s v)

  redeem-IsBounded :
      (key jti : String) (now : ℕ) (new_jti : String) (s : Store T)
      → IsBounded s
      → IsBounded (redeem key jti now new_jti s).0
  unfolding redeem lead
  redeem-IsBounded key jti now new_jti s v = elim (Option-cases (get key s.families)) [
    | inl new ↦ rw (new, redeem) (new_lease-IsBounded key jti none now new_jti s v)
    | inr (a, found) ↦
        rw (found, redeem)
          (ground (
            arith,
            redeem_live-IsBounded key jti a now new_jti s v,
            new_lease-IsBounded key jti none now new_jti s v,
          ))
  ]

  pub begin_rotation-IsBounded :
      (key jti : String) (now : ℕ) (new_jti : String) (s : Store T)
      → IsBounded s
      → IsBounded (begin_rotation key jti now new_jti s).0
  unfolding begin_rotation
  begin_rotation-IsBounded key jti now new_jti s v =
      let v' =
        is_revoked-IsBounded key now (evict_expired now s) (evict_expired-IsBounded now s v) in
      ground (arith, v', redeem-IsBounded key jti now new_jti _ v')

  assigned-IsBounded :
      (key : String) (a : ℕ) (e : FamilyEntry T) (s : Store T)
      → IsBounded s
      → IsBounded (store_entry key a (assign a e s))
  unfolding size revoked_size
  assigned-IsBounded key a e s v =
      store_entry-IsBounded key a (assign a e s)
        (record { families = v.maps.families; revoked = v.maps.revoked }) v.revoked

  settled-IsBounded :
      (promise : ℕ) (p : Promise T) (s : Store T) → IsBounded s → IsBounded (settle promise p s)
  unfolding size revoked_size
  settled-IsBounded promise p s v = record {
    maps = record { families = v.maps.families; revoked = v.maps.revoked };
    families = v.families;
    revoked = v.revoked;
  }

  advance-IsBounded :
      (l : Lease) (result : T) (at : ℕ) (s : Store T)
      → IsBounded s
      → IsBounded (advance l result at s)
  unfolding advance
  advance-IsBounded l result at s v =
      settled-IsBounded l.promise _ _ (assigned-IsBounded l.key _ _ s v)

  release-IsBounded : (l : Lease) (s : Store T) → IsBounded s → IsBounded (release l s)
  unfolding release
  release-IsBounded l s v = elim (Option-cases (get l.key s.families)) [
    | inl absent ↦ rw (absent, release) v
    | inr (a, found) ↦
        rw (found, release)
          (ground (arith, v, assigned-IsBounded l.key a (record (s.heap a) { pending = none }) s v))
  ]

  pub commit-IsBounded :
      (l : Lease) (result : T) (at : ℕ) (s : Store T)
      → IsBounded s
      → IsBounded (commit l result at s).0
  unfolding commit
  commit-IsBounded l result at s v =
      let v' = is_revoked-IsBounded l.key at s v in
      ground (
        arith,
        v,
        advance-IsBounded l result at _ v',
        settled-IsBounded l.promise (rejected chain_revoked) _ v',
      )

  pub fail-IsBounded :
      (l : Lease) (error : String) (s : Store T) → IsBounded s → IsBounded (fail l error s).0
  unfolding fail
  fail-IsBounded l error s v = ground (
    arith,
    v,
    settled-IsBounded l.promise (rejected (upstream error)) _ (release-IsBounded l s v),
  )

  -- One call on the store, at any time and with any lease.
  pub data Step : Store T → Store T → Type 0 where
    begins :
        (key jti : String) (now : ℕ) (new_jti : String) {s : Store T}
        → Step s (begin_rotation key jti now new_jti s).0
    commits : (l : Lease) (result : T) (at : ℕ) {s : Store T} → Step s (commit l result at s).0
    fails : (l : Lease) (error : String) {s : Store T} → Step s (fail l error s).0

  pub data Reach (s : Store T) : Store T → Type 0 where
    here : Reach s s
    next : {t u : Store T} → Reach s t → Step t u → Reach s u

  Step-IsBounded : {s t : Store T} → Step s t → IsBounded s → IsBounded t
  Step-IsBounded (begins key jti now new_jti {s}) v =
      begin_rotation-IsBounded key jti now new_jti s v
  Step-IsBounded (commits l result at {s}) v = commit-IsBounded l result at s v
  Step-IsBounded (fails l error {s}) v = fail-IsBounded l error s v

  new_store-IsBounded :
      (options : Options) (unused : FamilyEntry T) → IsBounded (new_store options unused)
  unfolding new_store size revoked_size
  new_store-IsBounded options unused = record {
    maps = record { families = tt; revoked = tt };
    families = omega arith;
    revoked = omega arith;
  }

  Reach-keeps : {s t : Store T} → IsBounded s → Reach s t → IsBounded t
  Reach-keeps v here = v
  Reach-keeps v (next r step) = Step-IsBounded step (Reach-keeps v r)

  -- Whatever calls were made on a new store, in whatever order the leases were settled, the
  -- families and the markers stay within their limits.
  pub Reach-IsBounded :
      (options : Options) (unused : FamilyEntry T) {t : Store T}
      → Reach (new_store options unused) t
      → IsBounded t
  Reach-IsBounded options unused r = Reach-keeps (new_store-IsBounded options unused) r

-- ===== src/RefreshRotation/Rotation.antt =====
-- One rotation at a time: what a lease, its commit and its failure leave to the next redemption.
use mcp4openapi.Prelude.{
  ℕ, ◌<◌, ◌≡◌, refl, sym, ap, subst, ◌∙◌, inl, inr, String, false, some, none, Option, arith, get,
  ltb, Bool-cases, Option-cases, eq_iff,
}
use mcp4openapi.RefreshRotation.{
  Store, Lease, lease, returns, evict_expired, redeem_live, redeem, begin_rotation, new_lease,
  grace_for, waiting,
}
use mcp4openapi.RefreshRotation.Reuse.{swept, swept-IsMap, swept-options}
use mcp4openapi.RefreshRotation.Keep.{
  IsMap, is_revoked-none, evict_expired-not_revoked, evict_expired-family, is_revoked-false,
  evict_expired-heap, store_entry-family, store_entry-IsMap,
}

module _ {T : Type 0} where
  -- A family whose entry stands at the address, not revoked.
  pub record IsFamily (s : Store T) (key : String) (a : ℕ) : Type 0 where
    pub maps : IsMap s
    pub here : get key s.families ≡ some a
    pub open_ : get key s.revoked ≡ none

  -- What a redemption answers while the family's entry is live.
  pub begin_rotation-live :
      (key jti : String) (a later : ℕ) (new_jti : String) (s : Store T)
      → IsFamily s key a
      → later < (s.heap a).expires_at
      → begin_rotation key jti later new_jti s
        ≡ redeem_live key jti a later new_jti (evict_expired later s)
  unfolding begin_rotation redeem
  begin_rotation-live key jti a later new_jti s f live = ground (
    arith,
    is_revoked-none key later (evict_expired later s)
        (evict_expired-not_revoked later key s f.maps f.open_),
    evict_expired-family later key a s f.maps f.here live,
    evict_expired-heap later s,
  )

  -- The leader of a rotation: its family stands, the token is the active one, and its promise
  -- waits under the family's entry.
  pub record IsLeading (s : Store T) (l : Lease) (now : ℕ) : Type 0 where
    pub family : IsFamily s l.key l.leader_entry
    pub active : (s.heap l.leader_entry).active_jti ≡ l.jti
    pub pending :
        (s.heap l.leader_entry).pending ≡ some (record { promise = l.promise; jti = l.jti })
    pub no_grace : grace_for l.jti now (s.heap l.leader_entry).grace ≡ none
    pub promised : s.promises l.promise ≡ waiting
    pub unsettled : l.settled ≡ false

  -- An entry that a lease may be given on: none, or one whose active token is presented.
  abbrev IsOpen : String → Option ℕ → ℕ → Store T → Type 0
  IsOpen jti none now s = Unit {0}
  IsOpen jti (some a) now s =
      ((s.heap a).active_jti ≡ jti) × (grace_for jti now (s.heap a).grace ≡ none)

  new_lease-IsLeading :
      (key jti : String) (existing : Option ℕ) (now : ℕ) (new_jti : String) (s : Store T)
      → IsMap s
      → 0 < s.options.max_families
      → get key s.revoked ≡ none
      → IsOpen jti existing now s
      → IsLeading
          (new_lease key jti existing now new_jti s).0
          (new_lease key jti existing now new_jti s).1
          now
  unfolding new_lease
  new_lease-IsLeading key jti none now new_jti s v room unmarked o = record {
    family = record {
      maps = record {
        families = (store_entry-IsMap key s.next_address s v).families;
        revoked = v.revoked;
      };
      here = store_entry-family key s.next_address s v room;
      open_ = unmarked;
    };
    active = ground arith;
    pending = ground arith;
    no_grace = ground arith;
    promised = ground arith;
    unsettled = refl;
  }
  new_lease-IsLeading key jti (some a) now new_jti s v room unmarked (active, no_grace) = record {
    family = record {
      maps = record { families = (store_entry-IsMap key a s v).families; revoked = v.revoked };
      here = store_entry-family key a s v room;
      open_ = unmarked;
    };
    active = ground arith;
    pending = ground arith;
    no_grace = ground arith;
    promised = ground arith;
    unsettled = refl;
  }

  -- A lease comes from `new_lease`, on an entry that is open to it.
  redeem-lease :
      (key jti : String) (now : ℕ) (new_jti : String) (s t : Store T) (l : Lease)
      → redeem key jti now new_jti s ≡ (t, returns (lease l))
      → (existing : Option ℕ) × IsOpen jti existing now s
        × (new_lease key jti existing now new_jti s ≡ (t, l))
  unfolding redeem
  redeem-lease key jti now new_jti s t l h = elim (Option-cases (get key s.families)) [
    | inl new ↦ (none, tt, ground arith)
    | inr (a, found) ↦ elim (Bool-cases (ltb now (s.heap a).expires_at)) [
      | inl live ↦
          (some a, (ground (arith, eq_iff (s.heap a).active_jti jti), ground arith), ground arith)
      | inr expired ↦ (none, tt, ground arith)
    ]
  ]

  begin_rotation-redeem :
      (key jti : String) (now : ℕ) (new_jti : String) (s : Store T) {t : Store T} {l : Lease}
      → begin_rotation key jti now new_jti s ≡ (t, returns (lease l))
      → (get key (swept key now s).revoked ≡ none)
        × (redeem key jti now new_jti (swept key now s) ≡ (t, returns (lease l)))
  unfolding begin_rotation
  begin_rotation-redeem key jti now new_jti s h =
      (is_revoked-false key now (evict_expired now s) (ground arith), ground arith)

  new_lease-key :
      (key jti : String) (existing : Option ℕ) (now : ℕ) (new_jti : String) (s : Store T)
      → (new_lease key jti existing now new_jti s).1.key ≡ key
  unfolding new_lease
  new_lease-key key jti none now new_jti s = refl
  new_lease-key key jti (some a) now new_jti s = refl

  new_lease-jti :
      (key jti : String) (existing : Option ℕ) (now : ℕ) (new_jti : String) (s : Store T)
      → (new_lease key jti existing now new_jti s).1.jti ≡ jti
  unfolding new_lease
  new_lease-jti key jti none now new_jti s = refl
  new_lease-jti key jti (some a) now new_jti s = refl

  -- Whoever is handed a lease leads the rotation of that token.
  pub begin_rotation-IsLeading :
      (key jti : String) (now : ℕ) (new_jti : String) (s : Store T) {t : Store T} {l : Lease}
      → IsMap s
      → 0 < s.options.max_families
      → begin_rotation key jti now new_jti s ≡ (t, returns (lease l))
      → IsLeading t l now × (l.key ≡ key) × (l.jti ≡ jti)
  begin_rotation-IsLeading key jti now new_jti s {t} {l} v room h =
      let (unmarked, redeemed) = begin_rotation-redeem key jti now new_jti s h in
      let (existing, o, e) = redeem-lease key jti now new_jti (swept key now s) t l redeemed in
      let leads =
        new_lease-IsLeading key jti existing now new_jti (swept key now s) (swept-IsMap key now s v)
          (rw (swept-options key now s) room) unmarked o in
      (
        subst (λ r. IsLeading r.0 r.1 now) e leads,
        ap (λ r. r.1.key) (sym e) ∙ new_lease-key key jti existing now new_jti (swept key now s),
        ap (λ r. r.1.jti) (sym e) ∙ new_lease-jti key jti existing now new_jti (swept key now s),
      )

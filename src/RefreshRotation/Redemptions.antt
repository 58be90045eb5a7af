-- ===== src/RefreshRotation/Redemptions.antt =====
-- What the next redemption of a family answers after the commit of a lease, and after its failure.
use mcp4openapi.Prelude.{
  ℕ, ◌+◌, ◌≤◌, ◌<◌, ◌≡◌, refl, ap, ◌∙◌, ◌≢◌, String, true, false, some, none, Option, arith, get,
  ltb, if◌then◌else◌, eq_iff,
}
use mcp4openapi.RefreshRotation.{
  Store, Lease, FamilyEntry, Grace, lease, replay_result, returns, throws, superseded, upstream,
  evict_expired, store_entry, redeem_live, begin_rotation, commit, lead, new_lease, pending_for,
  grace_for, rotated, advance, release, fail, settle, assign, Promise, resolved, rejected,
}
use mcp4openapi.RefreshRotation.Keep.{
  IsMap, is_revoked-none, evict_expired-heap, store_entry-family, store_entry-IsMap,
}
use mcp4openapi.RefreshRotation.Rotation.{IsFamily, IsLeading, begin_rotation-live}

module _ {T : Type 0} where
  -- `redeem_live` by its tests.
  redeem_live_graced :
      (key jti : String) (a now : ℕ) (new_jti : String) (s : Store T) (result : T)
      → pending_for jti (s.heap a).pending ≡ none
      → grace_for jti now (s.heap a).grace ≡ some result
      → (redeem_live key jti a now new_jti s).1 ≡ returns (replay_result result)
  unfolding redeem_live
  redeem_live_graced key jti a now new_jti s result h g = ground arith

  redeem_live_superseded :
      (key jti : String) (a now : ℕ) (new_jti : String) (s : Store T)
      → pending_for jti (s.heap a).pending ≡ none
      → grace_for jti now (s.heap a).grace ≡ none
      → (s.heap a).active_jti ≢ jti
      → (redeem_live key jti a now new_jti s).1 ≡ throws superseded
  unfolding redeem_live
  redeem_live_superseded key jti a now new_jti s h g other =
      ground (arith, eq_iff (s.heap a).active_jti jti)

  redeem_live_leads :
      (key jti : String) (a now : ℕ) (new_jti : String) (s : Store T)
      → pending_for jti (s.heap a).pending ≡ none
      → grace_for jti now (s.heap a).grace ≡ none
      → (s.heap a).active_jti ≡ jti
      → redeem_live key jti a now new_jti s ≡ lead key jti (some a) now new_jti s
  unfolding redeem_live
  redeem_live_leads key jti a now new_jti s h g same =
      ground (arith, eq_iff (s.heap a).active_jti jti)

  -- The family's entry after an assignment and `store`.
  stored :
      (key : String) (a : ℕ) (e : FamilyEntry T) (s : Store T)
      → IsMap s
      → 0 < s.options.max_families
      → get key s.revoked ≡ none
      → IsFamily (store_entry key a (assign a e s)) key a
        × ((store_entry key a (assign a e s)).heap a ≡ e)
  unfolding store_entry
  stored key a e s v room unmarked = (
    record {
      maps = record { families = (store_entry-IsMap key a s v).families; revoked = v.revoked };
      here = store_entry-family key a s v room;
      open_ = unmarked;
    },
    ground arith,
  )

  release-stores :
      (s : Store T) (l : Lease) (now : ℕ)
      → IsLeading s l now
      → release l s
        ≡ store_entry l.key l.leader_entry
            (assign l.leader_entry (record (s.heap l.leader_entry) { pending = none }) s)
  unfolding release
  release-stores s l now v = ground (arith, v.family.here, v.pending, eq_iff l.jti l.jti)

  fail-releases :
      (s : Store T) (l : Lease) (error : String)
      → l.settled ≡ false
      → fail l error s
        ≡ (settle l.promise (rejected (upstream error)) (release l s), record l { settled = true })
  unfolding fail
  fail-releases s l error h = ground arith

  grace_later :
      (jti : String) (now later : ℕ) (g : Option (Grace T))
      → now ≤ later
      → grace_for jti now g ≡ none
      → grace_for jti later g ≡ none
  grace_later jti now later none h k = refl
  grace_later jti now later (some g) h k = ground arith

  settled-IsFamily :
      (promise : ℕ) (p : Promise T) (s : Store T) (key : String) (a : ℕ)
      → IsFamily s key a
      → IsFamily (settle promise p s) key a
  settled-IsFamily promise p s key a f = record {
    maps = record { families = f.maps.families; revoked = f.maps.revoked };
    here = f.here;
    open_ = f.open_;
  }

  lead-lease :
      (key jti : String) (existing : Option ℕ) (now : ℕ) (new_jti : String) (s : Store T)
      → (lead key jti existing now new_jti s).1
        ≡ returns (lease (new_lease key jti existing now new_jti s).1)
  unfolding lead
  lead-lease key jti existing now new_jti s = refl

  -- A redemption of the active token, with no rotation in flight and out of grace, leads.
  begin_rotation-leads :
      (key jti : String) (a later : ℕ) (new_jti : String) (s : Store T) (e : FamilyEntry T)
      → IsFamily s key a
      → s.heap a ≡ e
      → later < e.expires_at
      → pending_for jti e.pending ≡ none
      → grace_for jti later e.grace ≡ none
      → e.active_jti ≡ jti
      → (l : Lease) × ((begin_rotation key jti later new_jti s).1 ≡ returns (lease l))
  begin_rotation-leads key jti a later new_jti s e f h live p g same =
      let heap = ap (λ (k : ℕ → FamilyEntry T). k a) (evict_expired-heap later s) ∙ h in
      (
        (new_lease key jti (some a) later new_jti (evict_expired later s)).1,
        ap (λ r. r.1)
              (begin_rotation-live key jti a later new_jti s f (rw h live)
                ∙ redeem_live_leads key jti a later new_jti (evict_expired later s) (rw heap p)
                    (rw heap g) (rw heap same))
            ∙ lead-lease key jti (some a) later new_jti (evict_expired later s),
      )

  -- After a failure the followers' promise is rejected with the error, and the token that was
  -- presented can be redeemed again: the next redemption becomes the leader.
  pub fail_retryable :
      (s : Store T) (l : Lease) (now later : ℕ) (error new_jti : String)
      → IsLeading s l now
      → 0 < s.options.max_families
      → now ≤ later
      → later < (s.heap l.leader_entry).expires_at
      → ((fail l error s).0.promises l.promise ≡ rejected (upstream error))
        × ((l' : Lease) × ((begin_rotation l.key l.jti later new_jti (fail l error s).0).1
              ≡ returns (lease l')))
  fail_retryable s l now later error new_jti v room order live =
      let e = record (s.heap l.leader_entry) { pending = none } in
      let (f, heap) = stored l.key l.leader_entry e s v.family.maps room v.family.open_ in
      rw (fail-releases s l error v.unsettled, release-stores s l now v)
        (
          ground arith,
          begin_rotation-leads l.key l.jti l.leader_entry later new_jti _ e
              (settled-IsFamily l.promise (rejected (upstream error)) _ l.key l.leader_entry f) heap
              live refl (grace_later l.jti now later _ order v.no_grace) v.active,
        )

  commit-advances :
      (s : Store T) (l : Lease) (now : ℕ) (result : T) (at : ℕ)
      → IsLeading s l now
      → commit l result at s ≡ (
        settle l.promise (resolved result) (
            store_entry l.key l.leader_entry
              (assign l.leader_entry (rotated l result at s.options (s.heap l.leader_entry)) s)),
        record l { settled = true },
        returns tt,
      )
  unfolding commit advance
  commit-advances s l now result at v =
      ground (arith, is_revoked-none l.key at s v.family.open_, v.family.here, v.unsettled)

  -- The entry that a leader's commit leaves.
  abbrev after_commit : Store T → Lease → T → ℕ → FamilyEntry T
  after_commit s l result at = rotated l result at s.options (s.heap l.leader_entry)

  after_commit-pending :
      (s : Store T) (l : Lease) (now : ℕ) (result : T) (at : ℕ)
      → IsLeading s l now
      → (after_commit s l result at).pending ≡ none
  after_commit-pending s l now result at v = ground (arith, v.pending, eq_iff l.jti l.jti)

  -- The leader's commit succeeds, resolves the followers' promise, and makes the new token the
  -- active one: its redemption leads the next rotation.
  pub commit_rotates :
      (s : Store T) (l : Lease) (now : ℕ) (result : T) (at later : ℕ) (new_jti : String)
      → IsLeading s l now
      → 0 < s.options.max_families
      → l.new_jti ≢ l.jti
      → later < at + s.options.ttl_ms
      → ((commit l result at s).2 ≡ returns tt)
        × ((commit l result at s).0.promises l.promise ≡ resolved result)
        × ((l' : Lease) × ((begin_rotation l.key l.new_jti later new_jti (commit l result at s).0).1
              ≡ returns (lease l')))
  commit_rotates s l now result at later new_jti v room other live =
      let e = after_commit s l result at in
      let (f, heap) = stored l.key l.leader_entry e s v.family.maps room v.family.open_ in
      rw (commit-advances s l now result at v) (
        refl,
        ground arith,
        begin_rotation-leads l.key l.new_jti l.leader_entry later new_jti _ e
            (settled-IsFamily l.promise (resolved result) _ l.key l.leader_entry f) heap live
            (rw (after_commit-pending s l now result at v)) (ground (arith, eq_iff l.jti l.new_jti))
            refl,
      )

  redeem_live_rotated :
      (key jti : String) (a now : ℕ) (new_jti : String) (s : Store T) (e : FamilyEntry T)
      (result : T) (until : ℕ)
      → s.heap a ≡ e
      → e.pending ≡ none
      → e.grace ≡ some (record { prev_jti = jti; result = result; expires_at = until })
      → e.active_jti ≢ jti
      → (redeem_live key jti a now new_jti s).1
        ≡ (if ltb now until then returns (replay_result result) else throws superseded)
  unfolding redeem_live
  redeem_live_rotated key jti a now new_jti s e result until h p g other =
      ground (arith, eq_iff jti jti, eq_iff e.active_jti jti)

  -- After the commit the token that was presented redeems to the same result while the grace
  -- window is open; behind it, it is reuse.
  pub commit_supersedes :
      (s : Store T) (l : Lease) (now : ℕ) (result : T) (at later : ℕ) (new_jti : String)
      → IsLeading s l now
      → 0 < s.options.max_families
      → l.new_jti ≢ l.jti
      → later < at + s.options.ttl_ms
      → (begin_rotation l.key l.jti later new_jti (commit l result at s).0).1 ≡ (
          if ltb later (at + s.options.grace_ms)
          then returns (replay_result result)
          else throws superseded)
  commit_supersedes s l now result at later new_jti v room other live =
      let e = after_commit s l result at in
      let (f, heap) = stored l.key l.leader_entry e s v.family.maps room v.family.open_ in
      rw (commit-advances s l now result at v) (
        ap (λ r. r.1)
          (begin_rotation-live l.key l.jti l.leader_entry later new_jti _
            (settled-IsFamily l.promise (resolved result) _ l.key l.leader_entry f) (rw heap live))
        ∙ redeem_live_rotated l.key l.jti l.leader_entry later new_jti _ e result
            (at + s.options.grace_ms)
            (ap (λ (k : ℕ → FamilyEntry T). k l.leader_entry) (evict_expired-heap later _) ∙ heap)
            (after_commit-pending s l now result at v) refl other)

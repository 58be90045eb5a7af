-- ===== src/RefreshRotation/Flights.antt =====
-- The redemptions of a token while the exchange that its first redemption began is in flight.
use mcp4openapi.Prelude.{ℕ, ◌<◌, ◌≡◌, refl, ◌∙◌, String, List, [], ◌∷◌, All, arith, some, eq_iff}
use mcp4openapi.RefreshRotation.{
  Store, Lease, Redemption, Outcome, lease, replay_pending, returns, waiting, evict_expired,
  redeem_live, begin_rotation, pending_for,
}
use mcp4openapi.RefreshRotation.Keep.{
  IsMap, evict_expired-IsMap, evict_expired-family, evict_expired-not_revoked, evict_expired-heap,
}
use mcp4openapi.RefreshRotation.Rotation.{IsLeading, begin_rotation-IsLeading, begin_rotation-live}

module _ {T : Type 0} where
  -- Redemptions of one token, one after the other, each at a time and with a random identifier.
  abbrev pub redemptions :
      String → String → List (ℕ × String) → Store T → Store T × List (Outcome (Redemption T))
  redemptions key jti [] s = (s, [])
  redemptions key jti ((at, new_jti) ∷ rs) s =
      let (s', outcome) = begin_rotation key jti at new_jti s in
      let (t, outcomes) = redemptions key jti rs s' in (t, outcome ∷ outcomes)

  evict_expired-IsLeading :
      (s : Store T) (l : Lease) (now at : ℕ)
      → IsLeading s l now
      → at < (s.heap l.leader_entry).expires_at
      → IsLeading (evict_expired at s) l now
  unfolding evict_expired
  evict_expired-IsLeading s l now at v live = record {
    family = record {
      maps = evict_expired-IsMap at s v.family.maps;
      here = evict_expired-family at l.key l.leader_entry s v.family.maps v.family.here live;
      open_ = evict_expired-not_revoked at l.key s v.family.maps v.family.open_;
    };
    active = v.active;
    pending = v.pending;
    no_grace = v.no_grace;
    promised = v.promised;
    unsettled = v.unsettled;
  }

  redeem_live_pending :
      (key jti : String) (a now : ℕ) (new_jti : String) (s : Store T) (promise : ℕ)
      → pending_for jti (s.heap a).pending ≡ some promise
      → redeem_live key jti a now new_jti s ≡ (s, returns (replay_pending promise))
  unfolding redeem_live
  redeem_live_pending key jti a now new_jti s promise h = ground arith

  begin_rotation-follows :
      (s : Store T) (l : Lease) (now at : ℕ) (new_jti : String)
      → IsLeading s l now
      → at < (s.heap l.leader_entry).expires_at
      → begin_rotation l.key l.jti at new_jti s
        ≡ (evict_expired at s, returns (replay_pending l.promise))
  begin_rotation-follows s l now at new_jti v live =
      begin_rotation-live l.key l.jti l.leader_entry at new_jti s v.family live
      ∙ redeem_live_pending l.key l.jti l.leader_entry at new_jti (evict_expired at s) l.promise
          (ground (arith, evict_expired-heap at s, v.pending, eq_iff l.jti l.jti))

  redemptions-follow :
      (s : Store T) (l : Lease) (now : ℕ) (rs : List (ℕ × String))
      → IsLeading s l now
      → All (λ r. r.0 < (s.heap l.leader_entry).expires_at) rs
      → All (λ o. o ≡ returns (replay_pending l.promise)) (redemptions l.key l.jti rs s).1
        × ((redemptions l.key l.jti rs s).0.promises l.promise ≡ waiting)
  redemptions-follow s l now [] v live = (tt, v.promised)
  redemptions-follow s l now ((at, new_jti) ∷ rs) v (first, live) =
      let (outcomes, waits) =
        redemptions-follow (evict_expired at s) l now rs
          (evict_expired-IsLeading s l now at v first) (rw (evict_expired-heap at s) live) in
      rw (begin_rotation-follows s l now at new_jti v first) ((refl, outcomes), waits)

  -- Once a redemption was given a lease, and as long as the lease is not settled, every redemption of
  -- the same token before the expiry of the family gets the promise of that lease, which is still
  -- waiting: one exchange for all of them, however many come.
  pub single_flight :
      (key jti : String) (now : ℕ) (new_jti : String) (s : Store T) {t : Store T} {l : Lease}
      (rs : List (ℕ × String))
      → IsMap s
      → 0 < s.options.max_families
      → begin_rotation key jti now new_jti s ≡ (t, returns (lease l))
      → All (λ r. r.0 < (t.heap l.leader_entry).expires_at) rs
      → All (λ o. o ≡ returns (replay_pending l.promise)) (redemptions key jti rs t).1
        × ((redemptions key jti rs t).0.promises l.promise ≡ waiting)
  single_flight key jti now new_jti s {t} {l} rs v room h live =
      let (leads, same_key, same_jti) = begin_rotation-IsLeading key jti now new_jti s v room h in
      rw (← same_key, ← same_jti) (redemptions-follow t l now rs leads live)

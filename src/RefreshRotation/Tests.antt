-- ===== src/RefreshRotation/Tests.antt =====
-- Runs of the rotation store, and the theorems at them.
use mcp4openapi.Prelude.{
  ◌≡◌, refl, ◌≢◌, String, false, none, arith, get, set, delete, delete_where, eq_iff, [], ◌∷◌, All,
}
use mcp4openapi.RefreshRotation.{
  Store, Lease, Options, FamilyEntry, lease, replay_pending, replay_result, returns, throws,
  superseded, chain_revoked, waiting, evict_expired, is_revoked, store_entry, revoke, redeem_live,
  redeem, begin_rotation, commit, lead, new_lease, advance, release, fail, drop_oldest, new_store,
}
use mcp4openapi.RefreshRotation.Keep.{IsMap}
use mcp4openapi.RefreshRotation.Reuse.{reuse_closes_family}
use mcp4openapi.RefreshRotation.Rotation.{IsLeading, begin_rotation-IsLeading}
use mcp4openapi.RefreshRotation.Redemptions.{commit_supersedes}
use mcp4openapi.RefreshRotation.Flights.{redemptions, single_flight}
use mcp4openapi.RefreshRotation.Bounds.{IsBounded, begins, commits, here, next, Reach-IsBounded}

-- What the runs unfold.
calls : Unit {0}
unfolding begin_rotation redeem redeem_live lead new_lease commit advance fail release evict_expired
    is_revoked store_entry revoke drop_oldest new_store get set delete delete_where
calls = tt

abbrev options : Options
options = record { max_families = 2; ttl_ms = 1000; grace_ms = 30; max_revoked_families = 2 }

abbrev unused : FamilyEntry String
unused = record { active_jti = ""; expires_at = 0; pending = none; grace = none }

abbrev empty : Store String
empty = new_store options unused

abbrev first : Store String
first = (begin_rotation "fam" "j0" 100 "j1" empty).0

abbrev leader : Lease
leader = record {
  key = "fam";
  jti = "j0";
  new_jti = "j1";
  leader_entry = 0;
  promise = 0;
  settled = false;
}

-- The first redemption leads.
first_lem : begin_rotation "fam" "j0" 100 "j1" empty ≡ (first, returns (lease leader))
unfolding calls
first_lem = refl

empty-IsMap : IsMap empty
unfolding calls
empty-IsMap = record { families = tt; revoked = tt }

first-IsLeading : IsLeading first leader 100
unfolding calls
first-IsLeading =
    (begin_rotation-IsLeading "fam" "j0" 100 "j1" empty empty-IsMap (omega arith) first_lem).0

-- Two more redemptions come while the first is in flight.
single_flight_example :
    All
      (λ o. o ≡ returns (replay_pending 0))
      (redemptions "fam" "j0" ((105, "j8") ∷ (110, "j9") ∷ []) first).1
    × ((redemptions "fam" "j0" ((105, "j8") ∷ (110, "j9") ∷ []) first).0.promises 0 ≡ waiting)
unfolding calls
single_flight_example =
    single_flight "fam" "j0" 100 "j1" empty ((105, "j8") ∷ (110, "j9") ∷ []) empty-IsMap
      (omega arith) first_lem (omega arith, (omega arith, tt))

j1-ne-j0 : ◌≢◌ {A = String} "j1" "j0"
j1-ne-j0 = ground (arith, eq_iff "j1" "j0")

commit_supersedes_example :
    (begin_rotation "fam" "j0" 149 "j2" (commit leader "tokens" 120 first).0).1
    ≡ returns (replay_result "tokens")
unfolding calls
commit_supersedes_example =
    commit_supersedes first leader 100 "tokens" 120 149 "j2" first-IsLeading (omega arith) j1-ne-j0
      (omega arith)

abbrev second : Store String
second = (commit leader "tokens" 120 first).0

second-IsMap : IsMap second
unfolding calls
second-IsMap = record { families = (refl, tt); revoked = tt }

abbrev replayed : Store String
replayed = (begin_rotation "fam" "j0" 160 "j3" second).0

replayed_lem : begin_rotation "fam" "j0" 160 "j3" second ≡ (replayed, throws superseded)
unfolding calls
replayed_lem = refl

reuse_closes_family_example :
    (get "fam" replayed.families ≡ none)
    × ((begin_rotation "fam" "j1" 900 "j4" replayed).1 ≡ throws chain_revoked)
    × ((commit leader "tokens" 900 replayed).2 ≡ throws chain_revoked)
unfolding calls
reuse_closes_family_example =
    reuse_closes_family "fam" "j0" 160 "j3" second 900 "j1" "j4" leader "tokens" second-IsMap
      (omega arith) replayed_lem (omega arith) refl refl

Reach-IsBounded_example : IsBounded second
Reach-IsBounded_example =
    Reach-IsBounded options unused
      (next (next here (begins "fam" "j0" 100 "j1")) (commits leader "tokens" 120))

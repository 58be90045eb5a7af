-- ===== src/RefreshRotation.antt =====
-- `RefreshRotationStore` of src/auth/refresh-rotation-store.ts. A family entry is a mutable object
-- that a lease keeps after the map has dropped it, so entries live on a heap and the map holds
-- their addresses. `Date.now()` and `randomUUID()` are arguments of the calls. A promise is the
-- number of the lease that settles it.
pub mod Keep
pub mod Reuse
pub mod Rotation
pub mod Redemptions
pub mod Flights
pub mod Bounds
mod Tests
use mcp4openapi.Prelude.{
  ℕ, zero, suc, ◌+◌, String, Bool, true, false, ◌&&◌, Option, none, some, List, [], ◌∷◌, Map, get,
  set, delete, delete_where, length, leb, ltb, ◌==◌, str_eq, if◌then◌else◌, Number, integer, pos,
}

pub record Options : Type 0 where
  pub max_families : ℕ
  pub ttl_ms : ℕ
  pub grace_ms : ℕ
  pub max_revoked_families : ℕ

-- The just superseded jti with its result.
pub record Grace (T : Type 0) : Type 0 where
  pub prev_jti : String
  pub result : T
  pub expires_at : ℕ

-- `pending` and `pendingJti` are set together and cleared together.
pub record Pending : Type 0 where
  pub promise : ℕ
  pub jti : String

pub record FamilyEntry (T : Type 0) : Type 0 where
  pub active_jti : String
  pub expires_at : ℕ
  pub pending : Option Pending
  pub grace : Option (Grace T)

pub data Error : Type 0 where
  chain_revoked superseded : Error
  upstream : String → Error

pub data Promise (T : Type 0) : Type 0 where
  waiting : Promise T
  resolved : T → Promise T
  rejected : Error → Promise T

-- `this`, with the heap of the family entries and the promises made so far.
pub record Store (T : Type 0) : Type 0 where
  pub options : Options
  pub heap : ℕ → FamilyEntry T
  pub next_address : ℕ
  pub families : Map ℕ
  pub revoked : Map ℕ
  pub promises : ℕ → Promise T
  pub next_promise : ℕ

-- What the closures of a lease hold.
pub record Lease : Type 0 where
  pub key : String
  pub jti : String
  pub new_jti : String
  pub leader_entry : ℕ
  pub promise : ℕ
  pub settled : Bool

pub data Redemption (T : Type 0) : Type 0 where
  lease : Lease → Redemption T
  -- The promise of the leader, still in flight.
  replay_pending : ℕ → Redemption T
  -- A promise that is resolved at once.
  replay_result : T → Redemption T

pub data Outcome (A : Type 0) : Type 0 where
  returns : A → Outcome A
  throws : Error → Outcome A

abbrev pub update : {A : Type 0} → (ℕ → A) → ℕ → A → ℕ → A
update f a v b = if b == a then v else f b

-- The loops of `evictOverflow` and `evictRevokedOverflow`: the oldest key goes first.
unfoldable pub drop_oldest : ℕ → ℕ → Map ℕ → Map ℕ
drop_oldest limit zero m = m
drop_oldest limit (suc fuel) m = elim (ltb limit (length m)) [
  | false ↦ m
  | true ↦ elim m [ [] ↦ [] | (k, v) ∷ rest ↦ drop_oldest limit fuel (delete k ((k, v) ∷ rest)) ]
]

-- `entry.pendingJti === jti`
abbrev pub has_pending : String → Option Pending → Bool
has_pending jti none = false
has_pending jti (some p) = str_eq p.jti jti

-- `entry.pending && entry.pendingJti === jti`, with the promise.
abbrev pub pending_for : String → Option Pending → Option ℕ
pending_for jti none = none
pending_for jti (some p) = if str_eq p.jti jti then some p.promise else none

abbrev pub cleared : String → Option Pending → Option Pending
cleared jti p = if has_pending jti p then none else p

abbrev pub or_leader : Option ℕ → ℕ → ℕ
or_leader (some a) leader = a
or_leader none leader = leader

module _ {T : Type 0} where
  -- `unused` stands at the addresses that are not allocated; no code reads it.
  unfoldable pub new_store : Options → FamilyEntry T → Store T
  new_store options unused = record {
    options = options;
    heap = λ _. unused;
    next_address = 0;
    families = [];
    revoked = [];
    promises = λ _. waiting;
    next_promise = 0;
  }

  abbrev pub entry_of : Store T → String → Option (FamilyEntry T)
  entry_of s key = elim (get key s.families) [ none ↦ none | some a ↦ some (s.heap a) ]

  unfoldable pub evict_expired : ℕ → Store T → Store T
  evict_expired now s = record s {
    families = delete_where (λ a. leb (s.heap a).expires_at now) s.families;
    revoked = delete_where (λ expires_at. leb expires_at now) s.revoked;
  }

  -- The test drops a marker that has expired.
  unfoldable pub is_revoked : String → ℕ → Store T → Store T × Bool
  is_revoked key now s = elim (get key s.revoked) [
    | none ↦ (s, false)
    | some expires_at ↦
        if leb expires_at now
        then (record s { revoked = delete key s.revoked }, false)
        else (s, true)
  ]

  unfoldable pub evict_overflow : Store T → Store T
  evict_overflow s = record s {
    families = drop_oldest s.options.max_families (length s.families) s.families;
  }

  unfoldable pub evict_revoked_overflow : Store T → Store T
  evict_revoked_overflow s = record s {
    revoked = drop_oldest s.options.max_revoked_families (length s.revoked) s.revoked;
  }

  unfoldable pub store_entry : String → ℕ → Store T → Store T
  unfolding evict_overflow
  store_entry key address s =
      evict_overflow (record s { families = set key address (delete key s.families) })

  unfoldable pub revoke : String → ℕ → Store T → Store T
  unfolding evict_revoked_overflow
  revoke key now s = evict_revoked_overflow (record s {
    families = delete key s.families;
    revoked = set key (now + s.options.ttl_ms) (delete key s.revoked);
  })

  -- Assignments to the fields of the object at an address.
  abbrev pub assign : ℕ → FamilyEntry T → Store T → Store T
  assign a e s = record s { heap = update s.heap a e }

  -- `existing ?? { activeJti: jti, … }`: the address of the leader's entry, allocated if it is new.
  unfoldable pub leader_of : String → Option ℕ → ℕ → Store T → Store T × ℕ
  leader_of jti (some a) now s = (s, a)
  leader_of jti none now s = (
    record s {
      heap = update s.heap s.next_address (record {
        active_jti = jti;
        expires_at = now + s.options.ttl_ms;
        pending = none;
        grace = none;
      });
      next_address = suc s.next_address;
    },
    s.next_address,
  )

  unfoldable pub new_lease : String → String → Option ℕ → ℕ → String → Store T → Store T × Lease
  unfolding leader_of store_entry
  new_lease key jti existing now new_jti s =
      let (s', a) = leader_of jti existing now s in
      let promise = s'.next_promise in
      let e = s'.heap a in
      (
        store_entry key a (record s' {
          heap =
              update s'.heap a
                (record e { pending = some (record { promise = promise; jti = jti }) });
          promises = update s'.promises promise waiting;
          next_promise = suc promise;
        }),
        record {
          key = key;
          jti = jti;
          new_jti = new_jti;
          leader_entry = a;
          promise = promise;
          settled = false;
        },
      )

  -- `entry.grace && entry.grace.prevJti === jti && entry.grace.expiresAt > now`, with the result.
  abbrev pub grace_for : String → ℕ → Option (Grace T) → Option T
  grace_for jti now none = none
  grace_for jti now (some g) =
      if str_eq g.prev_jti jti && ltb now g.expires_at then some g.result else none

  unfoldable pub lead :
      String → String → Option ℕ → ℕ → String → Store T → Store T × Outcome (Redemption T)
  lead key jti existing now new_jti s =
      let (s', l) = new_lease key jti existing now new_jti s in (s', returns (lease l))

  -- The body of `if (entry && entry.expiresAt > now)`, and the lease behind it.
  unfoldable pub redeem_live :
      String → String → ℕ → ℕ → String → Store T → Store T × Outcome (Redemption T)
  unfolding lead
  redeem_live key jti a now new_jti s = elim (pending_for jti (s.heap a).pending) [
    | some promise ↦ (s, returns (replay_pending promise))
    | none ↦ elim (grace_for jti now (s.heap a).grace) [
      | some result ↦ (s, returns (replay_result result))
      | none ↦
          if str_eq (s.heap a).active_jti jti
          then lead key jti (some a) now new_jti s
          else (revoke key now s, throws superseded)
    ]
  ]

  -- `beginRotation` behind the test for a revoked family.
  unfoldable pub redeem : String → String → ℕ → String → Store T → Store T × Outcome (Redemption T)
  unfolding redeem_live lead
  redeem key jti now new_jti s = elim (get key s.families) [
    | none ↦ lead key jti none now new_jti s
    | some a ↦
        if ltb now (s.heap a).expires_at
        then redeem_live key jti a now new_jti s
        else lead key jti none now new_jti s
  ]

  unfoldable pub begin_rotation :
      String → String → ℕ → String → Store T → Store T × Outcome (Redemption T)
  begin_rotation key jti now new_jti s =
      let (s', dead) = is_revoked key now (evict_expired now s) in
      if dead then (s', throws chain_revoked) else redeem key jti now new_jti s'

  unfoldable pub size : Store T → ℕ
  size s = length s.families

  unfoldable pub revoked_size : Store T → ℕ
  revoked_size s = length s.revoked

  abbrev pub settle : ℕ → Promise T → Store T → Store T
  settle promise p s = record s { promises = update s.promises promise p }

  -- The family after a rotation.
  abbrev pub rotated : Lease → T → ℕ → Options → FamilyEntry T → FamilyEntry T
  rotated l result at o e = record {
    active_jti = l.new_jti;
    expires_at = at + o.ttl_ms;
    pending = cleared l.jti e.pending;
    grace = some (record { prev_jti = l.jti; result = result; expires_at = at + o.grace_ms });
  }

  -- `commit` behind the test for a revoked family.
  unfoldable pub advance : Lease → T → ℕ → Store T → Store T
  advance l result at s =
      let a = or_leader (get l.key s.families) l.leader_entry in
      settle l.promise (resolved result)
        (store_entry l.key a (assign a (rotated l result at s.options (s.heap a)) s))

  unfoldable pub commit : Lease → T → ℕ → Store T → Store T × Lease × Outcome (Unit {0})
  commit l result at s =
      if l.settled
      then (s, l, returns tt)
      else let (s', dead) = is_revoked l.key at s in
        if dead
        then (
          settle l.promise (rejected chain_revoked) s',
          record l { settled = true },
          throws chain_revoked,
        )
        else (advance l result at s', record l { settled = true }, returns tt)

  -- `fail` up to the rejection.
  unfoldable pub release : Lease → Store T → Store T
  release l s = elim (get l.key s.families) [
    | none ↦ s
    | some a ↦
        if has_pending l.jti (s.heap a).pending
        then store_entry l.key a (assign a (record (s.heap a) { pending = none }) s)
        else s
  ]

  unfoldable pub fail : Lease → String → Store T → Store T × Lease
  fail l error s =
      if l.settled
      then (s, l)
      else (settle l.promise (rejected (upstream error)) (release l s), record l { settled = true })

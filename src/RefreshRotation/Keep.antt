-- ===== src/RefreshRotation/Keep.antt =====
-- What the maps hold after the steps that the calls share.
use mcp4openapi.Prelude.{
  ℕ, zero, suc, ◌+◌, ◌≤◌, ◌<◌, ◌≡◌, refl, subst, String, true, false, some, none, [], ◌∷◌, ◌++◌,
  arith, Map, get, set, delete, Distinct, length, leb, get-delete_self, set_new, set-Distinct,
  delete-Distinct, length-delete-le, eq_iff, get-delete_where, delete_where-Distinct, delete-middle,
  get-middle,
}
use mcp4openapi.RefreshRotation.{Store, drop_oldest, evict_expired, is_revoked, store_entry, revoke}

length-drop_oldest_step :
    (k : String) (v : ℕ) (rest : Map ℕ) (fuel : ℕ)
    → length ((k, v) ∷ rest) ≤ suc fuel
    → length (delete k ((k, v) ∷ rest)) ≤ fuel
unfolding delete
length-drop_oldest_step k v rest fuel h = ground (arith, eq_iff k k, length-delete-le k rest)

-- As many rounds as there are keys bring a map within its limit.
pub length-drop_oldest-le :
    (limit fuel : ℕ) (m : Map ℕ) → length m ≤ fuel → length (drop_oldest limit fuel m) ≤ limit
unfolding drop_oldest
length-drop_oldest-le limit zero [] h = omega arith
length-drop_oldest-le limit zero (e ∷ m) h = absurd (omega arith)
length-drop_oldest-le limit (suc fuel) [] h = ground arith
length-drop_oldest-le limit (suc fuel) ((k, v) ∷ m) h = ground (
  arith,
  length-drop_oldest-le limit fuel (delete k ((k, v) ∷ m)) (length-drop_oldest_step k v m fuel h),
)

pub drop_oldest-Distinct :
    (limit fuel : ℕ) (m : Map ℕ) → Distinct m → Distinct (drop_oldest limit fuel m)
unfolding drop_oldest
drop_oldest-Distinct limit zero m d = d
drop_oldest-Distinct limit (suc fuel) [] d = ground arith
drop_oldest-Distinct limit (suc fuel) ((k, v) ∷ m) d = ground (
  arith,
  drop_oldest-Distinct limit fuel (delete k ((k, v) ∷ m)) (delete-Distinct k ((k, v) ∷ m) d),
)

-- The key that was set last stays, if there is room for one.
drop_oldest-last :
    (limit fuel : ℕ) (older : Map ℕ) (k : String) (v : ℕ)
    → 0 < limit
    → Distinct (older ++ (k, v) ∷ [])
    → get k (drop_oldest limit fuel (older ++ (k, v) ∷ [])) ≡ some v
unfolding drop_oldest
drop_oldest-last limit zero older k v room d = get-middle k v older [] d
drop_oldest-last limit (suc fuel) [] k v room d = ground (arith, get-middle k v [] [] d)
drop_oldest-last limit (suc fuel) ((j, w) ∷ older) k v room d = ground (
  arith,
  delete-middle j w [] (older ++ (k, v) ∷ []) d,
  get-middle k v ((j, w) ∷ older) [] d,
  drop_oldest-last limit fuel older k v room d.1,
)

-- A key that is moved to the end of a map that is then cut to its limit.
pub get-drop_oldest_moved :
    (limit fuel : ℕ) (k : String) (v : ℕ) (m : Map ℕ)
    → 0 < limit
    → Distinct m
    → get k (drop_oldest limit fuel (set k v (delete k m))) ≡ some v
get-drop_oldest_moved limit fuel k v m room d =
    let moved = set_new k v (delete k m) (get-delete_self k m) in
    rw moved (
      drop_oldest-last limit fuel (delete k m) k v room
        (subst Distinct moved (set-Distinct k v (delete k m) (delete-Distinct k m d))))

module _ {T : Type 0} where
  -- The maps' keys differ, as in every `Map`.
  pub record IsMap (s : Store T) : Type 0 where
    pub families : Distinct s.families
    pub revoked : Distinct s.revoked

  pub evict_expired-IsMap : (now : ℕ) (s : Store T) → IsMap s → IsMap (evict_expired now s)
  unfolding evict_expired
  evict_expired-IsMap now s v = record {
    families = delete_where-Distinct _ s.families v.families;
    revoked = delete_where-Distinct _ s.revoked v.revoked;
  }

  pub is_revoked-IsMap :
      (key : String) (now : ℕ) (s : Store T) → IsMap s → IsMap (is_revoked key now s).0
  unfolding is_revoked
  is_revoked-IsMap key now s v = record {
    families = ground arith;
    revoked = ground (arith, delete-Distinct key s.revoked v.revoked);
  }

  -- A marker that has not expired makes the answer yes and stays; without one it is no.
  pub is_revoked_live :
      (key : String) (now expires_at : ℕ) (s : Store T)
      → get key s.revoked ≡ some expires_at
      → now < expires_at
      → is_revoked key now s ≡ (s, true)
  unfolding is_revoked
  is_revoked_live key now expires_at s h live = ground arith

  pub is_revoked-none :
      (key : String) (now : ℕ) (s : Store T)
      → get key s.revoked ≡ none
      → is_revoked key now s ≡ (s, false)
  unfolding is_revoked
  is_revoked-none key now s h = ground arith

  pub evict_expired-revoked :
      (now : ℕ) (key : String) (expires_at : ℕ) (s : Store T)
      → IsMap s
      → get key s.revoked ≡ some expires_at
      → now < expires_at
      → get key (evict_expired now s).revoked ≡ some expires_at
  unfolding evict_expired
  evict_expired-revoked now key expires_at s v h live =
      ground (arith, get-delete_where (λ (t : ℕ). leb t now) key s.revoked v.revoked)

  pub evict_expired-not_revoked :
      (now : ℕ) (key : String) (s : Store T)
      → IsMap s
      → get key s.revoked ≡ none
      → get key (evict_expired now s).revoked ≡ none
  unfolding evict_expired
  evict_expired-not_revoked now key s v h =
      ground (arith, get-delete_where (λ (t : ℕ). leb t now) key s.revoked v.revoked)

  pub evict_expired-family :
      (now : ℕ) (key : String) (a : ℕ) (s : Store T)
      → IsMap s
      → get key s.families ≡ some a
      → now < (s.heap a).expires_at
      → get key (evict_expired now s).families ≡ some a
  unfolding evict_expired
  evict_expired-family now key a s v h live =
      ground (
        arith,
        get-delete_where (λ (b : ℕ). leb (s.heap b).expires_at now) key s.families v.families,
      )

  pub store_entry-family :
      (key : String) (a : ℕ) (s : Store T)
      → IsMap s
      → 0 < s.options.max_families
      → get key (store_entry key a s).families ≡ some a
  unfolding store_entry
  store_entry-family key a s v room = get-drop_oldest_moved _ _ key a s.families room v.families

  pub store_entry-IsMap :
      (key : String) (a : ℕ) (s : Store T) → IsMap s → IsMap (store_entry key a s)
  unfolding store_entry
  store_entry-IsMap key a s v = record {
    families =
        drop_oldest-Distinct _ _ _
          (set-Distinct key a (delete key s.families) (delete-Distinct key s.families v.families));
    revoked = v.revoked;
  }

  -- After `revoke` the family is gone and its marker stands until the time to live is over.
  pub revoke-marker :
      (key : String) (now : ℕ) (s : Store T)
      → IsMap s
      → 0 < s.options.max_revoked_families
      → get key (revoke key now s).revoked ≡ some (now + s.options.ttl_ms)
  unfolding revoke
  revoke-marker key now s v room = get-drop_oldest_moved _ _ key _ s.revoked room v.revoked

  pub revoke-IsMap : (key : String) (now : ℕ) (s : Store T) → IsMap s → IsMap (revoke key now s)
  unfolding revoke
  revoke-IsMap key now s v = record {
    families = delete-Distinct key s.families v.families;
    revoked =
        drop_oldest-Distinct _ _ _
          (set-Distinct key _ (delete key s.revoked) (delete-Distinct key s.revoked v.revoked));
  }

  -- An answer of no leaves no marker.
  pub is_revoked-false :
      (key : String) (now : ℕ) (s : Store T)
      → (is_revoked key now s).1 ≡ false
      → get key (is_revoked key now s).0.revoked ≡ none
  unfolding is_revoked
  is_revoked-false key now s h = ground (arith, get-delete_self key s.revoked)

  -- The sweep and the test touch the two maps only.
  pub evict_expired-heap : (now : ℕ) (s : Store T) → (evict_expired now s).heap ≡ s.heap
  unfolding evict_expired
  evict_expired-heap now s = refl

  pub store_entry-heap : (key : String) (a : ℕ) (s : Store T) → (store_entry key a s).heap ≡ s.heap
  unfolding store_entry
  store_entry-heap key a s = refl

  pub store_entry-revoked :
      (key : String) (a : ℕ) (s : Store T) → (store_entry key a s).revoked ≡ s.revoked
  unfolding store_entry
  store_entry-revoked key a s = refl

  pub store_entry-options :
      (key : String) (a : ℕ) (s : Store T) → (store_entry key a s).options ≡ s.options
  unfolding store_entry
  store_entry-options key a s = refl

  pub store_entry-promises :
      (key : String) (a : ℕ) (s : Store T) → (store_entry key a s).promises ≡ s.promises
  unfolding store_entry
  store_entry-promises key a s = refl

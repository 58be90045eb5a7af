-- ===== src/Clients/Registration.antt =====
-- What `registerClient` does to the store, and whom it may evict.
use mcp4openapi.Prelude.{
  ℕ, ◌+◌, ◌≤◌, ◌<◌, ◌≡◌, refl, sym, ap, ◌∙◌, ◌≢◌, inl, inr, String, true, none, some, List, [], ◌∷◌,
  map, arith, Map, get, set, delete, values, Distinct, length, Among, keep-Among, leb_ℤ, sub_ℕ,
  Option-cases, eq_iff, set-Distinct, delete-Distinct, length-delete-le, length-set_new,
  length-set_old,
}
use mcp4openapi.Clients.Types.{
  Client, RuntimeMeta, EvictionCandidate, EvictionTierId, tier_c_any_idle,
  tier_a_dynamic_idle_never_used, tier_b_dynamic_idle, evict,
}
use mcp4openapi.Clients.Policy.{choose_eviction_decision, eviction_tiers, in_tier}
use mcp4openapi.Clients.Eviction.{IsChosen, IsBest, choose_eviction_decision-IsChosen}
use mcp4openapi.Clients.{
  Store, Platform, is_idle, to_candidate, build_eviction_candidates, remove_client, put_client,
  meta_for,
}

-- Each metadata record stands under its client's id.
abbrev pub IsNamed : Map RuntimeMeta → Type 0
IsNamed [] = Unit
IsNamed ((k, m) ∷ rest) = (m.client_id ≡ k) × IsNamed rest

-- The store's invariant: a number of clients within the limit, and metadata under its own id.
pub record IsValid (s : Store) : Type 0 where
  pub clients : Distinct s.clients
  pub metadata : Distinct s.metadata
  pub named : IsNamed s.metadata
  pub bounded : length s.clients ≤ s.limits.max_clients

delete-IsNamed : (k : String) (m : Map RuntimeMeta) → IsNamed m → IsNamed (delete k m)
unfolding delete
delete-IsNamed k [] h = tt
delete-IsNamed k ((j, v) ∷ m) (e, h) = ground (arith, delete-IsNamed k m h)

pub set-IsNamed :
    (k : String) (v : RuntimeMeta) (m : Map RuntimeMeta)
    → v.client_id ≡ k
    → IsNamed m
    → IsNamed (set k v m)
unfolding set
set-IsNamed k v [] e h = (e, tt)
set-IsNamed k v ((j, w) ∷ m) e (f, h) = ground (arith, set-IsNamed k v m e h)

pub get-IsNamed :
    (k : String) (v : RuntimeMeta) (m : Map RuntimeMeta)
    → IsNamed m
    → get k m ≡ some v
    → v.client_id ≡ k
unfolding get
get-IsNamed k v [] h e = cc
get-IsNamed k v ((j, w) ∷ m) (f, h) e = ground (arith, get-IsNamed k v m h, eq_iff j k)

get-Among :
    (v : RuntimeMeta) (m : Map RuntimeMeta)
    → Distinct m
    → IsNamed m
    → Among v (values m)
    → get v.client_id m ≡ some v
unfolding get
get-Among v [] d h a = absurd a
get-Among v ((j, w) ∷ m) (fresh, d) (f, h) (inl e) = ground (arith, eq_iff j v.client_id)
get-Among v ((j, w) ∷ m) (fresh, d) (f, h) (inr a) =
    ground (arith, get-Among v m d h a, eq_iff j v.client_id)

Among-map-to_candidate :
    (now : ℕ) (c : EvictionCandidate) (ms : List RuntimeMeta)
    → Among c (map (to_candidate now) ms)
    → (m : RuntimeMeta) × Among m ms × (c ≡ to_candidate now m)
Among-map-to_candidate now c [] h = absurd h
Among-map-to_candidate now c (m ∷ ms) (inl e) = (m, inl refl, e)
Among-map-to_candidate now c (m ∷ ms) (inr h) =
    let (m', there, e) = Among-map-to_candidate now c ms h in (m', inr there, e)

-- A candidate is the metadata of a client of the store.
candidate-metadata :
    (now : ℕ) (c : EvictionCandidate) (s : Store)
    → IsValid s
    → Among c (build_eviction_candidates now s)
    → (m : RuntimeMeta) × (get c.client_id s.metadata ≡ some m)
      × (get c.client_id s.clients ≢ none)
      × (c ≡ to_candidate now m)
unfolding build_eviction_candidates
candidate-metadata now c s v h =
    let (m, kept, e) = Among-map-to_candidate now c _ h in
    let (there, present) = keep-Among _ m (values s.metadata) kept in
    (m, rw e (get-Among m s.metadata v.metadata v.named there), rw e (ground arith), e)

pub remove_client-IsValid : (id : String) (s : Store) → IsValid s → IsValid (remove_client id s)
unfolding remove_client
remove_client-IsValid id s v = record {
  clients = delete-Distinct id s.clients v.clients;
  metadata = delete-Distinct id s.metadata v.metadata;
  named = delete-IsNamed id s.metadata v.named;
  bounded = omega (arith, length-delete-le id s.clients, v.bounded);
}

meta_for-named :
    (id : String) (now : ℕ) (s : Store)
    → IsValid s
    → (meta_for id now (get id s.metadata)).client_id ≡ id
meta_for-named id now s v = elim (Option-cases (get id s.metadata)) [
  | inl new ↦ rw new
  | inr (m, old) ↦ rw old (get-IsNamed id m s.metadata v.named old)
]

-- A client is put into a store that has it, or that has room for one more.
pub put_client-IsValid :
    (client : Client) (now : ℕ) (s : Store)
    → IsValid s
    → (get client.client_id s.clients ≡ none → length s.clients < s.limits.max_clients)
    → IsValid (put_client client now s)
unfolding put_client
put_client-IsValid client now s v room = record {
  clients = set-Distinct client.client_id client s.clients v.clients;
  metadata = set-Distinct client.client_id _ s.metadata v.metadata;
  named =
      set-IsNamed client.client_id _ s.metadata (meta_for-named client.client_id now s v) v.named;
  bounded = elim (Option-cases (get client.client_id s.clients)) [
    | inl new ↦ omega (arith, length-set_new client.client_id client s.clients new, room new)
    | inr (c, old) ↦
        omega (arith, length-set_old client.client_id client c s.clients old, v.bounded)
  ];
}

-- The client that `make_room` removes: no session, no open state and no open code, its grace behind it.
pub record IsEvictable (victim : String) (now : ℕ) (s : Store) : Type 0 where
  pub metadata : RuntimeMeta
  pub found : get victim s.metadata ≡ some metadata
  pub present : get victim s.clients ≢ none
  pub no_session : metadata.active_session_count ≡ 0
  pub no_state : metadata.pending_state_count ≡ 0
  pub no_code : metadata.pending_auth_code_count ≡ 0
  pub aged_enough : metadata.created_at + s.limits.idle_grace_ms ≤ now

tier_idle :
    (tier : EvictionTierId) (grace : ℕ) (c : EvictionCandidate)
    → in_tier tier grace c ≡ true
    → (c.is_idle ≡ true) × (leb_ℤ grace c.age_ms ≡ true)
unfolding in_tier
tier_idle tier_a_dynamic_idle_never_used grace c h = ground arith
tier_idle tier_b_dynamic_idle grace c h = ground arith
tier_idle tier_c_any_idle grace c h = ground arith

is_idle-counts :
    (m : RuntimeMeta)
    → is_idle m ≡ true
    → (m.active_session_count ≡ 0) × (m.pending_state_count ≡ 0) × (m.pending_auth_code_count ≡ 0)
unfolding is_idle
is_idle-counts m h = ground arith

age-le : (grace now created : ℕ) → leb_ℤ grace (sub_ℕ now created) ≡ true → created + grace ≤ now
age-le grace now created h = ground arith

module _ (p : Platform) where
  IsBest-IsEvictable :
      (tier : EvictionTierId) (victim : String) (now : ℕ) (s : Store)
      → IsValid s
      → IsBest p.locale_compare (build_eviction_candidates now s) s.limits.idle_grace_ms tier victim
      → IsEvictable victim now s
  IsBest-IsEvictable tier victim now s v b =
      let (m, found, present, e) = candidate-metadata now b.candidate s v b.among in
      let (idle, old) = tier_idle tier s.limits.idle_grace_ms b.candidate b.passes in
      let (no_session, no_state, no_code) =
        is_idle-counts m (ap (λ (c : EvictionCandidate). c.is_idle) (sym e) ∙ idle) in
      record {
        metadata = m;
        found = rw (← b.named) found;
        present = rw (← b.named) present;
        no_session = no_session;
        no_state = no_state;
        no_code = no_code;
        aged_enough =
            age-le s.limits.idle_grace_ms now m.created_at
              (ap (λ (c : EvictionCandidate). leb_ℤ s.limits.idle_grace_ms c.age_ms) (sym e) ∙ old);
      }

  -- A decision to evict names an evictable client.
  pub chosen-IsEvictable :
      (victim : String) (tier : EvictionTierId) (now : ℕ) (s : Store)
      → IsValid s
      → choose_eviction_decision p.locale_compare
          (build_eviction_candidates now s)
          s.limits.idle_grace_ms
        ≡ evict victim tier
      → IsEvictable victim now s
  chosen-IsEvictable victim tier now s v e = cases (
      rw e at (
        choose_eviction_decision-IsChosen p.locale_compare (build_eviction_candidates now s)
          s.limits.idle_grace_ms))
    where
      evictable :
          (t : EvictionTierId) (id : String)
          → evict victim tier ≡ evict id t
          → IsBest p.locale_compare (build_eviction_candidates now s) s.limits.idle_grace_ms t id
          → IsEvictable victim now s
      evictable t id same b =
          let named : victim ≡ id = cc in IsBest-IsEvictable t victim now s v (rw named b)

      cases :
          IsChosen p.locale_compare
            (build_eviction_candidates now s)
            s.limits.idle_grace_ms
            eviction_tiers
            (evict victim tier)
          → IsEvictable victim now s
      cases (inl (id, same, b)) = evictable _ id same b
      cases (inr (_, inl (id, same, b))) = evictable _ id same b
      cases (inr (_, inr (_, inl (id, same, b)))) = evictable _ id same b
      cases (inr (_, inr (_, inr (_, none_left)))) = absurd (cc)

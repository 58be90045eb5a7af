-- ===== src/Cache/Eviction.antt =====
-- The loop that evicts until the store is within its budget.
use mcp4openapi.Prelude.{
  ℕ, zero, suc, ◌+◌, ◌≤◌, ◌<◌, ◌≡◌, refl, sym, ap, ◌∙◌, ◌⊎◌, inl, inr, String, true, false, ◌||◌,
  some, List, [], ◌∷◌, ◌++◌, arith, Map, get, length, if◌then◌else◌, Bool-cases, get-middle,
}
use mcp4openapi.Cache.{
  CacheEntry, Store, EvictionReason, max_entries, max_memory, over_entries, over_memory,
  remove_entry, evict, evict_until_within_budget,
}
use mcp4openapi.Cache.Removal.{weight, IsCounted, remove_entry-IsCounted, removed_entries}

module _ {R : Type 0} where
  -- Within both limits.
  pub record IsWithin (s : Store R) : Type 0 where
    pub entries : length s.entries ≤ s.config.max_entries
    pub memory : s.memory_bytes ≤ s.config.max_memory_bytes

  -- What the loop does: it drops entries from the front, one for each reason that it reports.
  pub record IsEvicted (s t : Store R) (reasons : List EvictionReason) : Type 0 where
    pub dropped : Map (CacheEntry R)
    pub split : s.entries ≡ dropped ++ t.entries
    pub each : length dropped ≡ length reasons
    pub config : t.config ≡ s.config
    pub counted : IsCounted t
    pub within : IsWithin t

  evict_first :
      (k : String) (e : CacheEntry R) (rest : Map (CacheEntry R)) (s t : Store R)
      (reason : EvictionReason) (reasons : List EvictionReason)
      → s.entries ≡ (k, e) ∷ rest
      → IsCounted s
      → IsEvicted (remove_entry k e s) t reasons
      → IsEvicted s t (reason ∷ reasons)
  unfolding remove_entry
  evict_first k e rest s t reason reasons h v d = record {
    dropped = (k, e) ∷ d.dropped;
    split = h ∙ ap (◌∷◌ (k, e)) (sym (removed_entries k e [] rest s h v) ∙ d.split);
    each = ap suc d.each;
    config = d.config;
    counted = d.counted;
    within = d.within;
  }

  -- An empty store is within its budget.
  empty-IsWithin : (s : Store R) → s.entries ≡ [] → IsCounted s → IsWithin s
  unfolding weight
  empty-IsWithin s e v =
      let empty : s.memory_bytes ≡ 0 = v.counted ∙ ap weight e in
      record { entries = rw e (omega arith); memory = omega arith }

  evict_done : (s : Store R) → IsCounted s → IsWithin s → IsEvicted s s []
  evict_done s v w = record {
    dropped = [];
    split = refl;
    each = refl;
    config = refl;
    counted = v;
    within = w;
  }

  evict_stop :
      (fuel : ℕ) (s : Store R)
      → (over_entries s || over_memory s) ≡ false
      → evict (suc fuel) s ≡ (s, [])
  unfolding evict
  evict_stop fuel s h = rw (h, evict)

  evict_step :
      (fuel : ℕ) (s : Store R) (k : String) (e : CacheEntry R) (rest : Map (CacheEntry R))
      → (over_entries s || over_memory s) ≡ true
      → s.entries ≡ (k, e) ∷ rest
      → evict (suc fuel) s ≡ (
        (evict fuel (remove_entry k e s)).0,
        (if over_entries s then max_entries else max_memory) ∷ (evict fuel (remove_entry k e s)).1,
      )
  unfolding evict
  evict_step fuel s k e rest h entries = ground arith

  Map-cases :
      (m : Map (CacheEntry R))
      → (m ≡ [])
        ⊎ ((k : String) × (e : CacheEntry R) × (rest : Map (CacheEntry R)) × (m ≡ (k, e) ∷ rest))
  Map-cases [] = inl refl
  Map-cases ((k, e) ∷ rest) = inr (k, e, rest, refl)

  not_over_empty :
      (s : Store R) → s.entries ≡ [] → IsCounted s → (over_entries s || over_memory s) ≡ true → ⊥
  not_over_empty s e v over = let w = empty-IsWithin s e v in ground (arith, w.entries, w.memory)

  removed_bound :
      (k : String) (e : CacheEntry R) (rest : Map (CacheEntry R)) (s : Store R) {fuel : ℕ}
      → s.entries ≡ (k, e) ∷ rest
      → IsCounted s
      → length s.entries ≤ suc fuel
      → length (remove_entry k e s).entries ≤ fuel
  removed_bound k e rest s h v bound =
      omega (arith, ap length h, ap length (removed_entries k e [] rest s h v))

  found_first :
      (k : String) (e : CacheEntry R) (rest : Map (CacheEntry R)) (s : Store R)
      → s.entries ≡ (k, e) ∷ rest
      → IsCounted s
      → get k s.entries ≡ some e
  found_first k e rest s h v = rw h (get-middle k e [] rest (rw h at v.distinct))

  evict_none : (s : Store R) → evict zero s ≡ (s, [])
  unfolding evict
  evict_none s = refl

  -- As many rounds as there are entries bring the store within its budget.
  evict_lem :
      (fuel : ℕ) (s : Store R)
      → length s.entries ≤ fuel
      → IsCounted s
      → IsEvicted s (evict fuel s).0 (evict fuel s).1
  evict_lem zero s h v = elim (Map-cases s.entries) [
    | inl empty ↦ rw (evict_none s) (evict_done s v (empty-IsWithin s empty v))
    | inr (k, e, rest, entries) ↦ absurd (omega (arith, ap length entries))
  ]
  evict_lem (suc fuel) s h v = elim (Bool-cases (over_entries s || over_memory s)) [
    | inl over ↦ elim (Map-cases s.entries) [
      | inl empty ↦ absurd (not_over_empty s empty v over)
      | inr (k, e, rest, entries) ↦ rw (evict_step fuel s k e rest over entries) (
          evict_first k e rest s _ _ _ entries v (
            evict_lem fuel (remove_entry k e s) (removed_bound k e rest s entries v h)
              (remove_entry-IsCounted k e s v (found_first k e rest s entries v))))
    ]
    | inr fine ↦
        rw (evict_stop fuel s fine)
          (evict_done s v (record { entries = ground arith; memory = ground arith }))
  ]

  -- `evictUntilWithinBudget` always ends within the budget, and drops only entries from the front.
  pub evict_until_within_budget_lem :
      (s : Store R)
      → IsCounted s
      → IsEvicted s (evict_until_within_budget s).0 (evict_until_within_budget s).1
  unfolding evict_until_within_budget
  evict_until_within_budget_lem s v = evict_lem (length s.entries) s (omega arith) v

  alone_fits :
      (k : String) (e : CacheEntry R) (s : Store R)
      → s.entries ≡ (k, e) ∷ []
      → IsCounted s
      → 0 < s.config.max_entries
      → e.size_bytes ≤ s.config.max_memory_bytes
      → (over_entries s || over_memory s) ≡ false
  unfolding weight
  alone_fits k e s h v some_room fits =
      let sum : s.memory_bytes ≡ e.size_bytes + 0 = v.counted ∙ ap weight h in
      let one : length s.entries ≡ 1 = ap length h in ground arith

  -- The newest entry stays, if it fits alone.
  pub evict-last :
      (fuel : ℕ) (older : Map (CacheEntry R)) (k : String) (e : CacheEntry R) (s : Store R)
      → s.entries ≡ older ++ (k, e) ∷ []
      → IsCounted s
      → 0 < s.config.max_entries
      → e.size_bytes ≤ s.config.max_memory_bytes
      → (kept : Map (CacheEntry R)) × ((evict fuel s).0.entries ≡ kept ++ (k, e) ∷ [])
  unfolding remove_entry
  evict-last zero older k e s h v some_room fits = (older, rw (evict_none s) h)
  evict-last (suc fuel) [] k e s h v some_room fits =
      ([], rw (evict_stop fuel s (alone_fits k e s h v some_room fits)) h)
  evict-last (suc fuel) ((j, f) ∷ older) k e s h v some_room fits =
      elim (Bool-cases (over_entries s || over_memory s)) [
        | inr fine ↦ ((j, f) ∷ older, rw (evict_stop fuel s fine) h)
        | inl over ↦ rw (evict_step fuel s j f (older ++ (k, e) ∷ []) over h) (
            evict-last fuel older k e (remove_entry j f s)
              (removed_entries j f [] (older ++ (k, e) ∷ []) s h v)
              (remove_entry-IsCounted j f s v (found_first j f _ s h v)) some_room fits)
      ]

  -- So does `evictUntilWithinBudget`.
  pub evict_until_within_budget-last :
      (older : Map (CacheEntry R)) (k : String) (e : CacheEntry R) (s : Store R)
      → s.entries ≡ older ++ (k, e) ∷ []
      → IsCounted s
      → 0 < s.config.max_entries
      → e.size_bytes ≤ s.config.max_memory_bytes
      → (kept : Map (CacheEntry R)) × ((evict_until_within_budget s).0.entries
          ≡ kept ++ (k, e) ∷ [])
  unfolding evict_until_within_budget
  evict_until_within_budget-last older k e s h v some_room fits =
      evict-last (length s.entries) older k e s h v some_room fits

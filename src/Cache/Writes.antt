-- ===== src/Cache/Writes.antt =====
-- What the method `set` does to a store.
use mcp4openapi.Prelude.{
  ℕ, zero, suc, ◌+◌, ◌*◌, ◌≤◌, ◌<◌, ◌≡◌, refl, sym, ap, subst, ◌∙◌, inl, inr, String, some, none,
  List, [], ◌∷◌, ◌++◌, arith, Map, get, delete, delete_where, Distinct, length, Option-cases,
  get-middle, delete_absent, get-delete_self, get-delete_where, set_new, set-Distinct,
  delete-Distinct, Number, integer, pos, negsuc, non_finite,
}
use mcp4openapi.Cache.{
  CacheEntry, Store, EvictionReason, Result, ok, Platform, is_expired, remove_entry, remove_expired,
  remove_existing, insert, evict_until_within_budget, new_entry, write_entry, write, read, clear,
}
use mcp4openapi.Cache.Removal.{
  weight, weight-append, IsCounted, remove_entry-IsCounted, remove_expired_lem,
}
use mcp4openapi.Cache.Eviction.{
  IsWithin, IsEvicted, evict_until_within_budget_lem, evict_until_within_budget-last,
}

module _ {R : Type 0} where
  -- The store's invariant: distinct keys, the sum of the sizes, and both budgets.
  pub record IsValid (s : Store R) : Type 0 where
    pub counted : IsCounted s
    pub within : IsWithin s
    pub some_room : 0 < s.config.max_entries

  pub clear-IsValid : (s : Store R) → IsValid s → IsValid (clear s)
  unfolding clear weight
  clear-IsValid s v = record {
    counted = record { distinct = tt; counted = refl };
    within = record { entries = omega arith; memory = omega arith };
    some_room = v.some_room;
  }

  remove_existing_lem :
      (key : String) (s : Store R)
      → IsCounted s
      → ((remove_existing key s).entries ≡ delete key s.entries)
        × ((remove_existing key s).config ≡ s.config)
        × IsCounted (remove_existing key s)
  unfolding remove_existing remove_entry
  remove_existing_lem key s v = elim (Option-cases (get key s.entries)) [
    | inl absent ↦ rw (absent, remove_existing) (sym (delete_absent key s.entries absent), refl, v)
    | inr (e, found) ↦
        rw (found, remove_existing) (refl, refl, remove_entry-IsCounted key e s v found)
  ]

  -- The store after the new entry went to the end, before eviction.
  abbrev pub extended : String → CacheEntry R → ℕ → Store R → Store R
  extended key entry now s = insert key entry (remove_expired now (remove_existing key s))

  -- The other entries that are still live.
  abbrev pub survivors : String → ℕ → Store R → Map (CacheEntry R)
  survivors key now s = delete_where (is_expired now) (delete key s.entries)

  insert_lem :
      (key : String) (entry : CacheEntry R) (s : Store R)
      → IsCounted s
      → get key s.entries ≡ none
      → ((insert key entry s).entries ≡ s.entries ++ (key, entry) ∷ [])
        × IsCounted (insert key entry s)
  unfolding insert weight
  insert_lem key entry s v absent = (
    set_new key entry s.entries absent,
    record {
      distinct = set-Distinct key entry s.entries v.distinct;
      counted =
          rw (set_new key entry s.entries absent)
            (omega (arith, weight-append s.entries ((key, entry) ∷ []), v.counted));
    },
  )

  survivors-absent :
      (key : String) (now : ℕ) (s : Store R)
      → Distinct s.entries
      → get key (survivors key now s) ≡ none
  survivors-absent key now s d = rw (
    get-delete_where (is_expired now) key _ (delete-Distinct key s.entries d),
    get-delete_self key s.entries,
  )

  insert_config :
      (key : String) (entry : CacheEntry R) (s : Store R) → (insert key entry s).config ≡ s.config
  unfolding insert
  insert_config key entry s = refl

  extended_lem :
      (key : String) (entry : CacheEntry R) (now : ℕ) (s : Store R)
      → IsCounted s
      → ((extended key entry now s).entries ≡ survivors key now s ++ (key, entry) ∷ [])
        × ((extended key entry now s).config ≡ s.config)
        × IsCounted (extended key entry now s)
  extended_lem key entry now s v =
      let (e1, c1, v1) = remove_existing_lem key s v in
      let (e2, c2, v2) = remove_expired_lem now (remove_existing key s) v1 in
      let entries = e2 ∙ ap (delete_where (is_expired now)) e1 in
      let (e3, v3) =
        insert_lem key entry (remove_expired now (remove_existing key s)) v2
          (ap (get key) entries ∙ survivors-absent key now s v.distinct) in
      (e3 ∙ ap (λ m. m ++ (key, entry) ∷ []) entries, insert_config key entry _ ∙ c2 ∙ c1, v3)

  -- The outcome of a write that fits: what eviction makes of the extended store.
  write_entry_fits :
      (key : String) (entry : CacheEntry R) (now : ℕ) (s : Store R)
      → entry.size_bytes ≤ s.config.max_memory_bytes
      → write_entry key entry now s ≡ ok (evict_until_within_budget (extended key entry now s))
  unfolding write_entry
  write_entry_fits key entry now s h = ground arith

  module _ (p : Platform R) (key : String) (response : R) (now : ℕ) (s : Store R) where
    -- An accepted write with a positive time to live, as eviction of the extended store.
    write-eq-ok :
        (ttl : ℕ) {t : Store R} {reasons : List EvictionReason}
        → 0 < ttl
        → write p key response (integer (pos ttl)) now s ≡ ok (t, reasons)
        → ((new_entry p key response ttl now).size_bytes ≤ s.config.max_memory_bytes)
          × (evict_until_within_budget (extended key (new_entry p key response ttl now) now s)
              ≡ (t, reasons))
    unfolding write
    write-eq-ok (suc ttl) some_time h = ground arith
    write-eq-ok zero some_time h = absurd (omega arith)

    evicted :
        (ttl : ℕ) {t : Store R} {reasons : List EvictionReason}
        → IsCounted s
        → evict_until_within_budget (extended key (new_entry p key response ttl now) now s)
          ≡ (t, reasons)
        → IsEvicted (extended key (new_entry p key response ttl now) now s) t reasons
    evicted ttl v h =
        subst (λ r. IsEvicted (extended key (new_entry p key response ttl now) now s) r.0 r.1) h
          (evict_until_within_budget_lem _ (extended_lem key _ now s v).2)

    evicted-IsValid :
        (entry : CacheEntry R) {t : Store R} {reasons : List EvictionReason}
        → IsValid s
        → IsEvicted (extended key entry now s) t reasons
        → IsValid t
    evicted-IsValid entry v d = record {
      counted = d.counted;
      within = d.within;
      some_room = rw (d.config ∙ (extended_lem key entry now s v.counted).1) v.some_room;
    }

    unchanged-IsValid :
        {t : Store R} {reasons : List EvictionReason}
        → IsValid s
        → ◌≡◌ {A = Result (Store R × List EvictionReason)} (ok (s, [])) (ok (t, reasons))
        → IsValid t
    unchanged-IsValid v h = subst IsValid (cc) v

    -- A write that does not throw keeps the invariant: whatever stood in the store, at most
    -- `maxEntries` entries and `maxMemoryBytes` bytes stand there afterwards.
    pub write-IsValid :
        (ttl_seconds : Number) {t : Store R} {reasons : List EvictionReason}
        → IsValid s
        → write p key response ttl_seconds now s ≡ ok (t, reasons)
        → IsValid t
    unfolding write
    write-IsValid (integer (pos (suc ttl))) v h =
        evicted-IsValid _ v (evicted (suc ttl) v.counted (write-eq-ok (suc ttl) (omega arith) h).1)
    write-IsValid (integer (pos zero)) v h = unchanged-IsValid v h
    write-IsValid (integer (negsuc n)) v h = unchanged-IsValid v h
    write-IsValid non_finite v h = unchanged-IsValid v h

    -- The store after an accepted write is the live entries of the other keys, in their order, with
    -- the new entry behind them, less some entries at the front, as many as evictions are reported.
    pub write-drops_oldest :
        (ttl : ℕ) {t : Store R} {reasons : List EvictionReason}
        → 0 < ttl
        → IsValid s
        → write p key response (integer (pos ttl)) now s ≡ ok (t, reasons)
        → (dropped : Map (CacheEntry R)) × (survivors key now s
              ++ (key, new_entry p key response ttl now) ∷ []
            ≡ dropped ++ t.entries)
          × (length dropped ≡ length reasons)
    write-drops_oldest ttl some_time v h =
        let d = evicted ttl v.counted (write-eq-ok ttl some_time h).1 in
        (d.dropped, sym (extended_lem key _ now s v.counted).0 ∙ d.split, d.each)

    newest_stays :
        (ttl : ℕ) {t : Store R} {reasons : List EvictionReason}
        → 0 < ttl
        → IsValid s
        → write p key response (integer (pos ttl)) now s ≡ ok (t, reasons)
        → get key t.entries ≡ some (new_entry p key response ttl now)
    newest_stays ttl some_time v h =
        let entry = new_entry p key response ttl now in
        let (fits, e) = write-eq-ok ttl some_time h in
        let (entries, config, counted) = extended_lem key entry now s v.counted in
        let d = evicted ttl v.counted e in
        let (kept, last) =
          evict_until_within_budget-last (survivors key now s) key entry (extended key entry now s)
            entries counted (rw config v.some_room) (rw config fits) in
        let at_end = ap (λ r. r.0.entries) (sym e) ∙ last in
        rw at_end (get-middle key entry kept [] (rw at_end at d.counted.distinct))

    -- What a write that is accepted stores is what a read returns until its time to live is over.
    pub read-write :
        (ttl later : ℕ) {t : Store R} {reasons : List EvictionReason}
        → 0 < ttl
        → later < now + ttl * 1000
        → IsValid s
        → write p key response (integer (pos ttl)) now s ≡ ok (t, reasons)
        → (read key later t).1 ≡ some response
    unfolding read
    read-write ttl later {t} some_time fresh v h =
        ground (arith, newest_stays ttl {t = t} some_time v h)

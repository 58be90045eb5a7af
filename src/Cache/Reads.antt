-- ===== src/Cache/Reads.antt =====
-- What the methods `get`, `delete` and `clear` do to a store.
use mcp4openapi.Prelude.{
  positive, ℕ, Number, integer, pos, suc, ◌≤◌, ◌<◌, ◌≡◌, refl, sym, ap, ◌∙◌, inl, inr, ◌≢◌, String,
  true, false, some, none, Option, ◌↔◌, str_eq, [], ◌∷◌, ◌++◌, arith, get, delete, length,
  if◌then◌else◌, Bool-cases, Option-cases, get-set, get-delete, get-delete_self, set_new,
  set-Distinct, delete-Distinct, length-delete, length-delete-le, length-append, eq_iff,
}
use mcp4openapi.Cache.{
  CacheEntry, Store, new_store, ok, is_expired, remove_entry, delete_key, touch, read,
}
use mcp4openapi.Cache.Removal.{weight, weight-append, weight-delete, remove_entry-IsCounted}
use mcp4openapi.Cache.Writes.{IsValid}

module _ {R : Type 0} where
  remove_entry-IsValid :
      (key : String) (e : CacheEntry R) (s : Store R)
      → IsValid s
      → get key s.entries ≡ some e
      → IsValid (remove_entry key e s)
  unfolding remove_entry
  remove_entry-IsValid key e s v h = record {
    counted = remove_entry-IsCounted key e s v.counted h;
    within = record {
      entries = omega (arith, length-delete-le key s.entries);
      memory = omega arith;
    };
    some_room = v.some_room;
  }

  touched_entries :
      (key : String) (e : CacheEntry R) (s : Store R)
      → (touch key e s).entries ≡ delete key s.entries ++ (key, e) ∷ []
  unfolding touch
  touched_entries key e s = set_new key e (delete key s.entries) (get-delete_self key s.entries)

  touch-IsValid :
      (key : String) (e : CacheEntry R) (s : Store R)
      → IsValid s
      → get key s.entries ≡ some e
      → IsValid (touch key e s)
  unfolding touch weight
  touch-IsValid key e s v h =
      let entries = touched_entries key e s in
      record {
        counted = record {
          distinct = set-Distinct key e _ (delete-Distinct key s.entries v.counted.distinct);
          counted = omega (
            arith,
            ap weight entries,
            weight-append (delete key s.entries) ((key, e) ∷ []),
            weight-delete key e s.entries v.counted.distinct h,
            v.counted.counted,
          );
        };
        within = record {
          entries = omega (
            arith,
            ap length entries,
            length-append (delete key s.entries) ((key, e) ∷ []),
            length-delete key e s.entries v.counted.distinct h,
          );
          memory = v.within.memory;
        };
        some_room = v.some_room;
      }

  -- The three ways in which a read ends.
  read_miss :
      (key : String) (now : ℕ) (s : Store R) → get key s.entries ≡ none → read key now s ≡ (s, none)
  unfolding read
  read_miss key now s h = rw (h, read)

  read_expired :
      (key : String) (now : ℕ) (s : Store R) (e : CacheEntry R)
      → get key s.entries ≡ some e
      → is_expired now e ≡ true
      → read key now s ≡ (remove_entry key e s, none)
  unfolding read
  read_expired key now s e h old = ground arith

  read_hit :
      (key : String) (now : ℕ) (s : Store R) (e : CacheEntry R)
      → get key s.entries ≡ some e
      → is_expired now e ≡ false
      → read key now s ≡ (touch key e s, some e.response)
  unfolding read
  read_hit key now s e h live = ground arith

  -- A read keeps the invariant.
  pub read-IsValid : (key : String) (now : ℕ) (s : Store R) → IsValid s → IsValid (read key now s).0
  read-IsValid key now s v = elim (Option-cases (get key s.entries)) [
    | inl miss ↦ rw (read_miss key now s miss) v
    | inr (e, found) ↦ elim (Bool-cases (is_expired now e)) [
      | inl old ↦ rw (read_expired key now s e found old) (remove_entry-IsValid key e s v found)
      | inr live ↦ rw (read_hit key now s e found live) (touch-IsValid key e s v found)
    ]
  ]

  -- A read that hits returns a stored response that is still live, and makes its entry the last
  -- that eviction will reach, the order of the others unchanged.
  pub read_hit_order :
      (key : String) (now : ℕ) (s : Store R) {r : R}
      → (read key now s).1 ≡ some r
      → (e : CacheEntry R) × (get key s.entries ≡ some e)
        × (e.response ≡ r)
        × (now < e.expires_at_ms)
        × ((read key now s).0.entries ≡ delete key s.entries ++ (key, e) ∷ [])
  read_hit_order key now s h = elim (Option-cases (get key s.entries)) [
    | inl miss ↦ absurd (cc (read_miss key now s miss))
    | inr (e, found) ↦ elim (Bool-cases (is_expired now e)) [
      | inl old ↦ absurd (cc (read_expired key now s e found old))
      | inr live ↦
          let hit = read_hit key now s e found live in
          (e, found, cc hit, ground arith, rw hit (touched_entries key e s))
    ]
  ]

  get-removed :
      (key q : String) (e : CacheEntry R) (s : Store R)
      → get q (remove_entry key e s).entries ≡ get q (delete key s.entries)
  unfolding remove_entry
  get-removed key q e s = refl

  get-touched :
      (key q : String) (e : CacheEntry R) (s : Store R)
      → get key s.entries ≡ some e
      → get q (touch key e s).entries ≡ get q s.entries
  unfolding touch
  get-touched key q e s h =
      ground
        (arith, get-set key q e (delete key s.entries), get-delete key q s.entries, eq_iff key q)

  -- What a read makes of the entry that it finds.
  abbrev visible : ℕ → Option (CacheEntry R) → Option R
  visible later none = none
  visible later (some e) = if is_expired later e then none else some e.response

  read-visible :
      (q : String) (later : ℕ) (s : Store R) → (read q later s).1 ≡ visible later (get q s.entries)
  unfolding read
  read-visible q later s = ground arith

  visible-removed :
      (key q : String) (later : ℕ) (e : CacheEntry R) (s : Store R)
      → get key s.entries ≡ some e
      → is_expired later e ≡ true
      → visible later (get q (remove_entry key e s).entries) ≡ visible later (get q s.entries)
  visible-removed key q later e s found old =
      ground (arith, get-removed key q e s, get-delete key q s.entries, eq_iff key q)

  still_expired :
      (now later : ℕ) (e : CacheEntry R)
      → now ≤ later
      → is_expired now e ≡ true
      → is_expired later e ≡ true
  still_expired now later e h old = ground arith

  -- A read changes nothing that a later read can see: neither the removal of an expired entry nor
  -- the move of a live one.
  pub read-read :
      (key q : String) (now later : ℕ) (s : Store R)
      → now ≤ later
      → (read q later (read key now s).0).1 ≡ (read q later s).1
  read-read key q now later s h = elim (Option-cases (get key s.entries)) [
    | inl miss ↦ rw (read_miss key now s miss)
    | inr (e, found) ↦ elim (Bool-cases (is_expired now e)) [
      | inl old ↦ rw (read_expired key now s e found old) (
          read-visible q later (remove_entry key e s)
          ∙ visible-removed key q later e s found (still_expired now later e h old)
          ∙ sym (read-visible q later s))
      | inr live ↦ rw (read_hit key now s e found live) (
          read-visible q later (touch key e s)
          ∙ ap (visible later) (get-touched key q e s found)
          ∙ sym (read-visible q later s))
    ]
  ]

  -- The method `delete` says whether the key was there, removes it, keeps what other keys hold, and
  -- keeps the invariant.
  pub delete_key_lem :
      (key q : String) (s : Store R)
      → IsValid s
      → IsValid (delete_key key s).0
        × (get q (delete_key key s).0.entries ≡ (if str_eq key q then none else get q s.entries))
        × (((delete_key key s).1 ≡ true) ↔ (get key s.entries ≢ none))
  unfolding delete_key
  delete_key_lem key q s v = elim (Option-cases (get key s.entries)) [
    | inl miss ↦ rw (miss, delete_key) (v, ground (arith, eq_iff key q), ground arith)
    | inr (e, found) ↦
        rw (found, delete_key)
          (
            remove_entry-IsValid key e s v found,
            get-removed key q e s ∙ get-delete key q s.entries,
            ground arith,
          )
  ]

  -- `new InMemoryCacheStore` accepts exactly two positive integers, and builds a valid empty store.
  pub new_store_lem :
      (entry_limit memory_limit : Number) {s : Store R}
      → new_store entry_limit memory_limit ≡ ok s
      → IsValid s
        × (s.entries ≡ [])
        × (positive entry_limit ≡ some s.config.max_entries)
        × (positive memory_limit ≡ some s.config.max_memory_bytes)
  unfolding new_store weight
  new_store_lem (integer (pos (suc n))) (integer (pos (suc m))) h = ground arith
  new_store_lem _ _ h = cc

-- ===== src/Cache.antt =====
-- `InMemoryCacheStore` of src/transport/in-memory-cache-store.ts: the least recently used entry
-- stands first in the map. Times are whole milliseconds. `structuredClone` is the identity on
-- values that nothing mutates. A method returns the new state beside its result.
pub mod Removal
pub mod Eviction
pub mod Writes
pub mod Reads
mod Tests
use mcp4openapi.Prelude.{
  positive, ℕ, zero, suc, ◌+◌, ◌-◌, ◌*◌, String, Bool, true, false, ◌||◌, Option, none, some, List,
  [], ◌∷◌, Map, get, set, delete, length, leb, ltb, if◌then◌else◌, ℤ, pos, negsuc, Number, integer,
  non_finite,
}

pub record CacheEntry (R : Type 0) : Type 0 where
  pub response : R
  pub expires_at_ms : ℕ
  pub size_bytes : ℕ

pub record Config : Type 0 where
  pub max_entries : ℕ
  pub max_memory_bytes : ℕ

-- `this`: the entries from the least to the most recently used, and their total size.
pub record Store (R : Type 0) : Type 0 where
  pub config : Config
  pub entries : Map (CacheEntry R)
  pub memory_bytes : ℕ

pub data EvictionReason : Type 0 where
  max_entries max_memory : EvictionReason

pub data Error : Type 0 where
  bad_max_entries bad_max_memory_bytes : Error
  response_too_large : String → ℕ → ℕ → Error

pub data Result {ℓ} (A : Type ℓ) : Type ℓ where
  ok : A → Result A
  throw : Error → Result A

pub record Stats : Type 0 where
  pub entries : ℕ
  pub max_entries : ℕ
  pub memory_bytes : ℕ
  pub max_memory_bytes : ℕ

-- What the store takes from the platform: `JSON.stringify` of the entry, which may throw, and
-- `Buffer.byteLength`.
pub record Platform (R : Type 0) : Type 0 where
  pub stringify : String → R → ℕ → Option String
  pub byte_length : String → ℕ

module _ {R : Type 0} where
  -- The constructor.
  unfoldable pub new_store : Number → Number → Result (Store R)
  new_store entry_limit memory_limit = elim (positive entry_limit) [
    | none ↦ throw bad_max_entries
    | some n ↦ elim (positive memory_limit) [
      | none ↦ throw bad_max_memory_bytes
      | some m ↦ ok (record {
        config = record { max_entries = n; max_memory_bytes = m };
        entries = [];
        memory_bytes = 0;
      })
    ]
  ]

  abbrev pub is_expired : ℕ → CacheEntry R → Bool
  is_expired now e = leb e.expires_at_ms now

  -- `Math.max(0, a - b)` is the subtraction of ℕ.
  unfoldable pub remove_entry : String → CacheEntry R → Store R → Store R
  remove_entry key entry s = record s {
    entries = delete key s.entries;
    memory_bytes = s.memory_bytes - entry.size_bytes;
  }

  -- The method `delete`.
  unfoldable pub delete_key : String → Store R → Store R × Bool
  delete_key key s = elim (get key s.entries) [
    | none ↦ (s, false)
    | some entry ↦ (remove_entry key entry s, true)
  ]

  unfoldable pub clear : Store R → Store R
  clear s = record s { entries = []; memory_bytes = 0 }

  unfoldable pub get_stats : Store R → Stats
  get_stats s = record {
    entries = length s.entries;
    max_entries = s.config.max_entries;
    memory_bytes = s.memory_bytes;
    max_memory_bytes = s.config.max_memory_bytes;
  }

  unfoldable pub touch : String → CacheEntry R → Store R → Store R
  touch key entry s = record s { entries = set key entry (delete key s.entries) }

  -- The method `get`.
  unfoldable pub read : String → ℕ → Store R → Store R × Option R
  unfolding delete_key touch remove_entry
  read key now s = elim (get key s.entries) [
    | none ↦ (s, none)
    | some entry ↦
        if is_expired now entry
        then ((delete_key key s).0, none)
        else (touch key entry s, some entry.response)
  ]

  -- The loop of `removeExpired`. The entry under the cursor is the only one that is deleted, so
  -- the loop meets each entry that was there at its start.
  unfoldable pub remove_expired_from : ℕ → Map (CacheEntry R) → Store R → Store R
  remove_expired_from now [] s = s
  remove_expired_from now ((key, entry) ∷ rest) s =
      remove_expired_from now rest (if is_expired now entry then remove_entry key entry s else s)

  unfoldable pub remove_expired : ℕ → Store R → Store R
  remove_expired now s = remove_expired_from now s.entries s

  abbrev pub over_entries : Store R → Bool
  over_entries s = ltb s.config.max_entries (length s.entries)

  abbrev pub over_memory : Store R → Bool
  over_memory s = ltb s.config.max_memory_bytes s.memory_bytes

  -- The loop of `evictUntilWithinBudget`, with the reasons that it reports. Each round removes an
  -- entry, so as many rounds as there are entries are enough.
  unfoldable pub evict : ℕ → Store R → Store R × List EvictionReason
  evict zero s = (s, [])
  evict (suc fuel) s = elim (over_entries s || over_memory s) [
    | false ↦ (s, [])
    | true ↦ elim s.entries [
      | [] ↦ (s, [])
      | (key, entry) ∷ rest ↦
          let (s', reasons) = evict fuel (remove_entry key entry s) in
          (s', (if over_entries s then max_entries else max_memory) ∷ reasons)
    ]
  ]

  unfoldable pub evict_until_within_budget : Store R → Store R × List EvictionReason
  evict_until_within_budget s = evict (length s.entries) s

  -- The entry that stood under the key goes first.
  unfoldable pub remove_existing : String → Store R → Store R
  remove_existing key s = elim (get key s.entries) [
    | none ↦ s
    | some existing ↦ remove_entry key existing s
  ]

  -- `entries.set` and the sum of the sizes.
  unfoldable pub insert : String → CacheEntry R → Store R → Store R
  insert key entry s = record s {
    entries = set key entry s.entries;
    memory_bytes = s.memory_bytes + entry.size_bytes;
  }

  -- The method `set` from a positive time to live on.
  unfoldable pub write_entry :
      String → CacheEntry R → ℕ → Store R → Result (Store R × List EvictionReason)
  unfolding remove_existing insert
  write_entry key entry now s =
      if ltb s.config.max_memory_bytes entry.size_bytes
      then throw (response_too_large key entry.size_bytes s.config.max_memory_bytes)
      else ok (
          evict_until_within_budget (insert key entry (remove_expired now (remove_existing key s))))

module _ {R : Type 0} (p : Platform R) where
  unfoldable pub estimate_entry_size : String → R → ℕ → ℕ
  estimate_entry_size key response expires_at_ms = elim (p.stringify key response expires_at_ms) [
    | some text ↦ p.byte_length text
    | none ↦ p.byte_length key + 1024
  ]

  abbrev pub new_entry : String → R → ℕ → ℕ → CacheEntry R
  new_entry key response ttl now = record {
    response = response;
    expires_at_ms = now + ttl * 1000;
    size_bytes = estimate_entry_size key response (now + ttl * 1000);
  }

  -- The method `set`.
  unfoldable pub write : String → R → Number → ℕ → Store R → Result (Store R × List EvictionReason)
  unfolding write_entry
  write key response ttl_seconds now s = elim (positive ttl_seconds) [
    | none ↦ ok (s, [])
    | some ttl ↦ write_entry key (new_entry key response ttl now) now s
  ]

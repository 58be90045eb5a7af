-- ===== src/Cache/Tests.antt =====
-- Runs of the cache store, and the theorems at them.
use Prim.Native.String.{len}
use mcp4openapi.Prelude.{
  ℕ, ◌≡◌, refl, String, some, [], ◌∷◌, ◌++◌, arith, Map, get, set, delete, length, integer, pos,
}
use mcp4openapi.Cache.{
  CacheEntry, Store, max_entries, ok, throw, Platform, response_too_large, new_store, remove_entry,
  read, remove_expired_from, remove_expired, evict, evict_until_within_budget, estimate_entry_size,
  new_entry, write,
}
use mcp4openapi.Cache.Removal.{weight}
use mcp4openapi.Cache.Writes.{IsValid, survivors, write-IsValid, write-drops_oldest}

abbrev platform : Platform String
platform = record { stringify = λ k r t. some r; byte_length = len }

abbrev entry : String → ℕ → CacheEntry String
entry r t = record { response = r; expires_at_ms = t; size_bytes = len r }

-- Two entries of at most two; "a" was used longest ago.
abbrev full : Store String
full = record {
  config = record { max_entries = 2; max_memory_bytes = 10 };
  entries = ("a", entry "one" 5000) ∷ ("b", entry "two" 9000) ∷ [];
  memory_bytes = 6;
}

abbrev after_c : Store String
after_c = record {
  config = record { max_entries = 2; max_memory_bytes = 10 };
  entries = ("b", entry "two" 9000) ∷ ("c", entry "three" 3000) ∷ [];
  memory_bytes = 8;
}

full-IsValid : IsValid full
unfolding get weight
full-IsValid = record {
  counted = record { distinct = (refl, (refl, tt)); counted = refl };
  within = record { entries = omega arith; memory = omega arith };
  some_room = omega arith;
}

write_c : write platform "c" "three" (integer (pos 2)) 1000 full ≡ ok (after_c, max_entries ∷ [])
unfolding write estimate_entry_size remove_expired remove_expired_from evict_until_within_budget
    evict set get remove_entry delete
write_c = refl

write_too_large :
    write platform "c" "a longer text" (integer (pos 2)) 1000 full
    ≡ throw (response_too_large "c" 13 10)
unfolding write estimate_entry_size
write_too_large = refl

read_a : (read "a" 1000 full).1 ≡ some "one"
unfolding read get
read_a = refl

write-IsValid_example : IsValid after_c
write-IsValid_example =
    write-IsValid platform "c" "three" 1000 full (integer (pos 2)) full-IsValid write_c

write-drops_oldest_example :
    (dropped : Map (CacheEntry String)) × (survivors "c" 1000 full
        ++ ("c", new_entry platform "c" "three" 2 1000) ∷ []
      ≡ dropped ++ after_c.entries)
    × (length dropped ≡ 1)
write-drops_oldest_example =
    write-drops_oldest platform "c" "three" 1000 full 2 (omega arith) full-IsValid write_c

abbrev made : Store String
made = record {
  config = record { max_entries = 2; max_memory_bytes = 10 };
  entries = [];
  memory_bytes = 0;
}

made_lem : new_store (integer (pos 2)) (integer (pos 10)) ≡ ok made
unfolding new_store
made_lem = refl

-- ===== src/Cache/Removal.antt =====
-- The total size of the entries, and the loop that removes the expired ones.
use mathlib.Core.List.{append_assoc}
use mcp4openapi.Prelude.{
  ℕ, ◌+◌, ◌≡◌, refl, sym, ◌∙◌, String, true, false, some, [], ◌∷◌, ◌++◌, arith, Map, get, delete,
  delete_where, Distinct, eq_iff, delete_absent, delete-Distinct, get-middle, delete-middle,
  if◌then◌else◌, leb,
}
use mcp4openapi.Cache.{
  CacheEntry, Store, is_expired, remove_entry, remove_expired_from, remove_expired,
}

module _ {R : Type 0} where
  -- The sum that `memoryBytes` stands for.
  unfoldable pub weight : Map (CacheEntry R) → ℕ
  weight [] = 0
  weight ((k, e) ∷ m) = e.size_bytes + weight m

  pub weight-append : (m n : Map (CacheEntry R)) → weight (m ++ n) ≡ weight m + weight n
  unfolding weight
  weight-append [] n = omega arith
  weight-append ((k, e) ∷ m) n = omega (arith, weight-append m n)

  pub weight-delete :
      (k : String) (e : CacheEntry R) (m : Map (CacheEntry R))
      → Distinct m
      → get k m ≡ some e
      → weight (delete k m) + e.size_bytes ≡ weight m
  unfolding weight get delete
  weight-delete k e [] d h = cc
  weight-delete k e ((j, f) ∷ m) (fresh, d) h =
      ground (arith, weight-delete k e m d, eq_iff j k, delete_absent k m)

  -- Entries whose keys differ, and the sum of their sizes.
  pub record IsCounted (s : Store R) : Type 0 where
    pub distinct : Distinct s.entries
    pub counted : s.memory_bytes ≡ weight s.entries

  pub remove_entry-IsCounted :
      (k : String) (e : CacheEntry R) (s : Store R)
      → IsCounted s
      → get k s.entries ≡ some e
      → IsCounted (remove_entry k e s)
  unfolding remove_entry
  remove_entry-IsCounted k e s v h = record {
    distinct = delete-Distinct k s.entries v.distinct;
    counted = omega (arith, weight-delete k e s.entries v.distinct h);
  }

  pub removed_entries :
      (k : String) (e : CacheEntry R) (kept rest : Map (CacheEntry R)) (s : Store R)
      → s.entries ≡ kept ++ (k, e) ∷ rest
      → IsCounted s
      → (remove_entry k e s).entries ≡ kept ++ rest
  unfolding remove_entry
  removed_entries k e kept rest s h v = rw h (delete-middle k e kept rest (rw h at v.distinct))

  remove_expired_from-loop :
      (now : ℕ) (kept rest : Map (CacheEntry R)) (s : Store R)
      → s.entries ≡ kept ++ rest
      → IsCounted s
      → ((remove_expired_from now rest s).entries ≡ kept ++ delete_where (is_expired now) rest)
        × ((remove_expired_from now rest s).config ≡ s.config)
        × IsCounted (remove_expired_from now rest s)
  unfolding remove_expired_from delete_where remove_entry
  remove_expired_from-loop now kept [] s e v = (e, refl, v)
  remove_expired_from-loop now kept ((k, x) ∷ rest) s e v =
      let found : get k s.entries ≡ some x = rw e (get-middle k x kept rest (rw e at v.distinct)) in
      let gone =
        remove_expired_from-loop now kept rest (remove_entry k x s)
          (removed_entries k x kept rest s e v) (remove_entry-IsCounted k x s v found) in
      let stays =
        remove_expired_from-loop now (kept ++ (k, x) ∷ []) rest s
          (e ∙ sym (append_assoc kept ((k, x) ∷ []) rest)) v in
      elim (leb x.expires_at_ms now)
        as (λ b.
          ((remove_expired_from now rest (if b then remove_entry k x s else s)).entries
            ≡ kept
              ++ (if b
                  then delete_where (is_expired now) rest
                  else (k, x) ∷ delete_where (is_expired now) rest))
          × ((remove_expired_from now rest (if b then remove_entry k x s else s)).config ≡ s.config)
          × IsCounted (remove_expired_from now rest (if b then remove_entry k x s else s))) [
            | true ↦ gone
            | false ↦ (stays.0 ∙ append_assoc kept ((k, x) ∷ []) _, stays.1, stays.2)
          ]

  -- `removeExpired` leaves the entries that are still live, in their order.
  pub remove_expired_lem :
      (now : ℕ) (s : Store R)
      → IsCounted s
      → ((remove_expired now s).entries ≡ delete_where (is_expired now) s.entries)
        × ((remove_expired now s).config ≡ s.config)
        × IsCounted (remove_expired now s)
  unfolding remove_expired
  remove_expired_lem now s v = remove_expired_from-loop now [] s.entries s refl v

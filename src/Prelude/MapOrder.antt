-- ===== src/Prelude/MapOrder.antt =====
-- Entries by their place in a map: what stands before and behind a key.
use mathlib.Core.Path.{◌≡◌, refl}
use mathlib.Core.Option.{none, some}
use mathlib.Core.List.{[], ◌∷◌, ◌++◌}
use native.Mathlib.Omega.{arith}
use Prim.Native.String.{String}
use text.Mathlib.TextEquality.{eq_iff}
use Prim.Native.Nat.{ℕ, ◌+◌, ◌≤◌}
use mathlib.Core.Bool.{Bool, false}
use text.Mathlib.Text.{◌==◌ as str_eq}
use mcp4openapi.Prelude.Tests.{if◌then◌else◌}
use mcp4openapi.Prelude.Lists.{length}
use mcp4openapi.Prelude.Maps.{
  Map, get, set, delete, delete_where, Distinct, delete_absent, length-delete-le,
  length-delete_where-le,
}

module _ {ℓ} {V : Type ℓ} where
  pub delete-append : (k : String) (m n : Map V) → delete k (m ++ n) ≡ delete k m ++ delete k n
  unfolding delete
  delete-append k [] n = refl
  delete-append k ((j, v) ∷ m) n = ground (arith, delete-append k m n)

  pub get-append_none :
      (k : String) (m n : Map V) → get k (m ++ n) ≡ none → (get k m ≡ none) × (get k n ≡ none)
  unfolding get
  get-append_none k [] n h = (refl, h)
  get-append_none k ((j, v) ∷ m) n h = ground (arith, get-append_none k m n)

  -- A key in the middle stands on neither side of it.
  pub Distinct-middle :
      (k : String) (v : V) (m n : Map V)
      → Distinct (m ++ (k, v) ∷ n)
      → (get k m ≡ none) × (get k n ≡ none)
  unfolding get
  Distinct-middle k v [] n d = (refl, d.0)
  Distinct-middle k v ((j, w) ∷ m) n (fresh, d) =
      ground
        (arith, Distinct-middle k v m n d, get-append_none j m ((k, v) ∷ n), eq_iff j k, eq_iff k j)

  pub delete-middle :
      (k : String) (v : V) (m n : Map V)
      → Distinct (m ++ (k, v) ∷ n)
      → delete k (m ++ (k, v) ∷ n) ≡ m ++ n
  unfolding delete
  delete-middle k v m n d =
      let (left, right) = Distinct-middle k v m n d in
      rw (delete-append k m ((k, v) ∷ n), delete_absent k m left)
        (ground (arith, delete_absent k n right, eq_iff k k))

  pub get-middle :
      (k : String) (v : V) (m n : Map V)
      → Distinct (m ++ (k, v) ∷ n)
      → get k (m ++ (k, v) ∷ n) ≡ some v
  unfolding get
  get-middle k v [] n d = ground (arith, eq_iff k k)
  get-middle k v ((j, w) ∷ m) n (fresh, d) =
      ground (arith, get-middle k v m n d, get-append_none j m ((k, v) ∷ n), eq_iff j k, eq_iff k k)

  -- The number of entries behind a key.
  abbrev pub behind : String → Map V → ℕ
  behind k [] = 0
  behind k ((j, v) ∷ m) = if str_eq j k then length m else behind k m

  pub behind-delete-le :
      (k j : String) (m : Map V) → str_eq j k ≡ false → behind k (delete j m) ≤ behind k m
  unfolding delete
  behind-delete-le k j [] h = omega arith
  behind-delete-le k j ((i, v) ∷ m) h =
      ground
        (arith, behind-delete-le k j m h, length-delete-le j m, eq_iff i j, eq_iff i k, eq_iff j k)

  length-set-le : (k : String) (v : V) (m : Map V) → length (set k v m) ≤ length m + 1
  unfolding set
  length-set-le k v [] = omega arith
  length-set-le k v ((i, w) ∷ m) = ground (arith, length-set-le k v m)

  pub behind-set-le :
      (k j : String) (v : V) (m : Map V)
      → str_eq j k ≡ false
      → behind k (set j v m) ≤ behind k m + 1
  unfolding set
  behind-set-le k j v [] h = ground arith
  behind-set-le k j v ((i, w) ∷ m) h =
      ground
        (arith, behind-set-le k j v m h, length-set-le j v m, eq_iff i j, eq_iff i k, eq_iff j k)

  pub behind-set_new : (k : String) (v : V) (m : Map V) → get k m ≡ none → behind k (set k v m) ≡ 0
  unfolding set get
  behind-set_new k v [] h = ground (arith, eq_iff k k)
  behind-set_new k v ((i, w) ∷ m) h = ground (arith, behind-set_new k v m)

  pub delete_where-kept :
      (p : V → Bool) (k : String) (v : V) (m : Map V)
      → get k m ≡ some v
      → p v ≡ false
      → (get k (delete_where p m) ≡ some v) × (behind k (delete_where p m) ≤ behind k m)
  unfolding get delete_where
  delete_where-kept p k v [] h e = absurd (cc)
  delete_where-kept p k v ((i, w) ∷ m) h e =
      ground (arith, delete_where-kept p k v m, length-delete_where-le p m)

-- ===== src/Prelude/Maps.antt =====
-- The source's `Map` with text keys: its entries in insertion order.
use Prim.Native.Nat.{◌+◌, ◌≤◌}
use Prim.Native.String.{String}
use mathlib.Core.Path.{◌≡◌, refl}
use mathlib.Core.Logic.{◌≢◌}
use mathlib.Core.Bool.{Bool}
use mathlib.Core.Option.{Option, none, some}
use mathlib.Core.List.{List, [], ◌∷◌, ◌++◌}
use native.Mathlib.Omega.{arith}
use text.Mathlib.Text.{◌==◌ as str_eq}
use text.Mathlib.TextEquality.{eq_iff}
use text.Mathlib.TextPositions.{eq_refl}
use mcp4openapi.Prelude.Tests.{if◌then◌else◌}
use mcp4openapi.Prelude.Lists.{length}

abbrev pub Map {ℓ} : Type ℓ → Type ℓ
Map V = List (String × V)

module _ {ℓ} {V : Type ℓ} where
  unfoldable pub get : String → Map V → Option V
  get k [] = none
  get k ((j, v) ∷ m) = if str_eq j k then some v else get k m

  -- `map.set`: a key that is there keeps its place.
  unfoldable pub set : String → V → Map V → Map V
  set k v [] = (k, v) ∷ []
  set k v ((j, w) ∷ m) = if str_eq j k then (k, v) ∷ m else (j, w) ∷ set k v m

  unfoldable pub delete : String → Map V → Map V
  delete k [] = []
  delete k ((j, v) ∷ m) = if str_eq j k then delete k m else (j, v) ∷ delete k m

  -- A loop over the entries that deletes those whose value passes the test.
  unfoldable pub delete_where : (V → Bool) → Map V → Map V
  delete_where p [] = []
  delete_where p ((j, v) ∷ m) = if p v then delete_where p m else (j, v) ∷ delete_where p m

  -- No key stands twice, as in every `Map`.
  abbrev pub Distinct : Map V → Type ℓ
  Distinct [] = Unit
  Distinct ((k, v) ∷ m) = (get k m ≡ none) × Distinct m

  abbrev pub values : Map V → List V
  values [] = []
  values ((k, v) ∷ m) = v ∷ values m

  pub get-set :
      (k j : String) (v : V) (m : Map V)
      → get j (set k v m) ≡ (if str_eq k j then some v else get j m)
  unfolding get set
  get-set k j v [] = refl
  get-set k j v ((i, w) ∷ m) = ground (arith, eq_iff k j, eq_iff i k, eq_iff i j, get-set k j v m)

  pub get-delete :
      (k j : String) (m : Map V) → get j (delete k m) ≡ (if str_eq k j then none else get j m)
  unfolding get delete
  get-delete k j [] = ground arith
  get-delete k j ((i, w) ∷ m) = ground (arith, eq_iff k j, eq_iff i k, eq_iff i j, get-delete k j m)

  pub get-set_self : (k : String) (v : V) (m : Map V) → get k (set k v m) ≡ some v
  get-set_self k v m = simp (get-set, eq_refl)

  pub get-set_ne : (k j : String) (v : V) (m : Map V) → k ≢ j → get j (set k v m) ≡ get j m
  get-set_ne k j v m h = ground (arith, get-set k j v m, eq_iff k j)

  pub get-delete_self : (k : String) (m : Map V) → get k (delete k m) ≡ none
  get-delete_self k m = simp (get-delete, eq_refl)

  pub get-delete_ne : (k j : String) (m : Map V) → k ≢ j → get j (delete k m) ≡ get j m
  get-delete_ne k j m h = ground (arith, get-delete k j m, eq_iff k j)

  pub delete_absent : (k : String) (m : Map V) → get k m ≡ none → delete k m ≡ m
  unfolding get delete
  delete_absent k [] h = refl
  delete_absent k ((j, v) ∷ m) h = ground (arith, delete_absent k m)

  pub delete-Distinct : (k : String) (m : Map V) → Distinct m → Distinct (delete k m)
  unfolding delete
  delete-Distinct k [] d = tt
  delete-Distinct k ((j, v) ∷ m) (fresh, d) =
      ground (arith, delete-Distinct k m d, get-delete k j m)

  pub set-Distinct : (k : String) (v : V) (m : Map V) → Distinct m → Distinct (set k v m)
  unfolding get set
  set-Distinct k v [] d = (refl, tt)
  set-Distinct k v ((j, w) ∷ m) (fresh, d) =
      ground (arith, set-Distinct k v m d, get-set k j v m, eq_iff j k, eq_iff k j)

  pub get-delete_where :
      (p : V → Bool) (k : String) (m : Map V)
      → Distinct m
      → get k (delete_where p m)
        ≡ elim (get k m) [ none ↦ none | some v ↦ if p v then none else some v ]
  unfolding get delete_where
  get-delete_where p k [] d = refl
  get-delete_where p k ((j, v) ∷ m) (fresh, d) =
      ground (arith, get-delete_where p k m d, eq_iff j k)

  pub delete_where-Distinct : (p : V → Bool) (m : Map V) → Distinct m → Distinct (delete_where p m)
  unfolding delete_where
  delete_where-Distinct p [] d = tt
  delete_where-Distinct p ((j, v) ∷ m) (fresh, d) =
      ground (arith, delete_where-Distinct p m d, get-delete_where p j m d)

  pub length-delete-le : (k : String) (m : Map V) → length (delete k m) ≤ length m
  unfolding delete
  length-delete-le k [] = omega arith
  length-delete-le k ((j, v) ∷ m) = ground (arith, length-delete-le k m)

  pub length-delete :
      (k : String) (v : V) (m : Map V)
      → Distinct m
      → get k m ≡ some v
      → length (delete k m) + 1 ≡ length m
  unfolding get delete
  length-delete k v [] d h = cc
  length-delete k v ((j, w) ∷ m) (fresh, d) h =
      ground (arith, length-delete k v m d, eq_iff j k, delete_absent k m)

  pub length-set_new :
      (k : String) (v : V) (m : Map V) → get k m ≡ none → length (set k v m) ≡ length m + 1
  unfolding get set
  length-set_new k v [] h = refl
  length-set_new k v ((j, w) ∷ m) h = ground (arith, length-set_new k v m)

  pub length-set_old :
      (k : String) (v w : V) (m : Map V) → get k m ≡ some w → length (set k v m) ≡ length m
  unfolding get set
  length-set_old k v w [] h = cc
  length-set_old k v w ((j, x) ∷ m) h = ground (arith, length-set_old k v w m)

  pub length-delete_where-le : (p : V → Bool) (m : Map V) → length (delete_where p m) ≤ length m
  unfolding delete_where
  length-delete_where-le p [] = omega arith
  length-delete_where-le p ((j, v) ∷ m) = ground (arith, length-delete_where-le p m)

  -- A new key goes to the end.
  pub set_new : (k : String) (v : V) (m : Map V) → get k m ≡ none → set k v m ≡ m ++ (k, v) ∷ []
  unfolding get set
  set_new k v [] h = refl
  set_new k v ((j, w) ∷ m) h = ground (arith, set_new k v m)

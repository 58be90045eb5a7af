-- ===== src/Prelude/Lists.antt =====
-- Lists measured by native numbers, and tests on their elements.
use Prim.Native.Nat.{ℕ, suc, ◌+◌}
use Prim.Native.String.{String}
use mathlib.Core.Path.{◌≡◌, refl}
use mathlib.Core.Bool.{Bool, true, false, ◌&&◌, ◌||◌}
use mathlib.Core.List.{List, [], ◌∷◌, ◌++◌, map}
use native.Mathlib.Omega.{arith}
use text.Mathlib.Text.{◌==◌ as str_eq}
use mcp4openapi.Prelude.Tests.{if◌then◌else◌, Bool-cases}
use mathlib.Core.Logic.{◌⊎◌, inl, inr}

module _ {ℓ} {A : Type ℓ} where
  abbrev pub length : List A → ℕ
  length [] = 0
  length (x ∷ xs) = suc (length xs)

  pub length-append : (xs ys : List A) → length (xs ++ ys) ≡ length xs + length ys
  length-append [] ys = omega arith
  length-append (x ∷ xs) ys = omega (arith, length-append xs ys)

  -- `xs.some(p)`
  abbrev pub any : (A → Bool) → List A → Bool
  any p [] = false
  any p (x ∷ xs) = p x || any p xs

  -- `xs.every(p)`
  abbrev pub all : (A → Bool) → List A → Bool
  all p [] = true
  all p (x ∷ xs) = p x && all p xs

  -- `xs.filter(p)`
  abbrev pub keep : (A → Bool) → List A → List A
  keep p [] = []
  keep p (x ∷ xs) = if p x then x ∷ keep p xs else keep p xs

pub length-map {ℓ κ} :
    {A : Type ℓ} {B : Type κ} (f : A → B) (xs : List A) → length (map f xs) ≡ length xs
length-map f [] = refl
length-map f (x ∷ xs) = omega (arith, length-map f xs)

-- `xs.includes(x)`, and `has` of a set
abbrev pub contains : String → List String → Bool
contains x [] = false
contains x (y ∷ ys) = str_eq y x || contains x ys

-- Every element has the property.
abbrev pub All {ℓ κ} : {A : Type ℓ} → (A → Type κ) → List A → Type κ
All P [] = Unit
All P (x ∷ xs) = P x × All P xs

-- The element stands in the list.
abbrev pub Among : {A : Type 0} → A → List A → Type 0
Among a [] = ⊥
Among a (x ∷ xs) = (a ≡ x) ⊎ Among a xs

module _ {ℓ} {A : Type ℓ} where
  pub All-map {κ μ} :
      {P : A → Type κ} {Q : A → Type μ} (f : (x : A) → P x → Q x) (xs : List A)
      → All P xs
      → All Q xs
  All-map f [] h = tt
  All-map f (x ∷ xs) (p, h) = (f x p, All-map f xs h)

  pub keep-All {κ} :
      (p : A → Bool) (P : A → Type κ) (xs : List A)
      → All P (keep p xs)
      → All (λ x. p x ≡ true → P x) xs
  keep-All p P [] h = tt
  keep-All p P (x ∷ xs) h = elim (Bool-cases (p x)) [
    | inl kept ↦ let (here, later) = kept_parts x xs kept h in (λ _. here, keep-All p P xs later)
    | inr dropped ↦ (λ e. absurd (cc), keep-All p P xs (rw dropped at h))
  ]
    where
      kept_parts :
          (x : A) (xs : List A) → p x ≡ true → All P (keep p (x ∷ xs)) → P x × All P (keep p xs)
      kept_parts x xs e h = rw e at h

  pub keep_nil : (p : A → Bool) (xs : List A) → keep p xs ≡ [] → All (λ x. p x ≡ false) xs
  keep_nil p [] h = tt
  keep_nil p (x ∷ xs) h = ground (arith, keep_nil p xs)

module _ {A : Type 0} where
  -- What `keep` keeps passes the test.
  pub keep-Among :
      (p : A → Bool) (a : A) (xs : List A) → Among a (keep p xs) → Among a xs × (p a ≡ true)
  keep-Among p a [] h = absurd h
  keep-Among p a (x ∷ xs) h = elim (Bool-cases (p x)) [
    | inl kept ↦ elim (kept_cases kept (rw kept at h)) [
      | inl e ↦ (inl e, rw e kept)
      | inr later ↦ let (there, e) = keep-Among p a xs later in (inr there, e)
    ]
    | inr dropped ↦ let (there, e) = keep-Among p a xs (rw dropped at h) in (inr there, e)
  ]
    where
      kept_cases : p x ≡ true → (a ≡ x) ⊎ Among a (keep p xs) → (a ≡ x) ⊎ Among a (keep p xs)
      kept_cases _ c = c

-- ===== src/Prelude/Texts.antt =====
-- Texts as lists of code points: what the source's string methods do on ASCII.
use Prim.Native.Nat.{ℕ, ◌+◌}
use Prim.Native.String.{String}
use mathlib.Core.Path.{◌≡◌, refl}
use mathlib.Core.Logic.{◌↔◌}
use mathlib.Core.Bool.{Bool, true, false, ◌&&◌}
use mathlib.Core.List.{List, [], ◌∷◌, map, reverse}
use native.Mathlib.Omega.{arith}
use mcp4openapi.Prelude.Tests.{leb, ◌==◌, if◌then◌else◌}
use mcp4openapi.Prelude.Lists.{any}
use mcp4openapi.Prelude.Numbers.{codes, is_space}

abbrev pub Text : Type 0
Text = List ℕ

abbrev pub text_eq : Text → Text → Bool
text_eq [] [] = true
text_eq [] (d ∷ ds) = false
text_eq (c ∷ cs) [] = false
text_eq (c ∷ cs) (d ∷ ds) = c == d && text_eq cs ds

abbrev pub is_empty : Text → Bool
is_empty [] = true
is_empty (c ∷ cs) = false

abbrev pub lower : Text → Text
lower = map (λ c. if leb b'A' c && leb c b'Z' then c + 32 else c)

abbrev pub one_of : List String → Text → Bool
one_of names t = any (λ name. text_eq (codes name) t) names

-- `text.startsWith(prefix)`
abbrev pub has_prefix : Text → Text → Bool
has_prefix [] t = true
has_prefix (c ∷ cs) [] = false
has_prefix (c ∷ cs) (d ∷ ds) = c == d && has_prefix cs ds

-- `text.trimStart()`
unfoldable pub trim_start : Text → Text
trim_start [] = []
trim_start (c ∷ cs) = if is_space c then trim_start cs else c ∷ cs

-- `text.trim()`
abbrev pub trim : Text → Text
trim t = reverse (trim_start (reverse (trim_start t)))

-- `text.split(separator)` for one character: the first part and the others.
unfoldable pub split_on : ℕ → Text → Text × List Text
split_on x [] = ([], [])
split_on x (c ∷ cs) =
    let (part, parts) = split_on x cs in if c == x then ([], part ∷ parts) else (c ∷ part, parts)

abbrev pub parts_of : ℕ → Text → List Text
parts_of x t = (split_on x t).0 ∷ (split_on x t).1

pub text_eq_iff : (s t : Text) → (text_eq s t ≡ true) ↔ (s ≡ t)
text_eq_iff [] [] = (λ _. refl, λ _. refl)
text_eq_iff [] (d ∷ ds) = (λ e. cc, λ e. cc)
text_eq_iff (c ∷ cs) [] = (λ e. cc, λ e. cc)
text_eq_iff (c ∷ cs) (d ∷ ds) =
    (λ e. ground (arith, text_eq_iff cs ds), λ e. ground (arith, text_eq_iff cs ds))

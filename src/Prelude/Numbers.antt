-- ===== src/Prelude/Numbers.antt =====
-- The numbers of the source that a test may refuse: an integer, or NaN and the infinities; and the
-- reading of an integer from a text.
use Prim.Native.Nat.{ℕ, zero, suc, ◌+◌, ◌-◌, ◌*◌}
use Prim.Native.Char.{code}
use Prim.Native.String.{String}
use mathlib.Core.Bool.{Bool, false, ◌&&◌, ◌||◌}
use mathlib.Core.Option.{Option, none, some}
use mathlib.Core.List.{List, [], ◌∷◌}
use mcp4openapi.Prelude.Tests.{leb, ◌==◌, if◌then◌else◌}

-- `negsuc n` is -(n + 1).
pub data ℤ : Type 0 where
  pos : ℕ → ℤ
  negsuc : ℕ → ℤ

-- a - b, as an integer.
abbrev pub sub_ℕ : ℕ → ℕ → ℤ
sub_ℕ a b = if leb b a then pos (a - b) else negsuc (b - a - 1)

-- n ≤ z
abbrev pub leb_ℤ : ℕ → ℤ → Bool
leb_ℤ n (pos m) = leb n m
leb_ℤ n (negsuc m) = false

pub data Number : Type 0 where
  integer : ℤ → Number
  non_finite : Number

-- `Number.isInteger(n) && n > 0`, with the value.
abbrev pub positive : Number → Option ℕ
positive (integer (pos (suc n))) = some (suc n)
positive (integer (pos zero)) = none
positive (integer (negsuc n)) = none
positive non_finite = none

-- `Number.isInteger(n) && n >= 0`, with the value.
abbrev pub non_negative : Number → Option ℕ
non_negative (integer (pos n)) = some n
non_negative (integer (negsuc n)) = none
non_negative non_finite = none

-- The code points of a text.
abbrev pub codes : String → List ℕ
codes String.[] = []
codes (String.◌∷◌ c s) = code c ∷ codes s

-- White space and the ends of lines, as `trim` and `parseInt` skip them.
abbrev pub is_space : ℕ → Bool
is_space c =
    (leb 9 c && leb c 13)
    || c == 32
    || c == 160
    || c == 5760
    || (leb 8192 c && leb c 8202)
    || c == 8232
    || c == 8233
    || c == 8239
    || c == 8287
    || c == 12288
    || c == 65279

abbrev pub is_digit : ℕ → Bool
is_digit c = leb b'0' c && leb c b'9'

-- The digits at the front, read from the left; `none` if there are none.
digits_from : Option ℕ → List ℕ → Option ℕ
digits_from acc [] = acc
digits_from acc (c ∷ cs) =
    let longer =
      digits_from (some (elim acc [ none ↦ c - b'0' | some n ↦ n * 10 + (c - b'0') ])) cs in
    if is_digit c then longer else acc

negated : ℕ → ℤ
negated zero = pos 0
negated (suc n) = negsuc n

to_number : (ℕ → ℤ) → Option ℕ → Number
to_number sign none = non_finite
to_number sign (some n) = integer (sign n)

signed : List ℕ → Number
signed [] = non_finite
signed (c ∷ cs) =
    if c == b'-'
    then to_number negated (digits_from none cs)
    else to_number pos (digits_from none (if c == b'+' then cs else c ∷ cs))

skip_spaces : List ℕ → List ℕ
skip_spaces [] = []
skip_spaces (c ∷ cs) = if is_space c then skip_spaces cs else c ∷ cs

-- `Number.parseInt(text, 10)`
unfoldable pub parse_int : String → Number
unfolding signed skip_spaces digits_from negated to_number
parse_int text = signed (skip_spaces (codes text))

-- ===== src/ResponseCache/Headers.antt =====
-- src/transport/cache-header-utils.ts: reading the headers that steer a cache. Texts are lists of
-- code points; `toLowerCase` is needed for ASCII letters only.
use mcp4openapi.Prelude.{
  ℕ, ◌+◌, ◌-◌, ◌*◌, Bool, true, false, not, ◌&&◌, ◌||◌, Option, none, some, List, [], ◌∷◌, codes,
  length, leb, ◌==◌, all, if◌then◌else◌, Text, text_eq, is_empty, lower, trim, parts_of, is_digit,
}
use mathlib.Core.List.{reverse}

-- `Record<string, string>`, in the order of its entries.
abbrev pub Headers : Type 0
Headers = List (Text × Text)

unfoldable pub get_header : Text → Headers → Option Text
get_header target [] = none
get_header target ((name, value) ∷ hs) =
    if text_eq (lower name) target then some value else get_header target hs

-- A header that is there and not empty.
abbrev pub present : Option Text → Option Text
present none = none
present (some t) = if is_empty t then none else some t

-- The value of a directive, or `true` for one that has none.
pub data Directive : Type 0 where
  flag : Directive
  value : Text → Directive

abbrev pub Directives : Type 0
Directives = List (Text × Directive)

unfoldable pub get_directive : Text → Directives → Option Directive
get_directive name [] = none
get_directive name ((n, d) ∷ ds) = if text_eq n name then some d else get_directive name ds

unfoldable pub set_directive : Text → Directive → Directives → Directives
set_directive name d [] = (name, d) ∷ []
set_directive name d ((n, e) ∷ ds) =
    if text_eq n name then (n, d) ∷ ds else (n, e) ∷ set_directive name d ds

abbrev pub has_directive : Directives → Text → Bool
has_directive ds name = elim (get_directive name ds) [ none ↦ false | some d ↦ true ]

abbrev pub starts_quoted : Text → Bool
starts_quoted [] = false
starts_quoted (c ∷ cs) = c == b'"'

abbrev pub tail_of : Text → Text
tail_of [] = []
tail_of (c ∷ cs) = cs

unfoldable pub strip_optional_quotes : Text → Text
strip_optional_quotes t =
    if starts_quoted t && starts_quoted (reverse t) && leb 2 (length t)
    then reverse (tail_of (reverse (tail_of t)))
    else t

-- The text before the first `=`, and what stands behind it.
unfoldable pub split_equals : Text → Text × Option Text
split_equals [] = ([], none)
split_equals (c ∷ cs) =
    let (name, rest) = split_equals cs in if c == b'=' then ([], some cs) else (c ∷ name, rest)

-- The name and the value of a token that is trimmed and not empty.
unfoldable pub parse_directive : Text → Text × Directive
parse_directive t =
    let (name, rest) = split_equals t in
    elim rest [
      | none ↦ (lower t, flag)
      | some raw ↦ (lower (trim name), value (strip_optional_quotes (trim raw)))
    ]

unfoldable pub add_directive : Text → Directives → Directives
add_directive token ds =
    if is_empty (trim token)
    then ds
    else (let (name, d) = parse_directive (trim token) in set_directive name d ds)

unfoldable pub add_directives : List Text → Directives → Directives
add_directives [] ds = ds
add_directives (token ∷ tokens) ds = add_directives tokens (add_directive token ds)

unfoldable pub parse_cache_control : Option Text → Directives
parse_cache_control header = elim (present header) [
  | none ↦ []
  | some text ↦ add_directives (parts_of b',' text) []
]

abbrev pub max_safe_integer : ℕ
max_safe_integer = 9007199254740991

unfoldable pub decimal : ℕ → Text → ℕ
decimal n [] = n
decimal n (c ∷ cs) = decimal (n * 10 + (c - b'0')) cs

-- `/^[0-9]+$/` and a safe integer.
unfoldable pub parse_non_negative_integer : Text → Option ℕ
parse_non_negative_integer t =
    if is_empty t || not (all is_digit t)
    then none
    else if leb (decimal 0 t) max_safe_integer
    then some (decimal 0 t)
    else none

pub record VaryHeader : Type 0 where
  pub star : Bool
  pub headers : List Text

abbrev pub field_name : Text → Text
field_name token = lower (trim token)

-- A star ends the loop.
unfoldable pub vary_fields : List Text → List Text → VaryHeader
vary_fields [] names = record { star = false; headers = names }
vary_fields (token ∷ tokens) names =
    if is_empty (field_name token)
    then vary_fields tokens names
    else (let rest = vary_fields tokens (field_name token ∷ names) in
        if text_eq (field_name token) (codes "*")
        then record { star = true; headers = [] }
        else rest)

unfoldable pub parse_vary_header : Option Text → VaryHeader
parse_vary_header header = elim (present header) [
  | none ↦ record { star = false; headers = [] }
  | some text ↦ vary_fields (parts_of b',' text) []
]

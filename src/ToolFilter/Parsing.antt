-- ===== src/ToolFilter/Parsing.antt =====
-- src/tool-filter/config/ and src/tool-filter/regex/: the configuration of the filter from variables
-- and the request of a session from the header X-Mcp4-Tools. Unicode normalization (of a part of a
-- text), the two expressions of the validator and `new RegExp` are parameters.
pub mod Reading
pub mod Sessions
pub mod Accepted
pub mod Variables
pub mod Configured
pub mod Offered
use mcp4openapi.Prelude.{
  ℕ, ◌+◌, zero, suc, String, Bool, true, false, not, ◌&&◌, Option, none, some, List, [], ◌∷◌, ◌++◌,
  map, Text, text_eq, is_empty, has_prefix, trim, parts_of, codes, parse_int, positive, keep, any,
  length, ltb, leb, if◌then◌else◌,
}
use mathlib.Core.List.{reverse}
use mcp4openapi.ToolFilter.Types.{CategorySet, CompiledRegex, SessionToolFilterRequest}
use mcp4openapi.ToolFilter.Global.{
  Result, ok, throw, and_then, is_nil, too_many_entries, entry_too_long, unsupported_keyword,
  empty_regex, invalid_regex, invalid_limit,
}
use mcp4openapi.ToolFilter.Session.{add}

-- `text.length`, in UTF-16 units.
abbrev pub text_length : Text → ℕ
text_length [] = 0
text_length (c ∷ cs) = (if leb 65536 c then 2 else 1) + text_length cs

-- `text.slice(n)`, for a prefix of n units of one code point each.
abbrev pub drop : ℕ → Text → Text
drop zero t = t
drop (suc n) [] = []
drop (suc n) (c ∷ cs) = drop n cs

-- What the parsers take from the platform.
pub record Platform : Type 0 where
  pub normalize : Text → String
  pub has_nested_quantifiers : Text → Bool
  pub has_ambiguous_alternation : Text → Bool
  pub new_regexp : Text → Option CompiledRegex

-- `DEFAULT_MAX_LENGTH` of an expression.
abbrev pub max_pattern_length : ℕ
max_pattern_length = 100

abbrev pub max_header_entry_length : ℕ
max_header_entry_length = 255

abbrev pub default_max_entries : ℕ
default_max_entries = 100

abbrev pub auto_anchor : Text → Text
auto_anchor pattern =
    let with_start = if has_prefix (codes "^") pattern then pattern else b'^' ∷ pattern in
    if has_prefix (codes "$") (reverse with_start) then with_start else with_start ++ b'$' ∷ []

-- The parts that the parsers read: split at commas, trimmed, without the empty ones.
abbrev pub csv_parts : Text → List Text
csv_parts value = keep (λ part. not (is_empty part)) (map trim (parts_of b',' value))

abbrev pub list_keyword : Text
list_keyword = codes "_allow_list"

abbrev pub read_keyword : Text
read_keyword = codes "_allow_read"

abbrev pub keyword_prefix : Text
keyword_prefix = codes "_allow_"

abbrev pub regex_prefix : Text
regex_prefix = codes "regex:"

pub record ParsedParts : Type 0 where
  pub exact_names : List String
  pub regex_patterns : List CompiledRegex
  pub allow_categories : CategorySet

abbrev pub no_categories : CategorySet
no_categories = record { has_list = false; has_read = false }

abbrev pub no_parts : ParsedParts
no_parts = record { exact_names = []; regex_patterns = []; allow_categories = no_categories }

abbrev pub empty_request : SessionToolFilterRequest
empty_request = record {
  exact_names = [];
  regex_patterns = [];
  allow_categories = no_categories;
  normalized_header = [];
  has_rules = false;
}

-- What `parse` returns from the parts.
abbrev pub request_of : Text → List Text → ParsedParts → SessionToolFilterRequest
request_of normalized parts parsed = record {
  exact_names = parsed.exact_names;
  regex_patterns = parsed.regex_patterns;
  allow_categories = parsed.allow_categories;
  normalized_header = normalized;
  has_rules = not (is_nil parts);
}

-- `getMaxEntries`, from the variable.
abbrev pub get_max_entries : Option String → Result ℕ
get_max_entries none = ok default_max_entries
get_max_entries (some raw) =
    if is_empty (codes raw)
    then ok default_max_entries
    else elim (positive (parse_int raw)) [ none ↦ throw invalid_limit | some n ↦ ok n ]

unfoldable pub split_and_validate : Option String → Text → Result (List Text)
split_and_validate variable value = and_then (get_max_entries variable) (λ limit.
    if ltb limit (length (csv_parts value))
    then throw too_many_entries
    else if any (λ part. ltb max_header_entry_length (text_length part)) (csv_parts value)
    then throw entry_too_long
    else ok (csv_parts value))

module _ (p : Platform) where
  -- `validate`: whether it is valid.
  abbrev pub validate : Text → Bool
  validate pattern =
      not (ltb max_pattern_length (text_length pattern))
      && (not (p.has_nested_quantifiers pattern) && not (p.has_ambiguous_alternation pattern))

  unfoldable pub compile : Text → Result CompiledRegex
  compile pattern =
      if validate (auto_anchor (trim pattern))
      then elim (p.new_regexp (auto_anchor (trim pattern))) [
        | none ↦ throw invalid_regex
        | some test ↦ ok test
      ]
      else throw invalid_regex

  abbrev pub parse_regex : ParsedParts → Text → Result ParsedParts
  parse_regex acc pattern =
      if is_empty pattern
      then throw empty_regex
      else and_then (compile pattern)
          (λ test. ok (record acc { regex_patterns = acc.regex_patterns ++ test ∷ [] }))

  -- One turn of the loop of `parseParts`.
  unfoldable pub parse_part : ParsedParts → Text → Result ParsedParts
  parse_part acc part =
      if text_eq part list_keyword
      then ok (record acc {
        allow_categories = record { has_list = true; has_read = acc.allow_categories.has_read };
      })
      else if text_eq part read_keyword
      then ok (record acc {
        allow_categories = record { has_list = acc.allow_categories.has_list; has_read = true };
      })
      else if has_prefix keyword_prefix part
      then throw unsupported_keyword
      else if has_prefix regex_prefix part
      then parse_regex acc (trim (drop 6 part))
      else ok (record acc { exact_names = add (p.normalize part) acc.exact_names })

  abbrev pub parse_parts : ParsedParts → List Text → Result ParsedParts
  parse_parts acc [] = ok acc
  parse_parts acc (part ∷ parts) = and_then (parse_part acc part) (λ next. parse_parts next parts)

  -- `parse` of the header, with the variable that limits the number of entries.
  unfoldable pub parse_header : Option String → Text → Result SessionToolFilterRequest
  parse_header variable header =
      if is_empty (trim header)
      then ok empty_request
      else and_then (split_and_validate variable (trim header)) (λ parts.
        and_then (parse_parts no_parts parts)
          (λ parsed. ok (request_of (trim header) parts parsed)))

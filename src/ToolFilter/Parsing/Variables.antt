-- ===== src/ToolFilter/Parsing/Variables.antt =====
-- src/tool-filter/config/env-config-parser.ts: the configuration of the global filter from the
-- variables MCP4_TOOL_FILTER_*.
use mcp4openapi.Prelude.{
  String, Bool, true, ◌&&◌, Option, none, some, List, [], ◌∷◌, Text, text_eq, is_empty, lower, trim,
  codes, if◌then◌else◌,
}
use mcp4openapi.ToolFilter.Types.{CategorySet, CompiledRegex, ToolFilterConfig}
use mcp4openapi.ToolFilter.Global.{Result, ok, throw, and_then, is_nil, invalid_category}
use mcp4openapi.ToolFilter.Session.{add}
use mcp4openapi.ToolFilter.Parsing.{Platform, compile, csv_parts, no_categories}

-- The variables that the parser reads.
pub record Variables : Type 0 where
  pub allow_names : Option String
  pub allow_name_regex : Option String
  pub deny_names : Option String
  pub deny_name_regex : Option String
  pub allow_categories : Option String

pub record RawConfig : Type 0 where
  pub allow_list : List Text
  pub allow_regex : List Text
  pub deny_list : List Text
  pub deny_regex : List Text
  pub allow_categories : List Text

abbrev pub parse_csv_list : Option String → List Text
parse_csv_list none = []
parse_csv_list (some value) = if is_empty (codes value) then [] else csv_parts (codes value)

abbrev pub read_variables : Variables → RawConfig
read_variables env = record {
  allow_list = parse_csv_list env.allow_names;
  allow_regex = parse_csv_list env.allow_name_regex;
  deny_list = parse_csv_list env.deny_names;
  deny_regex = parse_csv_list env.deny_name_regex;
  allow_categories = parse_csv_list env.allow_categories;
}

abbrev pub no_config : RawConfig → Bool
no_config raw =
    is_nil raw.allow_list
    && (is_nil raw.allow_regex
        && (is_nil raw.deny_list && (is_nil raw.deny_regex && is_nil raw.allow_categories)))

abbrev pub list_category : Text
list_category = codes "list"

abbrev pub read_category : Text
read_category = codes "read"

-- One turn of the loop of `parseCategories`.
abbrev pub parse_category : CategorySet → Text → Result CategorySet
parse_category acc entry =
    if is_empty entry
    then ok acc
    else if text_eq (lower (trim entry)) list_category
    then ok (record acc { has_list = true })
    else if text_eq (lower (trim entry)) read_category
    then ok (record acc { has_read = true })
    else throw invalid_category

unfoldable pub parse_categories : CategorySet → List Text → Result CategorySet
parse_categories acc [] = ok acc
parse_categories acc (entry ∷ entries) =
    and_then (parse_category acc entry) (λ next. parse_categories next entries)

module _ (p : Platform) where
  -- `new Set` of the normalized names.
  unfoldable pub name_set : List String → List Text → List String
  name_set names [] = names
  name_set names (entry ∷ entries) = name_set (add (p.normalize entry) names) entries

  unfoldable pub compile_all : List Text → Result (List CompiledRegex)
  compile_all [] = ok []
  compile_all (pattern ∷ patterns) =
      and_then (compile p pattern)
        (λ test. and_then (compile_all patterns) (λ tests. ok (test ∷ tests)))

  unfoldable pub build_config : RawConfig → Result ToolFilterConfig
  build_config raw = and_then (compile_all raw.allow_regex) (λ allow_regex.
      and_then (compile_all raw.deny_regex) (λ deny_regex.
        and_then (parse_categories no_categories raw.allow_categories) (λ categories. ok (record {
          allow_list = name_set [] raw.allow_list;
          deny_list = name_set [] raw.deny_list;
          allow_regex = allow_regex;
          deny_regex = deny_regex;
          allow_categories = categories;
        }))))

  -- `parse`; `none` for undefined.
  unfoldable pub parse_variables : Variables → Result (Option ToolFilterConfig)
  parse_variables env =
      if no_config (read_variables env)
      then ok none
      else and_then (build_config (read_variables env)) (λ config. ok (some config))

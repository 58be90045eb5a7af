-- ===== src/ToolFilter/Rules.antt =====
-- src/tool-filter/filter/filter-rules.ts and filter-engine.ts. `normalize` (Unicode NFC) is a
-- parameter.
use mcp4openapi.Prelude.{
  String, Bool, true, false, not, ◌&&◌, ◌||◌, Option, none, some, List, [], ◌∷◌, any, contains,
  if◌then◌else◌,
}
use mcp4openapi.ToolFilter.Types.{
  ToolDefinition, ToolCategories, OperationResolver, CategorySet, CompiledRegex,
}
use mcp4openapi.ToolFilter.Detector.{detect_categories}

pub data RuleType : Type 0 where
  allow deny : RuleType

-- The three classes of rules.
pub data FilterRule : Type 0 where
  exact_match : List String → RuleType → FilterRule
  regex_match : List CompiledRegex → RuleType → FilterRule
  category_match : CategorySet → OperationResolver → FilterRule

pub data Target : Type 0 where
  tool_name : String → Target
  tool : ToolDefinition → Target

abbrev pub name_of : Target → String
name_of (tool_name n) = n
name_of (tool t) = t.name

-- `matches` of a category rule, from the categories of the tool on.
unfoldable pub accepts : CategorySet → ToolCategories → Bool
accepts allowed categories =
    if allowed.has_list && allowed.has_read
    then categories.is_list || categories.is_read
    else if allowed.has_list
    then categories.is_list && not categories.is_read
    else if allowed.has_read
    then categories.is_read && not categories.is_list
    else false

unfoldable pub matches : FilterRule → Target → Bool
matches (exact_match names type) target = contains (name_of target) names
matches (regex_match patterns type) target = any (λ test. test (name_of target)) patterns
matches (category_match allowed resolver) (tool_name n) = false
matches (category_match allowed resolver) (tool t) = accepts allowed (detect_categories resolver t)

-- The sorted categories, joined.
abbrev pub category_reason : Bool → Bool → String
category_reason true true = "allow_categories:list,read"
category_reason true false = "allow_categories:list"
category_reason false true = "allow_categories:read"
category_reason false false = "allow_categories:"

unfoldable pub get_reason : FilterRule → String
get_reason (exact_match names allow) = "allow_list"
get_reason (exact_match names deny) = "deny_list"
get_reason (regex_match patterns allow) = "allow_regex"
get_reason (regex_match patterns deny) = "deny_regex"
get_reason (category_match allowed resolver) = category_reason allowed.has_list allowed.has_read

pub record FilterResult : Type 0 where
  pub allowed : Bool
  pub reason : Option String

pub record FilterEngine : Type 0 where
  pub allow_rules : List FilterRule
  pub deny_rules : List FilterRule

-- The first rule that matches.
unfoldable pub first_match : Target → List FilterRule → Option FilterRule
first_match target [] = none
first_match target (rule ∷ rules) =
    if matches rule target then some rule else first_match target rules

-- What follows the deny rules.
unfoldable pub evaluate_allow : Target → List FilterRule → FilterResult
evaluate_allow target [] = record { allowed = true; reason = none }
evaluate_allow target (rule ∷ rules) = elim (first_match target (rule ∷ rules)) [
  | some r ↦ record { allowed = true; reason = some (get_reason r) }
  | none ↦ record { allowed = false; reason = some "no_allow_match" }
]

-- The body that `evaluate` and `evaluateTool` share, on a normalized name.
unfoldable pub evaluate_target : FilterEngine → Target → FilterResult
evaluate_target engine target = elim (first_match target engine.deny_rules) [
  | some r ↦ record { allowed = false; reason = some (get_reason r) }
  | none ↦ evaluate_allow target engine.allow_rules
]

module _ (normalize : String → String) where
  abbrev pub normalized : ToolDefinition → ToolDefinition
  normalized t = record t { name = normalize t.name }

  unfoldable pub evaluate : FilterEngine → String → FilterResult
  evaluate engine n = evaluate_target engine (tool_name (normalize n))

  unfoldable pub evaluate_tool : FilterEngine → ToolDefinition → FilterResult
  evaluate_tool engine t = evaluate_target engine (tool (normalized t))

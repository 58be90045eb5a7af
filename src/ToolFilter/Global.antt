-- ===== src/ToolFilter/Global.antt =====
-- src/tool-filter/filter/global-tool-filter.ts. The log is left out.
use mcp4openapi.Prelude.{
  ℕ, String, Bool, true, false, Option, none, some, List, [], ◌∷◌, ◌++◌, Map, set, length, str_eq,
  if◌then◌else◌,
}
use mcp4openapi.ToolFilter.Types.{
  ToolDefinition, OperationResolver, CategorySet, CompiledRegex, ToolFilterConfig, is_inhabited,
}
use mcp4openapi.ToolFilter.Rules.{
  FilterRule, exact_match, regex_match, category_match, RuleType, allow, deny, FilterEngine,
  evaluate_tool,
}

-- A configuration that asks for categories where there is no detector, and what the parsers refuse.
pub data Error : Type 0 where
  detector_not_available : Error
  too_many_entries entry_too_long unsupported_keyword empty_regex : Error
  invalid_regex invalid_limit invalid_category : Error

pub data Result {ℓ} (A : Type ℓ) : Type ℓ where
  ok : A → Result A
  throw : Error → Result A

abbrev pub and_then : {A B : Type 0} → Result A → (A → Result B) → Result B
and_then (ok a) next = next a
and_then (throw e) next = throw e

abbrev pub is_nil {ℓ} : {A : Type ℓ} → List A → Bool
is_nil [] = true
is_nil (x ∷ xs) = false

abbrev pub exact_rules : List String → RuleType → List FilterRule
exact_rules names type = if is_nil names then [] else exact_match names type ∷ []

abbrev pub regex_rules : List CompiledRegex → RuleType → List FilterRule
regex_rules patterns type = if is_nil patterns then [] else regex_match patterns type ∷ []

unfoldable pub category_rules : CategorySet → Option OperationResolver → Result (List FilterRule)
category_rules categories detector =
    if is_inhabited categories
    then elim detector [
      | none ↦ throw detector_not_available
      | some resolver ↦ ok (category_match categories resolver ∷ [])
    ]
    else ok []

unfoldable pub build_engine : ToolFilterConfig → Option OperationResolver → Result FilterEngine
build_engine config detector = elim (category_rules config.allow_categories detector) [
  | throw e ↦ throw e
  | ok categories ↦ ok (record {
    allow_rules =
        exact_rules config.allow_list allow ++ (regex_rules config.allow_regex allow ++ categories);
    deny_rules = exact_rules config.deny_list deny ++ regex_rules config.deny_regex deny;
  })
]

pub record GlobalToolFilterResult : Type 0 where
  pub allowed : List ToolDefinition
  pub removed : List ToolDefinition
  pub reasons : Map (List String)

pub record Summary : Type 0 where
  pub original_count : ℕ
  pub allowed_count : ℕ
  pub removed_count : ℕ

-- `if (result.reason) reasons.set(…)`
abbrev pub note_reason : String → Option String → Map (List String) → Map (List String)
note_reason n none reasons = reasons
note_reason n (some r) reasons = if str_eq r "" then reasons else set n (r ∷ []) reasons

module _ (normalize : String → String) (engine : FilterEngine) where
  -- One turn of the loop in `apply`.
  unfoldable pub apply_tool : GlobalToolFilterResult → ToolDefinition → GlobalToolFilterResult
  apply_tool acc t =
      if (evaluate_tool normalize engine t).allowed
      then record acc { allowed = acc.allowed ++ t ∷ [] }
      else record acc {
        removed = acc.removed ++ t ∷ [];
        reasons = note_reason t.name (evaluate_tool normalize engine t).reason acc.reasons;
      }

  unfoldable pub apply_tools : GlobalToolFilterResult → List ToolDefinition → GlobalToolFilterResult
  apply_tools acc [] = acc
  apply_tools acc (t ∷ ts) = apply_tools (apply_tool acc t) ts

  unfoldable pub apply : List ToolDefinition → GlobalToolFilterResult × Summary
  apply tools =
      let result = apply_tools (record { allowed = []; removed = []; reasons = [] }) tools in
      (
        result,
        record {
          original_count = length tools;
          allowed_count = length result.allowed;
          removed_count = length result.removed;
        },
      )

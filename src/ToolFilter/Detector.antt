-- ===== src/ToolFilter/Detector.antt =====
-- src/tool-filter/operation/: the category of an operation and those of a tool. The words that
-- `toLowerCase` is compared with are ASCII and have no k, so the ASCII letters are enough.
use mcp4openapi.Prelude.{
  text_eq, lower, String, Bool, true, false, not, ◌&&◌, ◌||◌, Option, none, some, List, [], ◌∷◌,
  any, codes, if◌then◌else◌,
}
use mcp4openapi.ToolFilter.Types.{
  Location, path, OperationInfo, OperationDefinition, operation_id, object, ToolDefinition,
  OperationCategory, list, read, modify, ToolCategories, OperationResolver,
}

-- `text.toLowerCase() === word`
abbrev pub is_word : String → String → Bool
is_word word text = text_eq (codes word) (lower (codes text))

abbrev pub is_path : Location → Bool
is_path path = true
is_path _ = false

unfoldable pub classify : OperationInfo → OperationCategory
classify operation =
    if not (is_word "get" operation.method)
    then modify
    else if any is_path operation.parameters
    then read
    else list

abbrev pub is_list : OperationCategory → Bool
is_list list = true
is_list _ = false

abbrev pub is_read : OperationCategory → Bool
is_read read = true
is_read _ = false

abbrev pub neither : ToolCategories
neither = record { is_list = false; is_read = false }

-- The variables of the loop over the steps.
pub record StepState : Type 0 where
  pub has_any : Bool
  pub all_list : Bool
  pub all_read : Bool

module _ (resolver : OperationResolver) where
  -- One turn of the loop in `detectCompositeCategories`.
  unfoldable pub detect_step : StepState → String → StepState
  detect_step s call = elim (resolver.get_operation_for_call call) [
    | none ↦ record s { all_list = false; all_read = false }
    | some operation ↦ record {
      has_any = true;
      all_list = if is_list (classify operation) then s.all_list else false;
      all_read = if is_read (classify operation) then s.all_read else false;
    }
  ]

  unfoldable pub detect_steps : StepState → List String → StepState
  detect_steps s [] = s
  detect_steps s (call ∷ calls) = detect_steps (detect_step s call) calls

  unfoldable pub detect_composite_categories : List String → ToolCategories
  detect_composite_categories [] = neither
  detect_composite_categories (call ∷ calls) =
      let s =
        detect_steps (record { has_any = false; all_list = true; all_read = true })
          (call ∷ calls) in
      record { is_list = s.has_any && s.all_list; is_read = s.has_any && s.all_read }

  -- One turn of the loop in `detectSimpleToolCategories`.
  unfoldable pub detect_operation : ToolCategories → String × OperationDefinition → ToolCategories
  detect_operation c (action, object) = c
  detect_operation c (action, operation_id id) = elim (resolver.get_operation_by_id id) [
    | some operation ↦ record {
      is_list = if is_list (classify operation) then true else c.is_list;
      is_read = if is_read (classify operation) then true else c.is_read;
    }
    | none ↦ record {
      is_list = if is_word "list" action || is_word "search" action then true else c.is_list;
      is_read = if is_word "get" action || is_word "read" action then true else c.is_read;
    }
  ]

  unfoldable pub detect_simple_tool_categories :
      ToolCategories → List (String × OperationDefinition) → ToolCategories
  detect_simple_tool_categories c [] = c
  detect_simple_tool_categories c (entry ∷ entries) =
      detect_simple_tool_categories (detect_operation c entry) entries

  abbrev pub detect_simple : Option (List (String × OperationDefinition)) → ToolCategories
  detect_simple none = neither
  detect_simple (some operations) = detect_simple_tool_categories neither operations

  abbrev pub detect_with :
      Bool → Option (List String) → Option (List (String × OperationDefinition)) → ToolCategories
  detect_with true (some steps) operations = detect_composite_categories steps
  detect_with true none operations = detect_simple operations
  detect_with false steps operations = detect_simple operations

  unfoldable pub detect_categories : ToolDefinition → ToolCategories
  detect_categories tool = detect_with tool.composite tool.steps tool.operations

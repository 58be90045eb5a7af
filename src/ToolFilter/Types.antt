-- ===== src/ToolFilter/Types.antt =====
-- src/tool-filter/types.ts, with the parts of `ToolDefinition` (src/types/profile.ts) and
-- `OperationInfo` (src/types/openapi.ts) that the filter reads.
use mcp4openapi.Prelude.{Text, String, Bool, ◌||◌, Option, List}

-- `in` of a parameter.
pub data Location : Type 0 where
  path query header cookie : Location

pub record OperationInfo : Type 0 where
  pub method : String
  pub parameters : List Location

-- The value of an entry of `operations`: the id of an operation, or an object.
pub data OperationDefinition : Type 0 where
  operation_id : String → OperationDefinition
  object : OperationDefinition

-- A step of a composite tool is read for its call only.
pub record ToolDefinition : Type 0 where
  pub name : String
  pub operations : Option (List (String × OperationDefinition))
  pub composite : Bool
  pub steps : Option (List String)

pub data OperationCategory : Type 0 where
  list read modify : OperationCategory

pub record ToolCategories : Type 0 where
  pub is_list : Bool
  pub is_read : Bool

-- The lookups that the detector is given.
pub record OperationResolver : Type 0 where
  pub get_operation_by_id : String → Option OperationInfo
  pub get_operation_for_call : String → Option OperationInfo

-- A set of `ToolFilterCategory`, by its members.
pub record CategorySet : Type 0 where
  pub has_list : Bool
  pub has_read : Bool

abbrev pub is_inhabited : CategorySet → Bool
is_inhabited s = s.has_list || s.has_read

-- `test` of a compiled expression.
abbrev pub CompiledRegex : Type 0
CompiledRegex = String → Bool

-- `sources` and `hasAllowRules` are not read by the filters.
pub record ToolFilterConfig : Type 0 where
  pub allow_list : List String
  pub deny_list : List String
  pub allow_regex : List CompiledRegex
  pub deny_regex : List CompiledRegex
  pub allow_categories : CategorySet

-- `rawEntries` is not read by the filters.
pub record SessionToolFilterRequest : Type 0 where
  pub exact_names : List String
  pub regex_patterns : List CompiledRegex
  pub allow_categories : CategorySet
  pub normalized_header : Text
  pub has_rules : Bool

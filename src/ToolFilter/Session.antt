-- ===== src/ToolFilter/Session.antt =====
-- src/tool-filter/filter/session-tool-filter.ts.
use mcp4openapi.Prelude.{
  Text, String, Option, List, [], ◌∷◌, ◌++◌, Map, set, contains, if◌then◌else◌,
}
use mcp4openapi.ToolFilter.Types.{ToolDefinition, OperationResolver, SessionToolFilterRequest}
use mcp4openapi.ToolFilter.Rules.{allow, FilterEngine, evaluate_tool}
use mcp4openapi.ToolFilter.Global.{Result, ok, throw, exact_rules, regex_rules, category_rules}

pub record SessionToolFilterResult : Type 0 where
  pub allowed_tool_names : List String
  pub reasons : Map (List String)
  pub normalized_header : Text

unfoldable pub build_session_engine :
    SessionToolFilterRequest → Option OperationResolver → Result FilterEngine
build_session_engine request detector = elim (category_rules request.allow_categories detector) [
  | throw e ↦ throw e
  | ok categories ↦ ok (record {
    allow_rules =
        exact_rules request.exact_names allow
        ++ (regex_rules request.regex_patterns allow ++ categories);
    deny_rules = [];
  })
]

-- `add` of a set of names.
unfoldable pub add : String → List String → List String
add n names = if contains n names then names else names ++ n ∷ []

-- The loop that allows all.
unfoldable pub add_all : List String → List ToolDefinition → List String
add_all names [] = names
add_all names (t ∷ ts) = add_all (add t.name names) ts

module _ (normalize : String → String) (engine : FilterEngine) where
  unfoldable pub apply_session_tool :
      SessionToolFilterResult → ToolDefinition → SessionToolFilterResult
  apply_session_tool acc t =
      if (evaluate_tool normalize engine t).allowed
      then record acc { allowed_tool_names = add t.name acc.allowed_tool_names }
      else record acc { reasons = set t.name ("session_filter" ∷ []) acc.reasons }

  unfoldable pub apply_session_tools :
      SessionToolFilterResult → List ToolDefinition → SessionToolFilterResult
  apply_session_tools acc [] = acc
  apply_session_tools acc (t ∷ ts) = apply_session_tools (apply_session_tool acc t) ts

  unfoldable pub apply_session :
      SessionToolFilterRequest → List ToolDefinition → SessionToolFilterResult
  apply_session request tools =
      if request.has_rules
      then apply_session_tools
          (record {
            allowed_tool_names = [];
            reasons = [];
            normalized_header = request.normalized_header;
          })
          tools
      else record {
        allowed_tool_names = add_all [] tools;
        reasons = [];
        normalized_header = request.normalized_header;
      }

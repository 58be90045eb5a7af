-- ===== src/ToolFilter/Tests.antt =====
-- Tools, a configuration and a request, and the theorems at them.
use mcp4openapi.Prelude.{
  codes, Text, text_eq, is_empty, trim, all, parse_int, trim_start, split_on, ◌≡◌, refl, String,
  true, false, ◌&&◌, ◌||◌, none, some, Option, List, [], ◌∷◌, str_eq, if◌then◌else◌, any, contains,
  set,
}
use mcp4openapi.ToolFilter.Types.{
  path, query, OperationInfo, OperationDefinition, operation_id, ToolDefinition, OperationResolver,
  CategorySet, ToolFilterConfig, SessionToolFilterRequest,
}
use mcp4openapi.ToolFilter.Detector.{
  classify, detect_step, detect_steps, detect_composite_categories, detect_operation,
  detect_simple_tool_categories, detect_categories,
}
use mcp4openapi.ToolFilter.Rules.{
  category_match, exact_match, allow, deny, tool, accepts, matches, get_reason, first_match,
  evaluate_allow, evaluate_target, evaluate_tool, FilterEngine,
}
use mcp4openapi.ToolFilter.Global.{
  ok, throw, detector_not_available, category_rules, build_engine, apply_tool, apply_tools, apply,
}
use mcp4openapi.ToolFilter.Session.{
  build_session_engine, add, add_all, apply_session_tool, apply_session_tools, apply_session,
}
use mcp4openapi.ToolFilter.Global.{too_many_entries}
use mcp4openapi.ToolFilter.Parsing.{
  Platform, csv_parts, get_max_entries, split_and_validate, compile, parse_part, parse_header,
}
use mcp4openapi.ToolFilter.Parsing.Sessions.{header_permits}
use mcp4openapi.ToolFilter.Parsing.Accepted.{is_ok, is_accepted, within, parse_header-accepted}
use mcp4openapi.ToolFilter.Parsing.Variables.{
  Variables, read_variables, name_set, compile_all, build_config, parse_categories, parse_variables,
}
use mcp4openapi.ToolFilter.Parsing.Configured.{variables_permit}
use mcp4openapi.ToolFilter.Parsing.Offered.{session_tools-permits}

-- What the runs unfold.
calls : Unit {0}
unfolding classify detect_step detect_steps detect_composite_categories detect_operation
    detect_simple_tool_categories detect_categories accepts matches get_reason first_match
    evaluate_allow evaluate_target evaluate_tool category_rules build_engine apply_tool apply_tools
    parse_int trim_start split_on split_and_validate compile parse_part parse_header
    parse_categories name_set compile_all build_config parse_variables apply build_session_engine
    add add_all apply_session_tool apply_session_tools apply_session set
calls = tt

abbrev list_users : OperationInfo
list_users = record { method = "GET"; parameters = query ∷ [] }

abbrev get_user : OperationInfo
get_user = record { method = "get"; parameters = path ∷ [] }

abbrev delete_user : OperationInfo
delete_user = record { method = "delete"; parameters = path ∷ [] }

abbrev lookup : String → Option OperationInfo
lookup key =
    if str_eq key "list_users" || str_eq key "GET /users"
    then some list_users
    else if str_eq key "get_user" || str_eq key "GET /users/1"
    then some get_user
    else if str_eq key "delete_user"
    then some delete_user
    else none

abbrev resolver : OperationResolver
resolver = record { get_operation_by_id = lookup; get_operation_for_call = lookup }

abbrev entries : List (String × OperationDefinition)
entries = ("list", operation_id "list_users") ∷ ("remove", operation_id "delete_user") ∷ []

-- One tool that lists and deletes.
abbrev manage_users : ToolDefinition
manage_users = record {
  name = "manage_users";
  operations = some entries;
  composite = false;
  steps = none;
}

abbrev all_users : ToolDefinition
all_users = record {
  name = "all_users";
  operations = none;
  composite = true;
  steps = some ("GET /users" ∷ "GET /users" ∷ []);
}

abbrev list_and_read : CategorySet
list_and_read = record { has_list = true; has_read = true }

abbrev no_category : CategorySet
no_category = record { has_list = false; has_read = false }

all_users_pass : matches (category_match list_and_read resolver) (tool all_users) ≡ true
unfolding calls
all_users_pass = refl

abbrev as_is : String → String
as_is text = text

abbrev config : ToolFilterConfig
config = record {
  allow_list = [];
  deny_list = "manage_users" ∷ [];
  allow_regex = [];
  deny_regex = [];
  allow_categories = list_and_read;
}

abbrev engine : FilterEngine
engine = record {
  allow_rules = category_match list_and_read resolver ∷ [];
  deny_rules = exact_match ("manage_users" ∷ []) deny ∷ [];
}

engine_lem : build_engine config (some resolver) ≡ ok engine
unfolding calls
engine_lem = refl

no_detector : build_engine config none ≡ throw detector_not_available
unfolding calls
no_detector = refl

abbrev tools : List ToolDefinition
tools = manage_users ∷ all_users ∷ []

denied_although_listed : (apply as_is engine tools).0.allowed ≡ all_users ∷ []
unfolding calls
denied_although_listed = refl

with_reason : (apply as_is engine tools).0.reasons ≡ ("manage_users", "deny_list" ∷ []) ∷ []
unfolding calls
with_reason = refl

-- Normalization and expressions at the texts of these tests.
abbrev platform : Platform
platform = record {
  normalize = λ t.
      if text_eq t (codes "manage_users")
      then "manage_users"
      else if text_eq t (codes "all_users")
      then "all_users"
      else "other";
  has_nested_quantifiers = λ t. false;
  has_ambiguous_alternation = λ t. false;
  new_regexp = λ t. if text_eq t (codes "^all_.*$") then some (λ n. str_eq n "all_users") else none;
}

abbrev variables : Variables
variables = record {
  allow_names = none;
  allow_name_regex = some "";
  deny_names = some "manage_users,";
  deny_name_regex = none;
  allow_categories = some " LIST , read";
}

variables_lem : parse_variables platform variables ≡ ok (some config)
unfolding calls
variables_lem = refl

abbrev header : Text
header = codes " manage_users, all_users "

abbrev request : SessionToolFilterRequest
request = record {
  exact_names = "manage_users" ∷ "all_users" ∷ [];
  regex_patterns = [];
  allow_categories = no_category;
  normalized_header = codes "manage_users, all_users";
  has_rules = true;
}

header_lem : parse_header platform none header ≡ ok request
unfolding calls
header_lem = refl

abbrev session_engine : FilterEngine
session_engine = record {
  allow_rules = exact_match ("manage_users" ∷ "all_users" ∷ []) allow ∷ [];
  deny_rules = [];
}

session_engine_lem : build_session_engine request (some resolver) ≡ ok session_engine
unfolding calls
session_engine_lem = refl

-- The session asks for a tool that the configuration denies.
session_tools-permits_example :
    contains "manage_users"
      (apply_session as_is session_engine request
        (apply as_is engine tools).0.allowed).allowed_tool_names
    ≡ any
        (λ t.
          (str_eq t.name "manage_users" && header_permits platform as_is (some resolver) header t)
          && variables_permit platform as_is (some resolver) (read_variables variables) t)
        tools
session_tools-permits_example =
    session_tools-permits platform as_is (some resolver) tools variables none header config request
      "manage_users" variables_lem header_lem engine_lem session_engine_lem

abbrev mixed_header : Text
mixed_header = codes "_allow_list, regex:all_.*,manage_users"

mixed_header_test : is_ok (parse_header platform (some "3") mixed_header) ≡ true
unfolding calls
mixed_header_test = refl

too_many_test : parse_header platform (some "2") mixed_header ≡ throw too_many_entries
unfolding calls
too_many_test = refl

-- Three parts, one of each kind.
parse_header-accepted_example : is_ok (parse_header platform (some "3") mixed_header) ≡ (
    is_empty (trim mixed_header)
    || (within (get_max_entries (some "3")) (csv_parts (trim mixed_header))
        && all (is_accepted platform) (csv_parts (trim mixed_header))))
parse_header-accepted_example = parse_header-accepted platform (some "3") mixed_header

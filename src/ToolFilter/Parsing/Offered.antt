-- ===== src/ToolFilter/Parsing/Offered.antt =====
-- Which tools a session is offered, from the texts of the variables and of the header to the names.
use mcp4openapi.Prelude.{
  ◌≡◌, refl, ◌∙◌, inl, inr, String, ◌&&◌, Option, none, some, List, any, contains, str_eq,
  Bool-cases, Text,
}
use mcp4openapi.ToolFilter.Types.{
  ToolDefinition, OperationResolver, ToolFilterConfig, SessionToolFilterRequest,
}
use mcp4openapi.ToolFilter.Rules.{FilterEngine}
use mcp4openapi.ToolFilter.Global.{ok, build_engine, apply}
use mcp4openapi.ToolFilter.Session.{apply_session, build_session_engine}
use mcp4openapi.ToolFilter.Decisions.{config_permits, Result-cases}
use mcp4openapi.ToolFilter.Outcomes.{session_after_global, any-cong}
use mcp4openapi.ToolFilter.Parsing.{Platform, parse_header}
use mcp4openapi.ToolFilter.Parsing.Reading.{throws-ok, ok-injective}
use mcp4openapi.ToolFilter.Parsing.Sessions.{header_permits, parse_header-permits}
use mcp4openapi.ToolFilter.Parsing.Variables.{
  Variables, read_variables, no_config, build_config, parse_variables,
}
use mcp4openapi.ToolFilter.Parsing.Configured.{variables_permit, build_config-permits}

some-injective : {A : Type 0} {a b : A} → some a ≡ some b → a ≡ b
some-injective h = cc

none-some : {A : Type 0} {a : A} → none ≡ some a → ⊥
none-some h = cc

parse_variables-permits :
    (p : Platform) (normalize : String → String) (detector : Option OperationResolver)
    (env : Variables) (config : ToolFilterConfig) (t : ToolDefinition)
    → parse_variables p env ≡ ok (some config)
    → config_permits normalize config detector t
      ≡ variables_permit p normalize detector (read_variables env) t
unfolding parse_variables
parse_variables-permits p normalize detector env config t h =
    elim (Bool-cases (no_config (read_variables env))) [
      | inl absent ↦ absurd (none-some (ok-injective (rw absent at h)))
      | inr present ↦ elim (Result-cases (build_config p (read_variables env))) [
        | inl (e, bad) ↦ absurd (throws-ok (rw (present, bad) at h))
        | inr (built, e) ↦
            let same : built ≡ config = some-injective (ok-injective (rw (present, e) at h)) in
            build_config-permits p normalize detector t (read_variables env) config (rw same at e)
      ]
    ]

-- Where the variables hold a configuration and the header is accepted, and both have a detector for
-- the categories that they ask for, the session allows a name exactly if a tool with this name is
-- there that both texts let through. The header does by a part that names the tool, an expression
-- that matches its name, a keyword for its category, or by having no parts; the variables do if no
-- name and no expression denies the tool and, where anything is allowed explicitly, a name, an
-- expression or a category allows it.
pub session_tools-permits :
    (p : Platform) (normalize : String → String) (detector : Option OperationResolver)
    (tools : List ToolDefinition) (env : Variables) (variable : Option String) (header : Text)
    (config : ToolFilterConfig) (request : SessionToolFilterRequest)
    {engine session_engine : FilterEngine} (name : String)
    → parse_variables p env ≡ ok (some config)
    → parse_header p variable header ≡ ok request
    → build_engine config detector ≡ ok engine
    → build_session_engine request detector ≡ ok session_engine
    → contains name
        (apply_session normalize session_engine request
          (apply normalize engine tools).0.allowed).allowed_tool_names
      ≡ any
          (λ t.
            (str_eq t.name name && header_permits p normalize detector header t)
            && variables_permit p normalize detector (read_variables env) t)
          tools
session_tools-permits p normalize detector tools env variable header config request name configured
      parsed built session_built =
    session_after_global normalize detector tools config request name built session_built
    ∙ any-cong _ _ tools (λ t.
      rw
        (
          parse_header-permits p normalize detector t variable header request parsed,
          parse_variables-permits p normalize detector env config t configured,
        )
        refl)

-- ===== src/ToolFilter/Decisions.antt =====
-- What the rules, built from a configuration or a header, let through.
use mcp4openapi.Prelude.{
  ◌≡◌, refl, ap, ◌∙◌, inl, inr, Option-cases, ◌⊎◌, String, Bool, true, false, not, ◌&&◌, ◌||◌,
  Option, none, some, List, [], ◌∷◌, ◌++◌, any, contains, arith, Bool-cases,
}
use mcp4openapi.ToolFilter.Types.{
  ToolDefinition, OperationResolver, CategorySet, CompiledRegex, ToolFilterConfig,
  SessionToolFilterRequest, is_inhabited,
}
use mcp4openapi.ToolFilter.Detector.{detect_categories}
use mcp4openapi.ToolFilter.Rules.{
  FilterRule, category_match, FilterEngine, RuleType, Target, tool, name_of, accepts, matches,
  first_match, evaluate_allow, evaluate_target, normalized, evaluate_tool, allow, deny,
}
use mcp4openapi.ToolFilter.Global.{
  Error, Result, ok, throw, is_nil, exact_rules, regex_rules, category_rules, build_engine,
}
use mcp4openapi.ToolFilter.Session.{build_session_engine}

pub any-append :
    {A : Type 0} (p : A → Bool) (xs ys : List A) → any p (xs ++ ys) ≡ (any p xs || any p ys)
any-append p [] ys = refl
any-append p (x ∷ xs) ys = ground (arith, any-append p xs ys)

is_nil-append : {A : Type 0} (xs ys : List A) → is_nil (xs ++ ys) ≡ (is_nil xs && is_nil ys)
is_nil-append [] ys = refl
is_nil-append (x ∷ xs) ys = refl

abbrev matching : Target → List FilterRule → Bool
matching target = any (λ rule. matches rule target)

module _ (target : Target) where
  abbrev allows : List FilterRule → Bool
  allows rules = is_nil rules || matching target rules

  abbrev is_found : Option FilterRule → Bool
  is_found none = false
  is_found (some rule) = true

  first_match-is_found :
      (rules : List FilterRule) → is_found (first_match target rules) ≡ matching target rules
  unfolding first_match
  first_match-is_found [] = refl
  first_match-is_found (rule ∷ rules) = elim (Bool-cases (matches rule target)) [
    | inl hit ↦ ground arith
    | inr miss ↦ ground (arith, first_match-is_found rules)
  ]

  evaluate_allow_lem :
      (rules : List FilterRule) → (evaluate_allow target rules).allowed ≡ allows rules
  unfolding evaluate_allow
  evaluate_allow_lem [] = refl
  evaluate_allow_lem (rule ∷ rules) =
      let found = first_match-is_found (rule ∷ rules) in
      elim (Option-cases (first_match target (rule ∷ rules))) [
        | inl miss ↦ rw (miss, evaluate_allow) (rw miss at found)
        | inr (r, hit) ↦ rw (hit, evaluate_allow) (rw hit at found)
      ]

  evaluate_target_lem :
      (engine : FilterEngine)
      → (evaluate_target engine target).allowed
        ≡ (not (matching target engine.deny_rules) && allows engine.allow_rules)
  unfolding evaluate_target
  evaluate_target_lem engine =
      let found = first_match-is_found engine.deny_rules in
      elim (Option-cases (first_match target engine.deny_rules)) [
        | inl miss ↦
            rw (miss, evaluate_target)
              (evaluate_allow_lem engine.allow_rules
                ∙ ap (λ b. not b && allows engine.allow_rules) (rw miss at found))
        | inr (r, hit) ↦
            rw (hit, evaluate_target)
              (ap (λ b. not b && allows engine.allow_rules) (rw hit at found))
      ]

  exact_rules_lem :
      (names : List String) (type : RuleType)
      → matching target (exact_rules names type) ≡ contains (name_of target) names
  unfolding matches
  exact_rules_lem [] type = refl
  exact_rules_lem (n ∷ names) type = ground arith

  regex_rules_lem :
      (patterns : List CompiledRegex) (type : RuleType)
      → matching target (regex_rules patterns type) ≡ any (λ test. test (name_of target)) patterns
  unfolding matches
  regex_rules_lem [] type = refl
  regex_rules_lem (test ∷ patterns) type = ground arith

abbrev pub in_category : CategorySet → Option OperationResolver → ToolDefinition → Bool
in_category categories none t = false
in_category categories (some resolver) t =
    is_inhabited categories && accepts categories (detect_categories resolver t)

-- What a configuration lets through, read off its parts: no deny list or expression names the tool,
-- and if anything is allowed explicitly, a list, an expression or a category allows this one.
abbrev pub permits :
    List String
    → List CompiledRegex
    → List String
    → List CompiledRegex
    → CategorySet
    → Option OperationResolver
    → ToolDefinition
    → Bool
permits deny_list deny_regex allow_list allow_regex categories detector t =
    not (contains t.name deny_list || any (λ test. test t.name) deny_regex)
    && ((is_nil allow_list && (is_nil allow_regex && not (is_inhabited categories)))
        || (contains t.name allow_list
            || (any (λ test. test t.name) allow_regex || in_category categories detector t)))

category_rules_lem :
    (categories : CategorySet) (detector : Option OperationResolver) (rules : List FilterRule)
    (t : ToolDefinition)
    → category_rules categories detector ≡ ok rules
    → (matching (tool t) rules ≡ in_category categories detector t)
      × (is_nil rules ≡ not (is_inhabited categories))
unfolding category_rules matches
category_rules_lem categories none rules t h = elim (Bool-cases (is_inhabited categories)) [
  | inr empty ↦ let same : [] ≡ rules = ground arith in rw (← same, empty) (refl, refl)
  | inl inhabited ↦ absurd (ground arith)
]
category_rules_lem categories (some resolver) rules t h =
    elim (Bool-cases (is_inhabited categories)) [
      | inr empty ↦ let same : [] ≡ rules = ground arith in rw (← same, empty) (refl, refl)
      | inl inhabited ↦
          let same : category_match categories resolver ∷ [] ≡ rules = ground arith in
          rw (← same, inhabited) (ground arith, refl)
    ]

pub Result-cases :
    {A : Type 0} (r : Result A) → ((e : Error) × (r ≡ throw e)) ⊎ ((a : A) × (r ≡ ok a))
Result-cases (ok a) = inr (a, refl)
Result-cases (throw e) = inl (e, refl)

exact_rules-nil :
    (names : List String) (type : RuleType) → is_nil (exact_rules names type) ≡ is_nil names
exact_rules-nil [] type = refl
exact_rules-nil (n ∷ names) type = refl

regex_rules-nil :
    (patterns : List CompiledRegex) (type : RuleType)
    → is_nil (regex_rules patterns type) ≡ is_nil patterns
regex_rules-nil [] type = refl
regex_rules-nil (test ∷ patterns) type = refl

module _ (deny_list allow_list : List String) (deny_regex allow_regex : List CompiledRegex)
    (categories : CategorySet) (detector : Option OperationResolver) (rules : List FilterRule)
    (built : category_rules categories detector ≡ ok rules) (t : ToolDefinition) where
  denied_lem :
      matching (tool t) (exact_rules deny_list deny ++ regex_rules deny_regex deny)
      ≡ (contains t.name deny_list || any (λ test. test t.name) deny_regex)
  denied_lem =
      any-append _ (exact_rules deny_list deny) (regex_rules deny_regex deny)
      ∙ rw (exact_rules_lem (tool t) deny_list deny, regex_rules_lem (tool t) deny_regex deny) refl

  allowed_lem :
      matching (tool t) (exact_rules allow_list allow ++ (regex_rules allow_regex allow ++ rules))
      ≡ (contains t.name allow_list
          || (any (λ test. test t.name) allow_regex || in_category categories detector t))
  allowed_lem =
      any-append _ (exact_rules allow_list allow) (regex_rules allow_regex allow ++ rules)
      ∙ rw
          (
            any-append (λ rule. matches rule (tool t)) (regex_rules allow_regex allow) rules,
            exact_rules_lem (tool t) allow_list allow,
            regex_rules_lem (tool t) allow_regex allow,
            (category_rules_lem categories detector rules t built).0,
          )
          refl

  no_rules_lem :
      is_nil (exact_rules allow_list allow ++ (regex_rules allow_regex allow ++ rules))
      ≡ (is_nil allow_list && (is_nil allow_regex && not (is_inhabited categories)))
  no_rules_lem =
      is_nil-append (exact_rules allow_list allow) (regex_rules allow_regex allow ++ rules)
      ∙ rw
          (
            is_nil-append (regex_rules allow_regex allow) rules,
            exact_rules-nil allow_list allow,
            regex_rules-nil allow_regex allow,
            (category_rules_lem categories detector rules t built).1,
          )
          refl

  permits_lem :
      (not (matching (tool t) (exact_rules deny_list deny ++ regex_rules deny_regex deny))
        && allows
            (tool t)
            (exact_rules allow_list allow ++ (regex_rules allow_regex allow ++ rules)))
      ≡ permits deny_list deny_regex allow_list allow_regex categories detector t
  permits_lem = rw (denied_lem, no_rules_lem, allowed_lem) refl

-- What the engine built from a configuration decides is what the configuration permits.
abbrev pub config_permits :
    (String → String) → ToolFilterConfig → Option OperationResolver → ToolDefinition → Bool
config_permits normalize c detector t =
    permits c.deny_list c.deny_regex c.allow_list c.allow_regex c.allow_categories detector
      (normalized normalize t)

-- A session has no deny rules.
abbrev pub session_permits :
    (String → String) → SessionToolFilterRequest → Option OperationResolver → ToolDefinition → Bool
session_permits normalize r detector t =
    permits [] [] r.exact_names r.regex_patterns r.allow_categories detector
      (normalized normalize t)

pub build_engine-permits :
    (normalize : String → String) (config : ToolFilterConfig) (detector : Option OperationResolver)
    {engine : FilterEngine} (t : ToolDefinition)
    → build_engine config detector ≡ ok engine
    → (evaluate_tool normalize engine t).allowed ≡ config_permits normalize config detector t
unfolding build_engine evaluate_tool
build_engine-permits normalize config detector {engine} t h =
    elim (Result-cases (category_rules config.allow_categories detector)) [
      | inl (e, bad) ↦ absurd (ground arith)
      | inr (rules, built) ↦
          let same : _ ≡ engine = ground arith in
          evaluate_target_lem (tool (normalized normalize t)) engine
          ∙ rw (← same) (
              permits_lem config.deny_list config.allow_list config.deny_regex config.allow_regex
                config.allow_categories detector rules built (normalized normalize t))
    ]

pub build_session_engine-permits :
    (normalize : String → String) (request : SessionToolFilterRequest)
    (detector : Option OperationResolver) {engine : FilterEngine} (t : ToolDefinition)
    → build_session_engine request detector ≡ ok engine
    → (evaluate_tool normalize engine t).allowed ≡ session_permits normalize request detector t
unfolding build_session_engine evaluate_tool
build_session_engine-permits normalize request detector {engine} t h =
    elim (Result-cases (category_rules request.allow_categories detector)) [
      | inl (e, bad) ↦ absurd (ground arith)
      | inr (rules, built) ↦
          let same : record {
            allow_rules =
                exact_rules request.exact_names allow
                ++ (regex_rules request.regex_patterns allow ++ rules);
            deny_rules = [];
          }
              ≡ engine =
            ground arith in
          evaluate_target_lem (tool (normalized normalize t)) engine
          ∙ rw (← same) (
              permits_lem [] request.exact_names [] request.regex_patterns request.allow_categories
                detector rules built (normalized normalize t))
    ]

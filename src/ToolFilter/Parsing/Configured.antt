-- ===== src/ToolFilter/Parsing/Configured.antt =====
-- What the global filter lets through under the variables MCP4_TOOL_FILTER_*, and the sessions behind
-- it.
use mcp4openapi.Prelude.{
  ◌≡◌, refl, inl, inr, String, Bool, true, false, not, ◌&&◌, ◌||◌, Option, List, [], ◌∷◌, any,
  contains, arith, str_eq, Bool-cases, Text, text_eq, text_eq_iff, trim_start, is_empty, lower,
  trim,
}
use mcp4openapi.ToolFilter.Types.{
  ToolDefinition, OperationResolver, CategorySet, CompiledRegex, ToolFilterConfig, is_inhabited,
}
use mcp4openapi.ToolFilter.Rules.{normalized}
use mcp4openapi.ToolFilter.Global.{ok, is_nil}
use mcp4openapi.ToolFilter.Session.{add}
use mcp4openapi.ToolFilter.Decisions.{in_category, config_permits, Result-cases}
use mcp4openapi.ToolFilter.Outcomes.{contains-add}
use mcp4openapi.ToolFilter.Parsing.{Platform, compile, no_categories}
use mcp4openapi.ToolFilter.Parsing.Reading.{
  passes, throws-ok, ok-injective, no_names, join_or, or_false, or_true,
}
use mcp4openapi.ToolFilter.Parsing.Sessions.{same_categories, empty_text}
use mcp4openapi.ToolFilter.Parsing.Variables.{
  RawConfig, list_category, read_category, parse_category, parse_categories, name_set, compile_all,
  build_config,
}

module _ (p : Platform) (name : String) where
  abbrev pub named : Text → Bool
  named entry = str_eq (p.normalize entry) name

  abbrev pub matched : Text → Bool
  matched pattern = passes (compile p pattern) name

  name_set-contains :
      (names : List String) (entries : List Text)
      → contains name (name_set p names entries) ≡ (contains name names || any named entries)
  unfolding name_set
  name_set-contains names [] = ground arith
  name_set-contains names (entry ∷ entries) = ground (
    arith,
    name_set-contains (add (p.normalize entry) names) entries,
    contains-add name (p.normalize entry) names,
  )

  compile_all-matched :
      (patterns : List Text) {tests : List CompiledRegex}
      → compile_all p patterns ≡ ok tests
      → (any (λ test. test name) tests ≡ any matched patterns) × (is_nil tests ≡ is_nil patterns)
  unfolding compile_all
  compile_all-matched [] h = rw (← ok-injective h) (refl, refl)
  compile_all-matched (pattern ∷ patterns) h = elim (Result-cases (compile p pattern)) [
    | inl (e, bad) ↦ absurd (throws-ok (rw bad at h))
    | inr (test, compiled) ↦ elim (Result-cases (compile_all p patterns)) [
      | inl (e, bad) ↦ absurd (throws-ok (rw (compiled, bad) at h))
      | inr (tests, rest) ↦
          let later = (compile_all-matched patterns rest).0 in
          rw (← ok-injective (rw (compiled, rest) at h)) (rw (compiled, later) refl, refl)
    ]
  ]

name_set-nil_from :
    (p : Platform) (names : List String) (entries : List Text)
    → is_nil (name_set p names entries) ≡ (is_nil names && is_nil entries)
unfolding name_set
name_set-nil_from p names [] = ground arith
name_set-nil_from p names (entry ∷ entries) = ground (
  arith,
  name_set-nil_from p (add (p.normalize entry) names) entries,
  no_names (p.normalize entry) names,
)

abbrev pub is_category : Text → Text → Bool
is_category category entry = text_eq (lower (trim entry)) category

abbrev pub categories_of : List Text → CategorySet
categories_of entries = record {
  has_list = any (is_category list_category) entries;
  has_read = any (is_category read_category) entries;
}

parse_category-lem :
    (acc next : CategorySet) (entry : Text)
    → parse_category acc entry ≡ ok next
    → (next.has_list ≡ (acc.has_list || (is_category list_category entry || false)))
      × (next.has_read ≡ (acc.has_read || (is_category read_category entry || false)))
unfolding trim_start
parse_category-lem acc next entry h = elim (Bool-cases (is_empty entry)) [
  | inl empty ↦
      let same : acc ≡ next = ok-injective (rw empty at h) in
      rw (← same, empty_text entry empty) (or_false _, or_false _)
  | inr given ↦ elim (Bool-cases (text_eq (lower (trim entry)) list_category)) [
    | inl list ↦
        let same : record acc { has_list = true } ≡ next = ok-injective (rw (given, list) at h) in
        let is : lower (trim entry) ≡ list_category = (text_eq_iff _ list_category).0 list in
        rw (← same, is) (or_true _, or_false _)
    | inr not_list ↦ elim (Bool-cases (text_eq (lower (trim entry)) read_category)) [
      | inl read ↦
          let same : record acc { has_read = true } ≡ next =
            ok-injective (rw (given, not_list, read) at h) in
          let is : lower (trim entry) ≡ read_category = (text_eq_iff _ read_category).0 read in
          rw (← same, is) (or_false _, or_true _)
      | inr other ↦ absurd (throws-ok (rw (given, not_list, other) at h))
    ]
  ]
]

parse_categories-lem :
    (acc parsed : CategorySet) (entries : List Text)
    → parse_categories acc entries ≡ ok parsed
    → (parsed.has_list ≡ (acc.has_list || any (is_category list_category) entries))
      × (parsed.has_read ≡ (acc.has_read || any (is_category read_category) entries))
unfolding parse_categories
parse_categories-lem acc parsed [] h = rw (← ok-injective h) (or_false _, or_false _)
parse_categories-lem acc parsed (entry ∷ entries) h =
    elim (Result-cases (parse_category acc entry)) [
      | inl (e, bad) ↦ absurd (throws-ok (rw bad at h))
      | inr (next, first) ↦
          let (list, read) = parse_category-lem acc next entry first in
          let (lists, reads) = parse_categories-lem next parsed entries (rw first at h) in
          (join_or _ _ _ list lists, join_or _ _ _ read reads)
    ]

-- What the variables let through, read off their parts: no deny list or expression names the tool,
-- and if anything is allowed explicitly, a name, an expression or a category allows this one.
abbrev pub variables_permit :
    Platform → (String → String) → Option OperationResolver → RawConfig → ToolDefinition → Bool
variables_permit p normalize detector raw t =
    not (
      any (named p (normalize t.name)) raw.deny_list
      || any (matched p (normalize t.name)) raw.deny_regex)
    && ((is_nil raw.allow_list
          && (is_nil raw.allow_regex && not (is_inhabited (categories_of raw.allow_categories))))
        || (any (named p (normalize t.name)) raw.allow_list
            || (any (matched p (normalize t.name)) raw.allow_regex
                || in_category (categories_of raw.allow_categories) detector
                    (normalized normalize t))))

module _ (p : Platform) (normalize : String → String) (detector : Option OperationResolver)
    (t : ToolDefinition) where
  pub build_config-permits :
      (raw : RawConfig) (config : ToolFilterConfig)
      → build_config p raw ≡ ok config
      → config_permits normalize config detector t ≡ variables_permit p normalize detector raw t
  unfolding build_config
  build_config-permits raw config h = elim (Result-cases (compile_all p raw.allow_regex)) [
    | inl (e, bad) ↦ absurd (throws-ok (rw bad at h))
    | inr (allowed, first) ↦ elim (Result-cases (compile_all p raw.deny_regex)) [
      | inl (e, bad) ↦ absurd (throws-ok (rw (first, bad) at h))
      | inr (denied, second) ↦
          elim (Result-cases (parse_categories no_categories raw.allow_categories)) [
            | inl (e, bad) ↦ absurd (throws-ok (rw (first, second, bad) at h))
            | inr (categories, third) ↦
                let same = ok-injective (rw (first, second, third) at h) in
                let name = normalize t.name in
                let (lists, reads) =
                  parse_categories-lem no_categories categories raw.allow_categories third in
                let (by_allowed, no_allowed) = compile_all-matched p name raw.allow_regex first in
                let (by_denied, _) = compile_all-matched p name raw.deny_regex second in
                rw
                  (
                    ← same,
                    name_set-contains p name [] raw.deny_list,
                    name_set-contains p name [] raw.allow_list,
                    by_allowed,
                    by_denied,
                    no_allowed,
                    name_set-nil_from p [] raw.allow_list,
                    same_categories categories (categories_of raw.allow_categories) lists reads,
                  )
                  refl
          ]
    ]
  ]

-- ===== src/ToolFilter/Parsing/Sessions.antt =====
-- What the sessions that are opened with the header X-Mcp4-Tools let through.
use mcp4openapi.Prelude.{
  ◌≡◌, refl, sym, inl, inr, String, Bool, true, false, not, ◌||◌, Option, List, [], ◌∷◌, any,
  Bool-cases, Text, text_eq, is_empty, trim, if◌then◌else◌, ltb, length, trim_start, split_on,
}
use mcp4openapi.ToolFilter.Types.{
  ToolDefinition, OperationResolver, CategorySet, SessionToolFilterRequest,
}
use mcp4openapi.ToolFilter.Rules.{normalized}
use mcp4openapi.ToolFilter.Global.{
  Error, Result, ok, throw, is_nil, too_many_entries, entry_too_long,
}
use mcp4openapi.ToolFilter.Decisions.{in_category, session_permits, Result-cases}
use mcp4openapi.ToolFilter.Parsing.{
  Platform, csv_parts, list_keyword, read_keyword, ParsedParts, parse_parts, no_parts,
  get_max_entries, split_and_validate, parse_header, empty_request, max_header_entry_length,
  request_of, text_length,
}
use mcp4openapi.ToolFilter.Parsing.Reading.{
  names_tool, expression_matches, IsReading, throws-ok, ok-injective, parse_parts-IsReading,
}

-- What the header lets through, read off its parts: a tool passes if a part names it, if an
-- expression matches its name, or if the keywords allow its category; a header without parts lets
-- all tools through.
abbrev keyword_categories : List Text → CategorySet
keyword_categories parts = record {
  has_list = any (λ part. text_eq part list_keyword) parts;
  has_read = any (λ part. text_eq part read_keyword) parts;
}

abbrev pub header_permits :
    Platform → (String → String) → Option OperationResolver → Text → ToolDefinition → Bool
header_permits p normalize detector header t =
    is_nil (csv_parts (trim header))
    || (any (names_tool p (normalize t.name)) (csv_parts (trim header))
        || (any (expression_matches p (normalize t.name)) (csv_parts (trim header))
            || in_category (keyword_categories (csv_parts (trim header))) detector
                (normalized normalize t)))

pub empty_text : (t : Text) → is_empty t ≡ true → t ≡ []
empty_text [] h = refl
empty_text (c ∷ cs) h = absurd (cc)

passed :
    {A : Type 0} {r : Result A} {a : A} (e : Error) (b : Bool)
    → (if b then throw e else r) ≡ ok a
    → r ≡ ok a
passed e true h = absurd (throws-ok h)
passed e false h = h

no_text : is_nil (csv_parts []) ≡ true
unfolding trim_start split_on
no_text = refl

or_rules :
    (none_ permitted : Bool) {s : Bool}
    → s ≡ (none_ || permitted)
    → (not (not none_) || s) ≡ (none_ || permitted)
or_rules true permitted h = refl
or_rules false permitted h = h

split_parts :
    (variable : Option String) (value : Text) {parts : List Text}
    → split_and_validate variable value ≡ ok parts
    → parts ≡ csv_parts value
unfolding split_and_validate
split_parts variable value h = elim (Result-cases (get_max_entries variable)) [
  | inl (e, bad) ↦ absurd (throws-ok (rw bad at h))
  | inr (limit, read) ↦
      let within_limit =
        passed too_many_entries (ltb limit (length (csv_parts value))) (rw read at h) in
      sym (
        ok-injective (
          passed entry_too_long
            (any (λ part. ltb max_header_entry_length (text_length part)) (csv_parts value))
            within_limit))
]

pub same_categories :
    (c d : CategorySet) → c.has_list ≡ d.has_list → c.has_read ≡ d.has_read → c ≡ d
same_categories c d l r = λ i. record { has_list = l i; has_read = r i }

module _ (p : Platform) (normalize : String → String) (detector : Option OperationResolver)
    (t : ToolDefinition) where
  parsed_permits :
      (parts : List Text) (parsed : ParsedParts) (request : SessionToolFilterRequest)
      → IsReading p (normalize t.name) no_parts parsed parts
      → request.exact_names ≡ parsed.exact_names
      → request.regex_patterns ≡ parsed.regex_patterns
      → request.allow_categories ≡ parsed.allow_categories
      → session_permits normalize request detector t ≡ (
          is_nil parts
          || (any (names_tool p (normalize t.name)) parts
              || (any (expression_matches p (normalize t.name)) parts
                  || in_category (keyword_categories parts) detector (normalized normalize t))))
  parsed_permits parts parsed request reading names patterns categories =
      rw
        (
          names,
          patterns,
          categories,
          reading.by_rules,
          reading.by_name,
          reading.by_expression,
          same_categories parsed.allow_categories (keyword_categories parts) reading.by_list
              reading.by_read,
        )
        refl

  -- What a request that was parsed from a header lets through.
  pub parse_header-permits :
      (variable : Option String) (header : Text) (request : SessionToolFilterRequest)
      → parse_header p variable header ≡ ok request
      → (not request.has_rules || session_permits normalize request detector t)
        ≡ header_permits p normalize detector header t
  unfolding parse_header
  parse_header-permits variable header request h = elim (Bool-cases (is_empty (trim header))) [
    | inl empty ↦
        let same : empty_request ≡ request = ok-injective (rw empty at h) in
        rw (← same, empty_text (trim header) empty, no_text) refl
    | inr given ↦ elim (Result-cases (split_and_validate variable (trim header))) [
      | inl (e, bad) ↦ absurd (throws-ok (rw (given, bad) at h))
      | inr (parts, split) ↦ elim (Result-cases (parse_parts p no_parts parts)) [
        | inl (e, bad) ↦ absurd (throws-ok (rw (given, split, bad) at h))
        | inr (parsed, read) ↦
            request_permits header parts parsed request (split_parts variable (trim header) split)
              (parse_parts-IsReading p (normalize t.name) no_parts parsed parts read)
              (ok-injective (rw (given, split, read) at h))
      ]
    ]
  ]
    where
      request_permits :
          (header : Text) (parts : List Text) (parsed : ParsedParts)
          (request : SessionToolFilterRequest)
          → parts ≡ csv_parts (trim header)
          → IsReading p (normalize t.name) no_parts parsed parts
          → request_of (trim header) parts parsed ≡ request
          → (not request.has_rules || session_permits normalize request detector t)
            ≡ header_permits p normalize detector header t
      request_permits header parts parsed request from reading same =
          rw (← same, ← from)
            (or_rules (is_nil parts) _ (
              parsed_permits parts parsed (request_of (trim header) parts parsed) reading refl refl
                refl))

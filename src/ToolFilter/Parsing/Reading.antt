-- ===== src/ToolFilter/Parsing/Reading.antt =====
-- What the parts of the header X-Mcp4-Tools stand for in the request that is parsed from them.
use mcp4openapi.Prelude.{
  ◌≡◌, refl, ap, ◌∙◌, inl, inr, String, Bool, true, false, not, ◌&&◌, ◌||◌, List, [], ◌∷◌, ◌++◌,
  any, contains, arith, str_eq, Bool-cases, Text, text_eq, text_eq_iff, is_empty, has_prefix, trim,
}
use mcp4openapi.ToolFilter.Types.{CompiledRegex, is_inhabited}
use mcp4openapi.ToolFilter.Global.{Error, Result, ok, throw, is_nil}
use mcp4openapi.ToolFilter.Session.{add}
use mcp4openapi.ToolFilter.Decisions.{Result-cases, any-append}
use mcp4openapi.ToolFilter.Outcomes.{contains-add}
use mcp4openapi.ToolFilter.Parsing.{
  Platform, compile, drop, list_keyword, read_keyword, keyword_prefix, regex_prefix, ParsedParts,
  parse_regex, parse_part, parse_parts,
}

-- A part that is neither a keyword nor an expression names a tool.
abbrev pub names_tool : Platform → String → Text → Bool
names_tool p name part =
    not (has_prefix keyword_prefix part)
    && (not (has_prefix regex_prefix part) && str_eq (p.normalize part) name)

abbrev pub passes : Result CompiledRegex → String → Bool
passes (ok test) name = test name
passes (throw e) name = false

abbrev pub expression_matches : Platform → String → Text → Bool
expression_matches p name part =
    has_prefix regex_prefix part && passes (compile p (trim (drop 6 part))) name

abbrev pub is_unrestricted : ParsedParts → Bool
is_unrestricted parsed =
    is_nil parsed.exact_names
    && (is_nil parsed.regex_patterns && not (is_inhabited parsed.allow_categories))

-- A record of what the parsed parts let through, against the parts of the header.
pub record IsReading (p : Platform) (name : String) (acc parsed : ParsedParts) (parts : List Text)
    : Type 0 where
  pub by_name :
      contains name parsed.exact_names
      ≡ (contains name acc.exact_names || any (names_tool p name) parts)
  pub by_expression :
      any (λ test. test name) parsed.regex_patterns
      ≡ (any (λ test. test name) acc.regex_patterns || any (expression_matches p name) parts)
  pub by_list :
      parsed.allow_categories.has_list
      ≡ (acc.allow_categories.has_list || any (λ part. text_eq part list_keyword) parts)
  pub by_read :
      parsed.allow_categories.has_read
      ≡ (acc.allow_categories.has_read || any (λ part. text_eq part read_keyword) parts)
  pub by_rules : is_unrestricted parsed ≡ (is_unrestricted acc && is_nil parts)

pub join_or :
    {parsed next : Bool} (more acc first : Bool)
    → next ≡ (acc || (first || false))
    → parsed ≡ (next || more)
    → parsed ≡ (acc || (first || more))
join_or more true first h e = e ∙ ap (λ b. b || more) h
join_or more false true h e = e ∙ ap (λ b. b || more) h
join_or more false false h e = e ∙ ap (λ b. b || more) h

pub or_false : (b : Bool) → b ≡ (b || false)
or_false true = refl
or_false false = refl

pub or_true : (b : Bool) → true ≡ (b || true)
or_true true = refl
or_true false = refl

join_and :
    {parsed next : Bool} (acc more : Bool)
    → next ≡ (acc && false)
    → parsed ≡ (next && more)
    → parsed ≡ (acc && false)
join_and true more h e = e ∙ ap (λ b. b && more) h
join_and false more h e = e ∙ ap (λ b. b && more) h

and_true : (b : Bool) → b ≡ (b && true)
and_true true = refl
and_true false = refl

and_false : (b : Bool) → false ≡ (b && false)
and_false true = refl
and_false false = refl

pub no_names : (n : String) (names : List String) → is_nil (add n names) ≡ false
unfolding add
no_names n [] = refl
no_names n (m ∷ names) = ground arith

no_patterns :
    (test : CompiledRegex) (tests : List CompiledRegex) → is_nil (tests ++ test ∷ []) ≡ false
no_patterns test [] = refl
no_patterns test (first ∷ tests) = refl

pub throws-ok : {A : Type 0} {e : Error} {a : A} → throw e ≡ ok a → ⊥
throws-ok h = cc

pub ok-injective : {A : Type 0} {a b : A} → ok a ≡ ok b → a ≡ b
ok-injective h = cc

module _ (p : Platform) (name : String) where
  list-IsReading :
      (acc next : ParsedParts)
      → parse_part p acc list_keyword ≡ ok next
      → IsReading p name acc next (list_keyword ∷ [])
  unfolding parse_part
  list-IsReading acc next h =
      let same : record acc {
        allow_categories = record { has_list = true; has_read = acc.allow_categories.has_read };
      }
          ≡ next =
        ground arith in
      rw (← same) (record {
        by_name = or_false _;
        by_expression = or_false _;
        by_list = or_true _;
        by_read = or_false _;
        by_rules = ground arith;
      })

  read-IsReading :
      (acc next : ParsedParts)
      → parse_part p acc read_keyword ≡ ok next
      → IsReading p name acc next (read_keyword ∷ [])
  unfolding parse_part
  read-IsReading acc next h =
      let same : record acc {
        allow_categories = record { has_list = acc.allow_categories.has_list; has_read = true };
      }
          ≡ next =
        ground arith in
      rw (← same) (record {
        by_name = or_false _;
        by_expression = or_false _;
        by_list = or_false _;
        by_read = or_true _;
        by_rules = ground arith;
      })

  module _ (acc next : ParsedParts) (part : Text) (not_list : text_eq part list_keyword ≡ false)
      (not_read : text_eq part read_keyword ≡ false)
      (no_keyword : has_prefix keyword_prefix part ≡ false) where
    expression-IsReading :
        has_prefix regex_prefix part ≡ true
        → parse_regex p acc (trim (drop 6 part)) ≡ ok next
        → IsReading p name acc next (part ∷ [])
    expression-IsReading expression h = elim (Bool-cases (is_empty (trim (drop 6 part)))) [
      | inl empty ↦ absurd (throws-ok (rw empty at h))
      | inr pattern ↦ elim (Result-cases (compile p (trim (drop 6 part)))) [
        | inl (e, bad) ↦ absurd (throws-ok (rw (pattern, bad) at h))
        | inr (test, compiled) ↦
            let same : record acc { regex_patterns = acc.regex_patterns ++ test ∷ [] } ≡ next =
              ok-injective (rw (pattern, compiled) at h) in
            rw (← same) (record {
              by_name = rw (no_keyword, expression) (or_false _);
              by_expression =
                  any-append (λ known. known name) acc.regex_patterns (test ∷ [])
                  ∙ rw (expression, compiled) refl;
              by_list = rw not_list (or_false _);
              by_read = rw not_read (or_false _);
              by_rules = rw (no_patterns test acc.regex_patterns) (ground arith);
            })
      ]
    ]

    name-IsReading :
        has_prefix regex_prefix part ≡ false
        → IsReading p name acc
            (record acc { exact_names = add (p.normalize part) acc.exact_names })
            (part ∷ [])
    name-IsReading plain = record {
      by_name =
          contains-add name (p.normalize part) acc.exact_names
          ∙ rw (no_keyword, plain) (ap (λ b. contains name acc.exact_names || b) (or_false _));
      by_expression = rw plain (or_false _);
      by_list = rw not_list (or_false _);
      by_read = rw not_read (or_false _);
      by_rules = rw (no_names (p.normalize part) acc.exact_names) (and_false _);
    }

  parse_part-IsReading :
      (acc next : ParsedParts) (part : Text)
      → parse_part p acc part ≡ ok next
      → IsReading p name acc next (part ∷ [])
  unfolding parse_part
  parse_part-IsReading acc next part h = elim (Bool-cases (text_eq part list_keyword)) [
    | inl list ↦
        let e = (text_eq_iff part list_keyword).0 list in rw e (list-IsReading acc next (rw e at h))
    | inr not_list ↦ elim (Bool-cases (text_eq part read_keyword)) [
      | inl read ↦
          let e = (text_eq_iff part read_keyword).0 read in
          rw e (read-IsReading acc next (rw e at h))
      | inr not_read ↦ elim (Bool-cases (has_prefix keyword_prefix part)) [
        | inl keyword ↦ absurd (ground arith)
        | inr no_keyword ↦ elim (Bool-cases (has_prefix regex_prefix part)) [
          | inl expression ↦
              expression-IsReading acc next part not_list not_read no_keyword expression
                (rw (not_list, not_read, no_keyword, expression) at h)
          | inr plain ↦
              let same : record acc { exact_names = add (p.normalize part) acc.exact_names }
                  ≡ next =
                ground arith in
              rw (← same) (name-IsReading acc next part not_list not_read no_keyword plain)
        ]
      ]
    ]
  ]

  pub parse_parts-IsReading :
      (acc parsed : ParsedParts) (parts : List Text)
      → parse_parts p acc parts ≡ ok parsed
      → IsReading p name acc parsed parts
  parse_parts-IsReading acc parsed [] h =
      let same : acc ≡ parsed = ground arith in
      rw (← same) (record {
        by_name = or_false _;
        by_expression = or_false _;
        by_list = or_false _;
        by_read = or_false _;
        by_rules = and_true _;
      })
  parse_parts-IsReading acc parsed (part ∷ parts) h = elim (Result-cases (parse_part p acc part)) [
    | inl (e, bad) ↦ absurd (ground arith)
    | inr (next, first) ↦
        let here = parse_part-IsReading acc next part first in
        let rest : parse_parts p next parts ≡ ok parsed = rw first at h in
        let later = parse_parts-IsReading next parsed parts rest in
        record {
          by_name = join_or _ _ _ here.by_name later.by_name;
          by_expression = join_or _ _ _ here.by_expression later.by_expression;
          by_list = join_or _ _ _ here.by_list later.by_list;
          by_read = join_or _ _ _ here.by_read later.by_read;
          by_rules = join_and _ _ here.by_rules later.by_rules;
        }
  ]

-- ===== src/ToolFilter/Parsing/Accepted.antt =====
-- Which headers X-Mcp4-Tools are accepted.
use mcp4openapi.Prelude.{
  ℕ, all, ◌≡◌, refl, ap, ◌∙◌, inl, inr, String, Bool, true, false, not, ◌&&◌, ◌||◌, Option, List,
  [], ◌∷◌, any, Bool-cases, Text, text_eq, text_eq_iff, is_empty, has_prefix, trim, if◌then◌else◌,
  ltb, length,
}
use mcp4openapi.ToolFilter.Global.{and_then, Result, ok, throw}
use mcp4openapi.ToolFilter.Decisions.{Result-cases}
use mcp4openapi.ToolFilter.Parsing.{
  Platform, compile, csv_parts, drop, list_keyword, read_keyword, keyword_prefix, regex_prefix,
  ParsedParts, parse_regex, parse_part, parse_parts, no_parts, get_max_entries, split_and_validate,
  parse_header, max_header_entry_length, request_of, text_length,
}

abbrev pub is_ok : {A : Type 0} → Result A → Bool
is_ok (ok a) = true
is_ok (throw e) = false

-- A part that is accepted: one of the two keywords, an expression that is not empty and compiles, or
-- a name.
abbrev pub is_accepted : Platform → Text → Bool
is_accepted p part =
    if has_prefix keyword_prefix part
    then text_eq part list_keyword || text_eq part read_keyword
    else if has_prefix regex_prefix part
    then not (is_empty (trim (drop 6 part))) && is_ok (compile p (trim (drop 6 part)))
    else true

abbrev pub is_long : Text → Bool
is_long part = ltb max_header_entry_length (text_length part)

abbrev pub within : Result ℕ → List Text → Bool
within (ok limit) parts = not (ltb limit (length parts)) && not (any is_long parts)
within (throw e) parts = false

is_ok-then :
    {A B : Type 0} (r : Result A) (next : A → Result B) {b : Bool}
    → ((a : A) → r ≡ ok a → is_ok (next a) ≡ b)
    → is_ok (and_then r next) ≡ (is_ok r && b)
is_ok-then (ok a) next h = h a refl
is_ok-then (throw e) next h = refl

is_ok-returned :
    {A B : Type 0} (r : Result A) (f : A → B) → is_ok (and_then r (λ a. ok (f a))) ≡ is_ok r
is_ok-returned (ok a) f = refl
is_ok-returned (throw e) f = refl

module _ (p : Platform) where
  parse_regex-ok :
      (acc : ParsedParts) (pattern : Text)
      → is_ok (parse_regex p acc pattern) ≡ (not (is_empty pattern) && is_ok (compile p pattern))
  parse_regex-ok acc pattern = elim (Bool-cases (is_empty pattern)) [
    | inl empty ↦ rw empty refl
    | inr given ↦ rw given (elim (Result-cases (compile p pattern)) [
      | inl (e, bad) ↦ rw bad refl
      | inr (test, compiled) ↦ rw compiled refl
    ])
  ]

  parse_part-ok :
      (acc : ParsedParts) (part : Text) → is_ok (parse_part p acc part) ≡ is_accepted p part
  unfolding parse_part
  parse_part-ok acc part = elim (Bool-cases (text_eq part list_keyword)) [
    | inl list ↦ rw ((text_eq_iff part list_keyword).0 list) refl
    | inr not_list ↦ elim (Bool-cases (text_eq part read_keyword)) [
      | inl read ↦ rw ((text_eq_iff part read_keyword).0 read) refl
      | inr not_read ↦ elim (Bool-cases (has_prefix keyword_prefix part)) [
        | inl keyword ↦ rw (not_list, not_read, keyword) refl
        | inr no_keyword ↦ elim (Bool-cases (has_prefix regex_prefix part)) [
          | inl expression ↦
              rw (not_list, not_read, no_keyword, expression)
                (parse_regex-ok acc (trim (drop 6 part)))
          | inr plain ↦ rw (not_list, not_read, no_keyword, plain) refl
        ]
      ]
    ]
  ]

  parse_parts-ok :
      (acc : ParsedParts) (parts : List Text)
      → is_ok (parse_parts p acc parts) ≡ all (is_accepted p) parts
  parse_parts-ok acc [] = refl
  parse_parts-ok acc (part ∷ parts) =
      is_ok-then (parse_part p acc part) (λ next. parse_parts p next parts)
        (λ next _. parse_parts-ok next parts)
      ∙ ap (λ b. b && all (is_accepted p) parts) (parse_part-ok acc part)

  -- A header is accepted exactly if it is blank, or the variable is absent, empty or a positive number,
  -- the parts are at most so many (or 100) and of at most 255 units each, and each is one of the two
  -- keywords, an expression that is not empty and compiles, or a name that starts with neither prefix.
  pub parse_header-accepted :
      (variable : Option String) (header : Text)
      → is_ok (parse_header p variable header) ≡ (
          is_empty (trim header)
          || (within (get_max_entries variable) (csv_parts (trim header))
              && all (is_accepted p) (csv_parts (trim header))))
  unfolding parse_header split_and_validate
  parse_header-accepted variable header = elim (Bool-cases (is_empty (trim header))) [
    | inl empty ↦ rw empty refl
    | inr given ↦ elim (Result-cases (get_max_entries variable)) [
      | inl (e, bad) ↦ rw (given, bad) refl
      | inr (limit, read) ↦
          let parts = csv_parts (trim header) in
          rw (given, read)
            (elim (Bool-cases (ltb limit (length parts))) [
              | inl many ↦ rw many refl
              | inr few ↦ rw few (elim (Bool-cases (any is_long parts)) [
                | inl long ↦ rw long refl
                | inr short ↦ rw short (
                    is_ok-returned (parse_parts p no_parts parts)
                      (λ parsed. request_of (trim header) parts parsed)
                    ∙ parse_parts-ok no_parts parts)
              ])
            ])
    ]
  ]

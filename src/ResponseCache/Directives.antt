-- ===== src/ResponseCache/Directives.antt =====
-- What the parsed directives hold, said of the tokens of the header.
use mcp4openapi.Prelude.{
  ◌≡◌, refl, Bool, true, false, not, ◌&&◌, ◌||◌, some, List, [], ◌∷◌, any, Text, text_eq,
  text_eq_iff, is_empty, trim, parts_of, arith, Bool-cases, inl, inr, ◌∙◌,
}
use mcp4openapi.ResponseCache.Headers.{
  Directive, Directives, get_directive, set_directive, has_directive, parse_directive,
  add_directive, add_directives, parse_cache_control,
}

-- The token has this name.
abbrev pub names : Text → Text → Bool
names name token = not (is_empty (trim token)) && text_eq (parse_directive (trim token)).0 name

has-set :
    (n name : Text) (d : Directive) (ds : Directives)
    → has_directive (set_directive n d ds) name ≡ (text_eq n name || has_directive ds name)
unfolding get_directive set_directive
has-set n name d [] = ground arith
has-set n name d ((m, e) ∷ ds) =
    ground (arith, has-set n name d ds, text_eq_iff m n, text_eq_iff m name, text_eq_iff n name)

has-add :
    (name token : Text) (ds : Directives)
    → has_directive (add_directive token ds) name ≡ (names name token || has_directive ds name)
unfolding add_directive
has-add name token ds = elim (Bool-cases (is_empty (trim token))) [
  | inl blank ↦ rw (blank, add_directive) refl
  | inr full ↦
      rw (full, add_directive)
        (has-set (parse_directive (trim token)).0 name (parse_directive (trim token)).1 ds)
]

has-adds :
    (name : Text) (tokens : List Text) (ds : Directives)
    → has_directive (add_directives tokens ds) name
      ≡ (any (names name) tokens || has_directive ds name)
unfolding add_directives
has-adds name [] ds = refl
has-adds name (token ∷ tokens) ds =
    ground (arith, has-adds name tokens (add_directive token ds), has-add name token ds)

or_false : (b : Bool) → (b || false) ≡ b
or_false true = refl
or_false false = refl

-- The parsed header has a directive exactly if one of the tokens between its commas has that name,
-- in whatever case and with whatever blanks around it, with a value or without.
pub has_directive-parse :
    (name header : Text)
    → is_empty header ≡ false
    → has_directive (parse_cache_control (some header)) name
      ≡ any (names name) (parts_of b',' header)
unfolding parse_cache_control get_directive
has_directive-parse name header full =
    rw (full, parse_cache_control)
      (has-adds name (parts_of b',' header) [] ∙ or_false (any (names name) (parts_of b',' header)))

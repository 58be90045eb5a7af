-- ===== src/Composite/Paths.antt =====
-- Where a result is stored.
use mcp4openapi.Prelude.{
  Text, text_eq, ◌≡◌, refl, ap, ◌∙◌, inl, inr, true, false, Option, none, some, List, [], ◌∷◌,
  Bool-cases, Option-cases, arith, if◌then◌else◌,
}
use mcp4openapi.Composite.{
  Json, null, scalar, object, Fields, empty, field, get_field, set_field, enter,
  is_safe_property_name, split_dots, store_at, store_result,
}

text_eq_refl : (t : Text) → text_eq t t ≡ true
text_eq_refl [] = refl
text_eq_refl (c ∷ t) = ground (arith, text_eq_refl t)

text_eq→eq : (t u : Text) → text_eq t u ≡ true → t ≡ u
text_eq→eq [] [] h = refl
text_eq→eq [] (d ∷ u) h = absurd (cc)
text_eq→eq (c ∷ t) [] h = absurd (cc)
text_eq→eq (c ∷ t) (d ∷ u) h = ground (arith, text_eq→eq t u)

get_field-set_field :
    (j k : Text) (v : Json) (f : Fields)
    → get_field k (set_field j v f) ≡ (if text_eq j k then some v else get_field k f)
unfolding get_field set_field
get_field-set_field j k v empty = refl
get_field-set_field j k v (field i w f) = ground (
  arith,
  get_field-set_field j k v f,
  text_eq→eq i j,
  text_eq→eq j k,
  text_eq→eq i k,
  text_eq_refl j,
)

-- What stands under a path.
unfoldable pub lookup_at : Text → List Text → Fields → Option Json
lookup_at key [] f = get_field key f
lookup_at part (key ∷ parts) f = elim (get_field part f) [
  | none ↦ none
  | some null ↦ none
  | some (scalar t) ↦ none
  | some (object g) ↦ lookup_at key parts g
]

abbrev pub lookup : Text → Fields → Option Json
lookup path f = let (part, parts) = split_dots path in lookup_at part parts f

differ : {g : Fields} (o : Option Fields) → o ≡ none → o ≡ some g → ⊥
differ o a b = ground (arith, a, b)

same : {g : Fields} (o : Option Fields) (t : Fields) → o ≡ some t → o ≡ some g → g ≡ t
same o t a b = ground (arith, a, b)

-- A path of more than one part stores in an object below.
store_at-cases :
    (part key : Text) (parts : List Text) (v : Json) (f g : Fields)
    → store_at part (key ∷ parts) v f ≡ some g
    → (before : Fields) × (after : Fields) × (store_at key parts v before ≡ some after)
      × (g ≡ set_field part (object after) f)
unfolding store_at
store_at-cases part key parts v f g h = elim (Bool-cases (is_safe_property_name part)) [
  | inr bad ↦ absurd (differ _ (rw (bad, store_at) refl) h)
  | inl safe ↦ elim (Option-cases (enter (get_field part f))) [
    | inl e ↦ absurd (differ _ (rw (safe, e, store_at) refl) h)
    | inr (before, e) ↦ elim (Option-cases (store_at key parts v before)) [
      | inl k ↦ absurd (differ _ (rw (safe, e, k, store_at) refl) h)
      | inr (after, k) ↦ (before, after, k, same _ _ (rw (safe, e, k, store_at) refl) h)
    ]
  ]
]

store_at_last :
    (key : Text) (v : Json) (f g : Fields) → store_at key [] v f ≡ some g → g ≡ set_field key v f
unfolding store_at
store_at_last key v f g h = elim (Bool-cases (is_safe_property_name key)) [
  | inr bad ↦ absurd (differ _ (rw (bad, store_at) refl) h)
  | inl safe ↦ same _ _ (rw (safe, store_at) refl) h
]

lookup_at_object :
    (part key : Text) (parts : List Text) (f g : Fields)
    → get_field part f ≡ some (object g)
    → lookup_at part (key ∷ parts) f ≡ lookup_at key parts g
unfolding lookup_at
lookup_at_object part key parts f g h = rw (h, lookup_at) refl

lookup_at_field : (key : Text) (f : Fields) → lookup_at key [] f ≡ get_field key f
unfolding lookup_at
lookup_at_field key f = refl

lookup_at-store_at :
    (part : Text) (parts : List Text) (v : Json) (f g : Fields)
    → store_at part parts v f ≡ some g
    → lookup_at part parts g ≡ some v
lookup_at-store_at part [] v f g h =
    lookup_at_field part g
    ∙ ap (get_field part) (store_at_last part v f g h)
    ∙ get_field-set_field part part v f
    ∙ ap (λ b. if b then some v else get_field part f) (text_eq_refl part)
lookup_at-store_at part (key ∷ parts) v f g h =
    let (before, after, k, e) = store_at-cases part key parts v f g h in
    let there : get_field part g ≡ some (object after) =
      rw (e, get_field-set_field part part (object after) f, text_eq_refl part) refl in
    lookup_at_object part key parts g after there ∙ lookup_at-store_at key parts v before after k

-- A result that is stored stands under its path, and every field of the whole result but the first
-- of the path is as it was.
pub lookup-store_result :
    (path k : Text) (v : Json) (f g : Fields)
    → store_result path v f ≡ some g
    → text_eq (split_dots path).0 k ≡ false
    → (lookup path g ≡ some v) × (get_field k g ≡ get_field k f)
unfolding store_result
lookup-store_result path k v f g h other = (
  lookup_at-store_at (split_dots path).0 (split_dots path).1 v f g h,
  kept (split_dots path).0 (split_dots path).1 h other,
)
  where
    kept :
        (part : Text) (parts : List Text)
        → store_at part parts v f ≡ some g
        → text_eq part k ≡ false
        → get_field k g ≡ get_field k f
    kept part [] h other =
        rw (store_at_last part v f g h, get_field-set_field part k v f, other) refl
    kept part (key ∷ parts) h other =
        let (before, after, stored, e) = store_at-cases part key parts v f g h in
        rw (e, get_field-set_field part k (object after) f, other) refl

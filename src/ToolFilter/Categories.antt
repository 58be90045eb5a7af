-- ===== src/ToolFilter/Categories.antt =====
-- What the categories of a tool say of its operations.
use mcp4openapi.Prelude.{
  ◌≡◌, ◌⊎◌, if◌then◌else◌, refl, inl, inr, String, Bool, true, false, ◌&&◌, some, List, [], ◌∷◌,
  All, Among, arith, Bool-cases, Option-cases,
}
use mcp4openapi.ToolFilter.Types.{
  OperationInfo, OperationDefinition, operation_id, object, ToolDefinition, OperationCategory, list,
  read, modify, ToolCategories, OperationResolver, CategorySet,
}
use mcp4openapi.ToolFilter.Detector.{
  classify, is_list, is_read, neither, StepState, detect_step, detect_steps,
  detect_composite_categories, detect_operation, detect_simple_tool_categories, detect_categories,
}
use mcp4openapi.ToolFilter.Rules.{category_match, tool, accepts, matches}

is_list-eq : (c : OperationCategory) → is_list c ≡ true → c ≡ list
is_list-eq list h = refl
is_list-eq read h = cc
is_list-eq modify h = cc

is_read-eq : (c : OperationCategory) → is_read c ≡ true → c ≡ read
is_read-eq list h = cc
is_read-eq read h = refl
is_read-eq modify h = cc

module _ (resolver : OperationResolver) where
  -- The call resolves to an operation of the category.
  abbrev pub Calls : OperationCategory → String → Type 0
  Calls category call =
      (operation : OperationInfo) × (resolver.get_operation_for_call call ≡ some operation)
      × (classify operation ≡ category)

  step_list :
      (s : StepState) (call : String)
      → (detect_step resolver s call).all_list ≡ true
      → (s.all_list ≡ true) × Calls list call
  unfolding detect_step
  step_list s call h = elim (Option-cases (resolver.get_operation_for_call call)) [
    | inl missing ↦ absurd (ground arith)
    | inr (operation, there) ↦
        let (before, here) = both (is_list (classify operation)) s.all_list (ground arith) in
        (before, (operation, there, is_list-eq _ here))
  ]
    where
      both : (a b : Bool) → (if a then b else false) ≡ true → (b ≡ true) × (a ≡ true)
      both a b e = ground arith

  step_read :
      (s : StepState) (call : String)
      → (detect_step resolver s call).all_read ≡ true
      → (s.all_read ≡ true) × Calls read call
  unfolding detect_step
  step_read s call h = elim (Option-cases (resolver.get_operation_for_call call)) [
    | inl missing ↦ absurd (ground arith)
    | inr (operation, there) ↦
        let (before, here) = both (is_read (classify operation)) s.all_read (ground arith) in
        (before, (operation, there, is_read-eq _ here))
  ]
    where
      both : (a b : Bool) → (if a then b else false) ≡ true → (b ≡ true) × (a ≡ true)
      both a b e = ground arith

  steps_list :
      (s : StepState) (calls : List String)
      → (detect_steps resolver s calls).all_list ≡ true
      → (s.all_list ≡ true) × All (Calls list) calls
  unfolding detect_steps
  steps_list s [] h = (h, tt)
  steps_list s (call ∷ calls) h =
      let (here, later) = steps_list (detect_step resolver s call) calls h in
      let (before, this) = step_list s call here in (before, (this, later))

  steps_read :
      (s : StepState) (calls : List String)
      → (detect_steps resolver s calls).all_read ≡ true
      → (s.all_read ≡ true) × All (Calls read) calls
  unfolding detect_steps
  steps_read s [] h = (h, tt)
  steps_read s (call ∷ calls) h =
      let (here, later) = steps_read (detect_step resolver s call) calls h in
      let (before, this) = step_read s call here in (before, (this, later))

  composite_list :
      (calls : List String)
      → (detect_composite_categories resolver calls).is_list ≡ true
      → All (Calls list) calls
  unfolding detect_composite_categories
  composite_list [] h = tt
  composite_list (call ∷ calls) h = (steps_list _ (call ∷ calls) (second _ _ h)).1
    where
      second : (a b : Bool) → (a && b) ≡ true → b ≡ true
      second a b e = ground arith

  composite_read :
      (calls : List String)
      → (detect_composite_categories resolver calls).is_read ≡ true
      → All (Calls read) calls
  unfolding detect_composite_categories
  composite_read [] h = tt
  composite_read (call ∷ calls) h = (steps_read _ (call ∷ calls) (second _ _ h)).1
    where
      second : (a b : Bool) → (a && b) ≡ true → b ≡ true
      second a b e = ground arith

  accepts_cases :
      (allowed : CategorySet) (c : ToolCategories)
      → accepts allowed c ≡ true
      → ((allowed.has_list ≡ true) × (c.is_list ≡ true))
        ⊎ ((allowed.has_read ≡ true) × (c.is_read ≡ true))
  unfolding accepts
  accepts_cases allowed c h = elim (Bool-cases (allowed.has_list && c.is_list)) [
    | inl by_list ↦ inl (ground arith)
    | inr not_list ↦ inr (ground arith)
  ]

  -- A composite tool that a category rule accepts has only steps that resolve to operations of one
  -- and the same category, which is one of the categories of the rule: no step of it modifies.
  pub composite_strict :
      (allowed : CategorySet) (t : ToolDefinition) (calls : List String)
      → t.composite ≡ true
      → t.steps ≡ some calls
      → matches (category_match allowed resolver) (tool t) ≡ true
      → ((allowed.has_list ≡ true) × All (Calls list) calls)
        ⊎ ((allowed.has_read ≡ true) × All (Calls read) calls)
  unfolding matches detect_categories
  composite_strict allowed t calls composite steps h =
      elim (accepts_cases allowed (detect_composite_categories resolver calls)
        (rw (composite, steps) at h)) [
          | inl (has, is) ↦ inl (has, composite_list calls is)
          | inr (has, is) ↦ inr (has, composite_read calls is)
        ]

  once_list :
      (c : ToolCategories) (entries : List (String × OperationDefinition))
      → c.is_list ≡ true
      → (detect_simple_tool_categories resolver c entries).is_list ≡ true
  unfolding detect_simple_tool_categories detect_operation
  once_list c [] h = h
  once_list c (entry ∷ entries) h =
      once_list (detect_operation resolver c entry) entries (keeps entry)
    where
      keeps : (e : String × OperationDefinition) → (detect_operation resolver c e).is_list ≡ true
      keeps (action, object) = h
      keeps (action, operation_id id) = elim (Option-cases (resolver.get_operation_by_id id)) [
        | inl missing ↦ ground arith
        | inr (operation, there) ↦ ground arith
      ]

  any_list :
      (c : ToolCategories) (entries : List (String × OperationDefinition)) (action id : String)
      (operation : OperationInfo)
      → Among (action, operation_id id) entries
      → resolver.get_operation_by_id id ≡ some operation
      → classify operation ≡ list
      → (detect_simple_tool_categories resolver c entries).is_list ≡ true
  unfolding detect_simple_tool_categories detect_operation
  any_list c [] action id operation h there lists = absurd h
  any_list c (entry ∷ entries) action id operation (inr later) there lists =
      any_list (detect_operation resolver c entry) entries action id operation later there lists
  any_list c (entry ∷ entries) action id operation (inl here) there lists =
      once_list (detect_operation resolver c entry) entries
        (rw (← here) (rw (there, detect_operation) (rw lists refl)))

  -- A simple tool with one operation that lists is accepted by the rule for list and read, whatever
  -- the other operations of the tool do.
  pub mixed_tool_accepted :
      (t : ToolDefinition) (entries : List (String × OperationDefinition)) (action id : String)
      (operation : OperationInfo)
      → t.composite ≡ false
      → t.operations ≡ some entries
      → Among (action, operation_id id) entries
      → resolver.get_operation_by_id id ≡ some operation
      → classify operation ≡ list
      → matches (category_match (record { has_list = true; has_read = true }) resolver) (tool t)
        ≡ true
  unfolding matches detect_categories accepts
  mixed_tool_accepted t entries action id operation simple operations among there lists =
      rw (simple, operations)
        (rw (any_list neither entries action id operation among there lists) refl)

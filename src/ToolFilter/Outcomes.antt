-- ===== src/ToolFilter/Outcomes.antt =====
-- What the loops of the filters make of the decisions on the single tools.
use mcp4openapi.Prelude.{
  ◌+◌, ◌≡◌, refl, sym, ap, ◌∙◌, inl, inr, String, Bool, true, not, ◌&&◌, ◌||◌, Option, List, [],
  ◌∷◌, ◌++◌, any, keep, contains, length, arith, str_eq, eq_iff, Bool-cases,
}
use mcp4openapi.ToolFilter.Types.{
  ToolDefinition, OperationResolver, ToolFilterConfig, SessionToolFilterRequest,
}
use mcp4openapi.ToolFilter.Rules.{FilterEngine, evaluate_tool}
use mcp4openapi.ToolFilter.Global.{
  ok, build_engine, apply_tool, apply_tools, apply, GlobalToolFilterResult,
}
use mcp4openapi.ToolFilter.Session.{
  add, add_all, apply_session_tool, apply_session_tools, apply_session, build_session_engine,
  SessionToolFilterResult,
}
use mcp4openapi.ToolFilter.Decisions.{
  config_permits, session_permits, build_engine-permits, build_session_engine-permits,
}

module _ {A : Type 0} where
  append_one : (xs : List A) (y : A) (zs : List A) → (xs ++ y ∷ []) ++ zs ≡ xs ++ y ∷ zs
  append_one [] y zs = refl
  append_one (x ∷ xs) y zs = ap (λ (l : List A). x ∷ l) (append_one xs y zs)

  append_nil : (xs : List A) → xs ++ [] ≡ xs
  append_nil [] = refl
  append_nil (x ∷ xs) = ap (λ (l : List A). x ∷ l) (append_nil xs)

  keep-cong : (p q : A → Bool) (xs : List A) → ((x : A) → p x ≡ q x) → keep p xs ≡ keep q xs
  keep-cong p q [] h = refl
  keep-cong p q (x ∷ xs) h = rw (h x, keep-cong p q xs h) refl

  pub any-cong : (p q : A → Bool) (xs : List A) → ((x : A) → p x ≡ q x) → any p xs ≡ any q xs
  any-cong p q [] h = refl
  any-cong p q (x ∷ xs) h = rw (h x, any-cong p q xs h) refl

  any-keep : (q p : A → Bool) (xs : List A) → any q (keep p xs) ≡ any (λ x. q x && p x) xs
  any-keep q p [] = refl
  any-keep q p (x ∷ xs) = ground (arith, any-keep q p xs)

  length-keep :
      (p : A → Bool) (xs : List A)
      → length (keep p xs) + length (keep (λ x. not (p x)) xs) ≡ length xs
  length-keep p [] = refl
  length-keep p (x ∷ xs) = ground (arith, length-keep p xs)

contains-append :
    (m : String) (names : List String) (n : String)
    → contains m (names ++ n ∷ []) ≡ (contains m names || str_eq n m)
contains-append m [] n = ground arith
contains-append m (k ∷ names) n = ground (arith, contains-append m names n)

pub contains-add :
    (m n : String) (names : List String)
    → contains m (add n names) ≡ (contains m names || str_eq n m)
unfolding add
contains-add m n names = elim (Bool-cases (contains n names)) [
  | inr new ↦ rw (new, add) (contains-append m names n)
  | inl old ↦ elim (Bool-cases (str_eq n m)) [
    | inr other ↦ ground arith
    | inl same ↦
        let there : contains m names ≡ true = rw ((eq_iff n m).0 same) at old in ground arith
  ]
]

module _ (normalize : String → String) (engine : FilterEngine) where
  abbrev decided : ToolDefinition → Bool
  decided t = (evaluate_tool normalize engine t).allowed

  apply_tools_lem :
      (acc : GlobalToolFilterResult) (ts : List ToolDefinition)
      → ((apply_tools normalize engine acc ts).allowed ≡ acc.allowed ++ keep decided ts)
        × ((apply_tools normalize engine acc ts).removed
            ≡ acc.removed ++ keep (λ t. not (decided t)) ts)
  unfolding apply_tools apply_tool
  apply_tools_lem acc [] = (sym (append_nil acc.allowed), sym (append_nil acc.removed))
  apply_tools_lem acc (t ∷ ts) =
      let (allowed, removed) = apply_tools_lem (apply_tool normalize engine acc t) ts in
      elim (Bool-cases (decided t)) [
        | inl yea ↦ ground (arith, allowed, removed, append_one acc.allowed t (keep decided ts))
        | inr nay ↦
            ground
              (arith, allowed, removed, append_one acc.removed t (keep (λ u. not (decided u)) ts))
      ]

  session_tools_lem :
      (m : String) (acc : SessionToolFilterResult) (ts : List ToolDefinition)
      → contains m (apply_session_tools normalize engine acc ts).allowed_tool_names
        ≡ (contains m acc.allowed_tool_names || any (λ t. str_eq t.name m && decided t) ts)
  unfolding apply_session_tools apply_session_tool
  session_tools_lem m acc [] = ground arith
  session_tools_lem m acc (t ∷ ts) =
      let later = session_tools_lem m (apply_session_tool normalize engine acc t) ts in
      elim (Bool-cases (decided t)) [
        | inl yea ↦ ground (arith, later, contains-add m t.name acc.allowed_tool_names)
        | inr nay ↦ ground (arith, later)
      ]

add_all_lem :
    (m : String) (names : List String) (ts : List ToolDefinition)
    → contains m (add_all names ts) ≡ (contains m names || any (λ t. str_eq t.name m) ts)
unfolding add_all
add_all_lem m names [] = ground arith
add_all_lem m names (t ∷ ts) =
    ground (arith, add_all_lem m (add t.name names) ts, contains-add m t.name names)

module _ (normalize : String → String) (detector : Option OperationResolver)
    (tools : List ToolDefinition) where
  -- Where the configuration is accepted, the global filter allows exactly the tools that the
  -- configuration permits and removes the others, both in their order, and the counts of the
  -- summary add up.
  pub apply_lem :
      (config : ToolFilterConfig) {engine : FilterEngine}
      → build_engine config detector ≡ ok engine
      → ((apply normalize engine tools).0.allowed
          ≡ keep (config_permits normalize config detector) tools)
        × ((apply normalize engine tools).0.removed
            ≡ keep (λ t. not (config_permits normalize config detector t)) tools)
        × ((apply normalize engine tools).1.allowed_count
              + (apply normalize engine tools).1.removed_count
            ≡ (apply normalize engine tools).1.original_count)
  unfolding apply
  apply_lem config {engine} built =
      let (allowed, removed) =
        apply_tools_lem normalize engine (record { allowed = []; removed = []; reasons = [] })
          tools in
      let permits : (t : ToolDefinition)
          → decided normalize engine t ≡ config_permits normalize config detector t =
        λ t. build_engine-permits normalize config detector t built in
      (
        allowed ∙ keep-cong _ _ tools permits,
        removed ∙ keep-cong _ _ tools (λ t. ap not (permits t)),
        rw (allowed, removed) (length-keep (decided normalize engine) tools),
      )

  -- Where the request is accepted, the session allows a name exactly if a tool with this name is
  -- there that the request permits; a request without rules permits all.
  pub apply_session_lem :
      (request : SessionToolFilterRequest) {engine : FilterEngine} (name : String)
      → build_session_engine request detector ≡ ok engine
      → contains name (apply_session normalize engine request tools).allowed_tool_names
        ≡ any
            (λ t.
              str_eq t.name name
              && (not request.has_rules || session_permits normalize request detector t))
            tools
  unfolding apply_session
  apply_session_lem request {engine} name built = elim (Bool-cases request.has_rules) [
    | inl rules ↦
        rw (rules, apply_session)
          (session_tools_lem normalize engine name _ tools
            ∙ any-cong _ _ tools (λ t.
              ap (λ b. str_eq t.name name && b)
                (build_session_engine-permits normalize request detector t built)))
    | inr none_ ↦
        rw (none_, apply_session)
          (add_all_lem name [] tools ∙ any-cong _ _ tools (λ t. ground arith))
  ]

-- Behind the global filter, the session allows a name exactly if one of the tools before both
-- filters has this name, is permitted by the configuration and by the request: a session takes
-- tools away and gives none back.
pub session_after_global :
    (normalize : String → String) (detector : Option OperationResolver)
    (tools : List ToolDefinition) (config : ToolFilterConfig) (request : SessionToolFilterRequest)
    {engine session_engine : FilterEngine} (name : String)
    → build_engine config detector ≡ ok engine
    → build_session_engine request detector ≡ ok session_engine
    → contains name
        (apply_session normalize session_engine request
          (apply normalize engine tools).0.allowed).allowed_tool_names
      ≡ any
          (λ t.
            (str_eq t.name name
              && (not request.has_rules || session_permits normalize request detector t))
            && config_permits normalize config detector t)
          tools
session_after_global normalize detector tools config request {engine} {session_engine} name built
      session_built =
    apply_session_lem normalize detector (apply normalize engine tools).0.allowed request name
      session_built
    ∙ ap
        (any (λ t.
          str_eq t.name name
          && (not request.has_rules || session_permits normalize request detector t)))
        (apply_lem normalize detector tools config built).0
    ∙ any-keep _ _ tools

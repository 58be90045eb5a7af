-- ===== src/Composite.antt =====
-- src/tooling/composite-executor.ts: the steps of a composite tool, level by level, and the paths
-- under which their results are stored.
pub mod Paths
pub mod Batches
pub mod Counts
mod Tests
use mcp4openapi.Prelude.{
  Text, text_eq, one_of, ℕ, zero, suc, ◌+◌, String, Bool, true, false, not, ◌||◌, ◌&&◌, Option,
  none, some, List, [], ◌∷◌, ◌++◌, codes, any, ◌==◌, if◌then◌else◌, length, ◌⊎◌, inl, inr,
}
use mcp4openapi.Dag.{Step, ExecutionLevel, topological_sort}

-- A JSON value, as far as a path can go into it: an array is an object of its indices.
mutual
  pub data Json : Type 0 where
    null : Json
    scalar : Text → Json
    object : Fields → Json

  pub data Fields : Type 0 where
    empty : Fields
    field : Text → Json → Fields → Fields

unfoldable pub get_field : Text → Fields → Option Json
get_field k empty = none
get_field k (field j v f) = if text_eq j k then some v else get_field k f

unfoldable pub set_field : Text → Json → Fields → Fields
set_field k v empty = field k v empty
set_field k v (field j w f) = if text_eq j k then field j v f else field j w (set_field k v f)

abbrev pub forbidden_property_names : List String
forbidden_property_names =
    "__proto__" ∷ "constructor" ∷ "prototype" ∷ "__defineGetter__" ∷ "__defineSetter__"
    ∷ "__lookupGetter__" ∷ "__lookupSetter__" ∷ "hasOwnProperty" ∷ "isPrototypeOf"
    ∷ "propertyIsEnumerable" ∷ "toLocaleString" ∷ "toString" ∷ "valueOf" ∷ []

abbrev pub is_safe_property_name : Text → Bool
is_safe_property_name name = not (one_of forbidden_property_names name)

-- `path.split('.')`: the first part and the others.
unfoldable pub split_dots : Text → Text × List Text
split_dots [] = ([], [])
split_dots (c ∷ cs) =
    let (part, parts) = split_dots cs in if c == b'.' then ([], part ∷ parts) else (c ∷ part, parts)

-- The object that a path goes through: a field that is missing becomes one, and a field that is
-- not an object is an error, as `none`.
abbrev pub enter : Option Json → Option Fields
enter none = some empty
enter (some null) = none
enter (some (scalar t)) = none
enter (some (object f)) = some f

-- `none` is an error that is thrown.
unfoldable pub store_at : Text → List Text → Json → Fields → Option Fields
store_at key [] v f = if is_safe_property_name key then some (set_field key v f) else none
store_at part (key ∷ parts) v f = elim (is_safe_property_name part) [
  | false ↦ none
  | true ↦ elim (enter (get_field part f)) [
    | none ↦ none
    | some current ↦ elim (store_at key parts v current) [
      | none ↦ none
      | some stored ↦ some (set_field part (object stored) f)
    ]
  ]
]

unfoldable pub store_result : Text → Json → Fields → Option Fields
store_result path v f = let (part, parts) = split_dots path in store_at part parts v f

pub data Reply : Type 0 where
  fulfilled : Json → Reply
  rejected : String → Reply

-- The time stamp of an error is left out.
pub record StepError : Type 0 where
  pub step_index : ℕ
  pub step_call : String
  pub error : String

pub record Progress : Type 0 where
  pub result : Fields
  pub errors : List StepError
  pub completed_steps : ℕ

pub record CompositeResult : Type 0 where
  pub contents : Fields
  pub completed_steps : ℕ
  pub total_steps : ℕ
  pub errors : List StepError

pub data Failure : Type 0 where
  invalid_steps : Failure
  -- A result has no place under the path of its step.
  not_stored : Failure
  -- The error of a step, and the number of the steps completed.
  step_failed : StepError → ℕ → Failure

abbrev pub error_path : Step → Text
error_path s = codes s.store_as ++ codes "_error"

abbrev pub no_progress : Progress
no_progress = record { result = empty; errors = []; completed_steps = 0 }

abbrev pub to_result : List Step → Progress → CompositeResult
to_result steps p = record {
  contents = p.result;
  completed_steps = p.completed_steps;
  total_steps = length steps;
  errors = p.errors;
}

abbrev pub finish : List Step → Failure ⊎ Progress → Failure ⊎ CompositeResult
finish steps (inl e) = inl e
finish steps (inr p) = inr (to_result steps p)

-- `error_json` is a step error as JSON.
module _ (error_json : StepError → Json) where
  abbrev pub record_reply : Bool → Step → ℕ → Reply → Progress → Failure ⊎ Progress
  record_reply allow_partial s index (fulfilled body) p =
      elim (store_result (codes s.store_as) body p.result) [
        | none ↦ inl not_stored
        | some r ↦ inr (record p { result = r; completed_steps = p.completed_steps + 1 })
      ]
  record_reply allow_partial s index (rejected message) p =
      let e : StepError = record { step_index = index; step_call = s.call; error = message } in
      elim (store_result (error_path s) (error_json e) p.result) [
        | none ↦ inl not_stored
        | some r ↦
            if allow_partial
            then inr (record p { result = r; errors = p.errors ++ e ∷ [] })
            else inl (step_failed e p.completed_steps)
      ]

  unfoldable pub process_replies :
      Bool → List Step → List ℕ → List Reply → Progress → Failure ⊎ Progress
  process_replies allow_partial (s ∷ steps) (i ∷ indices) (r ∷ replies) p =
      elim (record_reply allow_partial s i r p) [
        | inl e ↦ inl e
        | inr p' ↦ process_replies allow_partial steps indices replies p'
      ]
  process_replies allow_partial _ _ _ p = inr p

-- `settle_all` is `Promise.allSettled` over the requests of a level, which gives one reply for each
-- step, in order.
module _ (error_json : StepError → Json) {W : Type 0}
    (settle_all : List Step → W → List Reply × W) where
  unfoldable pub run_levels : Bool → List ExecutionLevel → Progress → W → (Failure ⊎ Progress) × W
  run_levels allow_partial [] p w = (inr p, w)
  run_levels allow_partial (l ∷ ls) p w =
      let (replies, w') = settle_all l.steps w in
      elim (process_replies error_json allow_partial l.steps l.step_indices replies p) [
        | inl e ↦ (inl e, w')
        | inr p' ↦ run_levels allow_partial ls p' w'
      ]

  unfoldable pub execute : Bool → List Step → W → (Failure ⊎ CompositeResult) × W
  execute allow_partial steps w = elim (topological_sort steps) [
    | none ↦ (inl invalid_steps, w)
    | some ls ↦ let (r, w') = run_levels allow_partial ls no_progress w in (finish steps r, w')
  ]

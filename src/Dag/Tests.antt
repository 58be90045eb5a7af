-- ===== src/Dag/Tests.antt =====
-- Runs of the sort at fixed steps, and the theorems at concrete inputs.
use mcp4openapi.Prelude.{
  get, set, ℕ, ◌≡◌, refl, String, true, some, List, [], ◌∷◌, arith, if◌then◌else◌, str_eq, contains,
}
use mcp4openapi.Dag.{
  Step, ExecutionLevel, find_step, processed_names, init_nodes, add_dependencies, add_edges,
  release, release_all, process_nodes, roots, run, levels, unknown, cyclic, processed_count,
  check_processed, analyze_dag, topological_sort,
}
use mcp4openapi.Dag.Sort.{IsOrder, analyze_dag-IsOrder}
use mcp4openapi.Dag.Acyclic.{analyze_dag-cyclic, topological_sort-some, DependsOn}

abbrev step : String → List String → Step
step name deps = record { call = "GET /x"; store_as = name; depends_on = deps }

abbrev review : List Step
review = step "comments" ("mr" ∷ []) ∷ step "mr" [] ∷ step "diff" ("mr" ∷ []) ∷ []

abbrev review_levels : List ExecutionLevel
review_levels =
    record { steps = step "mr" [] ∷ []; step_indices = 1 ∷ [] }
    ∷ record {
      steps = step "comments" ("mr" ∷ []) ∷ step "diff" ("mr" ∷ []) ∷ [];
      step_indices = 0 ∷ 2 ∷ [];
    }
    ∷ []

review_sorted : analyze_dag review ≡ levels review_levels
unfolding get set analyze_dag init_nodes add_edges add_dependencies roots run process_nodes release
    release_all find_step check_processed processed_count processed_names
review_sorted = refl

analyze_dag-IsOrder_example : IsOrder review review_levels
analyze_dag-IsOrder_example = analyze_dag-IsOrder review review_levels review_sorted

abbrev loop : List Step
loop = step "a" ("b" ∷ []) ∷ step "b" ("a" ∷ []) ∷ step "c" [] ∷ []

loop_cyclic : analyze_dag loop ≡ cyclic ("a" ∷ "b" ∷ [])
unfolding get set analyze_dag init_nodes add_edges add_dependencies roots run process_nodes release
    release_all find_step check_processed processed_count processed_names
loop_cyclic = refl

-- Two steps of one name are refused as a cycle of no steps.
twice_cyclic : analyze_dag (step "a" [] ∷ step "a" [] ∷ []) ≡ cyclic []
unfolding get set analyze_dag init_nodes add_edges add_dependencies roots run process_nodes release
    release_all find_step check_processed processed_count processed_names
twice_cyclic = refl

analyze_dag-cyclic_example :
    (d : String) × (contains d ("a" ∷ "b" ∷ []) ≡ true) × DependsOn loop "a" d
analyze_dag-cyclic_example = analyze_dag-cyclic loop ("a" ∷ "b" ∷ []) "a" loop_cyclic refl

lost_unknown : analyze_dag (step "a" ("z" ∷ []) ∷ []) ≡ unknown "a" "z"
unfolding get set analyze_dag init_nodes add_edges add_dependencies
lost_unknown = refl

abbrev review_rank : String → ℕ
review_rank name = if str_eq name "mr" then 0 else 1

topological_sort-some_example : (ls : List ExecutionLevel) × (topological_sort review ≡ some ls)
topological_sort-some_example =
    topological_sort-some review review_rank (refl, (refl, (refl, tt))) (refl, (refl, (refl, tt)))
      ((omega arith, tt), (tt, ((omega arith, tt), tt)))

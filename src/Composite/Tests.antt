-- ===== src/Composite/Tests.antt =====
-- A run of a composite tool, and the theorems at concrete inputs.
use mcp4openapi.Prelude.{
  text_eq, ℕ, ◌+◌, ◌≡◌, inr, refl, true, false, some, List, [], ◌∷◌, map, length, length-map, codes,
  if◌then◌else◌, str_eq, get, set,
}
use mcp4openapi.Dag.{
  Step, find_step, processed_names, init_nodes, add_dependencies, add_edges, release, release_all,
  process_nodes, roots, run, processed_count, check_processed, analyze_dag, topological_sort,
}
use mcp4openapi.Composite.{
  Json, null, scalar, object, Fields, empty, field, get_field, set_field, split_dots, store_at,
  store_result, Reply, fulfilled, rejected, StepError, CompositeResult, process_replies, run_levels,
  execute,
}
use mcp4openapi.Composite.Paths.{lookup, lookup-store_result}
use mcp4openapi.Composite.Batches.{AllReady, batches_of, execute-AllReady}
use mcp4openapi.Composite.Counts.{execute-counts}

abbrev mr_step : Step
mr_step = record { call = "GET /mr"; store_as = "mr"; depends_on = [] }

abbrev notes_step : Step
notes_step = record { call = "GET /notes"; store_as = "mr.notes"; depends_on = "mr" ∷ [] }

abbrev sample_steps : List Step
sample_steps = notes_step ∷ mr_step ∷ []

-- The merge request is an object, and its notes fail.
abbrev reply : Step → Reply
reply s = if str_eq s.store_as "mr" then fulfilled (object empty) else rejected "HTTP 500"

abbrev settle : List Step → ℕ → List Reply × ℕ
settle steps n = (map reply steps, n + 1)

abbrev error_text : StepError → Json
error_text e = scalar (codes e.error)

sample_batches :
    batches_of error_text settle true sample_steps 0 ≡ (mr_step ∷ []) ∷ (notes_step ∷ []) ∷ []
unfolding get set execute run_levels process_replies store_result store_at split_dots get_field
    set_field topological_sort analyze_dag init_nodes add_edges add_dependencies roots run
    process_nodes release release_all find_step check_processed processed_count processed_names
sample_batches = refl

execute-AllReady_example : AllReady [] (batches_of error_text settle true sample_steps 0)
execute-AllReady_example = execute-AllReady error_text settle true sample_steps 0

abbrev sample_result : CompositeResult
sample_result = record {
  contents =
      field (codes "mr") (object (field (codes "notes_error") (scalar (codes "HTTP 500")) empty))
        empty;
  completed_steps = 1;
  total_steps = 2;
  errors = record { step_index = 0; step_call = "GET /notes"; error = "HTTP 500" } ∷ [];
}

sample_executed : (execute error_text settle true sample_steps 0).0 ≡ inr sample_result
unfolding get set execute run_levels process_replies store_result store_at split_dots get_field
    set_field topological_sort analyze_dag init_nodes add_edges add_dependencies roots run
    process_nodes release release_all find_step check_processed processed_count processed_names
sample_executed = refl

execute-counts_example :
    (sample_result.completed_steps + length sample_result.errors ≡ length sample_steps)
    × (sample_result.total_steps ≡ length sample_steps)
execute-counts_example =
    execute-counts error_text settle true sample_steps 0 sample_result (λ ss v. length-map reply ss)
      sample_executed

abbrev before_notes : Fields
before_notes = field (codes "mr") (object empty) (field (codes "diff") null empty)

abbrev after_notes : Fields
after_notes =
    field (codes "mr") (object (field (codes "notes") null empty)) (field (codes "diff") null empty)

notes_stored : store_result (codes "mr.notes") null before_notes ≡ some after_notes
unfolding store_result store_at split_dots get_field set_field
notes_stored = refl

diff_other : text_eq (split_dots (codes "mr.notes")).0 (codes "diff") ≡ false
unfolding split_dots
diff_other = refl

lookup-store_result_example :
    (lookup (codes "mr.notes") after_notes ≡ some null)
    × (get_field (codes "diff") after_notes ≡ get_field (codes "diff") before_notes)
lookup-store_result_example =
    lookup-store_result (codes "mr.notes") (codes "diff") null before_notes after_notes notes_stored
      diff_other

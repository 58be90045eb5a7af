-- ===== src/Dag.antt =====
-- src/tooling/dag-executor.ts: the levels in which the steps of a composite tool can run.
pub mod Edges
pub mod Degrees
pub mod Release
pub mod Levels
pub mod Runs
pub mod Order
pub mod Sort
pub mod Acyclic
mod Tests
use mcp4openapi.Prelude.{
  ℕ, zero, suc, ◌+◌, String, Bool, true, false, not, Option, none, some, List, [], ◌∷◌, ◌++◌, map,
  Map, get, set, contains, keep, length, str_eq, ◌==◌, if◌then◌else◌, ℤ, pos, negsuc,
}

-- A step that names no dependencies has the empty list.
pub record Step : Type 0 where
  pub call : String
  pub store_as : String
  pub depends_on : List String

pub record ExecutionLevel : Type 0 where
  pub steps : List Step
  pub step_indices : List ℕ

-- The result of `analyzeDAG`: levels, or one of the two errors with the parts of its message.
pub data Analysis : Type 0 where
  levels : List ExecutionLevel → Analysis
  -- The step, and the dependency that no step produces.
  unknown : String → String → Analysis
  cyclic : List String → Analysis

-- `graph` and `inDegree`.
pub record Graph : Type 0 where
  pub dependents : Map (List String)
  pub in_degree : Map ℤ

abbrev pub has {ℓ} : {V : Type ℓ} → String → Map V → Bool
has k m = elim (get k m) [ none ↦ false | some v ↦ true ]

abbrev pub succ : ℤ → ℤ
succ (pos n) = pos (suc n)
succ (negsuc zero) = pos 0
succ (negsuc (suc n)) = negsuc n

abbrev pub pred : ℤ → ℤ
pred (pos zero) = negsuc 0
pred (pos (suc n)) = pos n
pred (negsuc n) = negsuc (suc n)

abbrev pub is_zero : ℤ → Bool
is_zero (pos zero) = true
is_zero (pos (suc n)) = false
is_zero (negsuc n) = false

-- `graph.get(node) || []`
abbrev pub neighbors : String → Map (List String) → List String
neighbors node m = elim (get node m) [ none ↦ [] | some nodes ↦ nodes ]

-- The first loop.
unfoldable pub init_nodes : List Step → Graph → Graph
init_nodes [] g = g
init_nodes (s ∷ steps) g = init_nodes steps (record {
  dependents = if has s.store_as g.dependents then g.dependents else set s.store_as [] g.dependents;
  in_degree = set s.store_as (pos 0) g.in_degree;
})

-- `inDegree.set(node, inDegree.get(node)! + 1)`; the node is there.
abbrev pub raise : String → Map ℤ → Map ℤ
raise node m = elim (get node m) [ none ↦ m | some degree ↦ set node (succ degree) m ]

abbrev pub add_edge : String → String → Graph → Graph
add_edge dep node g = record {
  dependents = set dep (neighbors dep g.dependents ++ node ∷ []) g.dependents;
  in_degree = raise node g.in_degree;
}

pub data Built : Type 0 where
  built : Graph → Built
  missing : String → String → Built

-- The loop over the dependencies of a step.
unfoldable pub add_dependencies : String → List String → Graph → Built
add_dependencies node [] g = built g
add_dependencies node (dep ∷ deps) g =
    if has dep g.in_degree
    then add_dependencies node deps (add_edge dep node g)
    else missing node dep

unfoldable pub add_edges : List Step → Graph → Built
add_edges [] g = built g
add_edges (s ∷ steps) g = elim (add_dependencies s.store_as s.depends_on g) [
  | missing node dep ↦ missing node dep
  | built g' ↦ add_edges steps g'
]

-- `steps.findIndex(s => s.store_as === node)`, with the step.
unfoldable pub find_step : String → ℕ → List Step → Option (ℕ × Step)
find_step node i [] = none
find_step node i (s ∷ steps) =
    if str_eq s.store_as node then some (i, s) else find_step node (suc i) steps

pub record Search : Type 0 where
  pub queue : List String
  pub in_degree : Map ℤ

-- One turn of the loop over the neighbors.
unfoldable pub release : String → Search → Search
release neighbor s = elim (get neighbor s.in_degree) [
  | none ↦ s
  | some degree ↦ record {
    queue = if is_zero (pred degree) then s.queue ++ neighbor ∷ [] else s.queue;
    in_degree = set neighbor (pred degree) s.in_degree;
  }
]

unfoldable pub release_all : List String → Search → Search
release_all [] s = s
release_all (n ∷ nodes) s = release_all nodes (release n s)

abbrev pub add_found : Option (ℕ × Step) → ExecutionLevel → ExecutionLevel
add_found none level = level
add_found (some (i, s)) level = record {
  steps = level.steps ++ s ∷ [];
  step_indices = level.step_indices ++ i ∷ [];
}

abbrev pub no_level : ExecutionLevel
no_level = record { steps = []; step_indices = [] }

-- `if (currentLevel.length > 0) levels.push(…)`
abbrev pub push_level : ExecutionLevel → List ExecutionLevel → List ExecutionLevel
push_level level done = elim level.steps [ [] ↦ done | s ∷ rest ↦ done ++ level ∷ [] ]

module _ (steps : List Step) (dependents : Map (List String)) where
  -- The loop over the nodes that stood in the queue when the level began.
  unfoldable pub process_nodes : ℕ → Search → ExecutionLevel → Search × ExecutionLevel
  process_nodes zero s level = (s, level)
  process_nodes (suc k) s level = elim s.queue [
    | [] ↦ (s, level)
    | node ∷ rest ↦
        process_nodes k (release_all (neighbors node dependents) (record s { queue = rest }))
          (add_found (find_step node 0 steps) level)
  ]

  -- The loop over the levels. A level takes at least one node off the queue, and no node is queued
  -- twice, so the number of steps is fuel enough.
  unfoldable pub run : ℕ → Search → List ExecutionLevel → Search × List ExecutionLevel
  run zero s done = (s, done)
  run (suc fuel) s done = elim s.queue [
    | [] ↦ (s, done)
    | node ∷ rest ↦
        let (s', level) = process_nodes (length s.queue) s no_level in
        run fuel s' (push_level level done)
  ]

-- The nodes of degree 0, in the order of the map.
unfoldable pub roots : Map ℤ → List String
roots [] = []
roots ((node, degree) ∷ rest) = if is_zero degree then node ∷ roots rest else roots rest

unfoldable pub processed_count : List ExecutionLevel → ℕ
processed_count [] = 0
processed_count (level ∷ ls) = length level.steps + processed_count ls

abbrev pub names : List Step → List String
names = map (λ s. s.store_as)

unfoldable pub processed_names : List ExecutionLevel → List String
processed_names [] = []
processed_names (level ∷ ls) = names level.steps ++ processed_names ls

unfoldable pub check_processed : List Step → List ExecutionLevel → Analysis
check_processed steps ls =
    if processed_count ls == length steps
    then levels ls
    else cyclic (keep (λ n. not (contains n (processed_names ls))) (names steps))

unfoldable pub analyze_dag : List Step → Analysis
analyze_dag steps =
    elim (add_edges steps (init_nodes steps (record { dependents = []; in_degree = [] }))) [
      | missing node dep ↦ unknown node dep
      | built g ↦
          check_processed steps
            (run steps g.dependents (length steps)
              (record { queue = roots g.in_degree; in_degree = g.in_degree }) []).1
    ]

-- `none` is the error that `topologicalSort` throws.
unfoldable pub topological_sort : List Step → Option (List ExecutionLevel)
topological_sort steps = elim (analyze_dag steps) [
  | levels ls ↦ some ls
  | unknown node dep ↦ none
  | cyclic nodes ↦ none
]

-- ===== src/Dag/Order.antt =====
-- The sort builds the graph or names an unknown dependency, and its search from the graph ends.
use mcp4openapi.Prelude.{
  ◌≡◌, ◌⊎◌, refl, ◌∙◌, inl, inr, String, true, List, [], ◌∷◌, ◌++◌, contains, eq_refl, arith,
  length, All,
}
use mcp4openapi.Dag.{
  Step, ExecutionLevel, Search, Graph, names, processed_names, init_nodes, roots, run, unknown,
  check_processed, analyze_dag,
}
use mcp4openapi.Dag.Edges.{Edges, edges, edges_into, targets, waiting}
use mcp4openapi.Dag.Degrees.{
  IsBuilt, no_nodes, init_nodes-IsBuilt, Unknown, add_edges-cases, contains-roots, roots-Nodup,
}
use mcp4openapi.Dag.Release.{IsSearch}
use mcp4openapi.Dag.Runs.{Finished, run_lem}

pub names_known : (steps : List Step) → All (λ s. contains s.store_as (names steps) ≡ true) steps
names_known steps = go steps (λ n h. h)
  where
    go :
        (ss : List Step)
        → ((n : String) → contains n (names ss) ≡ true → contains n (names steps) ≡ true)
        → All (λ s. contains s.store_as (names steps) ≡ true) ss
    go [] sub = tt
    go (s ∷ ss) sub =
        (sub s.store_as (rw (eq_refl s.store_as) refl), go ss (λ n h. sub n (ground arith)))

pub targets_known :
    (steps : List Step) (u : String)
    → All (λ n. contains n (names steps) ≡ true) (targets u (edges steps))
targets_known steps u = go steps (names_known steps)
  where
    into :
        (node : String) (deps : List String) (es : Edges)
        → contains node (names steps) ≡ true
        → All (λ n. contains n (names steps) ≡ true) (targets u es)
        → All (λ n. contains n (names steps) ≡ true) (targets u (edges_into node deps ++ es))
    into node [] es known h = h
    into node (d ∷ deps) es known h = ground (arith, into node deps es known h)

    go :
        (ss : List Step)
        → All (λ s. contains s.store_as (names steps) ≡ true) ss
        → All (λ n. contains n (names steps) ≡ true) (targets u (edges ss))
    go [] h = tt
    go (s ∷ ss) (known, h) = into s.store_as s.depends_on (edges ss) known (go ss h)

pub start : Graph → Search
start g = record { queue = roots g.in_degree; in_degree = g.in_degree }

start-Searching :
    (steps : List Step) (g : Graph)
    → (v : IsBuilt (names steps) (edges steps) g)
    → IsSearch (names steps) [] (waiting [] (edges steps)) (start g)
unfolding start
start-Searching steps g v = record {
  degree = v.degree;
  once = roots-Nodup g.in_degree v.keys;
  queued = λ n known. contains-roots g.in_degree n v.keys ∙ ground (arith, v.degree n);
  within = λ n h. ground (arith, v.degree n, contains-roots g.in_degree n v.keys);
}

-- The search from the first graph.
pub run_from : List Step → Graph → Search × List ExecutionLevel
run_from steps g = run steps g.dependents (length steps) (start g) []

pub run_from-Finished :
    (steps : List Step) (g : Graph)
    → (v : IsBuilt (names steps) (edges steps) g)
    → Finished steps g.dependents v.dependents (targets_known steps) (run_from steps g)
unfolding run_from processed_names
run_from-Finished steps g v =
    run_lem steps g.dependents v.dependents (targets_known steps) (length steps) [] (start g) []
      (start-Searching steps g v) (record { ordered = tt; processed = refl; located = tt })
      (omega arith)

pub analyze_dag-cases :
    (steps : List Step)
    → ((g : Graph) × IsBuilt (names steps) (edges steps) g
        × (analyze_dag steps ≡ check_processed steps (run_from steps g).1))
      ⊎ ((node : String) × (d : String) × (analyze_dag steps ≡ unknown node d)
          × Unknown (names steps) node d steps)
unfolding analyze_dag start run_from
analyze_dag-cases steps =
    elim (add_edges-cases (names steps) steps [] (init_nodes steps no_nodes)
      (init_nodes-IsBuilt steps) (names_known steps)) [
        | inl (g, e, v) ↦ inl (g, v, rw (e, analyze_dag) refl)
        | inr (node, d, e, u) ↦ inr (node, d, rw (e, analyze_dag) refl, u)
      ]

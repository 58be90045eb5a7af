-- ===== src/Dag/Sort.antt =====
-- What the sort returns, and when.
use mcp4openapi.Prelude.{
  some, none, ◌≡◌, refl, sym, ap, subst, ◌∙◌, inl, inr, String, true, false, not, List, [], ◌∷◌,
  ◌++◌, keep, contains, eq_iff, arith, Bool-cases, pos, length, length-append, length-map, All,
  All-map,
}
use mathlib.Core.List.{append-nil}
use mcp4openapi.Dag.{
  topological_sort, Analysis, unknown, Step, ExecutionLevel, Graph, is_zero, names, processed_names,
  levels, cyclic, processed_count, check_processed, analyze_dag,
}
use mcp4openapi.Dag.Edges.{edges, Nodup, waiting, waiting_for, has_edge, Nodup-length}
use mcp4openapi.Dag.Degrees.{IsBuilt}
use mcp4openapi.Dag.Levels.{IsLevel}
use mcp4openapi.Dag.Runs.{Ordered}
use mcp4openapi.Dag.Order.{run_from, run_from-Finished, analyze_dag-cases, names_known}

pub processed_count-length :
    (ls : List ExecutionLevel) → processed_count ls ≡ length (processed_names ls)
unfolding processed_count processed_names
processed_count-length [] = refl
processed_count-length (l ∷ ls) = omega (
  arith,
  processed_count-length ls,
  length-append (names l.steps) (processed_names ls),
  length-map (λ s. s.store_as) l.steps,
)

-- An order of all the steps, each once, each after those it depends on.
pub record IsOrder (steps : List Step) (ls : List ExecutionLevel) : Type 0 where
  pub ordered : Ordered [] ls
  pub once : Nodup (processed_names ls)
  pub complete : All (λ s. contains s.store_as (processed_names ls) ≡ true) steps
  pub counted : processed_count ls ≡ length steps
  pub located : All (λ l. IsLevel steps (names l.steps) l) ls

-- What the search leaves behind.
pub record IsEnd (steps : List Step) (ls : List ExecutionLevel) : Type 0 where
  pub ordered : Ordered [] ls
  pub once : Nodup (processed_names ls)
  pub located : All (λ l. IsLevel steps (names l.steps) l) ls
  pub within :
      (n : String) → contains n (processed_names ls) ≡ true → contains n (names steps) ≡ true
  pub free :
      (n : String)
      → contains n (names steps) ≡ true
      → contains n (processed_names ls)
        ≡ is_zero (pos (waiting (processed_names ls) (edges steps) n))

pub run_from-IsEnd :
    (steps : List Step) (g : Graph)
    → IsBuilt (names steps) (edges steps) g
    → IsEnd steps (run_from steps g).1
run_from-IsEnd steps g v =
    let (done, i, w, e) = run_from-Finished steps g v in
    let all_done : done ++ (run_from steps g).0.queue ≡ processed_names (run_from steps g).1 =
      rw (e, append-nil done) (sym w.processed) in
    record {
      ordered = w.ordered;
      once = rw (← all_done) i.once;
      located = w.located;
      within = rw (← all_done) i.within;
      free = λ n known.
          sym (ap (λ ns. contains n ns) all_done)
          ∙ i.queued n known
          ∙ ap (λ d. is_zero (pos (waiting d (edges steps) n))) (sym w.processed);
    }

pub check_processed-levels :
    (steps : List Step) (ls ms : List ExecutionLevel)
    → check_processed steps ls ≡ levels ms
    → (ls ≡ ms) × (processed_count ls ≡ length steps)
unfolding check_processed
check_processed-levels steps ls ms h = ground arith

pub check_processed-cyclic :
    (steps : List Step) (ls : List ExecutionLevel) (ns : List String)
    → check_processed steps ls ≡ cyclic ns
    → ns ≡ keep (λ n. not (contains n (processed_names ls))) (names steps)
unfolding check_processed
check_processed-cyclic steps ls ns h = ground arith

pub check_processed-count :
    (steps : List Step) (ls : List ExecutionLevel)
    → processed_count ls ≡ length steps
    → check_processed steps ls ≡ levels ls
unfolding check_processed
check_processed-count steps ls h = ground arith

module _ (steps : List Step) (ls : List ExecutionLevel) (v : IsEnd steps ls) where
  -- A search that took as many nodes as there are steps took every node.
  all_processed :
      (n : String)
      → processed_count ls ≡ length steps
      → contains n (names steps) ≡ true
      → contains n (processed_names ls) ≡ true
  all_processed n counted known = elim (Bool-cases (contains n (processed_names ls))) [
    | inl e ↦ e
    | inr fresh ↦
        let within : (z : String)
            → contains z (n ∷ processed_names ls) ≡ true
            → contains z (names steps) ≡ true =
          λ z h. ground (arith, v.within z, eq_iff n z) in
        absurd (
          omega (
            arith,
            counted,
            processed_count-length ls,
            length-map (λ s. s.store_as) steps,
            Nodup-length (n ∷ processed_names ls) (names steps) (fresh, v.once) within,
          ))
  ]

  IsEnd-IsOrder : processed_count ls ≡ length steps → IsOrder steps ls
  IsEnd-IsOrder counted = record {
    ordered = v.ordered;
    once = v.once;
    complete =
        All-map (λ s known. all_processed s.store_as counted known) steps (names_known steps);
    counted = counted;
    located = v.located;
  }

  -- A node left out has a dependency left out.
  pub left_out :
      (n : String)
      → contains n (names steps) ≡ true
      → contains n (processed_names ls) ≡ false
      → (d : String) × (has_edge d n (edges steps) ≡ true)
        × (contains d (processed_names ls) ≡ false)
  left_out n known out = elim (waiting_for (processed_names ls) (edges steps) n) [
    | inr found ↦ found
    | inl none_left ↦ absurd (ground (arith, v.free n known, none_left))
  ]

-- Levels that the analysis returns have every step in them once, each at its index and in a level
-- after those of the steps it depends on.
pub analyze_dag-IsOrder :
    (steps : List Step) (ls : List ExecutionLevel)
    → analyze_dag steps ≡ levels ls
    → IsOrder steps ls
analyze_dag-IsOrder steps ls h = elim (analyze_dag-cases steps) [
  | inr (node, d, e, u) ↦ absurd (cc)
  | inl (g, v, e) ↦
      let (same, counted) = check_processed-levels steps (run_from steps g).1 ls (sym e ∙ h) in
      subst (λ ms. IsOrder steps ms) same
        (IsEnd-IsOrder steps (run_from steps g).1 (run_from-IsEnd steps g v) counted)
]

pub topological_sort-IsOrder :
    (steps : List Step) (ls : List ExecutionLevel)
    → topological_sort steps ≡ some ls
    → IsOrder steps ls
unfolding topological_sort
topological_sort-IsOrder steps ls h = go (analyze_dag steps) refl
  where
    same : {ms : List ExecutionLevel} → some ms ≡ some ls → ms ≡ ls
    same k = cc

    refused : none ≡ some ls → ⊥
    refused k = cc

    go : (a : Analysis) → analyze_dag steps ≡ a → IsOrder steps ls
    go (levels ms) e =
        analyze_dag-IsOrder steps ls (e ∙ ap levels (same (rw (e, topological_sort) at h)))
    go (unknown node d) e = absurd (refused (rw (e, topological_sort) at h))
    go (cyclic nodes) e = absurd (refused (rw (e, topological_sort) at h))

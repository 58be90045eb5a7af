-- ===== src/Dag/Levels.antt =====
-- The search's levels: which nodes a level takes, and that they wait for none.
use mathlib.Core.List.{append_assoc, append-nil, map-append}
use mathlib.Core.Path.{fun_ext}
use mcp4openapi.Prelude.{
  ℕ, zero, suc, ◌+◌, ◌≡◌, refl, sym, ap, subst, ◌∙◌, inl, inr, String, true, false, Option, none,
  some, List, [], ◌∷◌, ◌++◌, map, Map, contains, str_eq, eq_iff, eq_refl, arith, Bool-cases, length,
  All, Among,
}
use mcp4openapi.Dag.{
  Step, ExecutionLevel, Search, neighbors, release_all, process_nodes, add_found, find_step, names,
}
use mcp4openapi.Dag.Edges.{Edges, contains-append, targets, waiting, waiting_snoc, Nodup-before}
use mcp4openapi.Dag.Release.{IsSearch, release_all-IsSearch, release_all-queue}

abbrev pub step_at : ℕ → List Step → Option Step
step_at i [] = none
step_at zero (s ∷ steps) = some s
step_at (suc i) (s ∷ steps) = step_at i steps

find_step-at :
    (node : String) (i : ℕ) (steps : List Step)
    → contains node (names steps) ≡ true
    → (j : ℕ) × (s : Step) × (find_step node i steps ≡ some (i + j, s))
      × (step_at j steps ≡ some s)
      × (s.store_as ≡ node)
      × Among s steps
unfolding find_step
find_step-at node i [] h = cc
find_step-at node i (s ∷ steps) h = elim (Bool-cases (str_eq s.store_as node)) [
  | inl same ↦ (
    0,
    s,
    rw same (ap (λ k. some (k, s)) (omega arith)),
    refl,
    (eq_iff s.store_as node).0 same,
    inl refl,
  )
  | inr other ↦
      let (j, t, found, there, e, among) = find_step-at node (suc i) steps (ground arith) in
      (suc j, t, rw other (found ∙ ap (λ k. some (k, t)) (omega arith)), there, e, inr among)
]

pub All-snoc :
    {A : Type 0} (P : A → Type 0) (xs : List A) (x : A) → All P xs → P x → All P (xs ++ x ∷ [])
All-snoc P [] x h p = (p, tt)
All-snoc P (y ∷ ys) x (q, h) p = (q, All-snoc P ys x h p)

module _ (steps : List Step) where
  -- A level's steps have these names and stand at its indices.
  pub record IsLevel (nodes : List String) (level : ExecutionLevel) : Type 0 where
    pub named : names level.steps ≡ nodes
    pub located : map (λ i. step_at i steps) level.step_indices ≡ map some level.steps
    pub among : All (λ s. Among s steps) level.steps

  step-IsLevel :
      (done : List String) (j : ℕ) (s : Step) (level : ExecutionLevel)
      → IsLevel done level
      → step_at j steps ≡ some s
      → Among s steps
      → IsLevel (done ++ s.store_as ∷ []) (add_found (some (j, s)) level)
  step-IsLevel done j s level v there among = record {
    named =
        map-append (λ t. t.store_as) level.steps (s ∷ [])
        ∙ ap (λ ns. ns ++ s.store_as ∷ []) v.named;
    located =
        map-append (λ i. step_at i steps) level.step_indices (j ∷ [])
        ∙ rw (v.located, there) (sym (map-append (λ t. some t) level.steps (s ∷ [])));
    among = All-snoc (λ t. Among t steps) level.steps s v.among among;
  }

  add_found-IsLevel :
      (done : List String) (node : String) (level : ExecutionLevel)
      → IsLevel done level
      → contains node (names steps) ≡ true
      → IsLevel (done ++ node ∷ []) (add_found (find_step node 0 steps) level)
  add_found-IsLevel done node level v known =
      let (j, s, found, there, same, among) = find_step-at node 0 steps known in
      let found_at : find_step node 0 steps ≡ some (j, s) =
        found ∙ ap (λ k. some (k, s)) (omega arith) in
      subst (λ n. IsLevel (done ++ n ∷ []) (add_found (find_step node 0 steps) level)) same
        (rw found_at (step-IsLevel done j s level v there among))

  module _ (es : Edges) (dependents : Map (List String))
      (built : (u : String) → neighbors u dependents ≡ targets u es)
      (into : (u : String) → All (λ n. contains n (names steps) ≡ true) (targets u es)) where
    abbrev Searching : List String → Search → Type 0
    Searching done s = IsSearch (names steps) done (waiting done es) s

    shift-Searching :
        (done : List String) (u : String) (rest : List String) (s : Search)
        → Searching done s
        → s.queue ≡ u ∷ rest
        → IsSearch (names steps) (done ++ u ∷ []) (waiting done es) (record s { queue = rest })
    shift-Searching done u rest s i e =
        let regroup : done ++ s.queue ≡ (done ++ u ∷ []) ++ rest =
          rw e (sym (append_assoc done (u ∷ []) rest)) in
        record {
          degree = i.degree;
          once = rw (← regroup) i.once;
          queued = rw (← regroup) i.queued;
          within = rw (← regroup) i.within;
        }

    -- One node taken off the queue.
    node-Searching :
        (done : List String) (u : String) (rest : List String) (s : Search)
        → Searching done s
        → s.queue ≡ u ∷ rest
        → Searching
            (done ++ u ∷ [])
            (release_all (neighbors u dependents) (record s { queue = rest }))
    node-Searching done u rest s i e =
        let fresh : contains u done ≡ false = Nodup-before done u rest (rw e at i.once) in
        rw (built u) (
          release_all-IsSearch (names steps) (done ++ u ∷ []) (waiting (done ++ u ∷ []) es)
            (targets u es) (record s { queue = rest })
            (subst (λ w. IsSearch (names steps) (done ++ u ∷ []) w (record s { queue = rest }))
              (fun_ext (λ n. waiting_snoc done u es n fresh)) (shift-Searching done u rest s i e))
            (into u))

    pub process_nodes_lem :
        (nodes tail done before : List String) (s : Search) (level : ExecutionLevel)
        → s.queue ≡ nodes ++ tail
        → Searching done s
        → IsLevel before level
        → Searching (done ++ nodes) (process_nodes steps dependents (length nodes) s level).0
          × IsLevel (before ++ nodes) (process_nodes steps dependents (length nodes) s level).1
    unfolding process_nodes
    process_nodes_lem [] tail done before s level e i v = (
      subst (λ d. Searching d s) (sym (append-nil done)) i,
      subst (λ b. IsLevel b level) (sym (append-nil before)) v,
    )
    process_nodes_lem (u ∷ nodes) tail done before s level e i v =
        let next = record s { queue = nodes ++ tail } in
        let (more, behind) = release_all-queue (neighbors u dependents) next in
        let known : contains u (names steps) ≡ true =
          i.within u
            (rw (e, contains-append u done (u ∷ (nodes ++ tail)), eq_refl u) (ground arith)) in
        let following = release_all (neighbors u dependents) next in
        let found = add_found (find_step u 0 steps) level in
        let after = process_nodes steps dependents (length nodes) following found in
        let (i', v') =
          process_nodes_lem nodes (tail ++ more) (done ++ u ∷ []) (before ++ u ∷ []) following found
            (behind ∙ append_assoc nodes tail more) (node-Searching done u (nodes ++ tail) s i e)
            (add_found-IsLevel before u level v known) in
        rw e (
          subst (λ d. Searching d after.0) (append_assoc done (u ∷ []) nodes) i',
          subst (λ b. IsLevel b after.1) (append_assoc before (u ∷ []) nodes) v',
        )

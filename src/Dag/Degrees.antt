-- ===== src/Dag/Degrees.antt =====
-- The graph that the first loops build: each node with its dependents and its degree.
use mathlib.Core.List.{append_assoc, append-nil}
use mcp4openapi.Prelude.{
  suc, ◌+◌, ◌≡◌, ◌⊎◌, refl, sym, subst, ◌∙◌, inl, inr, String, true, false, Option, none, some,
  List, [], ◌∷◌, ◌++◌, Map, get, set, get-set, set-Distinct, Distinct, contains, str_eq, eq_iff,
  eq_refl, if◌then◌else◌, arith, All, Bool-cases, Among, ℤ, pos,
}
use mcp4openapi.Dag.{
  Step, Graph, has, succ, is_zero, neighbors, init_nodes, raise, add_edge, built, missing,
  add_dependencies, add_edges, roots, names,
}
use mcp4openapi.Dag.Edges.{
  Edges, edges_into, edges, targets, waiting, has_edge, has_edge-append, Nodup,
}

targets-append : (u : String) (es fs : Edges) → targets u (es ++ fs) ≡ targets u es ++ targets u fs
targets-append u [] fs = refl
targets-append u ((d, n) ∷ es) fs = ground (arith, targets-append u es fs)

waiting-append :
    (es fs : Edges) (n : String) → waiting [] (es ++ fs) n ≡ waiting [] es n + waiting [] fs n
waiting-append [] fs n = ground arith
waiting-append ((d, m) ∷ es) fs n = ground (arith, waiting-append es fs n)

-- The nodes, their degrees and their dependents are those of the edges.
pub record IsBuilt (nodes : List String) (es : Edges) (g : Graph) : Type 0 where
  pub degree :
      (n : String)
      → get n g.in_degree ≡ (if contains n nodes then some (pos (waiting [] es n)) else none)
  pub dependents : (u : String) → neighbors u g.dependents ≡ targets u es
  pub keys : Distinct g.in_degree
  pub sources : (d n : String) → has_edge d n es ≡ true → contains d nodes ≡ true

init_nodes-degree :
    (steps : List Step) (g : Graph) (n : String)
    → get n (init_nodes steps g).in_degree
      ≡ (if contains n (names steps) then some (pos 0) else get n g.in_degree)
unfolding init_nodes
init_nodes-degree [] g n = refl
init_nodes-degree (s ∷ steps) g n =
    init_nodes-degree steps _ n ∙ ground (arith, get-set s.store_as n (pos 0) g.in_degree)

neighbors-init :
    (node u : String) (m : Map (List String))
    → neighbors u (if has node m then m else set node [] m) ≡ neighbors u m
neighbors-init node u m = ground (arith, get-set node u [] m, eq_iff node u)

neighbors-set :
    (k u : String) (v : List String) (m : Map (List String))
    → neighbors u (set k v m) ≡ (if str_eq k u then v else neighbors u m)
neighbors-set k u v m = ground (arith, get-set k u v m)

raise-Distinct : (node : String) (m : Map ℤ) → Distinct m → Distinct (raise node m)
raise-Distinct node m d = go (get node m) refl
  where
    go : (v : Option ℤ) → get node m ≡ v → Distinct (raise node m)
    go none missed = rw (missed, raise) d
    go (some v) there = rw (there, raise) (set-Distinct node (succ v) m d)

init_nodes-dependents :
    (steps : List Step) (g : Graph) (u : String)
    → neighbors u (init_nodes steps g).dependents ≡ neighbors u g.dependents
unfolding init_nodes
init_nodes-dependents [] g u = refl
init_nodes-dependents (s ∷ steps) g u =
    init_nodes-dependents steps _ u ∙ neighbors-init s.store_as u g.dependents

init_nodes-Distinct :
    (steps : List Step) (g : Graph) → Distinct g.in_degree → Distinct (init_nodes steps g).in_degree
unfolding init_nodes
init_nodes-Distinct [] g d = d
init_nodes-Distinct (s ∷ steps) g d =
    init_nodes-Distinct steps _ (set-Distinct s.store_as (pos 0) g.in_degree d)

abbrev pub no_nodes : Graph
no_nodes = record { dependents = []; in_degree = [] }

pub init_nodes-IsBuilt : (steps : List Step) → IsBuilt (names steps) [] (init_nodes steps no_nodes)
unfolding get
init_nodes-IsBuilt steps = record {
  degree = λ n. init_nodes-degree steps no_nodes n;
  dependents = λ u. init_nodes-dependents steps no_nodes u;
  keys = init_nodes-Distinct steps no_nodes tt;
  sources = λ d n h. absurd (cc);
}

module _ (nodes : List String) where
  raise-degree :
      (es : Edges) (m : Map ℤ) (dep node n : String)
      → ((k : String) → get k m ≡ (if contains k nodes then some (pos (waiting [] es k)) else none))
      → contains node nodes ≡ true
      → get n (raise node m)
        ≡ (if contains n nodes then some (pos (waiting [] (es ++ (dep, node) ∷ []) n)) else none)
  raise-degree es m dep node n h known =
      let there : get node m ≡ some (pos (waiting [] es node)) = h node ∙ rw known refl in
      ground (
        arith,
        there,
        get-set node n (pos (suc (waiting [] es node))) m,
        h n,
        waiting-append es ((dep, node) ∷ []) n,
        eq_iff node n,
      )

  add_edge-IsBuilt :
      (es : Edges) (g : Graph) (dep node : String)
      → IsBuilt nodes es g
      → contains node nodes ≡ true
      → contains dep nodes ≡ true
      → IsBuilt nodes (es ++ (dep, node) ∷ []) (add_edge dep node g)
  add_edge-IsBuilt es g dep node v known here = record {
    degree = λ n. raise-degree es g.in_degree dep node n v.degree known;
    dependents = λ u. ground (
      arith,
      neighbors-set dep u (neighbors dep g.dependents ++ node ∷ []) g.dependents,
      v.dependents u,
      v.dependents dep,
      targets-append u es ((dep, node) ∷ []),
      append-nil (targets u es),
      eq_iff dep u,
    );
    keys = raise-Distinct node g.in_degree v.keys;
    sources = λ d n h.
        ground (arith, has_edge-append d n es ((dep, node) ∷ []), v.sources d n, eq_iff dep d);
  }

  -- One turn of the loop over the dependencies.
  dependency_step :
      (node dep : String) (deps : List String) (es : Edges) (g : Graph)
      → IsBuilt nodes es g
      → add_dependencies node (dep ∷ deps) g ≡ (
          if contains dep nodes
          then add_dependencies node deps (add_edge dep node g)
          else missing node dep)
  unfolding add_dependencies
  dependency_step node dep deps es g v = ground (arith, v.degree dep)

  add_dependencies-cases :
      (node : String) (deps : List String) (es : Edges) (g : Graph)
      → IsBuilt nodes es g
      → contains node nodes ≡ true
      → ((g' : Graph) × (add_dependencies node deps g ≡ built g')
          × IsBuilt nodes (es ++ edges_into node deps) g')
        ⊎ ((d : String) × (add_dependencies node deps g ≡ missing node d)
            × (contains d deps ≡ true)
            × (contains d nodes ≡ false))
  unfolding add_dependencies
  add_dependencies-cases node [] es g v known =
      inl (g, refl, subst (λ fs. IsBuilt nodes fs g) (sym (append-nil es)) v)
  add_dependencies-cases node (dep ∷ deps) es g v known =
      let e = dependency_step node dep deps es g v in
      elim (Bool-cases (contains dep nodes)) [
        | inr unknown ↦ inr (dep, e ∙ rw unknown refl, rw (eq_refl dep) refl, unknown)
        | inl here ↦
            elim (add_dependencies-cases node deps (es ++ (dep, node) ∷ []) (add_edge dep node g)
              (add_edge-IsBuilt es g dep node v known here) known) [
                | inl (g', e', w) ↦ inl (
                  g',
                  e ∙ rw here e',
                  subst (λ fs. IsBuilt nodes fs g')
                      (append_assoc es ((dep, node) ∷ []) (edges_into node deps)) w,
                )
                | inr (d, e', in_deps, unknown) ↦ inr (d, e ∙ rw here e', ground arith, unknown)
              ]
      ]

  -- The dependency of a step that is no node.
  abbrev pub Unknown : String → String → List Step → Type 0
  Unknown node d steps =
      (s : Step) × Among s steps
      × (s.store_as ≡ node)
      × (contains d s.depends_on ≡ true)
      × (contains d nodes ≡ false)

  later-Unknown :
      (node d : String) (s : Step) (steps : List Step)
      → Unknown node d steps
      → Unknown node d (s ∷ steps)
  later-Unknown node d s steps (t, among, same, dep, fresh) = (t, inr among, same, dep, fresh)

  pub add_edges-cases :
      (steps : List Step) (es : Edges) (g : Graph)
      → IsBuilt nodes es g
      → All (λ s. contains s.store_as nodes ≡ true) steps
      → ((g' : Graph) × (add_edges steps g ≡ built g') × IsBuilt nodes (es ++ edges steps) g')
        ⊎ ((node : String) × (d : String) × (add_edges steps g ≡ missing node d)
            × Unknown node d steps)
  unfolding add_edges
  add_edges-cases [] es g v known =
      inl (g, refl, subst (λ fs. IsBuilt nodes fs g) (sym (append-nil es)) v)
  add_edges-cases (s ∷ steps) es g v (here, known) =
      elim (add_dependencies-cases s.store_as s.depends_on es g v here) [
        | inr (d, e, in_deps, unknown) ↦
            inr (s.store_as, d, rw (e, add_edges) refl, (s, inl refl, refl, in_deps, unknown))
        | inl (g', e, w) ↦
            elim (add_edges-cases steps (es ++ edges_into s.store_as s.depends_on) g' w known) [
              | inr (node, d, e', u) ↦
                  inr (node, d, rw (e, add_edges) e', later-Unknown node d s steps u)
              | inl (g'', e', w') ↦ inl (
                g'',
                rw (e, add_edges) e',
                subst (λ fs. IsBuilt nodes fs g'')
                    (append_assoc es (edges_into s.store_as s.depends_on) (edges steps)) w',
              )
            ]
      ]

pub contains-roots :
    (m : Map ℤ) (n : String)
    → Distinct m
    → contains n (roots m) ≡ (elim (get n m) [ none ↦ false | some d ↦ is_zero d ])
unfolding get roots
contains-roots [] n d = refl
contains-roots ((k, degree) ∷ m) n (fresh, d) = ground (arith, contains-roots m n d, eq_iff k n)

pub roots-Nodup : (m : Map ℤ) → Distinct m → Nodup (roots m)
unfolding get roots
roots-Nodup [] d = tt
roots-Nodup ((k, degree) ∷ m) (fresh, d) = ground (arith, roots-Nodup m d, contains-roots m k d)

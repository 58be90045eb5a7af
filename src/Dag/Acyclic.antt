-- ===== src/Dag/Acyclic.antt =====
-- When the sort succeeds, and what its errors name.
use mcp4openapi.Prelude.{
  ℕ, zero, suc, ◌<◌, ◌≡◌, ◌≢◌, refl, sym, subst, ◌∙◌, inl, inr, String, Bool, true, not, ◌&&◌, some,
  List, [], ◌∷◌, keep, contains, str_eq, eq_iff, arith, Bool-cases, length, length-map, all, All,
  Among,
}
use mcp4openapi.Dag.{
  Step, ExecutionLevel, names, processed_names, levels, unknown, cyclic, processed_count,
  check_processed, analyze_dag, topological_sort,
}
use mcp4openapi.Dag.Edges.{edges, Nodup, waiting_none, has_edge, edges-has_edge, Nodup-length}
use mcp4openapi.Dag.Degrees.{Unknown}
use mcp4openapi.Dag.Order.{run_from, analyze_dag-cases}
use mcp4openapi.Dag.Sort.{
  IsEnd, run_from-IsEnd, left_out, check_processed-cyclic, check_processed-count,
  processed_count-length,
}

check_processed-unknown :
    (steps : List Step) (ls : List ExecutionLevel) (node d : String)
    → check_processed steps ls ≢ unknown node d
unfolding check_processed
check_processed-unknown steps ls node d h = ground arith

-- An unknown dependency that the analysis names is one of that step's, and no step produces it.
pub analyze_dag-Unknown :
    (steps : List Step) (node d : String)
    → analyze_dag steps ≡ unknown node d
    → Unknown (names steps) node d steps
analyze_dag-Unknown steps node d h = elim (analyze_dag-cases steps) [
  | inr (m, e, known, u) ↦
      let same : (m ≡ node) × (e ≡ d) = ground (arith, known, h) in rw (← same.0, ← same.1) u
  | inl (g, v, e) ↦ absurd (check_processed-unknown steps (run_from steps g).1 node d (sym e ∙ h))
]

contains-keep :
    (p : String → Bool) (n : String) (xs : List String)
    → contains n (keep p xs) ≡ (contains n xs && p n)
contains-keep p n [] = refl
contains-keep p n (x ∷ xs) = ground (arith, contains-keep p n xs, eq_iff x n)

-- A step with the name that depends on `d`.
abbrev pub DependsOn : List Step → String → String → Type 0
DependsOn steps n d =
    (s : Step) × Among s steps × (s.store_as ≡ n) × (contains d s.depends_on ≡ true)

-- Every node that the circular error names has a dependency that the error names too.
pub analyze_dag-cyclic :
    (steps : List Step) (ns : List String) (n : String)
    → analyze_dag steps ≡ cyclic ns
    → contains n ns ≡ true
    → (d : String) × (contains d ns ≡ true) × DependsOn steps n d
analyze_dag-cyclic steps ns n h named = elim (analyze_dag-cases steps) [
  | inr (m, d, e, u) ↦ absurd (cc)
  | inl (g, v, e) ↦
      let ls = (run_from steps g).1 in
      let same = check_processed-cyclic steps ls ns (sym e ∙ h) in
      let split = contains-keep (λ m. not (contains m (processed_names ls))) n (names steps) in
      let (d, edge, out) =
        left_out steps ls (run_from-IsEnd steps g v) n (ground arith) (ground arith) in
      (
        d,
        rw same (
            contains-keep (λ m. not (contains m (processed_names ls))) d (names steps)
            ∙ rw (v.sources d n edge, out) refl),
        edges-has_edge steps d n edge,
      )
]

All-Among : (P : Step → Type 0) (s : Step) (steps : List Step) → Among s steps → All P steps → P s
All-Among P s [] h _ = absurd h
All-Among P s (t ∷ steps) (inl same) (p, h) = subst P (sym same) p
All-Among P s (t ∷ steps) (inr later) (p, h) = All-Among P s steps later h

All-contains :
    (P : String → Type 0) (d : String) (ds : List String) → contains d ds ≡ true → All P ds → P d
All-contains P d [] e h = absurd (cc)
All-contains P d (x ∷ ds) e (p, h) = elim (Bool-cases (str_eq x d)) [
  | inl same ↦ subst P ((eq_iff x d).0 same) p
  | inr other ↦ All-contains P d ds (ground arith) h
]

all-contains :
    (p : String → Bool) (d : String) (ds : List String)
    → contains d ds ≡ true
    → all p ds ≡ true
    → p d ≡ true
all-contains p d [] e h = absurd (cc)
all-contains p d (x ∷ ds) e h = ground (arith, all-contains p d ds, eq_iff x d)

-- A step produces each of the dependencies.
abbrev pub Knows : List Step → Step → Type 0
Knows steps s = all (λ d. contains d (names steps)) s.depends_on ≡ true

-- What the step depends on is of a lower rank.
abbrev pub Ranked : (String → ℕ) → Step → Type 0
Ranked rank s = All (λ d. rank d < rank s.store_as) s.depends_on

module _ (steps : List Step) (ls : List ExecutionLevel) (rank : String → ℕ) (v : IsEnd steps ls)
    (sources : (d n : String) → has_edge d n (edges steps) ≡ true → contains d (names steps) ≡ true)
    (ranked : All (Ranked rank) steps) where
  lower : (d n : String) → has_edge d n (edges steps) ≡ true → rank d < rank n
  lower d n edge =
      let (s, among, same, dep) = edges-has_edge steps d n edge in
      subst (λ m. rank d < rank m) same
        (All-contains (λ e. rank e < rank s.store_as) d s.depends_on dep
          (All-Among (Ranked rank) s steps among ranked))

  -- Every node is processed, those of a lower rank before it.
  ranked_processed :
      (bound : ℕ) (n : String)
      → rank n < bound
      → contains n (names steps) ≡ true
      → contains n (processed_names ls) ≡ true
  ranked_processed zero n h known = absurd (omega arith)
  ranked_processed (suc bound) n h known =
      let free =
        waiting_none (processed_names ls) (edges steps) n
          (λ d edge. ranked_processed bound d (omega (arith, lower d n edge)) (sources d n edge)) in
      v.free n known ∙ rw free refl

  ranked-count : Nodup (names steps) → processed_count ls ≡ length steps
  ranked-count distinct = omega (
    arith,
    processed_count-length ls,
    length-map (λ s. s.store_as) steps,
    Nodup-length (names steps) (processed_names ls) distinct
        (λ n. ranked_processed (suc (rank n)) n (omega arith)),
    Nodup-length (processed_names ls) (names steps) v.once v.within,
  )

topological_sort-levels :
    (steps : List Step) (ls : List ExecutionLevel)
    → analyze_dag steps ≡ levels ls
    → topological_sort steps ≡ some ls
unfolding topological_sort
topological_sort-levels steps ls h = rw (h, topological_sort) refl

-- Steps of distinct names whose dependencies are all produced, and none of them by a cycle, are
-- sorted.
pub topological_sort-some :
    (steps : List Step) (rank : String → ℕ)
    → Nodup (names steps)
    → All (Knows steps) steps
    → All (Ranked rank) steps
    → (ls : List ExecutionLevel) × (topological_sort steps ≡ some ls)
unfolding topological_sort
topological_sort-some steps rank distinct known ranked = elim (analyze_dag-cases steps) [
  | inr (node, d, e, (s, among, same, dep, fresh)) ↦
      let produced =
        all-contains (λ c. contains c (names steps)) d s.depends_on dep
          (All-Among (Knows steps) s steps among known) in
      absurd (cc)
  | inl (g, v, e) ↦
      let ls = (run_from steps g).1 in
      let counted =
        ranked-count steps ls rank (run_from-IsEnd steps g v) v.sources ranked distinct in
      (ls, topological_sort-levels steps ls (e ∙ check_processed-count steps ls counted))
]

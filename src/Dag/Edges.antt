-- ===== src/Dag/Edges.antt =====
-- Lists of nodes without repetition, and the edges that the steps stand for.
use mcp4openapi.Prelude.{
  ℕ, suc, ◌+◌, ◌≤◌, ◌≡◌, ◌⊎◌, refl, ◌∙◌, inl, inr, String, Bool, true, false, not, ◌&&◌, ◌||◌, List,
  [], ◌∷◌, ◌++◌, contains, length, str_eq, eq_iff, eq_refl, if◌then◌else◌, arith, Bool-cases, Among,
}
use mcp4openapi.Dag.{Step}

pub contains-append :
    (n : String) (xs ys : List String) → contains n (xs ++ ys) ≡ (contains n xs || contains n ys)
contains-append n [] ys = refl
contains-append n (x ∷ xs) ys = ground (arith, contains-append n xs ys)

abbrev pub Nodup : List String → Type 0
Nodup [] = Unit
Nodup (x ∷ xs) = (contains x xs ≡ false) × Nodup xs

pub Nodup-snoc :
    (xs : List String) (v : String) → Nodup xs → contains v xs ≡ false → Nodup (xs ++ v ∷ [])
Nodup-snoc [] v d h = (refl, tt)
Nodup-snoc (x ∷ xs) v (fresh, d) h =
    ground (arith, Nodup-snoc xs v d, contains-append x xs (v ∷ []), eq_iff x v, eq_iff v x)

pub Nodup-before :
    (xs : List String) (u : String) (ys : List String)
    → Nodup (xs ++ u ∷ ys)
    → contains u xs ≡ false
Nodup-before [] u ys d = refl
Nodup-before (x ∷ xs) u ys (fresh, d) =
    ground (arith, Nodup-before xs u ys d, contains-append x xs (u ∷ ys), eq_iff x u, eq_iff u x)

-- `ys` less the first occurrence of `x`.
erase : String → List String → List String
erase x [] = []
erase x (y ∷ ys) = if str_eq y x then ys else y ∷ erase x ys

length-erase :
    (x : String) (ys : List String) → contains x ys ≡ true → length (erase x ys) + 1 ≡ length ys
unfolding erase
length-erase x [] h = cc
length-erase x (y ∷ ys) h = ground (arith, length-erase x ys)

contains-erase :
    (x z : String) (ys : List String)
    → str_eq x z ≡ false
    → contains z ys ≡ true
    → contains z (erase x ys) ≡ true
unfolding erase
contains-erase x z [] ne h = cc
contains-erase x z (y ∷ ys) ne h =
    ground (arith, contains-erase x z ys ne, eq_iff y x, eq_iff y z, eq_iff x z)

-- A list without repetition is no longer than one that has all of its elements.
pub Nodup-length :
    (xs ys : List String)
    → Nodup xs
    → ((z : String) → contains z xs ≡ true → contains z ys ≡ true)
    → length xs ≤ length ys
Nodup-length [] ys d sub = omega arith
Nodup-length (x ∷ xs) ys (fresh, d) sub =
    let here = sub x (rw (eq_refl x) refl) in
    let rest : length xs ≤ length (erase x ys) =
      Nodup-length xs (erase x ys) d
        (λ z h. contains-erase x z ys (other z h) (sub z (ground arith))) in
    omega (arith, rest, length-erase x ys here)
  where
    other : (z : String) → contains z xs ≡ true → str_eq x z ≡ false
    other z h = ground (arith, eq_iff x z)

-- How often a node stands in a list.
abbrev pub count : String → List String → ℕ
count n [] = 0
count n (m ∷ ms) = if str_eq m n then suc (count n ms) else count n ms

abbrev pub Edges : Type 0
Edges = List (String × String)

-- The edges into a node, from each of its dependencies.
abbrev pub edges_into : String → List String → Edges
edges_into node [] = []
edges_into node (dep ∷ deps) = (dep, node) ∷ edges_into node deps

abbrev pub edges : List Step → Edges
edges [] = []
edges (s ∷ steps) = edges_into s.store_as s.depends_on ++ edges steps

abbrev pub targets : String → Edges → List String
targets u [] = []
targets u ((d, n) ∷ es) = if str_eq d u then n ∷ targets u es else targets u es

-- The number of edges into a node whose source is not done.
abbrev pub waiting : List String → Edges → String → ℕ
waiting done [] n = 0
waiting done ((d, m) ∷ es) n =
    if str_eq m n && not (contains d done) then suc (waiting done es n) else waiting done es n

pub waiting_snoc :
    (done : List String) (u : String) (es : Edges) (n : String)
    → contains u done ≡ false
    → waiting done es n ≡ count n (targets u es) + waiting (done ++ u ∷ []) es n
waiting_snoc done u [] n h = refl
waiting_snoc done u ((d, m) ∷ es) n h =
    ground
      (arith, waiting_snoc done u es n h, contains-append d done (u ∷ []), eq_iff d u, eq_iff u d)

abbrev pub has_edge : String → String → Edges → Bool
has_edge d n [] = false
has_edge d n ((e, m) ∷ es) = (str_eq e d && str_eq m n) || has_edge d n es

-- The sources of the edges into a node that waits for none are done.
pub waiting_zero :
    (done : List String) (es : Edges) (d n : String)
    → waiting done es n ≡ 0
    → has_edge d n es ≡ true
    → contains d done ≡ true
waiting_zero done [] d n h e = cc
waiting_zero done ((f, m) ∷ es) d n h e = ground (arith, waiting_zero done es d n, eq_iff f d)

pub waiting_none :
    (done : List String) (es : Edges) (n : String)
    → ((d : String) → has_edge d n es ≡ true → contains d done ≡ true)
    → waiting done es n ≡ 0
waiting_none done [] n h = refl
waiting_none done ((f, m) ∷ es) n h =
    ground (arith, h f, eq_refl f, waiting_none done es n (λ d e. h d (ground arith)))

pub has_edge-append :
    (d n : String) (es fs : Edges) → has_edge d n (es ++ fs) ≡ (has_edge d n es || has_edge d n fs)
has_edge-append d n [] fs = refl
has_edge-append d n ((e, m) ∷ es) fs = ground (arith, has_edge-append d n es fs)

pub has_edge-into :
    (d n m : String) (deps : List String)
    → has_edge d n (edges_into m deps) ≡ (str_eq m n && contains d deps)
has_edge-into d n m [] = ground arith
has_edge-into d n m (e ∷ deps) = ground (arith, has_edge-into d n m deps)

-- Each dependency of a step is an edge.
pub has_edge-edges :
    (s : Step) (steps : List Step) (d : String)
    → Among s steps
    → contains d s.depends_on ≡ true
    → has_edge d s.store_as (edges steps) ≡ true
has_edge-edges s [] d h e = absurd h
has_edge-edges s (t ∷ steps) d (inl same) e =
    has_edge-append d s.store_as (edges_into t.store_as t.depends_on) (edges steps)
    ∙ rw (← same)
        (rw (has_edge-into d s.store_as s.store_as s.depends_on, eq_refl s.store_as, e) refl)
has_edge-edges s (t ∷ steps) d (inr later) e =
    has_edge-append d s.store_as (edges_into t.store_as t.depends_on) (edges steps)
    ∙ ground (arith, has_edge-edges s steps d later e)

-- Each edge is a dependency of a step.
pub edges-has_edge :
    (steps : List Step) (d n : String)
    → has_edge d n (edges steps) ≡ true
    → (s : Step) × Among s steps × (s.store_as ≡ n) × (contains d s.depends_on ≡ true)
edges-has_edge [] d n h = cc
edges-has_edge (t ∷ steps) d n h =
    elim (Bool-cases (str_eq t.store_as n && contains d t.depends_on)) [
      | inl here ↦ (t, inl refl, (eq_iff t.store_as n).0 (ground arith), ground arith)
      | inr not_here ↦
          let (s, among, same, dep) = edges-has_edge steps d n (
            ground (
              arith,
              has_edge-append d n (edges_into t.store_as t.depends_on) (edges steps),
              has_edge-into d n t.store_as t.depends_on,
            )) in
          (s, inr among, same, dep)
    ]

-- A node that waits has an edge from a node that is not done.
pub waiting_for :
    (done : List String) (es : Edges) (n : String)
    → (waiting done es n ≡ 0)
      ⊎ ((d : String) × (has_edge d n es ≡ true) × (contains d done ≡ false))
waiting_for done [] n = inl refl
waiting_for done ((d, m) ∷ es) n = elim (Bool-cases (str_eq m n && not (contains d done))) [
  | inl here ↦ inr (d, ground (arith, eq_refl d), ground arith)
  | inr not_here ↦ elim (waiting_for done es n) [
    | inl none_left ↦ inl (rw not_here none_left)
    | inr (e, edge, undone) ↦ inr (e, ground arith, undone)
  ]
]

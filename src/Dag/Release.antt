-- ===== src/Dag/Release.antt =====
-- The search's queue: a node is put in it when no edge into the node comes from a node still to do.
use mathlib.Core.List.{append_assoc, append-nil}
use mathlib.Core.Path.{fun_ext}
use mcp4openapi.Prelude.{
  ℕ, suc, ◌+◌, ◌≡◌, refl, sym, ap, subst, ◌∙◌, inl, inr, String, true, false, Option, none, some,
  List, [], ◌∷◌, ◌++◌, get, set, get-set, contains, str_eq, eq_iff, eq_refl, if◌then◌else◌, arith,
  All, Bool-cases, ℤ, pos,
}
use mcp4openapi.Dag.{Search, is_zero, pred, release, release_all}
use mcp4openapi.Dag.Edges.{Nodup, Nodup-snoc, contains-append, count}

module _ (nodes : List String) where
  -- `done` are the nodes taken off the queue, and each node still waits for so many edges.
  pub record IsSearch (done : List String) (waits : String → ℕ) (s : Search) : Type 0 where
    pub degree :
        (n : String) → get n s.in_degree ≡ (if contains n nodes then some (pos (waits n)) else none)
    pub once : Nodup (done ++ s.queue)
    pub queued :
        (n : String)
        → contains n nodes ≡ true
        → contains n (done ++ s.queue) ≡ is_zero (pos (waits n))
    pub within : (n : String) → contains n (done ++ s.queue) ≡ true → contains n nodes ≡ true

  release_found :
      (v : String) (s : Search) (k : ℕ)
      → get v s.in_degree ≡ some (pos (suc k))
      → release v s ≡ record {
        queue = if is_zero (pos k) then s.queue ++ v ∷ [] else s.queue;
        in_degree = set v (pos k) s.in_degree;
      }
  unfolding release
  release_found v s k h = rw (h, release) refl

  abbrev lowered : String → ℕ → List String → Search → Search
  lowered v k queue s = record { queue = queue; in_degree = set v (pos k) s.in_degree }

  module _ (done : List String) (waits rest : String → ℕ) (v : String) (s : Search) where
    lowered-degree :
        IsSearch done waits s
        → contains v nodes ≡ true
        → ((n : String) → waits n ≡ (if str_eq v n then suc (rest n) else rest n))
        → (n : String)
        → get n (set v (pos (rest v)) s.in_degree)
          ≡ (if contains n nodes then some (pos (rest n)) else none)
    lowered-degree i known less n =
        ground (arith, get-set v n (pos (rest v)) s.in_degree, i.degree n, less n, eq_iff v n)

    waits_more :
        ((n : String) → waits n ≡ (if str_eq v n then suc (rest n) else rest n))
        → waits v ≡ suc (rest v)
    waits_more less = less v ∙ rw (eq_refl v) refl

    -- The node still waits for others.
    lowered-IsSearch :
        IsSearch done waits s
        → contains v nodes ≡ true
        → ((n : String) → waits n ≡ (if str_eq v n then suc (rest n) else rest n))
        → is_zero (pos (rest v)) ≡ false
        → IsSearch done rest (lowered v (rest v) s.queue s)
    lowered-IsSearch i known less more = record {
      degree = lowered-degree i known less;
      once = i.once;
      queued = λ n here. i.queued n here ∙ ground (arith, less n, eq_iff v n);
      within = i.within;
    }

    -- The node waits for no other, and goes to the end of the queue.
    queued-IsSearch :
        IsSearch done waits s
        → contains v nodes ≡ true
        → ((n : String) → waits n ≡ (if str_eq v n then suc (rest n) else rest n))
        → is_zero (pos (rest v)) ≡ true
        → IsSearch done rest (lowered v (rest v) (s.queue ++ v ∷ []) s)
    queued-IsSearch i known less free =
        let fresh : contains v (done ++ s.queue) ≡ false =
          i.queued v known ∙ rw (waits_more less) refl in
        let regroup : done ++ (s.queue ++ v ∷ []) ≡ (done ++ s.queue) ++ v ∷ [] =
          sym (append_assoc done s.queue (v ∷ [])) in
        record {
          degree = lowered-degree i known less;
          once = rw regroup (Nodup-snoc (done ++ s.queue) v i.once fresh);
          queued = λ n here.
              rw (regroup, contains-append n (done ++ s.queue) (v ∷ []), i.queued n here)
                (ground (arith, less n, eq_iff v n));
          within = λ n.
              rw (regroup, contains-append n (done ++ s.queue) (v ∷ []))
                (λ h. ground (arith, i.within n, eq_iff v n));
        }

    release-IsSearch :
        IsSearch done waits s
        → contains v nodes ≡ true
        → ((n : String) → waits n ≡ (if str_eq v n then suc (rest n) else rest n))
        → IsSearch done rest (release v s)
    release-IsSearch i known less =
        let e = release_found v s (rest v) (i.degree v ∙ rw (known, waits_more less) refl) in
        elim (Bool-cases (is_zero (pos (rest v)))) [
          | inl free ↦ rw (e, free) (queued-IsSearch i known less free)
          | inr more ↦ rw (e, more) (lowered-IsSearch i known less more)
        ]

  pub release_all-IsSearch :
      (done : List String) (rest : String → ℕ) (ns : List String) (s : Search)
      → IsSearch done (λ n. count n ns + rest n) s
      → All (λ n. contains n nodes ≡ true) ns
      → IsSearch done rest (release_all ns s)
  unfolding release_all
  release_all-IsSearch done rest [] s i known =
      subst (λ w. IsSearch done w s) (fun_ext (λ n. omega arith)) i
  release_all-IsSearch done rest (v ∷ ns) s i (here, known) =
      release_all-IsSearch done rest ns (release v s)
        (release-IsSearch done (λ n. count n (v ∷ ns) + rest n) (λ n. count n ns + rest n) v s i
          here (λ n. ground arith))
        known

release_queue :
    (v : String) (s : Search) → (more : List String) × ((release v s).queue ≡ s.queue ++ more)
unfolding release
release_queue v s = go (get v s.in_degree) refl
  where
    go :
        (d : Option ℤ)
        → get v s.in_degree ≡ d
        → (more : List String) × ((release v s).queue ≡ s.queue ++ more)
    go none e = ([], rw (e, release) (sym (append-nil s.queue)))
    go (some d) e = elim (Bool-cases (is_zero (pred d))) [
      | inl free ↦ (v ∷ [], rw (e, release, free) refl)
      | inr wait ↦ ([], rw (e, release, wait) (sym (append-nil s.queue)))
    ]

-- What is released is put behind what stands in the queue.
pub release_all-queue :
    (ns : List String) (s : Search)
    → (more : List String) × ((release_all ns s).queue ≡ s.queue ++ more)
unfolding release_all
release_all-queue [] s = ([], sym (append-nil s.queue))
release_all-queue (v ∷ ns) s =
    let (more, e) = release_queue v s in
    let (later, e') = release_all-queue ns (release v s) in
    (more ++ later, e' ∙ ap (λ q. q ++ later) e ∙ append_assoc s.queue more later)

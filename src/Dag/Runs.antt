-- ===== src/Dag/Runs.antt =====
-- The loop over the levels: every step comes after the steps it depends on, and the loop ends.
use mathlib.Core.List.{append_assoc, append-nil}
use mcp4openapi.Prelude.{
  ℕ, zero, suc, ◌+◌, ◌≤◌, ◌≡◌, refl, sym, ap, subst, ◌∙◌, String, true, List, [], ◌∷◌, ◌++◌, Map,
  contains, eq_refl, arith, length, length-append, length-map, all, All, Among,
}
use mcp4openapi.Dag.{
  Step, ExecutionLevel, Search, neighbors, process_nodes, run, push_level, no_level, names,
  processed_names,
}
use mcp4openapi.Dag.Edges.{
  edges, contains-append, targets, waiting, waiting_zero, has_edge-edges, Nodup-length,
}
use mcp4openapi.Dag.Release.{IsSearch}
use mcp4openapi.Dag.Levels.{All-snoc, IsLevel, process_nodes_lem}

-- All that the step depends on is done.
abbrev pub Ready : List String → Step → Type 0
Ready done s = all (λ d. contains d done) s.depends_on ≡ true

-- Each level's steps are ready when the levels before it are done.
abbrev pub Ordered : List String → List ExecutionLevel → Type 0
Ordered done [] = Unit
Ordered done (level ∷ ls) = All (Ready done) level.steps × Ordered (done ++ names level.steps) ls

Ordered-snoc :
    (done : List String) (ls : List ExecutionLevel) (level : ExecutionLevel)
    → Ordered done ls
    → All (Ready (done ++ processed_names ls)) level.steps
    → Ordered done (ls ++ level ∷ [])
unfolding processed_names
Ordered-snoc done [] level o r = (rw (append-nil done) at r, tt)
Ordered-snoc done (l ∷ ls) level (here, o) r = (
  here,
  Ordered-snoc (done ++ names l.steps) ls level o
      (rw (append_assoc done (names l.steps) (processed_names ls)) r),
)

processed_names-snoc :
    (ls : List ExecutionLevel) (level : ExecutionLevel)
    → processed_names (ls ++ level ∷ []) ≡ processed_names ls ++ names level.steps
unfolding processed_names
processed_names-snoc [] level = append-nil (names level.steps)
processed_names-snoc (l ∷ ls) level =
    ap (λ ns. names l.steps ++ ns) (processed_names-snoc ls level)
    ∙ sym (append_assoc (names l.steps) (processed_names ls) (names level.steps))

waits_for-Ready :
    (steps : List Step) (done : List String) (s : Step)
    → Among s steps
    → waiting done (edges steps) s.store_as ≡ 0
    → Ready done s
waits_for-Ready steps done s among free =
    go s.depends_on
      (λ d h. waiting_zero done (edges steps) d s.store_as free (has_edge-edges s steps d among h))
  where
    go :
        (ds : List String)
        → ((d : String) → contains d ds ≡ true → contains d done ≡ true)
        → all (λ d. contains d done) ds ≡ true
    go [] h = refl
    go (d ∷ ds) h = rw (h d (rw (eq_refl d) refl)) (go ds (λ e later. h e (ground arith)))

module _ (steps : List Step) (dependents : Map (List String))
    (built : (u : String) → neighbors u dependents ≡ targets u (edges steps))
    (into : (u : String)
      → All (λ n. contains n (names steps) ≡ true) (targets u (edges steps))) where
  abbrev pub Searching : List String → Search → Type 0
  Searching done s = IsSearch (names steps) done (waiting done (edges steps)) s

  -- The levels found so far.
  pub record IsSchedule (done : List String) (ls : List ExecutionLevel) : Type 0 where
    pub ordered : Ordered [] ls
    pub processed : processed_names ls ≡ done
    pub located : All (λ l. IsLevel steps (names l.steps) l) ls

  queued-Ready :
      (done : List String) (s : Search) (level : ExecutionLevel)
      → Searching done s
      → IsLevel steps s.queue level
      → All (Ready done) level.steps
  queued-Ready done s level i v = go level.steps v.among (λ n h. rw v.named at h)
    where
      free :
          (n : String)
          → contains n (names steps) ≡ true
          → contains n s.queue ≡ true
          → waiting done (edges steps) n ≡ 0
      free n known queued = ground (arith, i.queued n known, contains-append n done s.queue)

      go :
          (ss : List Step)
          → All (λ t. Among t steps) ss
          → ((n : String) → contains n (names ss) ≡ true → contains n s.queue ≡ true)
          → All (Ready done) ss
      go [] h sub = tt
      go (t ∷ ss) (among, h) sub =
          let queued = sub t.store_as (rw (eq_refl t.store_as) refl) in
          let known =
            i.within t.store_as (contains-append t.store_as done s.queue ∙ ground arith) in
          (
            waits_for-Ready steps done t among (free t.store_as known queued),
            go ss h (λ n e. sub n (ground arith)),
          )

  push_level_filled :
      (level : ExecutionLevel) (ls : List ExecutionLevel) (t : Step) (ss : List Step)
      → level.steps ≡ t ∷ ss
      → push_level level ls ≡ ls ++ level ∷ []
  push_level_filled level ls t ss e =
      subst (λ ts. elim ts [ [] ↦ ls | s ∷ rest ↦ ls ++ level ∷ [] ] ≡ ls ++ level ∷ []) (sym e)
        refl

  push_level-IsSchedule :
      (done queue : List String) (level : ExecutionLevel) (ls : List ExecutionLevel)
      → IsSchedule done ls
      → IsLevel steps queue level
      → All (Ready done) level.steps
      → IsSchedule (done ++ queue) (push_level level ls)
  push_level-IsSchedule done queue level ls v w ready = go level.steps refl
    where
      go : (ss : List Step) → level.steps ≡ ss → IsSchedule (done ++ queue) (push_level level ls)
      go [] e =
          let none_queued : queue ≡ [] = sym w.named ∙ rw e refl in
          rw (e, none_queued, append-nil done) v
      go (t ∷ ss) e = rw (push_level_filled level ls t ss e) (record {
        ordered = Ordered-snoc [] ls level v.ordered (rw v.processed ready);
        processed = processed_names-snoc ls level ∙ rw (v.processed, w.named) refl;
        located =
            All-snoc (λ l. IsLevel steps (names l.steps) l) ls level v.located
              (record { named = refl; located = w.located; among = w.among });
      })

  -- A level, with what is done after it.
  level_lem :
      (done : List String) (s : Search) (ls : List ExecutionLevel)
      → Searching done s
      → IsSchedule done ls
      → (let (s', level) = process_nodes steps dependents (length s.queue) s no_level in
          Searching (done ++ s.queue) s' × IsSchedule (done ++ s.queue) (push_level level ls))
  level_lem done s ls i v =
      let (i', w) =
        process_nodes_lem steps (edges steps) dependents built into s.queue [] done [] s no_level
          (sym (append-nil s.queue)) i (record { named = refl; located = refl; among = tt }) in
      (i', push_level-IsSchedule done s.queue _ ls v w (queued-Ready done s _ i w))

  queue_bound :
      (done : List String) (s : Search)
      → Searching done s
      → length done + length s.queue ≤ length steps
  queue_bound done s i = omega (
    arith,
    length-append done s.queue,
    length-map (λ t. t.store_as) steps,
    Nodup-length (done ++ s.queue) (names steps) i.once i.within,
  )

  abbrev pub Finished : Search × List ExecutionLevel → Type 0
  Finished r = (done : List String) × Searching done r.0 × IsSchedule done r.1 × (r.0.queue ≡ [])

  -- One turn of the loop.
  run_level : ℕ → Search → List ExecutionLevel → Search × List ExecutionLevel
  run_level fuel s ls =
      let (s', level) = process_nodes steps dependents (length s.queue) s no_level in
      run steps dependents fuel s' (push_level level ls)

  run_step :
      (fuel : ℕ) (s : Search) (ls : List ExecutionLevel) (u : String) (q : List String)
      → s.queue ≡ u ∷ q
      → run steps dependents (suc fuel) s ls ≡ run_level fuel s ls
  unfolding run run_level
  run_step fuel s ls u q e =
      subst
        (λ queue.
          elim queue [ [] ↦ (s, ls) | node ∷ rest ↦ run_level fuel s ls ] ≡ run_level fuel s ls)
        (sym e) refl

  pub run_lem :
      (fuel : ℕ) (done : List String) (s : Search) (ls : List ExecutionLevel)
      → Searching done s
      → IsSchedule done ls
      → length steps ≤ length done + fuel
      → Finished (run steps dependents fuel s ls)
  unfolding run run_level
  run_lem zero done s ls i v enough = (done, i, v, empty s.queue (queue_bound done s i))
    where
      empty : (q : List String) → length done + length q ≤ length steps → q ≡ []
      empty [] h = refl
      empty (u ∷ q) h = absurd (omega arith)
  run_lem (suc fuel) done s ls i v enough =
      let (i', v') = level_lem done s ls i v in
      go s.queue refl (run_lem fuel (done ++ s.queue) _ _ i' v')
    where
      go :
          (q : List String)
          → s.queue ≡ q
          → (length steps ≤ length (done ++ s.queue) + fuel → Finished (run_level fuel s ls))
          → Finished (run steps dependents (suc fuel) s ls)
      go [] e rest = rw (e, run) (done, i, v, e)
      go (u ∷ q) e rest =
          let longer : length (done ++ s.queue) ≡ length done + suc (length q) =
            length-append done s.queue ∙ rw e refl in
          rw (run_step fuel s ls u q e) (rest (omega arith))

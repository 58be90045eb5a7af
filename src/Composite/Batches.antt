-- ===== src/Composite/Batches.antt =====
-- The order in which the steps of a composite tool are requested.
use mathlib.Core.List.{append_assoc, append-nil}
use mcp4openapi.Prelude.{
  ◌≡◌, ◌⊎◌, refl, sym, subst, ◌∙◌, inl, inr, String, Bool, none, some, List, [], ◌∷◌, ◌++◌, All,
  Option-cases,
}
use mcp4openapi.Dag.{Step, ExecutionLevel, names, topological_sort}
use mcp4openapi.Dag.Runs.{Ready, Ordered}
use mcp4openapi.Dag.Sort.{topological_sort-IsOrder}
use mcp4openapi.Composite.{
  Json, Reply, StepError, Progress, Failure, no_progress, process_replies, run_levels, execute,
}

-- The steps that are requested at once.
abbrev pub Batches : Type 0
Batches = List (List Step)

-- Each step that is requested depends on steps of earlier batches only, whose replies are there.
abbrev pub AllReady : List String → Batches → Type 0
AllReady done [] = Unit
AllReady done (b ∷ bs) = All (Ready done) b × AllReady (done ++ names b) bs

module _ (error_json : StepError → Json) {W : Type 0}
    (settle_all : List Step → W → List Reply × W) where
  abbrev pub logged : List Step → Batches × W → List Reply × (Batches × W)
  logged steps (log, w) =
      let (replies, w') = settle_all steps w in (replies, (log ++ steps ∷ [], w'))

  -- The batches of an execution.
  abbrev pub batches_of : Bool → List Step → W → Batches
  batches_of allow_partial steps w = (execute error_json logged allow_partial steps ([], w)).1.0

  run_levels-AllReady :
      (allow_partial : Bool) (ls : List ExecutionLevel) (p : Progress) (done : List String)
      (log : Batches) (w : W)
      → Ordered done ls
      → (bs : Batches) × ((run_levels error_json logged allow_partial ls p (log, w)).1.0
          ≡ log ++ bs)
        × AllReady done bs
  unfolding run_levels
  run_levels-AllReady allow_partial [] p done log w o = ([], sym (append-nil log), tt)
  run_levels-AllReady allow_partial (l ∷ ls) p done log w (here, o) =
      go
        (process_replies error_json allow_partial l.steps l.step_indices (settle_all l.steps w).0 p)
        refl
        (λ p'.
          run_levels-AllReady allow_partial ls p' (done ++ names l.steps) (log ++ l.steps ∷ [])
            (settle_all l.steps w).1 o)
    where
      w' : W
      w' = (settle_all l.steps w).1

      Goal : (Failure ⊎ Progress) × (Batches × W) → Type 0
      Goal r = (bs : Batches) × (r.1.0 ≡ log ++ bs) × AllReady done bs

      go :
          (r : Failure ⊎ Progress)
          → process_replies error_json allow_partial l.steps l.step_indices
              (settle_all l.steps w).0
              p
            ≡ r
          → ((p' : Progress)
              → (bs : Batches) × ((run_levels error_json logged allow_partial ls p'
                    (log ++ l.steps ∷ [], w')).1.0
                  ≡ (log ++ l.steps ∷ []) ++ bs)
                × AllReady (done ++ names l.steps) bs)
          → Goal (run_levels error_json logged allow_partial (l ∷ ls) p (log, w))
      go (inl e) h rest = rw (h, run_levels) (l.steps ∷ [], refl, (here, tt))
      go (inr p') h rest =
          let (bs, e, a) = rest p' in
          rw (h, run_levels) (l.steps ∷ bs, e ∙ append_assoc log (l.steps ∷ []) bs, (here, a))

  execute-levels :
      (allow_partial : Bool) (steps : List Step) (ls : List ExecutionLevel) (w : W)
      → topological_sort steps ≡ some ls
      → batches_of allow_partial steps w
        ≡ (run_levels error_json logged allow_partial ls no_progress ([], w)).1.0
  unfolding execute
  execute-levels allow_partial steps ls w h = rw (batches_of, h, execute) refl

  execute-none :
      (allow_partial : Bool) (steps : List Step) (w : W)
      → topological_sort steps ≡ none
      → batches_of allow_partial steps w ≡ []
  unfolding execute
  execute-none allow_partial steps w h = rw (batches_of, h, execute) refl

  -- A step is requested when the replies for all steps that it depends on are there.
  pub execute-AllReady :
      (allow_partial : Bool) (steps : List Step) (w : W)
      → AllReady [] (batches_of allow_partial steps w)
  execute-AllReady allow_partial steps w = elim (Option-cases (topological_sort steps)) [
    | inl h ↦ subst (AllReady []) (sym (execute-none allow_partial steps w h)) tt
    | inr (ls, h) ↦
        let o = topological_sort-IsOrder steps ls h in
        let (bs, e, a) = run_levels-AllReady allow_partial ls no_progress [] [] w o.ordered in
        subst (AllReady []) (sym (execute-levels allow_partial steps ls w h ∙ e)) a
  ]

-- ===== src/Composite/Counts.antt =====
-- What an execution counts.
use mcp4openapi.Prelude.{
  ℕ, ◌+◌, ◌≡◌, ◌⊎◌, refl, sym, ap, ◌∙◌, inl, inr, Bool, none, some, List, [], ◌∷◌, ◌++◌, length,
  length-append, length-map, All, Bool-cases, Option-cases, arith, codes,
}
use mcp4openapi.Dag.{Step, ExecutionLevel, names, topological_sort, processed_count}
use mcp4openapi.Dag.Levels.{IsLevel, step_at}
use mcp4openapi.Dag.Sort.{topological_sort-IsOrder}
use mcp4openapi.Composite.{
  Json, Reply, fulfilled, rejected, StepError, Progress, CompositeResult, Failure, not_stored,
  invalid_steps, step_failed, no_progress, record_reply, store_result, error_path, process_replies,
  run_levels, execute, finish, to_result,
}

-- The replies that were taken in.
abbrev pub handled : Progress → ℕ
handled p = p.completed_steps + length p.errors

taken_same : (t q : Progress) (f : Failure ⊎ Progress) → f ≡ inr t → f ≡ inr q → t ≡ q
taken_same t q f a b = ground (arith, a, b)

refused :
    (r : CompositeResult) (f : Failure ⊎ CompositeResult) → f ≡ inl invalid_steps → f ≡ inr r → ⊥
refused r f a b = ground (arith, a, b)

finish-inr :
    (steps : List Step) (f : Failure ⊎ Progress) (r : CompositeResult)
    → finish steps f ≡ inr r
    → (q : Progress) × (f ≡ inr q) × (r ≡ to_result steps q)
finish-inr steps (inl e) r h = absurd (cc)
finish-inr steps (inr q) r h = (q, refl, ground (arith, h))

not_failed : (e : Failure) (q : Progress) (f : Failure ⊎ Progress) → f ≡ inl e → f ≡ inr q → ⊥
not_failed e q f a b = ground (arith, a, b)

module _ (error_json : StepError → Json) where
  record_reply-handled :
      (allow_partial : Bool) (s : Step) (index : ℕ) (r : Reply) (p q : Progress)
      → record_reply error_json allow_partial s index r p ≡ inr q
      → handled q ≡ handled p + 1
  record_reply-handled allow_partial s index (fulfilled body) p q h =
      elim (Option-cases (store_result (codes s.store_as) body p.result)) [
        | inl e ↦ absurd (not_failed not_stored q _ (rw (e, record_reply) refl) h)
        | inr (r, e) ↦
            rw
              (← taken_same (record p { result = r; completed_steps = p.completed_steps + 1 }) q
                (record_reply error_json allow_partial s index (fulfilled body) p)
                (rw (e, record_reply) refl) h)
              (omega arith)
      ]
  record_reply-handled allow_partial s index (rejected message) p q h =
      let e : StepError = record { step_index = index; step_call = s.call; error = message } in
      elim (Option-cases (store_result (error_path s) (error_json e) p.result)) [
        | inl k ↦ absurd (not_failed not_stored q _ (rw (k, record_reply) refl) h)
        | inr (r, k) ↦ elim (Bool-cases allow_partial) [
          | inr strict ↦ absurd (
              not_failed (step_failed e p.completed_steps) q _ (rw (k, strict, record_reply) refl)
                h)
          | inl partial ↦
              rw
                (← taken_same (record p { result = r; errors = p.errors ++ e ∷ [] }) q
                  (record_reply error_json allow_partial s index (rejected message) p)
                  (rw (k, partial, record_reply) refl) h)
                (omega (arith, length-append p.errors (e ∷ [])))
        ]
      ]

  process_replies-handled :
      (allow_partial : Bool) (steps : List Step) (indices : List ℕ) (replies : List Reply)
      (p q : Progress)
      → length indices ≡ length steps
      → length replies ≡ length steps
      → process_replies error_json allow_partial steps indices replies p ≡ inr q
      → handled q ≡ handled p + length steps
  unfolding process_replies
  process_replies-handled allow_partial [] indices replies p q li lr h =
      rw (← taken_same p q (inr p) refl h) (omega arith)
  process_replies-handled allow_partial (s ∷ steps) [] replies p q li lr h =
      absurd (omega (arith, li))
  process_replies-handled allow_partial (s ∷ steps) (i ∷ indices) [] p q li lr h =
      absurd (omega (arith, lr))
  process_replies-handled allow_partial (s ∷ steps) (i ∷ indices) (r ∷ replies) p q li lr h =
      go (record_reply error_json allow_partial s i r p) refl (λ t k.
        process_replies-handled allow_partial steps indices replies t q (omega arith) (omega arith)
          k)
    where
      go :
          (f : Failure ⊎ Progress)
          → record_reply error_json allow_partial s i r p ≡ f
          → ((t : Progress)
              → process_replies error_json allow_partial steps indices replies t ≡ inr q
              → handled q ≡ handled t + length steps)
          → handled q ≡ handled p + length (s ∷ steps)
      go (inl e) k rest = absurd (not_failed e q _ refl (rw (k, process_replies) at h))
      go (inr t) k rest = omega (
        arith,
        rest t (rw (k, process_replies) at h),
        record_reply-handled allow_partial s i r p t k,
      )

  module _ {W : Type 0} (settle_all : List Step → W → List Reply × W) where
    run_levels-handled :
        (all_steps : List Step) (allow_partial : Bool) (ls : List ExecutionLevel) (p q : Progress)
        (w : W)
        → ((steps : List Step) (v : W) → length (settle_all steps v).0 ≡ length steps)
        → All (λ l. IsLevel all_steps (names l.steps) l) ls
        → (run_levels error_json settle_all allow_partial ls p w).0 ≡ inr q
        → handled q ≡ handled p + processed_count ls
    unfolding run_levels processed_count
    run_levels-handled all_steps allow_partial [] p q w full v h =
        rw (← taken_same p q (inr p) refl h) (omega arith)
    run_levels-handled all_steps allow_partial (l ∷ ls) p q w full (v, vs) h =
        go
          (process_replies error_json allow_partial l.steps l.step_indices (settle_all l.steps w).0
            p)
          refl
          (λ t k.
            run_levels-handled all_steps allow_partial ls t q (settle_all l.steps w).1 full vs k)
      where
        go :
            (f : Failure ⊎ Progress)
            → process_replies error_json allow_partial l.steps l.step_indices
                (settle_all l.steps w).0
                p
              ≡ f
            → ((t : Progress)
                → (run_levels error_json settle_all allow_partial ls t (settle_all l.steps w).1).0
                  ≡ inr q
                → handled q ≡ handled t + processed_count ls)
            → handled q ≡ handled p + processed_count (l ∷ ls)
        go (inl e) k rest = absurd (not_failed e q _ refl (rw (k, run_levels) at h))
        go (inr t) k rest =
            let counts : length l.step_indices ≡ length l.steps =
              sym (length-map (λ i. step_at i all_steps) l.step_indices)
              ∙ ap length v.located
              ∙ length-map (λ s. some s) l.steps in
            omega (
              arith,
              rest t (rw (k, run_levels) at h),
              process_replies-handled allow_partial l.steps l.step_indices (settle_all l.steps w).0
                  p t counts (full l.steps w) k,
            )

    execute-none :
        (allow_partial : Bool) (steps : List Step) (w : W)
        → topological_sort steps ≡ none
        → (execute error_json settle_all allow_partial steps w).0 ≡ inl invalid_steps
    unfolding execute
    execute-none allow_partial steps w e = rw (e, execute) refl

    execute-some :
        (allow_partial : Bool) (steps : List Step) (ls : List ExecutionLevel) (w : W)
        → topological_sort steps ≡ some ls
        → (execute error_json settle_all allow_partial steps w).0
          ≡ finish steps (run_levels error_json settle_all allow_partial ls no_progress w).0
    unfolding execute
    execute-some allow_partial steps ls w e = rw (e, execute) refl

    -- An execution that returns accounts for every step, as completed or with an error.
    pub execute-counts :
        (allow_partial : Bool) (steps : List Step) (w : W) (r : CompositeResult)
        → ((ss : List Step) (v : W) → length (settle_all ss v).0 ≡ length ss)
        → (execute error_json settle_all allow_partial steps w).0 ≡ inr r
        → (r.completed_steps + length r.errors ≡ length steps) × (r.total_steps ≡ length steps)
    execute-counts allow_partial steps w r full h = elim (Option-cases (topological_sort steps)) [
      | inl e ↦ absurd (refused r _ (execute-none allow_partial steps w e) h)
      | inr (ls, e) ↦
          let o = topological_sort-IsOrder steps ls e in
          let (q, k, same) =
            finish-inr steps (run_levels error_json settle_all allow_partial ls no_progress w).0 r
              (sym (execute-some allow_partial steps ls w e) ∙ h) in
          let counted =
            run_levels-handled steps allow_partial ls no_progress q w full o.located k in
          rw same (omega (arith, counted, o.counted), refl)
    ]

-- ===== src/Workflow/Labels.antt =====
-- The states that the planned changes lead to.
use mcp4openapi.Prelude.{
  ◌≡◌, refl, ap, ◌∙◌, inl, inr, String, Bool, true, false, not, ◌&&◌, ◌||◌, [], ◌∷◌, ◌++◌, keep,
  contains, str_eq, eq_iff, arith, Bool-cases,
}
use mcp4openapi.Workflow.{
  Labels, needs_plan, planned, implementing, WorkflowLabelMutation, unique_labels, mutation,
  find_state, detect_issue_workflow_state, plan_issuer_transition, plan_planner_transition,
  plan_implementor_start, empty_mutation, plan_reviewer_completion, ReviewerVerdictState, approved,
  changes_requested, commented, has_review_in_progress_signal, has_review_done_signal, changed,
}

contains-append :
    (l : String) (xs ys : Labels) → contains l (xs ++ ys) ≡ (contains l xs || contains l ys)
contains-append l [] ys = refl
contains-append l (x ∷ xs) ys = ground (arith, contains-append l xs ys)

contains-keep :
    (l : String) (remove xs : Labels)
    → contains l (keep (λ k. not (contains k remove)) xs)
      ≡ (contains l xs && not (contains l remove))
contains-keep l remove [] = refl
contains-keep l remove (x ∷ xs) = elim (Bool-cases (str_eq x l)) [
  | inr other ↦ ground (arith, contains-keep l remove xs)
  | inl same ↦
      let gone : contains x remove ≡ contains l remove =
        ap (λ k. contains k remove) ((eq_iff x l).0 same) in
      ground (arith, contains-keep l remove xs)
]

-- A label after a change.
contains-changed :
    (l : String) (m : WorkflowLabelMutation) (labels : Labels)
    → contains l (changed m labels)
      ≡ ((contains l labels && not (contains l m.labels_to_remove)) || contains l m.labels_to_add)
contains-changed l m labels =
    contains-append l _ m.labels_to_add
    ∙ ap (λ b. b || contains l m.labels_to_add) (contains-keep l m.labels_to_remove labels)

abbrev plan : WorkflowLabelMutation
plan = record {
  labels_to_add = "agent:planned" ∷ "agent:safe" ∷ [];
  labels_to_remove = "agent:needs-plan" ∷ "agent:blocked" ∷ [];
}

planner_lem :
    (labels : Labels) (w : Bool)
    → contains "human:hold" labels ≡ false
    → contains "agent:implementing" labels ≡ false
    → plan_planner_transition labels true w ≡ plan
unfolding plan_planner_transition mutation unique_labels
planner_lem labels w h i = rw (h, i, plan_planner_transition) refl

record Ready (labels : Labels) : Type 0 where
  hold : contains "human:hold" labels ≡ false
  blocked : contains "agent:blocked" labels ≡ false
  implementing : contains "agent:implementing" labels ≡ false
  planned : contains "agent:planned" labels ≡ true
  safe : contains "agent:safe" labels ≡ true

planner-Ready :
    (labels : Labels) (w : Bool)
    → contains "human:hold" labels ≡ false
    → contains "agent:implementing" labels ≡ false
    → Ready (changed (plan_planner_transition labels true w) labels)
planner-Ready labels w h i = rw (planner_lem labels w h i) (record {
  hold = contains-changed "human:hold" plan labels ∙ rw h refl;
  blocked = contains-changed "agent:blocked" plan labels ∙ ground arith;
  implementing = contains-changed "agent:implementing" plan labels ∙ rw i refl;
  planned = contains-changed "agent:planned" plan labels ∙ ground arith;
  safe = contains-changed "agent:safe" plan labels ∙ ground arith;
})

Ready-planned : (labels : Labels) → Ready labels → detect_issue_workflow_state labels ≡ planned
unfolding detect_issue_workflow_state find_state
Ready-planned labels r = ground (arith, r.hold, r.blocked, r.implementing, r.planned)

record Waiting (labels : Labels) : Type 0 where
  hold : contains "human:hold" labels ≡ false
  blocked : contains "agent:blocked" labels ≡ false
  implementing : contains "agent:implementing" labels ≡ false
  planned : contains "agent:planned" labels ≡ false
  asked : (contains "agent:safe" labels || contains "agent:needs-plan" labels) ≡ true

abbrev ask : WorkflowLabelMutation
ask = record {
  labels_to_add = "agent:safe" ∷ "agent:needs-plan" ∷ [];
  labels_to_remove = "agent:blocked" ∷ [];
}

abbrev unblock : WorkflowLabelMutation
unblock = record { labels_to_add = []; labels_to_remove = "agent:blocked" ∷ [] }

module _ (labels : Labels) (h : contains "human:hold" labels ≡ false)
    (i : contains "agent:implementing" labels ≡ false)
    (p : contains "agent:planned" labels ≡ false) where
  unblock-Waiting :
      (m : WorkflowLabelMutation)
      → m.labels_to_remove ≡ "agent:blocked" ∷ []
      → (contains "human:hold" m.labels_to_add ≡ false)
        × (contains "agent:blocked" m.labels_to_add ≡ false)
        × (contains "agent:implementing" m.labels_to_add ≡ false)
        × (contains "agent:planned" m.labels_to_add ≡ false)
      → ((contains "agent:safe" labels || contains "agent:needs-plan" labels)
          || (contains "agent:safe" m.labels_to_add || contains "agent:needs-plan" m.labels_to_add))
        ≡ true
      → Waiting (changed m labels)
  unblock-Waiting m e (nh, nb, ni, np) asked = record {
    hold = contains-changed "human:hold" m labels ∙ rw (h, nh) refl;
    blocked = contains-changed "agent:blocked" m labels ∙ rw (e, nb) (ground arith);
    implementing = contains-changed "agent:implementing" m labels ∙ rw (i, ni) refl;
    planned = contains-changed "agent:planned" m labels ∙ rw (p, np) refl;
    asked =
        rw (contains-changed "agent:safe" m labels, contains-changed "agent:needs-plan" m labels, e)
          (ground arith);
  }

  issuer-Waiting : Waiting (changed (plan_issuer_transition labels true) labels)
  unfolding plan_issuer_transition mutation unique_labels
  issuer-Waiting =
      elim (Bool-cases (contains "agent:safe" labels && contains "agent:needs-plan" labels)) [
        | inr new ↦
            let same : plan_issuer_transition labels true ≡ ask =
              rw (h, i, p, new, plan_issuer_transition) refl in
            rw same (unblock-Waiting ask refl (refl, refl, refl, refl) (ground arith))
        | inl old ↦ elim (Bool-cases (contains "agent:blocked" labels)) [
          | inl stuck ↦
              let same : plan_issuer_transition labels true ≡ unblock =
                rw (h, i, p, old, stuck, plan_issuer_transition) refl in
              rw same (unblock-Waiting unblock refl (refl, refl, refl, refl) (ground arith))
          | inr free ↦
              let same : plan_issuer_transition labels true ≡ empty_mutation =
                rw (h, i, p, old, free, plan_issuer_transition) refl in
              rw same (record {
                hold = contains-changed "human:hold" empty_mutation labels ∙ rw h refl;
                blocked = contains-changed "agent:blocked" empty_mutation labels ∙ rw free refl;
                implementing =
                    contains-changed "agent:implementing" empty_mutation labels ∙ rw i refl;
                planned = contains-changed "agent:planned" empty_mutation labels ∙ rw p refl;
                asked =
                    rw
                      (
                        contains-changed "agent:safe" empty_mutation labels,
                        contains-changed "agent:needs-plan" empty_mutation labels,
                      )
                      (ground arith);
              })
        ]
      ]

Waiting-needs_plan :
    (labels : Labels) → Waiting labels → detect_issue_workflow_state labels ≡ needs_plan
unfolding detect_issue_workflow_state find_state
Waiting-needs_plan labels r = ground (arith, r.hold, r.blocked, r.implementing, r.planned, r.asked)

abbrev start : WorkflowLabelMutation
start = record {
  labels_to_add = "agent:implementing" ∷ [];
  labels_to_remove = "agent:blocked" ∷ [];
}

module _ (labels : Labels) (r : Ready labels) where
  start_lem : plan_implementor_start labels false ≡ start
  unfolding plan_implementor_start mutation unique_labels
  start_lem = rw (r.hold, r.implementing, r.safe, r.planned, plan_implementor_start) refl

  start-implementing :
      detect_issue_workflow_state (changed (plan_implementor_start labels false) labels)
      ≡ implementing
  unfolding detect_issue_workflow_state find_state
  start-implementing = rw start_lem (
      ground (
        arith,
        contains-changed "human:hold" start labels,
        contains-changed "agent:blocked" start labels,
        contains-changed "agent:implementing" start labels,
        r.hold,
      ))

-- The labels after each agent.
abbrev pub issued : Labels → Labels
issued labels = changed (plan_issuer_transition labels true) labels

abbrev pub with_plan : Labels → Labels
with_plan labels = changed (plan_planner_transition labels true false) labels

abbrev pub started : Labels → Labels
started labels = changed (plan_implementor_start labels false) labels

-- An issue that is not held, planned or implementing, and that the issuer and the planner find
-- suitable, goes through the states needs-plan, planned and implementing as the issuer, the planner
-- and the implementor change its labels, whatever other labels it has and also if it was blocked.
pub lifecycle :
    (labels : Labels)
    → contains "human:hold" labels ≡ false
    → contains "agent:implementing" labels ≡ false
    → contains "agent:planned" labels ≡ false
    → (detect_issue_workflow_state (issued labels) ≡ needs_plan)
      × (detect_issue_workflow_state (with_plan (issued labels)) ≡ planned)
      × (detect_issue_workflow_state (started (with_plan (issued labels))) ≡ implementing)
lifecycle labels h i p =
    let waiting = issuer-Waiting labels h i p in
    let ready = planner-Ready (issued labels) false waiting.hold waiting.implementing in
    (
      Waiting-needs_plan (issued labels) waiting,
      Ready-planned (with_plan (issued labels)) ready,
      start-implementing (with_plan (issued labels)) ready,
    )

abbrev declined : WorkflowLabelMutation
declined = record {
  labels_to_add = [];
  labels_to_remove =
      "agent:review:done" ∷ "agent:review:in-progress" ∷ "agent:reviewing" ∷ "agent:reviewed" ∷ [];
}

abbrev accepted : WorkflowLabelMutation
accepted = record {
  labels_to_add = "agent:review:done" ∷ [];
  labels_to_remove = "agent:review:in-progress" ∷ "agent:reviewing" ∷ "agent:reviewed" ∷ [];
}

declined_lem :
    (labels : Labels)
    → (has_review_in_progress_signal (changed declined labels) ≡ false)
      × (has_review_done_signal (changed declined labels) ≡ contains "agent:ready-to-merge" labels)
unfolding has_review_in_progress_signal has_review_done_signal
declined_lem labels = (
  rw
      (
        contains-changed "agent:review:in-progress" declined labels,
        contains-changed "agent:reviewing" declined labels,
      )
      (ground arith),
  rw
      (
        contains-changed "agent:review:done" declined labels,
        contains-changed "agent:reviewed" declined labels,
        contains-changed "agent:ready-to-merge" declined labels,
      )
      (ground arith),
)

accepted_lem :
    (labels : Labels)
    → (has_review_in_progress_signal (changed accepted labels) ≡ false)
      × (has_review_done_signal (changed accepted labels) ≡ true)
unfolding has_review_in_progress_signal has_review_done_signal
accepted_lem labels = (
  rw
      (
        contains-changed "agent:review:in-progress" accepted labels,
        contains-changed "agent:reviewing" accepted labels,
      )
      (ground arith),
  rw (contains-changed "agent:review:done" accepted labels) (ground arith),
)

-- After a review no signal says that it is in progress. Where changes are requested, the review
-- counts as done only by the label for a pull request ready to merge, else it counts as done.
pub plan_reviewer_completion_lem :
    (labels : Labels) (verdict : ReviewerVerdictState)
    → (has_review_in_progress_signal (changed (plan_reviewer_completion verdict) labels) ≡ false)
      × (has_review_done_signal (changed (plan_reviewer_completion verdict) labels) ≡ elim verdict [
        | changes_requested ↦ contains "agent:ready-to-merge" labels
        | approved ↦ true
        | commented ↦ true
      ])
unfolding plan_reviewer_completion mutation unique_labels has_review_in_progress_signal
    has_review_done_signal
plan_reviewer_completion_lem labels changes_requested = declined_lem labels
plan_reviewer_completion_lem labels approved = accepted_lem labels
plan_reviewer_completion_lem labels commented = accepted_lem labels

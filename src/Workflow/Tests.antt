-- ===== src/Workflow/Tests.antt =====
-- An issue that was blocked and a pull request under review.
use mcp4openapi.Prelude.{◌≡◌, refl, [], ◌∷◌}
use mcp4openapi.Workflow.{
  Labels, needs_plan, planned, implementing, review_in_progress, pr_created, unique_labels,
  mutation, find_state, detect_issue_workflow_state, detect_pull_request_workflow_state,
  plan_issuer_transition, plan_planner_transition, plan_implementor_start,
  plan_implementor_completion, has_review_in_progress_signal, changed,
}
use mcp4openapi.Workflow.Labels.{issued, with_plan, started, lifecycle}

abbrev stuck : Labels
stuck = "bug" ∷ "agent:blocked" ∷ []

lifecycle_example :
    (detect_issue_workflow_state (issued stuck) ≡ needs_plan)
    × (detect_issue_workflow_state (with_plan (issued stuck)) ≡ planned)
    × (detect_issue_workflow_state (started (with_plan (issued stuck))) ≡ implementing)
lifecycle_example = lifecycle stuck refl refl refl

-- The pull request is there: the issue is planned again.
after_implementor :
    detect_issue_workflow_state
      (changed (plan_implementor_completion pr_created) (started (with_plan (issued stuck))))
    ≡ planned
unfolding plan_implementor_completion plan_issuer_transition plan_planner_transition
    plan_implementor_start mutation unique_labels detect_issue_workflow_state find_state
after_implementor = refl

abbrev in_review : Labels
in_review = "agent:created" ∷ "agent:reviewing" ∷ []

legacy_label_counts : detect_pull_request_workflow_state in_review ≡ review_in_progress
unfolding detect_pull_request_workflow_state find_state has_review_in_progress_signal
legacy_label_counts = refl

-- ===== src/Workflow.antt =====
-- src/automation/agent-workflow-state.ts: the states that the labels of an issue and of a pull
-- request stand for, and the changes of labels that the agents plan.
pub mod Labels
mod Tests
use mcp4openapi.Prelude.{
  ◌≡◌, String, Bool, true, false, not, ◌&&◌, ◌||◌, List, [], ◌∷◌, ◌++◌, any, keep, contains, str_eq,
  if◌then◌else◌,
}

abbrev pub Labels : Type 0
Labels = List String

pub data IssueWorkflowState : Type 0 where
  candidate needs_plan planned implementing blocked held : IssueWorkflowState

pub data PullRequestWorkflowState : Type 0 where
  pr_candidate review_required review_in_progress review_done ready_to_merge pr_blocked pr_held :
      PullRequestWorkflowState

pub data ReviewerVerdictState : Type 0 where
  approved changes_requested commented : ReviewerVerdictState

pub data Outcome : Type 0 where
  pr_created failed is_blocked : Outcome

pub record WorkflowLabelMutation : Type 0 where
  pub labels_to_add : Labels
  pub labels_to_remove : Labels

-- `[...new Set(labels)]`
unfoldable pub unique_labels : Labels → Labels
unique_labels [] = []
unique_labels (l ∷ ls) = l ∷ keep (λ k. not (str_eq k l)) (unique_labels ls)

unfoldable pub mutation : Labels → Labels → WorkflowLabelMutation
unfolding unique_labels
mutation add remove = record {
  labels_to_add = unique_labels add;
  labels_to_remove = unique_labels remove;
}

abbrev pub empty_mutation : WorkflowLabelMutation
empty_mutation = record { labels_to_add = []; labels_to_remove = [] }

-- `some((label) => labelSet.has(label))`
abbrev pub has_any_of : Labels → Labels → Bool
has_any_of names labels = any (λ name. contains name labels) names

abbrev pub legacy_review_labels : Labels
legacy_review_labels = "agent:reviewing" ∷ "agent:reviewed" ∷ []

unfoldable pub has_blocking_workflow_label : Labels → Bool
has_blocking_workflow_label =
    has_any_of ("agent:blocked" ∷ "human:hold" ∷ "agent:blocked" ∷ "human:hold" ∷ [])

unfoldable pub has_review_lifecycle_signal : Labels → Bool
has_review_lifecycle_signal = has_any_of (
    "agent:review:required" ∷ "agent:review:in-progress" ∷ "agent:review:done"
    ∷ "agent:ready-to-merge" ∷ legacy_review_labels)

unfoldable pub has_review_in_progress_signal : Labels → Bool
has_review_in_progress_signal = has_any_of ("agent:review:in-progress" ∷ "agent:reviewing" ∷ [])

unfoldable pub has_review_done_signal : Labels → Bool
has_review_done_signal =
    has_any_of ("agent:review:done" ∷ "agent:reviewed" ∷ "agent:ready-to-merge" ∷ [])

-- `rules.find(…)?.state ?? otherwise`
unfoldable pub find_state : {S : Type 0} → S → Labels → List (S × (Labels → Bool)) → S
find_state otherwise labels [] = otherwise
find_state otherwise labels ((state, predicate) ∷ rules) =
    if predicate labels then state else find_state otherwise labels rules

abbrev pub issue_state_rules : List (IssueWorkflowState × (Labels → Bool))
issue_state_rules =
    (held, contains "human:hold")
    ∷ (blocked, contains "agent:blocked")
    ∷ (implementing, contains "agent:implementing")
    ∷ (planned, contains "agent:planned")
    ∷ (needs_plan, λ labels. contains "agent:safe" labels || contains "agent:needs-plan" labels)
    ∷ []

abbrev pub pr_state_rules : List (PullRequestWorkflowState × (Labels → Bool))
pr_state_rules =
    (pr_held, contains "human:hold")
    ∷ (pr_blocked, contains "agent:blocked")
    ∷ (ready_to_merge, contains "agent:ready-to-merge")
    ∷ (review_in_progress, has_review_in_progress_signal)
    ∷ (review_done, has_review_done_signal)
    ∷ (review_required, has_review_lifecycle_signal)
    ∷ []

unfoldable pub detect_issue_workflow_state : Labels → IssueWorkflowState
unfolding find_state
detect_issue_workflow_state labels = find_state candidate labels issue_state_rules

unfoldable pub detect_pull_request_workflow_state : Labels → PullRequestWorkflowState
unfolding find_state
detect_pull_request_workflow_state labels = find_state pr_candidate labels pr_state_rules

unfoldable pub plan_issuer_transition : Labels → Bool → WorkflowLabelMutation
unfolding mutation
plan_issuer_transition labels suitable =
    if contains "human:hold" labels
      || contains "agent:planned" labels
      || contains "agent:implementing" labels
    then empty_mutation
    else if suitable
    then if contains "agent:safe" labels && contains "agent:needs-plan" labels
      then if contains "agent:blocked" labels
        then mutation [] ("agent:blocked" ∷ [])
        else empty_mutation
      else mutation ("agent:safe" ∷ "agent:needs-plan" ∷ []) ("agent:blocked" ∷ [])
    else mutation [] ("agent:safe" ∷ "agent:needs-plan" ∷ [])

unfoldable pub plan_planner_transition : Labels → Bool → Bool → WorkflowLabelMutation
unfolding mutation
plan_planner_transition labels remains_suitable was_blocked =
    if contains "human:hold" labels || contains "agent:implementing" labels
    then empty_mutation
    else if remains_suitable
    then mutation ("agent:planned" ∷ "agent:safe" ∷ []) ("agent:needs-plan" ∷ "agent:blocked" ∷ [])
    else mutation (if was_blocked then "agent:blocked" ∷ [] else [])
        ("agent:safe" ∷ "agent:needs-plan" ∷ "agent:planned" ∷ [])

unfoldable pub plan_implementor_start : Labels → Bool → WorkflowLabelMutation
unfolding mutation
plan_implementor_start labels has_open_pull_request =
    if contains "human:hold" labels || contains "agent:implementing" labels || has_open_pull_request
    then empty_mutation
    else if not (contains "agent:safe" labels) || not (contains "agent:planned" labels)
    then empty_mutation
    else mutation ("agent:implementing" ∷ []) ("agent:blocked" ∷ [])

unfoldable pub plan_implementor_completion : Outcome → WorkflowLabelMutation
unfolding mutation
plan_implementor_completion pr_created = mutation [] ("agent:implementing" ∷ [])
plan_implementor_completion is_blocked = mutation ("agent:blocked" ∷ []) ("agent:implementing" ∷ [])
plan_implementor_completion failed = mutation [] ("agent:implementing" ∷ [])

unfoldable pub plan_reviewer_completion : ReviewerVerdictState → WorkflowLabelMutation
unfolding mutation
plan_reviewer_completion changes_requested =
    mutation [] ("agent:review:done" ∷ "agent:review:in-progress" ∷ legacy_review_labels)
plan_reviewer_completion approved =
    mutation ("agent:review:done" ∷ []) ("agent:review:in-progress" ∷ legacy_review_labels)
plan_reviewer_completion commented =
    mutation ("agent:review:done" ∷ []) ("agent:review:in-progress" ∷ legacy_review_labels)

-- What the labels are once the change is made: the ones to remove are gone, the ones to add there.
abbrev pub changed : WorkflowLabelMutation → Labels → Labels
changed m labels = keep (λ l. not (contains l m.labels_to_remove)) labels ++ m.labels_to_add

-- ===== src/Workflow.antt =====
-- internal/temporal/workflow.go, ChumAgentWorkflow: the requests it runs on, what the activities it calls
-- answer, the calls that it makes, and the gate at which the signals drain and resume hold it. Token counts,
-- durations and the texts of notifications and traces are left out.
pub mod Round
pub mod Run
pub mod Gate
pub mod Reasons
pub mod Stages
pub mod Termination
pub mod Endings
pub mod Verdicts
use chum.Base.{ℕ, Bool, true, false, List, [], ◌∷◌, if◌then◌else◌}
use chum.Base.Int.{ℤ, pos, negsuc, ltb_ℤ}
use chum.Base.Result.{Result}
use chum.Text.{Text, text, text_eq, to_lower, is_empty}

pub record EscalationTier : Type 0 where
  pub provider_key : Text
  pub cli : Text
  pub model : Text
  pub tier : Text
  pub reviewer : Text
  pub enabled : Bool

-- The fields of TaskRequest that decide what the workflow does.
pub record TaskRequest : Type 0 where
  pub agent : Text
  pub model : Text
  pub provider : Text
  pub explosion_id : Text
  pub escalation_chain : List EscalationTier
  pub max_retries_override : ℤ

-- Answers of the activities of one attempt; an activity that fails answers the text of its error.
pub record SentinelResult : Type 0 where
  pub reverted_files : List Text
  pub passed : Bool

pub record ReviewResult : Type 0 where
  pub approved : Bool
  pub issues : List Text

pub record UbsScanResult : Type 0 where
  pub passed : Bool
  pub critical : ℤ
  pub total_findings : ℤ

pub record CheckResult : Type 0 where
  pub command : Text
  pub exit_code : ℤ
  pub passed : Bool
  pub output : Text

pub record DodResult : Type 0 where
  pub passed : Bool
  pub checks : List CheckResult
  pub failures : List Text

pub record FailureTriageResult : Type 0 where
  pub decision : Text
  pub rescope_reason : Text
  pub guidance : Text

pub record Attempt : Type 0 where
  pub execute : Result Text (Unit {0})
  pub sentinel : Result Text SentinelResult
  pub review : Result Text ReviewResult
  pub ubs : Result Text UbsScanResult
  pub dod : Result Text DodResult
  pub triage : Result Text FailureTriageResult

-- The answers of all activities of a run; `attempt n` are those of the n-th pass of the loop.
pub record Environment : Type 0 where
  pub setup_worktree : Result Text Text
  pub protein_instructions : Text
  pub structured_plan : Result Text (Unit {0})
  pub attempt : ℕ → Attempt
  pub merge_to_main : Result Text ℤ

-- The entries of `allFailures`, one constructor for each format.
pub data Failure : Type 0 where
  execute_error : ℕ → Text → Failure
  not_approved : ℕ → List Text → Failure
  ubs_critical : ℕ → ℤ → Failure
  dod_error : ℕ → Text → Failure
  infrastructure_rescue : ℕ → Text → Failure
  dod_failed : ℕ → Text → Failure
  triage_rescope : ℕ → Text → Failure

-- The entries that the loop adds to `plan.PreviousErrors`; the feedback on a failed DoD lists its failed
-- checks.
pub data Hint : Type 0 where
  sentinel_reverted : List Text → Hint
  ubs_found : ℤ → ℤ → Hint
  check_failures : List CheckResult → Hint
  triage_guidance : Text → Hint

-- The activities that the workflow executes, the child workflows that it starts and its waits at the gate.
-- Rewards are tenths.
pub data Call : Type 0 where
  setup_worktree bug_priming protein_instructions structured_plan : Call
  sentinel_scan code_review ubs_scan dod_verify failure_triage auto_fix_lint : Call
  mark_morsel_done unblock_dependents molecule_retro record_protein_fold evolve_genome : Call
  push_worktree merge_to_main tactical_groom : Call
  execute : List Hint → Call
  cleanup_worktree : Text → Call
  close_task : Text → Call
  record_outcome : Text → Bool → List Failure → Call
  continuous_learner : Bool → Call
  escalate : List Failure → ℕ → Call
  pr_review : ℤ → Call
  record_failure : List Failure → Call
  notify : Text → Call
  trace : Text → ℤ → Bool → Call
  backpropagate : ℤ → Call
  search_attributes : Text → Call
  await_resume_gate : Call
  step : Text → Text → Call

-- The variables of the workflow; the latest entry of each list stands first.
pub record Progress : Type 0 where
  pub escalation_attempt : ℕ
  pub all_failures : List Failure
  pub previous_errors : List Hint
  pub infra_retries : List Text
  pub calls : List Call

unfoldable pub retries_for_tier : Text → ℤ → ℤ
retries_for_tier tier override =
    let t = to_lower tier in
    if ltb_ℤ (pos 0) override
    then override
    else if is_empty t
    then pos 3
    else if text_eq t (text "fast")
    then pos 3
    else if text_eq t (text "balanced")
    then pos 2
    else if text_eq t (text "premium")
    then pos 1
    else pos 2

abbrev pub call : Call → Progress → Progress
call c p = record p { calls = c ∷ p.calls }

abbrev pub fail : Failure → Progress → Progress
fail f p = record p { all_failures = f ∷ p.all_failures }

abbrev pub hint : Hint → Progress → Progress
hint h p = record p { previous_errors = h ∷ p.previous_errors }

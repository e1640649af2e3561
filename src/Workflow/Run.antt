-- ===== src/Workflow/Run.antt =====
-- ChumAgentWorkflow from its start to its end: planning, the loop of attempts, success and escalation.
use chum.Base.{
  ℕ, zero, suc, ◌+◌, Bool, true, false, List, [], ◌∷◌, Option, none, some, if◌then◌else◌, leb,
}
use chum.Base.Int.{ℤ, pos, negsuc, ltb_ℤ, pos_part}
use chum.Base.Result.{Result, ok, err}
use chum.Text.{Text, text, is_empty}
use chum.Workflow.{
  EscalationTier, TaskRequest, Attempt, Environment, setup_worktree, bug_priming,
  protein_instructions, structured_plan, mark_morsel_done, unblock_dependents, molecule_retro,
  record_protein_fold, evolve_genome, push_worktree, merge_to_main, tactical_groom,
  cleanup_worktree, close_task, record_outcome, continuous_learner, escalate, pr_review,
  record_failure, notify, trace, backpropagate, search_attributes, step, Progress, retries_for_tier,
  call, await_resume_gate,
}
use chum.Workflow.Gate.{Signal, Ending, completed, escalated, plan_failed, Ended, Run, gated}
use chum.Workflow.Round.{Outcome, passed, burned, free, rescued, rescoped, pass}

-- The loop `for attempt := 0; attempt < maxRetries; attempt++`: whether DoD passed. A free pass counts
-- the attempt back. `none` only if the fuel runs out.
abbrev pub after_pass :
    (Progress → Option (Progress × Bool))
    → (Progress → Option (Progress × Bool))
    → Progress × Outcome
    → Option (Progress × Bool)
after_pass next again (p, passed) = some (p, true)
after_pass next again (p, burned) = next p
after_pass next again (p, free) = again p
after_pass next again (p, rescued) = some (p, false)
after_pass next again (p, rescoped) = some (p, false)

unfoldable pub attempts : (ℕ → Attempt) → ℕ → ℕ → ℕ → Progress → Option (Progress × Bool)
attempts answers zero max attempt p = none
attempts answers (suc fuel) max attempt p = elim (leb max attempt) [
  | true ↦ some (p, false)
  | false ↦
      after_pass (attempts answers fuel max (suc attempt)) (attempts answers fuel max attempt)
        (pass answers max attempt p)
]

-- The chain of the request, or the one tier of its provider, cut to its first tier.
unfoldable pub first_tier : TaskRequest → EscalationTier
first_tier req = elim req.escalation_chain [
  | [] ↦ record {
    provider_key = req.provider;
    cli = req.agent;
    model = req.model;
    tier = text "balanced";
    reviewer = [];
    enabled = true;
  }
  | t ∷ tiers ↦ t
]

unfoldable pub max_retries : TaskRequest → ℕ
max_retries req = pos_part (retries_for_tier (first_tier req).tier req.max_retries_override)

-- A free pass is granted once for each of the seven reasons.
abbrev pub reason_count : ℕ
reason_count = 7

-- A tier that is not enabled is skipped.
unfoldable pub tier_attempts : (ℕ → Attempt) → ℕ → Bool → Progress → Option (Progress × Bool)
tier_attempts answers max false p = some (p, false)
tier_attempts answers max true p = attempts answers (suc (max + reason_count)) max 0 p

unfoldable pub tier_loop : Environment → TaskRequest → Progress → Option (Progress × Bool)
tier_loop env req p = tier_attempts env.attempt (max_retries req) (first_tier req).enabled p

-- `cleanupWorktree`: the path is empty where no worktree was set up.
unfoldable pub cleanup : Text → Progress → Progress
cleanup [] p = p
cleanup (c ∷ path) p = call (cleanup_worktree (c ∷ path)) p

-- The pull request, if the merge made one.
unfoldable pub review_merge : Result Text ℤ → Progress → Progress
review_merge (err e) p = call (notify (text "conflict")) p
review_merge (ok n) p = if ltb_ℤ (pos 0) n then call (pr_review n) p else p

unfoldable pub record_fold : Text → Progress → Progress
record_fold [] p = p
record_fold (c ∷ instructions) p = call record_protein_fold (call molecule_retro p)

-- A task that is not part of an explosion is closed, recorded and merged.
unfoldable pub finish : Environment → Text → Progress → Progress
finish env path p =
    let closed =
      call unblock_dependents (call mark_morsel_done (call (close_task (text "completed")) p)) in
    let recorded = call (record_outcome (text "completed") true []) closed in
    let learned = call tactical_groom (call (continuous_learner true) recorded) in
    let folded = record_fold env.protein_instructions learned in
    let merged = call merge_to_main (call push_worktree (call evolve_genome folded)) in
    cleanup path (review_merge env.merge_to_main merged)

-- In an explosion the parent workflow closes the task, and the worktree is kept for it.
unfoldable pub deliver : Environment → Text → Text → Progress → Progress
deliver env [] path p = finish env path p
deliver env (c ∷ explosion_id) path p = call (record_outcome (text "completed") true []) p

unfoldable pub succeed : Environment → TaskRequest → Text → Progress → Progress
succeed env req path p = deliver env req.explosion_id path (
    call (search_attributes (text "completed")) (
      call (notify (text "complete")) (
        call (notify (text "dod_pass"))
          (call (backpropagate (pos 10)) (call (trace (text "complete") (pos 10) true) p)))))

unfoldable pub escalate_task : Text → Progress → Progress
escalate_task path p =
    let traced = call (notify (text "escalate")) (
      call (backpropagate (negsuc 4)) (
        call (trace (text "escalate") (negsuc 4) true)
          (call (search_attributes (text "escalated")) (call await_resume_gate p)))) in
    let escalated =
      call (step (text "escalate") (text "ok"))
        (call (escalate p.all_failures p.escalation_attempt) traced) in
    let recorded =
      call (record_outcome (text "escalated") false p.all_failures)
        (call (close_task (text "ready")) escalated) in
    cleanup path (call (continuous_learner false) recorded)

abbrev pub end_with : Ending → Progress → Ended
end_with e p = record { ending = e; progress = p }

abbrev pub end_failed : Ending → Progress → Ended
end_failed e p = end_with e (call (record_failure p.all_failures) p)

unfoldable pub conclude : Environment → TaskRequest → Text → Option (Progress × Bool) → Option Ended
conclude env req path none = none
conclude env req path (some (p, true)) = some (end_with completed (succeed env req path p))
conclude env req path (some (p, false)) = some (end_failed escalated (escalate_task path p))

unfoldable pub after_plan :
    Environment → TaskRequest → Text → Result Text (Unit {0}) → Progress → Option Ended
after_plan env req path (err e) p = some (
    end_failed plan_failed
      (call (close_task (text "plan_failed")) (call (step (text "plan") (text "failed")) p)))
after_plan env req path (ok done) p = conclude env req path (
    tier_loop env req (
      call (search_attributes (text "gate")) (
        call (trace (text "plan") (pos 1) false)
          (call (notify (text "plan")) (call (step (text "plan") (text "ok")) p)))))

abbrev pub worktree_path : Environment → Text
worktree_path env = elim env.setup_worktree [ err e ↦ [] | ok path ↦ path ]

abbrev pub fresh : Progress
fresh = record {
  escalation_attempt = 0;
  all_failures = [];
  previous_errors = [];
  infra_retries = [];
  calls = [];
}

unfoldable pub prepare : TaskRequest → Progress
prepare req =
    let p = call setup_worktree (call (search_attributes (text "plan")) fresh) in
    let primed = if is_empty req.agent then p else call bug_priming p in
    call structured_plan (call await_resume_gate (call protein_instructions primed))

-- The run that nothing holds at the gate.
unfoldable pub ungated_run : Environment → TaskRequest → Option Ended
ungated_run env req = after_plan env req (worktree_path env) env.structured_plan (prepare req)

unfoldable pub chum_agent_workflow : (ℕ → List Signal) → Environment → TaskRequest → Option Run
chum_agent_workflow signals env req = elim (ungated_run env req) [
  | none ↦ none
  | some e ↦ some (gated signals e)
]

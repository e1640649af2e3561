-- ===== src/Workflow/Verdicts.antt =====
-- How a whole run of ChumAgentWorkflow ends, and after how many passes.
use chum.Base.{
  ℕ, ◌+◌, ◌≤◌, ◌<◌, ◌≡◌, refl, ◌∙◌, inl, inr, true, false, List, [], ◌∷◌, some, Bool-cases,
}
use chum.Base.Result.{Result, ok}
use chum.Text.{Text, is_empty}
use chum.Workflow.{TaskRequest, EscalationTier, Environment}
use chum.Workflow.Gate.{Signal, Ended, completed, escalated, plan_failed, IsGated, gated-IsGated}
use chum.Workflow.Run.{
  first_tier, tier_attempts, max_retries, reason_count, tier_loop, conclude, after_plan,
  worktree_path, prepare, ungated_run, chum_agent_workflow,
}
use chum.Workflow.Stages.{endings, executes, goes_through}
use chum.Workflow.Endings.{final_calls, escalate_task-keeps}

-- How the answers decide the ending: the plan fails; or the first pass to go through is the last one; or
-- none does.
abbrev pub IsVerdict : Environment → Ended → Type 0
IsVerdict env e =
    let n = e.progress.escalation_attempt in
    elim e.ending [
      | plan_failed ↦ (executes env.structured_plan ≡ false) × (n ≡ 0)
      | completed ↦
          (executes env.structured_plan ≡ true)
          × (goes_through (env.attempt n) ≡ true)
          × ((k : ℕ) → 0 < k → k < n → goes_through (env.attempt k) ≡ false)
      | escalated ↦
          (executes env.structured_plan ≡ true)
          × ((k : ℕ) → 0 < k → k ≤ n → goes_through (env.attempt k) ≡ false)
    ]

pub record IsEnded (env : Environment) (req : TaskRequest) (e : Ended) : Type 0 where
  pub bounded : e.progress.escalation_attempt ≤ max_retries req + reason_count
  pub closed : endings e.progress.calls ≡ final_calls env req e.ending e.progress.all_failures
  pub verdict : IsVerdict env e

prepare-IsFresh :
    (req : TaskRequest)
    → ((prepare req).escalation_attempt ≡ 0)
      × ((prepare req).infra_retries ≡ [])
      × (endings (prepare req).calls ≡ [])
unfolding prepare
prepare-IsFresh req = elim (Bool-cases (is_empty req.agent)) [
  | inl e ↦ rw e (refl, refl, refl)
  | inr e ↦ rw e (refl, refl, refl)
]

module _ (env : Environment) (req : TaskRequest)
    (planned : executes env.structured_plan ≡ true) where
  abbrev path : Text
  path = worktree_path env

of_ungated :
    (signals : ℕ → List Signal) (env : Environment) (req : TaskRequest) (e : Ended)
    → ungated_run env req ≡ some e
    → IsGated signals e (chum_agent_workflow signals env req)
unfolding chum_agent_workflow
of_ungated signals env req e h = rw (h, chum_agent_workflow) (gated-IsGated signals e)

first_disabled :
    (req : TaskRequest) (t : EscalationTier) (ts : List EscalationTier)
    → req.escalation_chain ≡ t ∷ ts
    → t.enabled ≡ false
    → (first_tier req).enabled ≡ false
unfolding first_tier
first_disabled req t ts c h = rw c h

disabled_run :
    (env : Environment) (req : TaskRequest)
    → (first_tier req).enabled ≡ false
    → env.structured_plan ≡ ok tt
    → (e : Ended) × (ungated_run env req ≡ some e)
      × (e.ending ≡ escalated)
      × (e.progress.escalation_attempt ≡ 0)
unfolding ungated_run after_plan tier_loop tier_attempts conclude
disabled_run env req h r =
    let (fresh, i, k) = prepare-IsFresh req in
    rw (r, h) (_, refl, refl, (escalate_task-keeps (worktree_path env) _).1 ∙ fresh)

-- If the first tier of the chain of the request is not enabled and planning succeeds, the run makes no pass
-- and escalates, whatever other tiers the chain has, unless it stays at a wait at the gate that receives a
-- drain first and no resume behind it.
pub disabled_tier-escalates :
    (signals : ℕ → List Signal) (env : Environment) (req : TaskRequest) (t : EscalationTier)
    (ts : List EscalationTier)
    → req.escalation_chain ≡ t ∷ ts
    → t.enabled ≡ false
    → env.structured_plan ≡ ok tt
    → (e : Ended) × (e.ending ≡ escalated)
      × (e.progress.escalation_attempt ≡ 0)
      × IsGated signals e (chum_agent_workflow signals env req)
disabled_tier-escalates signals env req t ts c h r =
    let (e, found, ending, none_made) = disabled_run env req (first_disabled req t ts c h) r in
    (e, ending, none_made, of_ungated signals env req e found)

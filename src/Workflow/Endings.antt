-- ===== src/Workflow/Endings.antt =====
-- Which calls end a run: the closing of the task, the record of its outcome, the removal of its worktree.
use chum.Base.{◌≡◌, refl, ◌∙◌, ap, inl, inr, true, false, List, [], ◌∷◌, Bool-cases}
use chum.Base.Int.{ℤ, pos, ltb_ℤ}
use chum.Base.Result.{Result, ok, err}
use chum.Text.{Text, text}
use chum.Workflow.{
  TaskRequest, Environment, Progress, Call, Failure, close_task, cleanup_worktree, record_outcome,
  record_failure,
}
use chum.Workflow.Gate.{Ending, completed, escalated, plan_failed}
use chum.Workflow.Run.{
  cleanup, review_merge, record_fold, finish, deliver, succeed, escalate_task, worktree_path,
}
use chum.Workflow.Stages.{endings}

-- The removal of the worktree, if one was set up.
abbrev pub removal : Text → List Call → List Call
removal [] cs = cs
removal (c ∷ path) cs = cleanup_worktree (c ∷ path) ∷ cs

-- A task of an explosion is only recorded.
abbrev pub delivery : Text → Text → List Call
delivery [] path =
    removal path (record_outcome (text "completed") true [] ∷ close_task (text "completed") ∷ [])
delivery (c ∷ explosion_id) path = record_outcome (text "completed") true [] ∷ []

-- What ends a run, the latest call first. The worktree stays after an explosion and after a failed plan.
abbrev pub final_calls : Environment → TaskRequest → Ending → List Failure → List Call
final_calls env req completed failures = delivery req.explosion_id (worktree_path env)
final_calls env req escalated failures =
    record_failure failures
    ∷ removal (worktree_path env)
        (record_outcome (text "escalated") false failures ∷ close_task (text "ready") ∷ [])
final_calls env req plan_failed failures =
    record_failure failures ∷ close_task (text "plan_failed") ∷ []

cleanup-endings :
    (path : Text) (p : Progress) → endings (cleanup path p).calls ≡ removal path (endings p.calls)
unfolding cleanup
cleanup-endings [] p = refl
cleanup-endings (c ∷ path) p = refl

review_merge-endings :
    (r : Result Text ℤ) (p : Progress) → endings (review_merge r p).calls ≡ endings p.calls
unfolding review_merge
review_merge-endings (err e) p = refl
review_merge-endings (ok n) p = elim (Bool-cases (ltb_ℤ (pos 0) n)) [
  | inl e ↦ rw e refl
  | inr e ↦ rw e refl
]

record_fold-endings : (t : Text) (p : Progress) → endings (record_fold t p).calls ≡ endings p.calls
unfolding record_fold
record_fold-endings [] p = refl
record_fold-endings (c ∷ t) p = refl

finish-endings :
    (env : Environment) (path : Text) (p : Progress)
    → endings p.calls ≡ []
    → endings (finish env path p).calls
      ≡ removal path
          (record_outcome (text "completed") true [] ∷ close_task (text "completed") ∷ [])
unfolding finish
finish-endings env path p h =
    cleanup-endings path _
    ∙ ap (removal path) (
        review_merge-endings env.merge_to_main _
        ∙ (record_fold-endings env.protein_instructions _
            ∙ ap
                (λ cs.
                  record_outcome (text "completed") true [] ∷ close_task (text "completed") ∷ cs)
                h))

deliver-endings :
    (env : Environment) (explosion_id path : Text) (p : Progress)
    → endings p.calls ≡ []
    → endings (deliver env explosion_id path p).calls ≡ delivery explosion_id path
unfolding deliver
deliver-endings env [] path p h = finish-endings env path p h
deliver-endings env (c ∷ id) path p h = ap (λ cs. record_outcome (text "completed") true [] ∷ cs) h

pub succeed-endings :
    (env : Environment) (req : TaskRequest) (path : Text) (p : Progress)
    → endings p.calls ≡ []
    → endings (succeed env req path p).calls ≡ delivery req.explosion_id path
unfolding succeed
succeed-endings env req path p h = deliver-endings env req.explosion_id path _ h

pub escalate_task-endings :
    (path : Text) (p : Progress)
    → endings p.calls ≡ []
    → endings (escalate_task path p).calls
      ≡ removal path
          (record_outcome (text "escalated") false p.all_failures ∷ close_task (text "ready") ∷ [])
unfolding escalate_task
escalate_task-endings path p h =
    cleanup-endings path _
    ∙ ap
        (λ cs.
          removal path (
            record_outcome (text "escalated") false p.all_failures
            ∷ close_task (text "ready")
            ∷ cs))
        h

cleanup-failures : (path : Text) (p : Progress) → (cleanup path p).all_failures ≡ p.all_failures
unfolding cleanup
cleanup-failures [] p = refl
cleanup-failures (c ∷ path) p = refl

cleanup-attempt :
    (path : Text) (p : Progress) → (cleanup path p).escalation_attempt ≡ p.escalation_attempt
unfolding cleanup
cleanup-attempt [] p = refl
cleanup-attempt (c ∷ path) p = refl

pub escalate_task-keeps :
    (path : Text) (p : Progress)
    → ((escalate_task path p).all_failures ≡ p.all_failures)
      × ((escalate_task path p).escalation_attempt ≡ p.escalation_attempt)
unfolding escalate_task
escalate_task-keeps path p = (cleanup-failures path _, cleanup-attempt path _)

review_merge-attempt :
    (r : Result Text ℤ) (p : Progress)
    → (review_merge r p).escalation_attempt ≡ p.escalation_attempt
unfolding review_merge
review_merge-attempt (err e) p = refl
review_merge-attempt (ok n) p = elim (Bool-cases (ltb_ℤ (pos 0) n)) [
  | inl e ↦ rw e refl
  | inr e ↦ rw e refl
]

record_fold-attempt :
    (t : Text) (p : Progress) → (record_fold t p).escalation_attempt ≡ p.escalation_attempt
unfolding record_fold
record_fold-attempt [] p = refl
record_fold-attempt (c ∷ t) p = refl

deliver-attempt :
    (env : Environment) (explosion_id path : Text) (p : Progress)
    → (deliver env explosion_id path p).escalation_attempt ≡ p.escalation_attempt
unfolding deliver finish
deliver-attempt env [] path p =
    cleanup-attempt path _
    ∙ (review_merge-attempt env.merge_to_main _ ∙ record_fold-attempt env.protein_instructions _)
deliver-attempt env (c ∷ id) path p = refl

pub succeed-attempt :
    (env : Environment) (req : TaskRequest) (path : Text) (p : Progress)
    → (succeed env req path p).escalation_attempt ≡ p.escalation_attempt
unfolding succeed
succeed-attempt env req path p = deliver-attempt env req.explosion_id path _

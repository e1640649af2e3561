-- ===== src/Workflow/Round.antt =====
-- One pass of the loop of ChumAgentWorkflow, stage by stage: EXECUTE, SENTINEL, REVIEW, UBS, DOD and what
-- follows a failed DoD. `attempt` counts from 0, as in the code.
use chum.Base.{ℕ, suc, ◌+◌, false, not, ◌&&◌, [], ◌∷◌, if◌then◌else◌, ltb, select}
use chum.Base.Int.{pos, negsuc}
use chum.Base.Result.{Result, ok, err}
use chum.Text.{Text, text, text_eq, to_lower, is_empty, one_of}
use chum.Text.Search.{join}
use chum.Failure.{is_infrastructure_failure, is_transient_infra_failure, extract_infra_reason}
use chum.Workflow.{
  SentinelResult, ReviewResult, UbsScanResult, DodResult, FailureTriageResult, Attempt,
  execute_error, not_approved, ubs_critical, dod_error, infrastructure_rescue, dod_failed,
  triage_rescope, sentinel_reverted, ubs_found, check_failures, triage_guidance, sentinel_scan,
  code_review, ubs_scan, dod_verify, failure_triage, auto_fix_lint, execute, notify, trace,
  search_attributes, await_resume_gate, step, Progress, call, fail, hint,
}

-- How a pass ends: with DoD passed, with the attempt burned or free, or by leaving the loop.
pub data Outcome : Type 0 where
  passed burned free rescued rescoped : Outcome

-- `AUTO-FIX`, before the next attempt if there is one.
unfoldable pub auto_fix : ℕ → ℕ → Progress → Progress
auto_fix max attempt p =
    if ltb (attempt + 1) max
    then call (step (text "autofix") (text "ok")) (call auto_fix_lint p)
    else p

unfoldable pub triage_stage :
    ℕ → ℕ → Result Text FailureTriageResult → Progress → Progress × Outcome
triage_stage max attempt (err e) p = (
  auto_fix max attempt (call (step (text "triage") (text "failed")) (call failure_triage p)),
  burned,
)
triage_stage max attempt (ok t) p =
    let q = call (step (text "triage") (text "ok")) (call failure_triage p) in
    if text_eq t.decision (text "rescope")
    then (fail (triage_rescope (attempt + 1) t.rescope_reason) q, rescoped)
    else (
      auto_fix max attempt (if is_empty t.guidance then q else hint (triage_guidance t.guidance) q),
      burned,
    )

-- The failure is not one of the environment.
unfoldable pub code_failure : ℕ → ℕ → Attempt → DodResult → Text → Progress → Progress × Outcome
code_failure max attempt a d message p = triage_stage max attempt a.triage (
    call (notify (text "dod_fail")) (
      hint (check_failures (select (λ c. not c.passed) d.checks))
        (fail (dod_failed (attempt + 1) message) p)))

unfoldable pub rescue : ℕ → Text → Progress → Progress × Outcome
rescue attempt reason p =
    (fail (infrastructure_rescue (attempt + 1) reason) (call (notify (text "rescue")) p), rescued)

-- The judgement layer: a transient failure of the environment is retried once for each reason, for free.
unfoldable pub infra_failure : ℕ → Text → Progress → Progress × Outcome
infra_failure attempt lower p =
    let reason = extract_infra_reason lower in
    if is_transient_infra_failure lower && not (one_of p.infra_retries reason)
    then (
      call (notify (text "dod_infra")) (record p { infra_retries = reason ∷ p.infra_retries }),
      free,
    )
    else rescue attempt reason p

unfoldable pub dod_failure : ℕ → ℕ → Attempt → DodResult → Progress → Progress × Outcome
dod_failure max attempt a d p =
    let message = join (text "; ") d.failures in
    let q =
      call (trace (text "dod") (negsuc 1) false) (call (step (text "dod") (text "failed")) p) in
    if is_infrastructure_failure (to_lower message)
    then infra_failure attempt (to_lower message) q
    else code_failure max attempt a d message q

unfoldable pub dod_stage : ℕ → ℕ → Attempt → Result Text DodResult → Progress → Progress × Outcome
dod_stage max attempt a (err e) p =
    (fail (dod_error (attempt + 1) e) (call (step (text "dod") (text "failed")) p), burned)
dod_stage max attempt a (ok d) p =
    if d.passed
    then (call (trace (text "dod") (pos 9) false) (call (step (text "dod") (text "ok")) p), passed)
    else dod_failure max attempt a d p

unfoldable pub verify : ℕ → ℕ → Attempt → Progress → Progress × Outcome
verify max attempt a p =
    dod_stage max attempt a a.dod
      (call dod_verify (call (search_attributes (text "dod")) (call await_resume_gate p)))

unfoldable pub ubs_stage :
    ℕ → ℕ → Attempt → Result Text UbsScanResult → Progress → Progress × Outcome
ubs_stage max attempt a (err e) p =
    verify max attempt a (call (step (text "ubs") (text "skipped")) p)
ubs_stage max attempt a (ok u) p =
    if u.passed
    then verify max attempt a
        (call (trace (text "ubs") (pos 6) false) (call (step (text "ubs") (text "ok")) p))
    else (
      fail (ubs_critical (attempt + 1) u.critical) (
          hint (ubs_found u.critical u.total_findings)
            (call (step (text "ubs") (text "failed")) p)),
      burned,
    )

unfoldable pub review_stage : ℕ → Result Text ReviewResult → Progress → Progress
review_stage attempt (err e) p = call (step (text "review") (text "skipped")) p
review_stage attempt (ok r) p =
    if r.approved
    then call (trace (text "review") (pos 5) false)
        (call (step (text "review") (text "ok")) (call (notify (text "review_approved")) p))
    else call (trace (text "review") (negsuc 0) false)
        (fail (not_approved (attempt + 1) r.issues) (call (step (text "review") (text "failed")) p))

unfoldable pub sentinel_stage : Result Text SentinelResult → Progress → Progress
sentinel_stage (err e) p = call (step (text "sentinel") (text "skipped")) p
sentinel_stage (ok s) p =
    call (step (text "sentinel") (if s.passed then text "ok" else text "failed"))
      (elim s.reverted_files [ [] ↦ p | f ∷ fs ↦ hint (sentinel_reverted (f ∷ fs)) p ])

unfoldable pub scanned : Attempt → Progress → Progress
scanned a p = sentinel_stage a.sentinel (
    call sentinel_scan (
      call await_resume_gate
        (call (trace (text "execute") (pos 3) false) (call (step (text "execute") (text "ok")) p))))

unfoldable pub reviewed : ℕ → Attempt → Progress → Progress
reviewed attempt a p =
    review_stage attempt a.review (call code_review (call (search_attributes (text "review")) p))

-- What follows a successful execution.
unfoldable pub inspect : ℕ → ℕ → Attempt → Progress → Progress × Outcome
inspect max attempt a p =
    ubs_stage max attempt a a.ubs
      (call ubs_scan (call await_resume_gate (reviewed attempt a (scanned a p))))

unfoldable pub execute_stage :
    ℕ → ℕ → Attempt → Result Text (Unit {0}) → Progress → Progress × Outcome
execute_stage max attempt a (err e) p =
    (fail (execute_error (attempt + 1) e) (call (step (text "execute") (text "failed")) p), burned)
execute_stage max attempt a (ok done) p = inspect max attempt a p

-- One pass; `answers` are those of all passes.
unfoldable pub pass : (ℕ → Attempt) → ℕ → ℕ → Progress → Progress × Outcome
pass answers max attempt p =
    let n = suc p.escalation_attempt in
    let a = answers n in
    let q = call (search_attributes (text "execute")) (
      call await_resume_gate
        (call (notify (text "execute")) (record p { escalation_attempt = n }))) in
    execute_stage max attempt a a.execute (call (execute q.previous_errors) q)

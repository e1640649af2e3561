-- ===== src/Workflow/Stages.antt =====
-- What each stage of a pass keeps, and when a pass ends with DoD passed.
use chum.Base.{
  ℕ, suc, ◌+◌, ◌<◌, ◌≡◌, refl, inl, inr, Bool, true, false, not, ◌&&◌, List, [], ◌∷◌, if◌then◌else◌,
  ltb, Bool-cases, select, ◌∙◌, subst, and-eq_true, not-eq_true,
}
use chum.Base.Int.{pos}
use chum.Base.Result.{Result, ok, err}
use chum.Text.{Text, text, text_eq, to_lower, one_of, is_empty}
use chum.Text.Search.{join}
use chum.Failure.{is_infrastructure_failure, is_transient_infra_failure, extract_infra_reason}
use chum.Workflow.{
  SentinelResult, ReviewResult, UbsScanResult, DodResult, FailureTriageResult, Attempt, Progress,
  Call, close_task, cleanup_worktree, record_outcome, record_failure, step, execute, notify, call,
  hint, await_resume_gate, sentinel_reverted, sentinel_scan, trace, code_review, search_attributes,
  ubs_scan,
}
use chum.Workflow.Round.{
  Outcome, passed, burned, free, rescued, rescoped, auto_fix, triage_stage, code_failure, rescue,
  infra_failure, dod_failure, dod_stage, verify, ubs_stage, review_stage, sentinel_stage, scanned,
  reviewed, inspect, execute_stage, pass,
}
use chum.Workflow.Reasons.{reasons, reason_known, unseen, unseen-cons-lt}

-- The calls that end a run.
abbrev pub is_ending : Call → Bool
is_ending (close_task status) = true
is_ending (cleanup_worktree path) = true
is_ending (record_outcome status dod_passed failures) = true
is_ending (record_failure failures) = true
is_ending _ = false

abbrev pub endings : List Call → List Call
endings = select is_ending

-- A pass goes through exactly if the agent runs, the scanner finds nothing critical and DoD passes.
abbrev pub dod_passes : Result Text DodResult → Bool
dod_passes (ok d) = d.passed
dod_passes (err e) = false

abbrev pub ubs_allows : Result Text UbsScanResult → Bool
ubs_allows (ok u) = u.passed
ubs_allows (err e) = true

abbrev pub executes : Result Text (Unit {0}) → Bool
executes (ok done) = true
executes (err e) = false

abbrev pub goes_through : Attempt → Bool
goes_through a = executes a.execute && (ubs_allows a.ubs && dod_passes a.dod)

abbrev pub Frame : Progress → Progress → Type 0
Frame p q =
    (q.escalation_attempt ≡ p.escalation_attempt)
    × (q.infra_retries ≡ p.infra_retries)
    × (endings q.calls ≡ endings p.calls)

-- The loop variables and the outcome after a stage that began with `p`; it passes exactly if `b`.
abbrev pub Advances : Progress → Bool → Progress × Outcome → Type 0
Advances p b (q, passed) = Frame p q × (b ≡ true)
Advances p b (q, free) =
    (q.escalation_attempt ≡ p.escalation_attempt)
    × (unseen q.infra_retries reasons < unseen p.infra_retries reasons)
    × (endings q.calls ≡ endings p.calls)
    × (b ≡ false)
Advances p b (q, o) = Frame p q × (b ≡ false)

Frame-trans : (p q r : Progress) → Frame p q → Frame q r → Frame p r
Frame-trans p q r (a, b, c) (x, y, z) = (x ∙ a, y ∙ b, z ∙ c)

Advances-Frame :
    (p q : Progress) (b : Bool) (r : Progress × Outcome)
    → Frame p q
    → Advances q b r
    → Advances p b r
Advances-Frame p q b (r, passed) f (g, e) = (Frame-trans p q r f g, e)
Advances-Frame p q b (r, burned) f (g, e) = (Frame-trans p q r f g, e)
Advances-Frame p q b (r, rescued) f (g, e) = (Frame-trans p q r f g, e)
Advances-Frame p q b (r, rescoped) f (g, e) = (Frame-trans p q r f g, e)
Advances-Frame p q b (r, free) (x, y, z) (k, l, c, e) =
    (k ∙ x, subst (λ seen. unseen r.infra_retries reasons < unseen seen reasons) y l, c ∙ z, e)

module _ (max attempt : ℕ) where
  auto_fix-Frame : (p : Progress) → Frame p (auto_fix max attempt p)
  unfolding auto_fix
  auto_fix-Frame p = elim (Bool-cases (ltb (attempt + 1) max)) [
    | inl e ↦ rw e (refl, refl, refl)
    | inr e ↦ rw e (refl, refl, refl)
  ]

  triage_stage-Advances :
      (r : Result Text FailureTriageResult) (p : Progress)
      → Advances p false (triage_stage max attempt r p)
  unfolding triage_stage
  triage_stage-Advances (err e) p = (auto_fix-Frame _, refl)
  triage_stage-Advances (ok t) p = elim (Bool-cases (text_eq t.decision (text "rescope"))) [
    | inl e ↦ rw e ((refl, refl, refl), refl)
    | inr e ↦ elim (Bool-cases (is_empty t.guidance)) [
      | inl g ↦ rw (e, g) (auto_fix-Frame _, refl)
      | inr g ↦ rw (e, g) (auto_fix-Frame _, refl)
    ]
  ]

  infra_failure-Advances :
      (lower : Text) (p : Progress) → Advances p false (infra_failure attempt lower p)
  unfolding infra_failure rescue
  infra_failure-Advances lower p =
      let reason = extract_infra_reason lower in
      let fresh = is_transient_infra_failure lower && not (one_of p.infra_retries reason) in
      elim (Bool-cases fresh) [
        | inr e ↦ rw e ((refl, refl, refl), refl)
        | inl e ↦
            let new = not-eq_true _ (and-eq_true (is_transient_infra_failure lower) _ e).1 in
            rw e (
              refl,
              unseen-cons-lt reason p.infra_retries reasons (reason_known lower) new,
              refl,
              refl,
            )
      ]

  dod_failure-Advances :
      (a : Attempt) (d : DodResult) (p : Progress)
      → Advances p false (dod_failure max attempt a d p)
  unfolding dod_failure code_failure
  dod_failure-Advances a d p =
      elim (Bool-cases (is_infrastructure_failure (to_lower (join (text "; ") d.failures)))) [
        | inl e ↦ rw e (infra_failure-Advances _ _)
        | inr e ↦ rw e (triage_stage-Advances a.triage _)
      ]

  dod_stage-Advances :
      (a : Attempt) (r : Result Text DodResult) (p : Progress)
      → Advances p (dod_passes r) (dod_stage max attempt a r p)
  unfolding dod_stage dod_failure code_failure
  dod_stage-Advances a (err e) p = ((refl, refl, refl), refl)
  dod_stage-Advances a (ok d) p = elim (Bool-cases d.passed) [
    | inl e ↦ rw e ((refl, refl, refl), refl)
    | inr e ↦ rw e (dod_failure-Advances a d p)
  ]

  ubs_stage-Advances :
      (a : Attempt) (r : Result Text UbsScanResult) (p : Progress)
      → Advances p (ubs_allows r && dod_passes a.dod) (ubs_stage max attempt a r p)
  unfolding ubs_stage verify
  ubs_stage-Advances a (err e) p = dod_stage-Advances a a.dod _
  ubs_stage-Advances a (ok u) p = elim (Bool-cases u.passed) [
    | inl e ↦ rw e (dod_stage-Advances a a.dod _)
    | inr e ↦ rw e ((refl, refl, refl), refl)
  ]

  review_stage-Frame :
      (r : Result Text ReviewResult) (p : Progress) → Frame p (review_stage attempt r p)
  unfolding review_stage
  review_stage-Frame (err e) p = (refl, refl, refl)
  review_stage-Frame (ok r) p = elim (Bool-cases r.approved) [
    | inl e ↦ rw e (refl, refl, refl)
    | inr e ↦ rw e (refl, refl, refl)
  ]

sentinel_stage-Frame :
    (r : Result Text SentinelResult) (p : Progress) → Frame p (sentinel_stage r p)
unfolding sentinel_stage
sentinel_stage-Frame (err e) p = (refl, refl, refl)
sentinel_stage-Frame (ok s) p = files s.reverted_files
  where
    files :
        (fs : List Text)
        → Frame p (
            call
              (step (text "sentinel") (if s.passed then text "ok" else text "failed"))
              (elim fs [ [] ↦ p | g ∷ gs ↦ hint (sentinel_reverted (g ∷ gs)) p ]))
    files [] = (refl, refl, refl)
    files (g ∷ gs) = (refl, refl, refl)

scanned-Frame : (a : Attempt) (p : Progress) → Frame p (scanned a p)
unfolding scanned
scanned-Frame a p = sentinel_stage-Frame a.sentinel (
    call sentinel_scan (
      call await_resume_gate
        (call (trace (text "execute") (pos 3) false) (call (step (text "execute") (text "ok")) p))))

module _ (max attempt : ℕ) where
  reviewed-Frame : (a : Attempt) (p : Progress) → Frame p (reviewed attempt a p)
  unfolding reviewed
  reviewed-Frame a p =
      review_stage-Frame max attempt a.review
        (call code_review (call (search_attributes (text "review")) p))

  inspect-Advances :
      (a : Attempt) (p : Progress)
      → Advances p (ubs_allows a.ubs && dod_passes a.dod) (inspect max attempt a p)
  unfolding inspect
  inspect-Advances a p =
      let q = reviewed attempt a (scanned a p) in
      Advances-Frame p q (ubs_allows a.ubs && dod_passes a.dod)
        (ubs_stage max attempt a a.ubs (call ubs_scan (call await_resume_gate q)))
        (Frame-trans p (scanned a p) q (scanned-Frame a p) (reviewed-Frame a (scanned a p)))
        (ubs_stage-Advances max attempt a a.ubs (call ubs_scan (call await_resume_gate q)))

  execute_stage-Advances :
      (a : Attempt) (r : Result Text (Unit {0})) (p : Progress)
      → Advances p
          (executes r && (ubs_allows a.ubs && dod_passes a.dod))
          (execute_stage max attempt a r p)
  unfolding execute_stage
  execute_stage-Advances a (err e) p = ((refl, refl, refl), refl)
  execute_stage-Advances a (ok tt) p = inspect-Advances a p

  -- A pass counts one more attempt, and ends with DoD passed exactly if its answers let it go through.
  pub pass-Advances :
      (answers : ℕ → Attempt) (p : Progress)
      → Advances
          (record p { escalation_attempt = suc p.escalation_attempt })
          (goes_through (answers (suc p.escalation_attempt)))
          (pass answers max attempt p)
  unfolding pass
  pass-Advances answers p =
      let n = suc p.escalation_attempt in
      let a = answers n in
      execute_stage-Advances a a.execute (
        call (execute p.previous_errors) (
          call (search_attributes (text "execute")) (
            call await_resume_gate
              (call (notify (text "execute")) (record p { escalation_attempt = n })))))

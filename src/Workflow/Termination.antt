-- ===== src/Workflow/Termination.antt =====
-- The loop of attempts ends: a pass burns an attempt, leaves the loop, or uses up a reason for a free one.
use native.Mathlib.Decide.{dec_lt}
use chum.Base.{
  ℕ, zero, suc, ◌+◌, ◌-◌, ◌≤◌, ◌<◌, ◌≡◌, refl, sym, ◌∙◌, ◌⊎◌, inl, inr, Bool, true, false, [],
  Option, some, arith, leb, Bool-cases, subst,
}
use chum.Workflow.{Attempt, Environment, TaskRequest, Progress}
use chum.Workflow.Round.{Outcome, passed, burned, free, rescued, rescoped, pass}
use chum.Workflow.Reasons.{reasons, unseen}
use chum.Workflow.Stages.{endings, goes_through, Advances, pass-Advances}
use chum.Workflow.Run.{
  after_pass, attempts, max_retries, reason_count, first_tier, tier_attempts, tier_loop,
}

-- What at most `n` passes make of `p`: no pass but the last goes through, and the last does if `b`.
pub record IsRun (answers : ℕ → Attempt) (n : ℕ) (p q : Progress) (b : Bool) : Type 0 where
  pub kept : endings q.calls ≡ endings p.calls
  pub grows : p.escalation_attempt ≤ q.escalation_attempt
  pub bounded : q.escalation_attempt ≤ p.escalation_attempt + n
  pub earlier :
      (k : ℕ)
      → p.escalation_attempt < k
      → k < q.escalation_attempt
      → goes_through (answers k) ≡ false
  pub last :
      ((b ≡ false) × (q.escalation_attempt ≡ p.escalation_attempt))
      ⊎ ((p.escalation_attempt < q.escalation_attempt)
          × (goes_through (answers q.escalation_attempt) ≡ b))

module _ (answers : ℕ → Attempt) where
  abbrev pub Finishes : ℕ → Progress → Option (Progress × Bool) → Type 0
  Finishes n p o = (q : Progress) × (b : Bool) × (o ≡ some (q, b)) × IsRun answers n p q b

  IsRun-stay : (n : ℕ) (p : Progress) → IsRun answers n p p false
  IsRun-stay n p = record {
    kept = refl;
    grows = omega arith;
    bounded = omega arith;
    earlier = λ k h l. absurd (omega arith);
    last = inl (refl, refl);
  }

  module _ (n : ℕ) (p q : Progress) (q_next : q.escalation_attempt ≡ suc p.escalation_attempt)
      (q_kept : endings q.calls ≡ endings p.calls) where
    IsRun-once :
        (b : Bool)
        → 1 ≤ n
        → goes_through (answers (suc p.escalation_attempt)) ≡ b
        → IsRun answers n p q b
    IsRun-once b l g = record {
      kept = q_kept;
      grows = omega arith;
      bounded = omega arith;
      earlier = λ k h i. absurd (omega arith);
      last = inr (omega arith, subst (λ m. goes_through (answers m) ≡ b) (sym q_next) g);
    }

    IsRun-step :
        (m : ℕ) (r : Progress) (b : Bool)
        → suc m ≤ n
        → goes_through (answers (suc p.escalation_attempt)) ≡ false
        → IsRun answers m q r b
        → IsRun answers n p r b
    IsRun-step m r b l g run = record {
      kept = run.kept ∙ q_kept;
      grows = omega (arith, run.grows);
      bounded = omega (arith, run.bounded);
      earlier = λ k h i. elim (dec_lt (suc p.escalation_attempt) k) [
        | yes later ↦ run.earlier k (omega arith) i
        | no first ↦
            let same : suc p.escalation_attempt ≡ k = omega arith in
            subst (λ j. goes_through (answers j) ≡ false) same g
      ];
      last = elim run.last [
        | inr (lt, e) ↦ inr (omega arith, e)
        | inl (e, same) ↦ inr (
          omega arith,
          subst (λ j. goes_through (answers j) ≡ b) (sym (same ∙ q_next)) (g ∙ sym e),
        )
      ];
    }

  -- The loop variable that bounds the passes to come.
  abbrev left : ℕ → ℕ → Progress → ℕ
  left max attempt p = (max - attempt) + unseen p.infra_retries reasons

  after_pass-Finishes :
      (max attempt : ℕ) (p : Progress) (next again : Progress → Option (Progress × Bool))
      (r : Progress × Outcome)
      → attempt < max
      → ((q : Progress)
          → left max (suc attempt) q < left max attempt p
          → Finishes (left max (suc attempt) q) q (next q))
      → ((q : Progress)
          → left max attempt q < left max attempt p
          → Finishes (left max attempt q) q (again q))
      → Advances
          (record p { escalation_attempt = suc p.escalation_attempt })
          (goes_through (answers (suc p.escalation_attempt)))
          r
      → Finishes (left max attempt p) p (after_pass next again r)
  after_pass-Finishes max attempt p next again (q, passed) h f g ((e, i, k), t) =
      (q, true, refl, IsRun-once (left max attempt p) p q e k true (omega arith) t)
  after_pass-Finishes max attempt p next again (q, rescued) h f g ((e, i, k), t) =
      (q, false, refl, IsRun-once (left max attempt p) p q e k false (omega arith) t)
  after_pass-Finishes max attempt p next again (q, rescoped) h f g ((e, i, k), t) =
      (q, false, refl, IsRun-once (left max attempt p) p q e k false (omega arith) t)
  after_pass-Finishes max attempt p next again (q, burned) h f g ((e, i, k), t) =
      let less : left max (suc attempt) q < left max attempt p = rw i (omega arith) in
      let (r, b, found, run) = f q less in
      (
        r,
        b,
        found,
        IsRun-step (left max attempt p) p q e k (left max (suc attempt) q) r b less t run,
      )
  after_pass-Finishes max attempt p next again (q, free) h f g (e, l, k, t) =
      let less : left max attempt q < left max attempt p = omega arith in
      let (r, b, found, run) = g q less in
      (r, b, found, IsRun-step (left max attempt p) p q e k (left max attempt q) r b less t run)

  attempts-Finishes :
      (fuel max attempt : ℕ) (p : Progress)
      → left max attempt p < fuel
      → Finishes (left max attempt p) p (attempts answers fuel max attempt p)
  unfolding attempts
  attempts-Finishes zero max attempt p h = absurd (omega arith)
  attempts-Finishes (suc fuel) max attempt p h = elim (Bool-cases (leb max attempt)) [
    | inl e ↦ rw (e, attempts) (p, false, refl, IsRun-stay (left max attempt p) p)
    | inr e ↦
        rw (e, attempts)
          (after_pass-Finishes max attempt p (attempts answers fuel max (suc attempt))
            (attempts answers fuel max attempt) (pass answers max attempt p) (ground arith)
            (λ q l. attempts-Finishes fuel max (suc attempt) q (omega arith))
            (λ q l. attempts-Finishes fuel max attempt q (omega arith))
            (pass-Advances max attempt answers p))
  ]

unseen-le : unseen [] reasons ≡ reason_count
unfolding unseen
unseen-le = refl

tier_attempts-Finishes :
    (answers : ℕ → Attempt) (max : ℕ) (enabled : Bool) (p : Progress)
    → p.infra_retries ≡ []
    → Finishes answers (max + reason_count) p (tier_attempts answers max enabled p)
unfolding tier_attempts
tier_attempts-Finishes answers max false p h = (p, false, refl, IsRun-stay answers _ p)
tier_attempts-Finishes answers max true p h =
    let full : unseen p.infra_retries reasons ≡ reason_count = rw h unseen-le in
    let bound : left answers max 0 p ≡ max + reason_count = omega (arith, full) in
    subst (λ m. Finishes answers m p (attempts answers (suc (max + reason_count)) max 0 p)) bound
      (attempts-Finishes answers (suc (max + reason_count)) max 0 p (omega (arith, full)))

-- With the fuel that it is given the loop of attempts always ends, after at most seven passes more than
-- the retries of its tier.
pub tier_loop-Finishes :
    (env : Environment) (req : TaskRequest) (p : Progress)
    → p.infra_retries ≡ []
    → Finishes env.attempt (max_retries req + reason_count) p (tier_loop env req p)
unfolding tier_loop
tier_loop-Finishes env req p h =
    tier_attempts-Finishes env.attempt (max_retries req) (first_tier req).enabled p h

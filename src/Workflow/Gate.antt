-- ===== src/Workflow/Gate.antt =====
-- awaitResumeGate of internal/temporal/workflow.go: where a run of ChumAgentWorkflow waits while it is drained.
-- The answers of the activities do not depend on the signals: a run that is held has made the calls of the
-- run that is not, up to the wait.
use mathlib.Core.List.Memᴰ
use chum.Base.{
  ℕ, suc, ◌<◌, ◌≡◌, refl, ap, ◌⊎◌, inl, inr, Bool, true, false, not, ◌&&◌, List, [], ◌∷◌, ◌++◌,
  Memᴰ, Option, none, some, if◌then◌else◌, length, select, ltb, arith, Bool-cases, subst,
}
use chum.Workflow.{Call, Progress, await_resume_gate}

-- The two channels of signals.
pub data Signal : Type 0 where
  drain resume : Signal

-- Whether the wait is over once its selector has received the signals, in their order; the first argument is
-- `isDrained`. A wait that is not drained does not wait for a signal.
unfoldable pub pass_gate : Bool → List Signal → Bool
pass_gate false [] = true
pass_gate true [] = false
pass_gate drained (resume ∷ signals) = true
pass_gate drained (drain ∷ signals) = pass_gate true signals

abbrev pub is_wait : Call → Bool
is_wait await_resume_gate = true
is_wait _ = false

abbrev pub waits : List Call → ℕ
waits cs = length (select is_wait cs)

-- The calls up to the first wait that is not over, the latest call first; `signals k` are those that the
-- wait after `k` others receives.
unfoldable pub held : (ℕ → List Signal) → List Call → Option (List Call)
held signals [] = none
held signals (c ∷ cs) = elim (held signals cs) [
  | some made ↦ some made
  | none ↦ if is_wait c && not (pass_gate false (signals (waits cs))) then some (c ∷ cs) else none
]

-- How the workflow ends: without an error, or with one, whose deferred call stands last.
pub data Ending : Type 0 where
  completed escalated plan_failed : Ending

pub record Ended : Type 0 where
  pub ending : Ending
  pub progress : Progress

-- A run ends or waits at the gate after the given calls.
pub data Run : Type 0 where
  ended : Ended → Run
  waiting : List Call → Run

unfoldable pub gated : (ℕ → List Signal) → Ended → Run
gated signals e = elim (held signals e.progress.calls) [ none ↦ ended e | some made ↦ waiting made ]

-- The signals leave a wait drained: a drain first and no resume behind it.
abbrev pub IsStuck : List Signal → Type 0
IsStuck signals = (rest : List Signal) × (signals ≡ drain ∷ rest) × ¬ Memᴰ resume rest

drained-passes : (signals : List Signal) → pass_gate true signals ≡ true → Memᴰ resume signals
unfolding pass_gate
drained-passes [] h = cc h
drained-passes (resume ∷ signals) h = Memᴰ.head refl
drained-passes (drain ∷ signals) h = Memᴰ.tail (drained-passes signals h)

drained-In : (signals : List Signal) → Memᴰ resume signals → pass_gate true signals ≡ true
unfolding pass_gate
drained-In [] m = absurd (Memᴰ.not-nil m)
drained-In (resume ∷ signals) m = refl
drained-In (drain ∷ signals) m = elim (Memᴰ.cases_cons m) [
  | inl q ↦ absurd (cc q)
  | inr n ↦ drained-In signals n
]

pass_gate-open : (signals : List Signal) → pass_gate false signals ≡ true → ¬ IsStuck signals
unfolding pass_gate
pass_gate-open [] h = λ (rest, e, n). absurd (cc e)
pass_gate-open (resume ∷ signals) h = λ (rest, e, n). absurd (cc e)
pass_gate-open (drain ∷ signals) h = λ (rest, e, n).
    let q : signals ≡ rest = cc e in n (subst (λ s. Memᴰ resume s) q (drained-passes signals h))

pass_gate-IsStuck : (signals : List Signal) → pass_gate false signals ≡ false → IsStuck signals
unfolding pass_gate
pass_gate-IsStuck [] h = cc h
pass_gate-IsStuck (resume ∷ signals) h = cc h
pass_gate-IsStuck (drain ∷ signals) h = (signals, refl, λ m. absurd (cc (drained-In signals m, h)))

module _ (signals : ℕ → List Signal) where
  -- None of the first `n` waits is stuck.
  abbrev pub AllPass : ℕ → Type 0
  AllPass n = (k : ℕ) → k < n → ¬ IsStuck (signals k)

  -- The calls stop at a wait that is stuck, the first such one of the calls `cs`.
  abbrev pub IsHeld : List Call → List Call → Type 0
  IsHeld cs made =
      (c : Call) × (before later : List Call) × (made ≡ c ∷ before)
      × (is_wait c ≡ true)
      × (cs ≡ later ++ made)
      × IsStuck (signals (waits before))
      × AllPass (waits before)

  held-cases :
      (cs : List Call)
      → ((held signals cs ≡ none) × AllPass (waits cs))
        ⊎ ((made : List Call) × (held signals cs ≡ some made) × IsHeld cs made)
  unfolding held
  held-cases [] = inl (refl, λ k l. absurd (omega (arith, l)))
  held-cases (c ∷ cs) = elim (held-cases cs) [
    | inr (made, e, (d, before, later, q, w, split, s, p)) ↦
        inr (made, rw e refl, (d, before, c ∷ later, q, w, ap (λ l. c ∷ l) split, s, p))
    | inl (e, p) ↦ elim (Bool-cases (is_wait c)) [
      | inr w ↦ inl (rw (e, w) refl, rw w p)
      | inl w ↦ elim (Bool-cases (pass_gate false (signals (waits cs)))) [
        | inr g ↦ inr (
          c ∷ cs,
          rw (e, w, g) refl,
          (c, cs, [], refl, w, refl, pass_gate-IsStuck (signals (waits cs)) g, p),
        )
        | inl g ↦ inl (
          rw (e, w, g) refl,
          rw w (all_pass-suc (waits cs) p (pass_gate-open (signals (waits cs)) g)),
        )
      ]
    ]
  ]
    where
      all_pass-suc : (n : ℕ) → AllPass n → ¬ IsStuck (signals n) → AllPass (suc n)
      all_pass-suc n p h k l = elim (Bool-cases (ltb k n)) [
        | inl b ↦ p k (ground (arith, b))
        | inr b ↦ let q : n ≡ k = ground (arith, b, l) in subst (λ j. ¬ IsStuck (signals j)) q h
      ]

  -- What the gate makes of the run `e`.
  abbrev pub IsGated : Ended → Option Run → Type 0
  IsGated e run =
      ((run ≡ some (ended e)) × AllPass (waits e.progress.calls))
      ⊎ ((made : List Call) × (run ≡ some (waiting made)) × IsHeld e.progress.calls made)

  pub gated-IsGated : (e : Ended) → IsGated e (some (gated signals e))
  unfolding gated
  gated-IsGated e = elim (held-cases e.progress.calls) [
    | inl (h, p) ↦ inl (rw (h, gated) refl, p)
    | inr (made, h, p) ↦ inr (made, rw (h, gated) refl, p)
  ]

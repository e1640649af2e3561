-- ===== src/Agents/Breaker.antt =====
-- The circuit breaker over a history of runs.
use chum.Base.{
  ℕ, suc, ◌+◌, ◌≤◌, ◌≡◌, ◌↔◌, refl, true, List, [], ◌∷◌, arith, if◌then◌else◌, Bool-cases, inl, inr,
}
use chum.Text.{Text, text_eq, text_eq_iff}
use chum.Text.Dict.{lookup, insert, erase, lookup-insert, lookup-erase}
use chum.Agents.{
  FailureTracker, consecutive_failures, is_circuit_open, record_failure, record_success,
}

pub data Run : Type 0 where
  failed : Text → Run
  succeeded : Text → Run

-- The tracker after the runs, the latest of which stands first.
unfoldable pub tracked : List Run → FailureTracker
tracked [] = []
tracked (failed agent ∷ runs) = (record_failure agent (tracked runs)).0
tracked (succeeded agent ∷ runs) = record_success agent (tracked runs)

-- How many runs of the agent failed since its latest success.
unfoldable pub failures_since_success : Text → List Run → ℕ
failures_since_success agent [] = 0
failures_since_success agent (failed a ∷ runs) =
    let n = failures_since_success agent runs in if text_eq a agent then suc n else n
failures_since_success agent (succeeded a ∷ runs) =
    let n = failures_since_success agent runs in if text_eq a agent then 0 else n

consecutive_failures-insert :
    (a agent : Text) (n : ℕ) (t : FailureTracker)
    → consecutive_failures agent (insert a n t)
      ≡ (if text_eq a agent then n else consecutive_failures agent t)
unfolding consecutive_failures
consecutive_failures-insert a agent n t = ground (arith, lookup-insert a agent n t)

consecutive_failures-erase :
    (a agent : Text) (t : FailureTracker)
    → consecutive_failures agent (erase a t)
      ≡ (if text_eq a agent then 0 else consecutive_failures agent t)
unfolding consecutive_failures
consecutive_failures-erase a agent t = ground (arith, lookup-erase a agent t)

consecutive_failures-nil : (agent : Text) → consecutive_failures agent [] ≡ 0
unfolding consecutive_failures lookup
consecutive_failures-nil agent = refl

consecutive_failures-tracked :
    (agent : Text) (runs : List Run)
    → consecutive_failures agent (tracked runs) ≡ failures_since_success agent runs
unfolding tracked failures_since_success record_failure record_success
consecutive_failures-tracked agent [] = consecutive_failures-nil agent
consecutive_failures-tracked agent (failed a ∷ runs) =
    let ih = consecutive_failures-tracked agent runs in
    rw
      (consecutive_failures-insert a agent (consecutive_failures a (tracked runs) + 1)
        (tracked runs))
      (elim (Bool-cases (text_eq a agent)) [
        | inl e ↦ rw e (rw ((text_eq_iff a agent).0 e) (omega (arith, ih)))
        | inr e ↦ rw e ih
      ])
consecutive_failures-tracked agent (succeeded a ∷ runs) =
    let ih = consecutive_failures-tracked agent runs in
    rw (consecutive_failures-erase a agent (tracked runs))
      (elim (Bool-cases (text_eq a agent)) [ inl e ↦ rw e refl | inr e ↦ rw e ih ])

-- After any runs of agents the circuit of an agent is open exactly if at least three of its runs failed since
-- its latest success, whatever the other agents did.
pub is_circuit_open-tracked :
    (agent : Text) (runs : List Run)
    → (is_circuit_open agent (tracked runs) ≡ true) ↔ (3 ≤ failures_since_success agent runs)
unfolding is_circuit_open
is_circuit_open-tracked agent runs = rw (consecutive_failures-tracked agent runs) (ground arith)

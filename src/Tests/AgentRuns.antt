-- ===== src/Tests/AgentRuns.antt =====
-- The theorems on the circuit breaker and the escalation chain at concrete inputs.
use chum.Base.{◌≡◌, ◌↔◌, ◌≤◌, List, [], ◌∷◌, true}
use chum.Text.{Text, text}
use chum.Dispatch.RateLimit.{Tiers}
use chum.Agents.{is_circuit_open}
use chum.Agents.Breaker.{
  failed, succeeded, Run, tracked, failures_since_success, is_circuit_open-tracked,
}

abbrev runs : List Run
runs =
    failed (text "codex")
    ∷ succeeded (text "gemini")
    ∷ failed (text "codex")
    ∷ failed (text "codex")
    ∷ succeeded (text "codex")
    ∷ []

is_circuit_open-tracked_example :
    (is_circuit_open (text "codex") (tracked runs) ≡ true)
    ↔ (3 ≤ failures_since_success (text "codex") runs)
is_circuit_open-tracked_example = is_circuit_open-tracked (text "codex") runs

abbrev tiers : Tiers
tiers = record {
  fast = text "gemini" ∷ [];
  balanced = text "codex" ∷ text "gemini" ∷ [];
  premium = text "claude" ∷ text "codex" ∷ [];
}

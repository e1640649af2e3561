-- ===== src/Agents.antt =====
-- internal/temporal/agent_cli.go: the circuit breaker for agents, and the choice of agents by tier.
pub mod Breaker
pub mod Covered
pub mod Chain
use chum.Base.{
  ℕ, suc, ◌+◌, Bool, true, false, List, [], ◌∷◌, ◌++◌, ◌||◌, Option, none, some, if◌then◌else◌, leb,
}
use chum.Text.{Text, text, text_eq, one_of, to_lower, is_empty}
use chum.Text.Trim.{trim_space}
use chum.Text.Dict.{Dict, lookup, insert, erase}
use chum.Dispatch.RateLimit.{Tiers}

-- `agentFailureTracker`; a missing agent has no failures.
abbrev pub FailureTracker : Type 0
FailureTracker = Dict ℕ

abbrev pub agent_circuit_breaker_threshold : ℕ
agent_circuit_breaker_threshold = 3

unfoldable pub consecutive_failures : Text → FailureTracker → ℕ
consecutive_failures agent t = elim (lookup agent t) [ none ↦ 0 | some n ↦ n ]

unfoldable pub is_circuit_open : Text → FailureTracker → Bool
is_circuit_open agent t = leb agent_circuit_breaker_threshold (consecutive_failures agent t)

unfoldable pub record_failure : Text → FailureTracker → FailureTracker × Bool
record_failure agent t =
    let n = consecutive_failures agent t + 1 in
    (insert agent n t, leb agent_circuit_breaker_threshold n)

unfoldable pub record_success : Text → FailureTracker → FailureTracker
record_success agent t = erase agent t

-- `addUnique`: the names of the map `seen` are those of the chain.
unfoldable pub add_unique : List Text → List Text → List Text
add_unique [] chain = chain
add_unique (a ∷ agents) chain =
    add_unique agents (if one_of chain a then chain else chain ++ a ∷ [])

abbrev pub or_codex : List Text → List Text
or_codex [] = text "codex" ∷ []
or_codex (a ∷ chain) = a ∷ chain

-- The tiers from the starting one on, in the order in which `EscalationChain` adds them.
unfoldable pub tiers_from : Tiers → Text → List (List Text)
tiers_from tiers tier =
    if is_empty tier || text_eq tier (text "fast")
    then tiers.fast ∷ tiers.balanced ∷ tiers.premium ∷ []
    else if text_eq tier (text "balanced")
    then tiers.balanced ∷ tiers.premium ∷ []
    else if text_eq tier (text "premium")
    then tiers.premium ∷ []
    else []

unfoldable pub add_tiers : List (List Text) → List Text → List Text
add_tiers [] chain = chain
add_tiers (agents ∷ tiers) chain = add_tiers tiers (add_unique agents chain)

unfoldable pub escalation_chain : Tiers → Text → List Text
escalation_chain tiers start_tier =
    or_codex (add_tiers (tiers_from tiers (trim_space (to_lower start_tier))) [])

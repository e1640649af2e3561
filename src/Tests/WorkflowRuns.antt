-- ===== src/Tests/WorkflowRuns.antt =====
-- The theorems on the agent workflow at concrete answers of its activities.
use chum.Base.{ℕ, zero, suc, ◌≡◌, refl, Bool, true, false, List, [], ◌∷◌}
use chum.Base.Int.{pos}
use chum.Base.Result.{ok, err}
use chum.Text.{Text, text}
use chum.Workflow.{TaskRequest, EscalationTier, Attempt, Environment}
use chum.Workflow.Gate.{Signal, drain, resume, escalated, Ended, IsGated}
use chum.Workflow.Run.{chum_agent_workflow}
use chum.Workflow.Verdicts.{disabled_tier-escalates}

abbrev balanced : Bool → EscalationTier
balanced enabled = record {
  provider_key = text "codex";
  cli = text "codex";
  model = text "o3";
  tier = text "balanced";
  reviewer = [];
  enabled = enabled;
}

abbrev request : Bool → TaskRequest
request enabled = record {
  agent = text "codex";
  model = text "o3";
  provider = text "codex";
  explosion_id = [];
  escalation_chain = balanced enabled ∷ balanced true ∷ [];
  max_retries_override = pos 0;
}

-- The first pass fails by a lock, the second by a test, the third goes through.
abbrev failures : ℕ → Text
failures (suc (suc zero)) = text "go test: exit 1"
failures n = text "index.lock exists"

abbrev answers : ℕ → Attempt
answers n = record {
  execute = ok tt;
  sentinel = err (text "timeout");
  review = ok (record { approved = true; issues = [] });
  ubs = ok (record { passed = true; critical = pos 0; total_findings = pos 2 });
  dod = ok (record { passed = late n; checks = []; failures = failures n ∷ [] });
  triage =
      ok (record { decision = text "retry"; rescope_reason = []; guidance = text "run the tests" });
}
  where
    late : ℕ → Bool
    late (suc (suc (suc k))) = true
    late k = false

abbrev environment : Environment
environment = record {
  setup_worktree = ok (text "/tmp/wt");
  protein_instructions = [];
  structured_plan = ok tt;
  attempt = answers;
  merge_to_main = ok (pos 7);
}

-- The third wait is drained and resumed, the sixth one only drained.
abbrev signals : ℕ → List Signal
signals (suc (suc zero)) = drain ∷ drain ∷ resume ∷ []
signals (suc (suc (suc (suc (suc zero))))) = drain ∷ []
signals n = []

disabled_tier-escalates_example :
    (e : Ended) × (e.ending ≡ escalated)
    × (e.progress.escalation_attempt ≡ 0)
    × IsGated signals e (chum_agent_workflow signals environment (request false))
disabled_tier-escalates_example =
    disabled_tier-escalates signals environment (request false) (balanced false)
      (balanced true ∷ []) refl refl refl

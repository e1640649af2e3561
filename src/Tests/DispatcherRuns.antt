-- ===== src/Tests/DispatcherRuns.antt =====
-- The theorems on the dispatcher at concrete tasks.
use mathlib.Core.List.Memᴰ
use chum.Base.{
  ℕ, zero, suc, ◌≤◌, ◌≡◌, refl, Bool, true, false, List, [], ◌∷◌, ◌++◌, Memᴰ, none, some,
  if◌then◌else◌, ltb,
}
use chum.Base.Int.{ℤ, pos}
use chum.Base.Result.{Result, ok}
use chum.Text.{Text, text, text_eq, is_space}
use chum.Text.Trim.{trim_space, trim_left, trim_right}
use chum.Graph.Task.{Task}
use chum.Dispatcher.{Candidate, Limits, candidates_of, scan}
use chum.Dispatcher.Candidates.{ScanInput, scan_candidates, IsTickOf, scan_candidates-IsTickOf}
use chum.Tests.Samples.{decode, db_chain, db_chain-IsValid}
use chum.Dispatcher.Picked.{IsScanned, scan-IsScanned}
use chum.Dispatcher.Tick.{
  DispatchCandidate, Launch, ScanCandidatesResult, dispatcher_workflow, ran, post_mortems,
}
use chum.Dispatcher.Routes.{AllSent, ceremonies, dispatcher_workflow-IsSent}
use chum.Dispatcher.Ids.{
  extract_task_id_from_workflow_id, strip_suffix, lane_suffixes, extract-round_trip,
}

abbrev task : Text → ℤ → List Text → Task
task id priority labels = record {
  id = id;
  title = id;
  description = [];
  status = text "ready";
  priority = priority;
  task_type = text "task";
  assignee = [];
  labels = labels;
  estimate_minutes = pos 30;
  parent_id = [];
  acceptance = text "tests pass";
  design = [];
  notes = [];
  depends_on = [];
  project = text "chum";
  error_log = [];
  complexity = pos 0;
  created_at = 0;
  updated_at = 0;
}

abbrev ready : List Candidate
ready = candidates_of (text "chum") (
    task (text "t3") (pos 2) []
    ∷ task (text "t1") (pos 0) []
    ∷ task (text "t2") (pos 1) (text " Strategy:Deferred " ∷ [])
    ∷ [])

abbrev limits : Limits
limits = record {
  max_per_project = 2;
  running_set = text "t1" ∷ [];
  genome = λ t. some (record { hibernating = text_eq t.id (text "t9"); generation = pos 1 });
}

scan-IsScanned_example :
    IsScanned limits 2 ((text "chum", 1) ∷ []) ready (scan limits 2 ((text "chum", 1) ∷ []) ready)
scan-IsScanned_example = scan-IsScanned limits 2 ((text "chum", 1) ∷ []) ready

abbrev new_work : Text → DispatchCandidate
new_work id = record {
  task_id = id;
  labels = [];
  previous_errors = [];
  generation = pos 0;
  complexity = pos 20;
}

abbrev result : ScanCandidatesResult
result = record {
  candidates = new_work (text "t1") ∷ new_work (text "t2") ∷ new_work (text "t3") ∷ [];
  planning_running = 0;
  throttled = false;
  available_agents = text "codex" ∷ text "gemini" ∷ [];
  enable_planner_v2 = false;
}

-- The first child does not start.
abbrev starts : ℕ → Bool
starts zero = false
starts (suc i) = true

abbrev failures : Result Text (List Text)
failures = ok (text "t7-1708654321" ∷ [])

dispatcher_workflow-IsSent_example :
    (ls : List Launch) × (dispatcher_workflow (λ f. true) failures starts (ok result)
      ≡ ran ls (post_mortems (λ f. true) failures))
    × (ceremonies ls ≤ (if ltb 0 result.planning_running then 0 else 1))
    × AllSent result.enable_planner_v2 result.available_agents result.candidates ls
dispatcher_workflow-IsSent_example =
    dispatcher_workflow-IsSent (λ f. true) failures starts result refl

no_lane : (s : Text) → Memᴰ s lane_suffixes → strip_suffix s (text "w1-1") ≡ none
unfolding strip_suffix text_eq
no_lane s (Memᴰ.head q) = rw q refl
no_lane s (Memᴰ.tail (Memᴰ.head q)) = rw q refl
no_lane s (Memᴰ.tail (Memᴰ.tail (Memᴰ.head q))) = rw q refl
no_lane s (Memᴰ.tail (Memᴰ.tail (Memᴰ.tail (Memᴰ.head q)))) = rw q refl
no_lane s (Memᴰ.tail (Memᴰ.tail (Memᴰ.tail (Memᴰ.tail m)))) = absurd (Memᴰ.not-nil m)

trimmed : trim_space (text "w1-1-1708654321") ≡ text "w1-1-1708654321"
unfolding trim_space trim_left trim_right is_space
trimmed = refl

extract-round_trip_example :
    extract_task_id_from_workflow_id (text "w1-1" ++ 45 ∷ text "1708654321") ≡ text "w1-1"
extract-round_trip_example =
    extract-round_trip (text "w1-1") (text "1708654321") refl refl trimmed no_lane

abbrev input : ScanInput
input = record {
  max_concurrent_total = pos 5;
  max_per_tick = pos 0;
  max_concurrent_per_project = pos 2;
  groomers = false;
  projects = record { name = text "p"; enabled = true; open_workflows = some 1 } ∷ [];
  running = 1;
  running_set = text "p-9" ∷ [];
  genome = λ t. none;
}

scan_candidates-IsTickOf_example :
    let (db, picked) = scan_candidates decode 9 input db_chain in IsTickOf input db picked
scan_candidates-IsTickOf_example = scan_candidates-IsTickOf decode 9 input db_chain db_chain-IsValid

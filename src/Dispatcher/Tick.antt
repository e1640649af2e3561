-- ===== src/Dispatcher/Tick.antt =====
-- DispatcherWorkflow: what one tick does with the result of the scan, and where it sends each candidate.
use chum.Base.{
  ℕ, zero, suc, ◌%◌, Bool, true, false, not, ◌&&◌, ◌||◌, List, [], ◌∷◌, Option, if◌then◌else◌, ltb,
  length, take, select, any, get_elem?,
}
use chum.Base.Int.{ℤ, pos, negsuc, ltb_ℤ}
use chum.Base.Result.{Result, ok, err}
use chum.Text.{Text, text, text_eq, is_empty, to_lower}
use chum.Text.Trim.{trim_space}

-- The fields that decide the route.
pub record DispatchCandidate : Type 0 where
  pub task_id : Text
  pub labels : List Text
  pub previous_errors : List Text
  pub generation : ℤ
  pub complexity : ℤ

unfoldable pub has_candidate_label : List Text → Text → Bool
has_candidate_label labels needle =
    let n = trim_space (to_lower needle) in
    if is_empty n then false else any (λ l. text_eq (trim_space (to_lower l)) n) labels

unfoldable pub is_crab_emitted_candidate : DispatchCandidate → Bool
is_crab_emitted_candidate c = has_candidate_label c.labels (text "source:crab")

abbrev pub is_zero_ℤ : ℤ → Bool
is_zero_ℤ (pos zero) = true
is_zero_ℤ (pos (suc n)) = false
is_zero_ℤ (negsuc n) = false

abbrev pub is_nil : List Text → Bool
is_nil [] = true
is_nil (e ∷ es) = false

unfoldable pub should_route_to_planning_ceremony : DispatchCandidate → Bool
should_route_to_planning_ceremony c =
    if is_crab_emitted_candidate c
    then false
    else if is_zero_ℤ c.generation
    then true
    else if not (is_nil c.previous_errors)
    then true
    else ltb_ℤ (pos 70) c.complexity

-- The child workflow of a candidate.
pub data Route : Type 0 where
  planner_v2 planning_ceremony agent_workflow : Route

-- `planning` says that the slot of planning is taken.
unfoldable pub route : Bool → Bool → DispatchCandidate → Route
route enable_planner_v2 planning c =
    if enable_planner_v2
    then planner_v2
    else if should_route_to_planning_ceremony c
    then (if planning then agent_workflow else planning_ceremony)
    else agent_workflow

abbrev pub is_planning : Route → Bool
is_planning planning_ceremony = true
is_planning planner_v2 = false
is_planning agent_workflow = false

-- A child workflow that was asked for, its agent, and whether it started.
pub record Launch : Type 0 where
  pub task_id : Text
  pub agent : Option Text
  pub route : Route
  pub started : Bool

-- The agents in turn; codex where the configuration enables none.
abbrev pub rotation : List Text → List Text
rotation [] = text "codex" ∷ []
rotation (a ∷ agents) = a ∷ agents

unfoldable pub agent_at : List Text → ℕ → Option Text
agent_at agents i = get_elem? (rotation agents) (i % length (rotation agents))

-- The loop over the candidates: `starts i` tells whether the i-th child starts, and `planning` holds once a
-- ceremony runs.
unfoldable pub launches :
    Bool → List Text → (ℕ → Bool) → ℕ → Bool → List DispatchCandidate → List Launch
launches enable_planner_v2 agents starts i planning [] = []
launches enable_planner_v2 agents starts i planning (c ∷ cs) =
    let r = route enable_planner_v2 planning c in
    record { task_id = c.task_id; agent = agent_at agents i; route = r; started = starts i }
    ∷ launches enable_planner_v2 agents starts (suc i) (planning || (is_planning r && starts i)) cs

pub record ScanCandidatesResult : Type 0 where
  pub candidates : List DispatchCandidate
  pub planning_running : ℕ
  pub throttled : Bool
  pub available_agents : List Text
  pub enable_planner_v2 : Bool

-- The tasks whose failures are looked into: no more than five for a tick, less those whose context cannot be
-- fetched. `failures` is the answer of CheckFailedWorkflowsActivity.
unfoldable pub post_mortems : (Text → Bool) → Result Text (List Text) → List Text
post_mortems fetched (err e) = []
post_mortems fetched (ok failures) = select fetched (take 5 failures)

pub data Tick : Type 0 where
  investigated : Tick
  cooled : Tick
  ran : List Launch → List Text → Tick

-- How a tick goes after the scan.
unfoldable pub tick_of :
    (Text → Bool) → Result Text (List Text) → (ℕ → Bool) → ScanCandidatesResult → Tick
tick_of fetched failures starts r =
    if r.throttled
    then cooled
    else ran
        (launches r.enable_planner_v2 r.available_agents starts 0 (ltb 0 r.planning_running)
          r.candidates)
        (post_mortems fetched failures)

unfoldable pub dispatcher_workflow :
    (Text → Bool) → Result Text (List Text) → (ℕ → Bool) → Result Text ScanCandidatesResult → Tick
dispatcher_workflow fetched failures starts (err e) = investigated
dispatcher_workflow fetched failures starts (ok r) = tick_of fetched failures starts r

-- ===== src/Store/Planning.antt =====
-- internal/store/planning_control.go: the snapshots of planning sessions and the blacklist of their actions.
-- The rows of both tables stand newest first, so that ids fall along the list.
pub mod Replay
use chum.Base.{
  ℕ, suc, Bool, true, false, ◌&&◌, ◌||◌, List, [], ◌∷◌, Option, none, some, if◌then◌else◌, any,
  find,
}
use chum.Base.Int.{ℤ, pos, negsuc}
use chum.Base.Result.{Result, ok, err}
use chum.Text.{Text, text, text_eq, is_empty}
use chum.Text.Trim.{trim_space}

pub record PlanningStateSnapshot : Type 0 where
  pub id : ℕ
  pub session_id : Text
  pub run_id : Text
  pub project : Text
  pub task_id : Text
  pub cycle : ℤ
  pub stage : Text
  pub state_hash : Text
  pub state_json : Text
  pub stable : Bool
  pub reason : Text
  pub created_at : ℕ

pub record PlanningBlacklistEntry : Type 0 where
  pub session_id : Text
  pub project : Text
  pub task_id : Text
  pub cycle : ℤ
  pub stage : Text
  pub state_hash : Text
  pub action_hash : Text
  pub reason : Text
  pub metadata : Text

abbrev pub floor_zero : ℤ → ℤ
floor_zero (pos n) = pos n
floor_zero (negsuc n) = pos 0

abbrev pub or_object : Text → Text
or_object s = if is_empty s then text "{}" else s

-- The values of the INSERT.
abbrev pub stored_snapshot : ℕ → ℕ → PlanningStateSnapshot → PlanningStateSnapshot
stored_snapshot now id s = record {
  id = id;
  session_id = trim_space s.session_id;
  run_id = trim_space s.run_id;
  project = trim_space s.project;
  task_id = trim_space s.task_id;
  cycle = floor_zero s.cycle;
  stage = trim_space s.stage;
  state_hash = trim_space s.state_hash;
  state_json = or_object (trim_space s.state_json);
  stable = s.stable;
  reason = trim_space s.reason;
  created_at = now;
}

unfoldable pub record_planning_state_snapshot :
    ℕ
    → ℕ
    → PlanningStateSnapshot
    → List PlanningStateSnapshot
    → Result Text (List PlanningStateSnapshot)
record_planning_state_snapshot now id s rows =
    if is_empty (trim_space s.session_id)
    then err (text "store: record planning snapshot: session_id is required")
    else if is_empty (trim_space s.state_hash)
    then err (text "store: record planning snapshot: state_hash is required")
    else ok (stored_snapshot now id s ∷ rows)

-- `ORDER BY id DESC LIMIT 1`.
unfoldable pub get_latest_stable_planning_snapshot :
    Text → List PlanningStateSnapshot → Option PlanningStateSnapshot
get_latest_stable_planning_snapshot session_id rows =
    let session = trim_space session_id in
    let found = find (λ s. text_eq s.session_id session && s.stable) rows in
    if is_empty session then none else found

-- The unique key of the blacklist.
abbrev pub same_action : Text → Text → Text → PlanningBlacklistEntry → Bool
same_action session state action e =
    text_eq e.session_id session && text_eq e.state_hash state && text_eq e.action_hash action

abbrev pub lacks_key : Text → Text → Text → Bool
lacks_key session state action = is_empty session || is_empty state || is_empty action

abbrev pub stored_entry : PlanningBlacklistEntry → PlanningBlacklistEntry
stored_entry e = record {
  session_id = trim_space e.session_id;
  project = trim_space e.project;
  task_id = trim_space e.task_id;
  cycle = floor_zero e.cycle;
  stage = trim_space e.stage;
  state_hash = trim_space e.state_hash;
  action_hash = trim_space e.action_hash;
  reason = trim_space e.reason;
  metadata = or_object (trim_space e.metadata);
}

-- ON CONFLICT the reason and the metadata of the row are replaced.
unfoldable pub upsert_entry :
    PlanningBlacklistEntry → List PlanningBlacklistEntry → List PlanningBlacklistEntry
upsert_entry new [] = new ∷ []
upsert_entry new (e ∷ rows) =
    let rest = upsert_entry new rows in
    if same_action new.session_id new.state_hash new.action_hash e
    then record e { reason = new.reason; metadata = new.metadata } ∷ rows
    else e ∷ rest

unfoldable pub add_planning_blacklist_entry :
    PlanningBlacklistEntry → List PlanningBlacklistEntry → Result Text (List PlanningBlacklistEntry)
add_planning_blacklist_entry e rows =
    if lacks_key (trim_space e.session_id) (trim_space e.state_hash) (trim_space e.action_hash)
    then err (
        text
          "store: add planning blacklist entry: session_id, state_hash, and action_hash are required")
    else ok (upsert_entry (stored_entry e) rows)

-- `SELECT COUNT(*)` and `count > 0`.
unfoldable pub is_planning_action_blacklisted :
    Text → Text → Text → List PlanningBlacklistEntry → Bool
is_planning_action_blacklisted session_id state_hash action_hash rows =
    let session = trim_space session_id in
    let state = trim_space state_hash in
    let action = trim_space action_hash in
    let found = any (same_action session state action) rows in
    if lacks_key session state action then false else found

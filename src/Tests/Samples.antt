-- ===== src/Tests/Samples.antt =====
-- A table of three tasks: the second and the third depend on the first, which is closed.
use chum.Base.{ℕ, ◌≡◌, refl, List, [], ◌∷◌, Option, none, some}
use chum.Base.Int.{pos}
use chum.Base.Result.{ok}
use chum.Text.{Text, text, text_eq, lower_byte, is_space}
use chum.Text.Trim.{trim_space}
use chum.Graph.Task.{Task, normalize_task_status, normalize_task_type}
use chum.Graph.Db.{
  TaskRow, Edge, Db, insert_edge, task_row, cycle_check, dependencies, reachable, next_rows,
}
use chum.Graph.Dag.{
  create_task, create_attempts, new_row, generate_task_id, hex_digits, add_edge, task_project,
  ensure_no_cycle,
}
use chum.Graph.Invariant.{IsValid, empty_db}
use chum.Graph.Invariant.Steps.{created, edge_added, Reach, here, then, Reach-IsValid}

-- A task of project "p" with the given status.
abbrev pub task : Text → Task
task status = record {
  id = [];
  title = text "t";
  description = [];
  status = status;
  priority = pos 1;
  task_type = text "Task";
  assignee = [];
  labels = [];
  estimate_minutes = pos 30;
  parent_id = [];
  acceptance = [];
  design = [];
  notes = [];
  depends_on = [];
  project = text " p ";
  error_log = [];
  complexity = pos 0;
  created_at = 0;
  updated_at = 0;
}

abbrev pub row : Text → Text → ℕ → TaskRow
row id status now = record {
  id = id;
  title = text "t";
  description = [];
  status = status;
  priority = pos 1;
  task_type = text "task";
  assignee = [];
  labels = [];
  estimate_minutes = pos 30;
  parent_id = [];
  acceptance = [];
  design = [];
  notes = [];
  project = text "p";
  error_log = [];
  created_at = now;
  updated_at = now;
}

abbrev pub edge : Text → Text → Edge
edge from to = record { from_task = from; to_task = to }

abbrev pub first : Text
first = text "p-000000"

abbrev pub second : Text
second = text "p-0000ff"

abbrev pub third : Text
third = text "p-000002"

abbrev pub db_one : Db
db_one = record { tasks = row first (text "closed") 1 ∷ []; edges = [] }

abbrev pub db_two : Db
db_two = record {
  tasks = row first (text "closed") 1 ∷ row second (text "open") 2 ∷ [];
  edges = [];
}

abbrev pub three_rows : List TaskRow
three_rows =
    row first (text "closed") 1 ∷ row second (text "open") 2 ∷ row third (text "open") 3 ∷ []

abbrev pub db_three : Db
db_three = record { tasks = three_rows; edges = [] }

abbrev pub db_edge : Db
db_edge = record { tasks = three_rows; edges = edge second first ∷ [] }

-- The third task depends on the second, which depends on the first.
abbrev pub db_chain : Db
db_chain = record { tasks = three_rows; edges = edge second first ∷ edge third second ∷ [] }

abbrev pub draw : ℕ → Option ℕ
draw i = some 0

abbrev pub draw_ff : ℕ → Option ℕ
draw_ff i = some 255

abbrev pub draw_two : ℕ → Option ℕ
draw_two i = some 2

-- json.Unmarshal at the texts of the samples, none of which is a list.
abbrev pub decode : Text → Option (List Text)
decode s = none

creates_one : create_task empty_db draw (task (text " Closed ")) 1 ≡ ok (first, db_one)
unfolding create_task create_attempts new_row generate_task_id hex_digits normalize_task_status
    normalize_task_type trim_space lower_byte is_space text_eq
creates_one = refl

creates_two : create_task db_one draw_ff (task []) 2 ≡ ok (second, db_two)
unfolding create_task create_attempts new_row generate_task_id hex_digits normalize_task_status
    normalize_task_type trim_space lower_byte is_space text_eq
creates_two = refl

creates_three : create_task db_two draw_two (task (text "open")) 3 ≡ ok (third, db_three)
unfolding create_task create_attempts new_row generate_task_id hex_digits normalize_task_status
    normalize_task_type trim_space lower_byte is_space text_eq
creates_three = refl

pub adds_edge : add_edge db_three (text " p-0000ff") first ≡ ok db_edge
unfolding add_edge task_project task_row ensure_no_cycle cycle_check reachable dependencies
    next_rows insert_edge trim_space is_space text_eq
adds_edge = refl

adds_second_edge : add_edge db_edge third second ≡ ok db_chain
unfolding add_edge task_project task_row ensure_no_cycle cycle_check reachable dependencies
    next_rows insert_edge trim_space is_space text_eq
adds_second_edge = refl

pub three_reached : Reach decode empty_db db_three
three_reached =
    then
      (then (then here (created draw (task (text " Closed ")) 1 creates_one))
        (created draw_ff (task []) 2 creates_two))
      (created draw_two (task (text "open")) 3 creates_three)

pub chain_reached : Reach decode empty_db db_chain
chain_reached =
    then (then three_reached (edge_added (text " p-0000ff") first adds_edge))
      (edge_added third second adds_second_edge)

pub db_chain-IsValid : IsValid db_chain
db_chain-IsValid = Reach-IsValid decode chain_reached

pub db_three-IsValid : IsValid db_three
db_three-IsValid = Reach-IsValid decode three_reached

-- ===== src/Graph/Dag.antt =====
-- The operations of `DAG` in internal/graph/dag.go but UpdateTask (Graph/Update). Each takes the tables
-- and gives them back changed, with an error where the code returns one; `now` is time.Now and
-- `draw i` the i-th call of rand.Int, which may fail.
use chum.Base.{
  ℕ, zero, suc, ◌+◌, ◌/◌, ◌%◌, Bool, not, ◌&&◌, List, [], ◌∷◌, ◌++◌, map, Option, none, some, ltb,
  if◌then◌else◌, any, select,
}
use chum.Base.Sort.{sort_by}
use chum.Base.Result.{Result, ok, err, ◌>>=◌, ◌>>◌, require}
use chum.Text.{Text, is_empty, text_eq, text_lt, to_lower, one_of}
use chum.Text.Trim.{trim_space}
use chum.Graph.Task.{Task, normalize_task_status, normalize_task_type}
use chum.Graph.Value.{
  Error, project_required, id_required, from_required, to_required, task_id_required, random_failed,
  max_id_attempts, not_found, self_loop, cross_project, would_cycle, query_diverges,
}
use chum.Graph.Db.{
  TaskRow, Db, scan_task, task_row, dependencies, dependents, insert_edge, delete_edge, cycle_check,
  ready_rows,
}

abbrev pub hex_digit : ℕ → ℕ
hex_digit d = if ltb d 10 then 48 + d else 87 + d

-- The `k` lowest hexadecimal digits.
unfoldable pub hex_digits : ℕ → ℕ → Text → Text
hex_digits zero n rest = rest
hex_digits (suc k) n rest = hex_digits k (n / 16) (hex_digit (n % 16) ∷ rest)

-- `generateTaskID` at a trimmed project that is not empty: "%s-%06x" of a number below 16^6.
unfoldable pub generate_task_id : Text → ℕ → Text
generate_task_id project n = project ++ (b'-' ∷ hex_digits 6 n [])

-- The row that `CreateTask` inserts.
unfoldable pub new_row : Task → Text → Text → ℕ → TaskRow
new_row task id project now = record {
  id = id;
  title = task.title;
  description = task.description;
  status = normalize_task_status task.status;
  priority = task.priority;
  task_type = normalize_task_type task.task_type;
  assignee = task.assignee;
  labels = task.labels;
  estimate_minutes = task.estimate_minutes;
  parent_id = task.parent_id;
  acceptance = task.acceptance;
  design = task.design;
  notes = task.notes;
  project = project;
  error_log = task.error_log;
  created_at = now;
  updated_at = now;
}

abbrev pub has_task : Db → Text → Bool
has_task db id = any (λ r. text_eq r.id id) db.tasks

-- The loop of `CreateTask` with `k` attempts left; the insertion fails if the id, the primary key, is
-- taken, and then the next attempt is made.
unfoldable pub create_attempts :
    ℕ → ℕ → Db → (ℕ → Option ℕ) → Task → Text → ℕ → Result Error (Text × Db)
create_attempts zero i db draw task project now = err max_id_attempts
create_attempts (suc k) i db draw task project now =
    let again = create_attempts k (suc i) db draw task project now in
    elim (draw i) [
      | none ↦ err random_failed
      | some n ↦
          let id = generate_task_id project n in
          if has_task db id
          then again
          else ok (id, record db { tasks = db.tasks ++ new_row task id project now ∷ [] })
    ]

abbrev pub max_task_id_attempts : ℕ
max_task_id_attempts = 10

unfoldable pub create_task : Db → (ℕ → Option ℕ) → Task → ℕ → Result Error (Text × Db)
create_task db draw task now = do
  let project = trim_space task.project
  require (not (is_empty project)) project_required
  create_attempts max_task_id_attempts 0 db draw task project now

-- A scanned row with what `taskDependencies` finds for it.
unfoldable pub load_task : Db → TaskRow → Task
load_task db r = record (scan_task r) { depends_on = dependencies db.edges r.id }

unfoldable pub get_task : Db → Text → Result Error Task
get_task db raw_id = do
  let id = trim_space raw_id
  require (not (is_empty id)) id_required
  elim (task_row db id) [ none ↦ err (not_found id) | some r ↦ ok (load_task db r) ]

-- The keys of the set that `normalizeStatusFilters` builds.
unfoldable pub distinct : List Text → List Text
distinct [] = []
distinct (x ∷ xs) = x ∷ select (λ y. not (text_eq y x)) (distinct xs)

unfoldable pub normalize_status_filters : List Text → List Text
normalize_status_filters raw = sort_by text_lt (distinct (map normalize_task_status raw))

unfoldable pub is_listed_row : Text → List Text → TaskRow → Bool
is_listed_row project [] r = text_eq r.project project
is_listed_row project (s ∷ ss) r = text_eq r.project project && one_of (s ∷ ss) (to_lower r.status)

unfoldable pub list_tasks : Db → Text → List Text → Result Error (List Task)
list_tasks db raw_project statuses = do
  let project = trim_space raw_project
  require (not (is_empty project)) project_required
  ok (
      map (load_task db)
        (select (is_listed_row project (normalize_status_filters statuses)) db.tasks))

unfoldable pub get_ready_nodes : Db → Text → Result Error (List Task)
get_ready_nodes db raw_project = do
  let project = trim_space raw_project
  require (not (is_empty project)) project_required
  ok (map (load_task db) (ready_rows db project))

unfoldable pub get_dependents : Db → Text → Result Error (List Text)
get_dependents db raw_id = do
  let id = trim_space raw_id
  require (not (is_empty id)) task_id_required
  ok (dependents db.edges id)

unfoldable pub task_project : Db → Text → Result Error Text
task_project db id = elim (task_row db id) [ none ↦ err (not_found id) | some r ↦ ok r.project ]

unfoldable pub ensure_no_cycle : Db → Text → Text → Result Error (Unit {0})
ensure_no_cycle db from to = elim (cycle_check db.edges to from) [
  | none ↦ err query_diverges
  | some found ↦ require (not found) would_cycle
]

unfoldable pub add_edge : Db → Text → Text → Result Error Db
add_edge db raw_from raw_to = do
  let from = trim_space raw_from
  let to = trim_space raw_to
  require (not (is_empty from)) from_required
  require (not (is_empty to)) to_required
  require (not (text_eq from to)) self_loop
  from_project ← task_project db from
  to_project ← task_project db to
  require (text_eq from_project to_project) cross_project
  ensure_no_cycle db from to
  ok (insert_edge from to db)

unfoldable pub remove_edge : Db → Text → Text → Result Error Db
remove_edge db raw_from raw_to = do
  let from = trim_space raw_from
  let to = trim_space raw_to
  require (not (is_empty from)) from_required
  require (not (is_empty to)) to_required
  ok (delete_edge from to db)

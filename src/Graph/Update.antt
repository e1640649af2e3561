-- ===== src/Graph/Update.antt =====
-- `UpdateTask` of internal/graph/dag.go with its helpers, `CloseTask` and `AutoUnblockDependents`. The
-- map of fields is a list, in the order in which the loop meets the keys.
pub mod Apply
use chum.Base.{
  ℕ, Bool, true, false, not, List, [], ◌∷◌, ◌++◌, map, Option, none, some, if◌then◌else◌, any,
}
use chum.Base.Int.{ℤ}
use chum.Base.Sort.{sort_by}
use chum.Base.Result.{Result, ok, err, ◌>>=◌, ◌>>◌, require}
use chum.Text.{Text, text, is_empty, text_eq, text_lt, to_lower}
use chum.Text.Trim.{trim_space}
use chum.Graph.Task.{
  Task, normalize_task_status, normalize_task_type, is_terminal_status, status_open, status_ready,
  status_closed,
}
use chum.Graph.Value.{
  AnyValue, str, Error, id_required, not_found, not_updatable, no_recognized_fields,
  unresolved_dependency, coerce_string, coerce_int, marshal_labels_value,
}
use chum.Graph.Db.{TaskRow, Db, ready_transition_check}
use chum.Graph.Dag.{get_task, get_dependents, has_task}
use Apply.{
  Column, title, description, status, priority, task_type, assignee, labels, estimate_minutes,
  parent_id, acceptance, design, notes, project, error_log, Assignment, set_text, set_number,
  set_labels, column_of, column_name, assigned_column, update_rows,
}

-- The `switch` over the key: the assignment for one field. `decode` is json.Unmarshal of labels.
unfoldable pub field_assignment :
    (Text → Option (List Text)) → Column → AnyValue → Result Error Assignment
field_assignment decode status v = ok (set_text status (normalize_task_status (coerce_string v)))
field_assignment decode priority v = do n ← coerce_int v; ok (set_number priority n)
field_assignment decode task_type v =
    ok (set_text task_type (normalize_task_type (coerce_string v)))
field_assignment decode labels v = do ls ← marshal_labels_value decode v; ok (set_labels ls)
field_assignment decode estimate_minutes v = do n ← coerce_int v; ok (set_number estimate_minutes n)
field_assignment decode c v = ok (set_text c (coerce_string v))

-- The loop over the fields: the assignments, and the keys that name no column.
unfoldable pub collect_fields :
    (Text → Option (List Text))
    → List (Text × AnyValue)
    → Result Error (List Assignment × List Text)
collect_fields decode [] = ok ([], [])
collect_fields decode ((raw_key, v) ∷ fields) =
    let rest = collect_fields decode fields in
    elim (column_of (trim_space (to_lower raw_key))) [
      | none ↦ rest >>= λ (sets, unrecognized). ok (sets, raw_key ∷ unrecognized)
      | some c ↦ field_assignment decode c v >>= λ a.
          rest >>= λ (sets, unrecognized). ok (a ∷ sets, unrecognized)
    ]

-- `transitioningToReady` looks at the first assignment to the column alone.
unfoldable pub transitioning_to_ready : List Assignment → Bool
transitioning_to_ready [] = false
transitioning_to_ready (set_text status s ∷ rest) = text_eq (normalize_task_status s) status_ready
transitioning_to_ready (set_number status n ∷ rest) = false
transitioning_to_ready (a ∷ rest) = transitioning_to_ready rest

unfoldable pub ensure_ready_transition_unblocked : Db → Text → Result Error (Unit {0})
ensure_ready_transition_unblocked db id = elim (ready_transition_check db id) [
  | none ↦ ok tt
  | some (dependency, s) ↦
      err (unresolved_dependency dependency (if is_empty s then text "missing" else s))
]

abbrev pub column_less : Assignment → Assignment → Bool
column_less a b = text_lt (column_name (assigned_column a)) (column_name (assigned_column b))

-- The part of `UpdateTask` behind the loop over the fields.
unfoldable pub update_columns : Db → Text → List Assignment → ℕ → Result Error Db
update_columns db id sets now = do
  if transitioning_to_ready sets then ensure_ready_transition_unblocked db id else ok tt
  require (has_task db id) (not_found id)
  ok (record db { tasks = update_rows sets now id db.tasks })

unfoldable pub update_fields : Db → Text → List Assignment → List Text → ℕ → Result Error Db
update_fields db id [] unrecognized now = get_task db id >>= λ t. err no_recognized_fields
update_fields db id (a ∷ sets) (key ∷ keys) now = err (not_updatable key)
update_fields db id (a ∷ sets) [] now = update_columns db id (sort_by column_less (a ∷ sets)) now

unfoldable pub update_task :
    (Text → Option (List Text)) → Db → Text → List (Text × AnyValue) → ℕ → Result Error Db
update_task decode db raw_id [] now = do
  require (not (is_empty (trim_space raw_id))) id_required
  ok db
update_task decode db raw_id (f ∷ fields) now = do
  let id = trim_space raw_id
  require (not (is_empty id)) id_required
  (sets, unrecognized) ← collect_fields decode (f ∷ fields)
  update_fields db id sets unrecognized now

unfoldable pub close_task : (Text → Option (List Text)) → Db → Text → ℕ → Result Error Db
close_task decode db id now = update_task decode db id ((text "status", str status_closed) ∷ []) now

-- The loop over the dependencies of one dependent: all of them are found and terminal.
unfoldable pub all_done : Db → List Text → Bool
all_done db [] = true
all_done db (x ∷ xs) = elim (get_task db x) [
  | err e ↦ false
  | ok t ↦ if is_terminal_status t.status then all_done db xs else false
]

-- One round of the loop of `AutoUnblockDependents`: the tables after it, and whether the dependent was
-- promoted.
unfoldable pub promote : (Text → Option (List Text)) → Db → Text → ℕ → Db × Bool
promote decode db id now = elim (get_task db id) [
  | err e ↦ (db, false)
  | ok t ↦
      if not (text_eq (normalize_task_status t.status) status_open)
      then (db, false)
      else if not (all_done db t.depends_on)
      then (db, false)
      else elim (update_task decode db id ((text "status", str status_ready) ∷ []) now) [
        | err e ↦ (db, false)
        | ok db' ↦ (db', true)
      ]
]

unfoldable pub promote_all : (Text → Option (List Text)) → Db → List Text → ℕ → Db × List Text
promote_all decode db [] now = (db, [])
promote_all decode db (id ∷ ids) now =
    let (db', promoted) = promote decode db id now in
    let (db'', rest) = promote_all decode db' ids now in
    (db'', if promoted then id ∷ rest else rest)

unfoldable pub auto_unblock_dependents :
    (Text → Option (List Text)) → Db → Text → ℕ → Result Error (Db × List Text)
auto_unblock_dependents decode db completed_task_id now = do
  ids ← get_dependents db completed_task_id
  ok (promote_all decode db ids now)

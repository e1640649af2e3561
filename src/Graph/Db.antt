-- ===== src/Graph/Db.antt =====
-- The two tables of the DAG and the SQL statements of internal/graph/dag.go, as functions on them.
-- The column `labels` is held decoded. A statement that the engine fails to run is not modelled.
use chum.Base.{
  ℕ, zero, suc, Bool, true, not, ◌&&◌, ◌||◌, List, [], ◌∷◌, ◌++◌, map, Option, none, some,
  if◌then◌else◌, any, select, find, length,
}
use chum.Base.Int.{ℤ, pos, ltb_ℤ}
use chum.Base.Sort.{sort_by}
use chum.Text.{Text, text_eq, text_lt, one_of, to_lower}
use chum.Graph.Task.{Task, terminal_statuses, status_ready, task_type_epic, task_type_whale}

-- `taskTableSchema`.
pub record TaskRow : Type 0 where
  pub id : Text
  pub title : Text
  pub description : Text
  pub status : Text
  pub priority : ℤ
  pub task_type : Text
  pub assignee : Text
  pub labels : List Text
  pub estimate_minutes : ℤ
  pub parent_id : Text
  pub acceptance : Text
  pub design : Text
  pub notes : Text
  pub project : Text
  pub error_log : Text
  pub created_at : ℕ
  pub updated_at : ℕ

-- `taskEdgesSchema`: `from_task` depends on `to_task`.
pub record Edge : Type 0 where
  pub from_task : Text
  pub to_task : Text

pub record Db : Type 0 where
  pub tasks : List TaskRow
  pub edges : List Edge

unfoldable pub scan_task : TaskRow → Task
scan_task r = record {
  id = r.id;
  title = r.title;
  description = r.description;
  status = r.status;
  priority = r.priority;
  task_type = r.task_type;
  assignee = r.assignee;
  labels = r.labels;
  estimate_minutes = r.estimate_minutes;
  parent_id = r.parent_id;
  acceptance = r.acceptance;
  design = r.design;
  notes = r.notes;
  depends_on = [];
  project = r.project;
  error_log = r.error_log;
  complexity = pos 0;
  created_at = r.created_at;
  updated_at = r.updated_at;
}

-- `getTaskSQL`: the row with the id, the primary key.
unfoldable pub task_row : Db → Text → Option TaskRow
task_row db id = find (λ r. text_eq r.id id) db.tasks

-- The second columns of the rows that `dependenciesSQL` finds for one task.
unfoldable pub dependencies : List Edge → Text → List Text
dependencies edges id = map (λ e. e.to_task) (select (λ e. text_eq e.from_task id) edges)

-- `getDependentsSQL`.
unfoldable pub dependents : List Edge → Text → List Text
dependents edges id =
    sort_by text_lt (map (λ e. e.from_task) (select (λ e. text_eq e.to_task id) edges))

abbrev pub is_edge : Text → Text → Edge → Bool
is_edge from to e = text_eq e.from_task from && text_eq e.to_task to

-- `insertEdgeSQL`: the pair is the primary key, and a second insertion is ignored.
unfoldable pub insert_edge : Text → Text → Db → Db
insert_edge from to db =
    if any (is_edge from to) db.edges
    then db
    else record db { edges = db.edges ++ record { from_task = from; to_task = to } ∷ [] }

-- `deleteEdgeSQL`.
unfoldable pub delete_edge : Text → Text → Db → Db
delete_edge from to db = record db { edges = select (λ e. not (is_edge from to e)) db.edges }

-- One round of the recursive part of `cycleCheckSQL`: the rows that the rows of a round add.
unfoldable pub next_rows : List Edge → List Text → List Text
next_rows edges [] = []
next_rows edges (x ∷ xs) = dependencies edges x ++ next_rows edges xs

-- The table `reachable` of `cycleCheckSQL`, round by round from the given rows. UNION ALL keeps
-- repeated rows, so the table is finite only if the rounds end: `none` if rows are left after the
-- given number of rounds.
unfoldable pub reachable : ℕ → List Edge → List Text → Option (List Text)
unfolding next_rows dependencies
reachable zero edges [] = some []
reachable zero edges (x ∷ xs) = none
reachable (suc n) edges [] = some []
reachable (suc n) edges (x ∷ xs) = elim (reachable n edges (next_rows edges (x ∷ xs))) [
  | none ↦ none
  | some rest ↦ some ((x ∷ xs) ++ rest)
]

-- `cycleCheckSQL` with the arguments `start` and `target`: whether a row is found. An acyclic table
-- of n edges has no more than n rounds.
unfoldable pub cycle_check : List Edge → Text → Text → Option Bool
unfolding reachable dependencies
cycle_check edges start target =
    elim (reachable (suc (length edges)) edges (dependencies edges start)) [
      | none ↦ none
      | some rows ↦ some (any (λ x. text_eq x target) rows)
    ]

-- `lower(status) NOT IN (...)`, negated.
unfoldable pub is_resolved : Text → Bool
is_resolved status = one_of terminal_statuses (to_lower status)

-- `readyTransitionCheckSQL`: the first unresolved dependency, with its status in lower case, which is
-- empty where the dependency has no row.
abbrev pub dependency_status : Db → Text → Text
dependency_status db id = elim (task_row db id) [ none ↦ [] | some r ↦ to_lower r.status ]

unfoldable pub is_unresolved : Db → Text → Bool
is_unresolved db id = elim (task_row db id) [ none ↦ true | some r ↦ not (is_resolved r.status) ]

unfoldable pub ready_transition_check : Db → Text → Option (Text × Text)
unfolding is_unresolved dependencies sort_by
ready_transition_check db id =
    elim (sort_by text_lt (select (is_unresolved db) (dependencies db.edges id))) [
      | [] ↦ none
      | x ∷ rest ↦ some (x, dependency_status db x)
    ]

-- The subquery of `readyNodesSQL`: an edge to a task of the table that is not resolved.
unfoldable pub has_open_dependency : Db → Text → Bool
has_open_dependency db id =
    any
      (λ e.
        text_eq e.from_task id
        && any (λ d. text_eq d.id e.to_task && not (is_resolved d.status)) db.tasks)
      db.edges

unfoldable pub is_ready_row : Db → Text → TaskRow → Bool
is_ready_row db project r =
    text_eq r.project project
    && text_eq (to_lower r.status) status_ready
    && not (one_of (task_type_epic ∷ task_type_whale ∷ []) (to_lower r.task_type))
    && not (has_open_dependency db r.id)

abbrev pub eq_ℤ : ℤ → ℤ → Bool
eq_ℤ a b = not (ltb_ℤ a b) && not (ltb_ℤ b a)

-- `ORDER BY t.priority ASC, t.estimate_minutes ASC`.
unfoldable pub row_less : TaskRow → TaskRow → Bool
row_less r s =
    ltb_ℤ r.priority s.priority
    || (eq_ℤ r.priority s.priority && ltb_ℤ r.estimate_minutes s.estimate_minutes)

-- `readyNodesSQL`.
unfoldable pub ready_rows : Db → Text → List TaskRow
unfolding is_ready_row row_less sort_by
ready_rows db project = sort_by row_less (select (is_ready_row db project) db.tasks)

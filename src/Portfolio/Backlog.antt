-- ===== src/Portfolio/Backlog.antt =====
-- What the backlog of one project holds.
use chum.Graph.Value.{Error, project_required}
use chum.Base.{
  ◌≡◌, ◌⊎◌, inl, inr, Bool-cases, map, refl, Bool, true, false, List, [], ◌∷◌, Memᴰ, Option, some,
  arith, select, In-select, select-In,
}
use chum.Base.Int.{pos, ltb_ℤ}
use chum.Base.Result.{Result, ok, err}
use chum.Text.{Text, text_eq, text_eq_iff, is_space, lower_byte, is_empty}
use chum.Text.Trim.{trim_space}
use chum.Graph.Task.{Task, status_open, status_ready, is_dispatchable_task, normalize_task_status}
use chum.Graph.Db.{Db}
use chum.Graph.Dag.{load_task, normalize_status_filters, is_listed_row, list_tasks}
use chum.Graph.DepGraph.{DepGraph, build_dep_graph}
use chum.Graph.Cross.{CrossProjectGraph, filter_unblocked_cross_project}
use chum.Graph.Cross.Filter.{filter_unblocked_cross_project-decides}
use chum.Portfolio.{
  Project, ProjectBacklog, is_open, is_refined, is_unrefined, filter_open_tasks,
  filter_refined_tasks, filter_unrefined_tasks, backlog_of, gather_project_backlog,
}

no_members : (xs : List Task) → ((t : Task) → ¬ Memᴰ t xs) → xs ≡ []
no_members [] h = refl
no_members (x ∷ xs) h = absurd (h x (Memᴰ.head refl))

open_status_not_ready : text_eq (normalize_task_status status_open) status_ready ≡ false
unfolding normalize_task_status text_eq trim_space is_space lower_byte
open_status_not_ready = refl

-- A task whose status is the text open is not ready.
open_not_ready : (t : Task) → is_open t ≡ true → is_dispatchable_task t ≡ false
unfolding is_open is_dispatchable_task
open_not_ready t h = rw ((text_eq_iff t.status status_open).0 h) open_status_not_ready

ready_tasks-nil :
    (tasks : List Task) (graph : Option DepGraph) (cross : Option CrossProjectGraph)
    → filter_unblocked_cross_project (filter_open_tasks tasks) graph cross ≡ []
unfolding filter_open_tasks
ready_tasks-nil tasks graph cross = no_members _ (λ t m.
    let (l, d, c, a) =
      ((filter_unblocked_cross_project-decides (select is_open tasks) graph cross).0 t).0 m in
    cc (open_not_ready t (In-select is_open tasks t l).1, d))

-- The listing of a project is refused exactly for a blank name.
list_tasks-cases :
    (db : Db) (name : Text)
    → ((tasks : List Task) × (list_tasks db name [] ≡ ok tasks))
      ⊎ ((list_tasks db name [] ≡ err project_required) × (is_empty (trim_space name) ≡ true))
unfolding list_tasks
list_tasks-cases db name = elim (Bool-cases (is_empty (trim_space name))) [
  | inl e ↦ inr (rw e refl, e)
  | inr e ↦ inl (
    map (load_task db)
        (select (is_listed_row (trim_space name) (normalize_status_filters [])) db.tasks),
    rw e refl,
  )
]

-- The backlog is gathered with the property `P`, or refused for a blank name.
abbrev pub IsGathered : (ProjectBacklog → Type 0) → Text → Result Error ProjectBacklog → Type 0
IsGathered P name r =
    ((b : ProjectBacklog) × (r ≡ ok b) × P b)
    ⊎ ((r ≡ err project_required) × (is_empty (trim_space name) ≡ true))

-- The backlog of a project whose name is not blank is gathered, and its list of tasks that are ready to
-- work is empty.
pub ready_to_work-nil :
    (expand : Text → Text) (name : Text) (project : Project) (db : Db) (cross : CrossProjectGraph)
    → IsGathered
        (λ b. b.ready_to_work ≡ [])
        name
        (gather_project_backlog expand name project db cross)
unfolding gather_project_backlog backlog_of
ready_to_work-nil expand name project db cross = elim (list_tasks-cases db name) [
  | inl (tasks, e) ↦ inl (
    backlog_of expand name project cross tasks,
    rw e refl,
    ready_tasks-nil tasks (some (build_dep_graph tasks)) (some cross),
  )
  | inr (e, blank) ↦ inr (rw e refl, blank)
]

-- Whether the estimate of a task is below zero.
abbrev pub is_negative : Task → Bool
is_negative t = ltb_ℤ t.estimate_minutes (pos 0)

refined_cases :
    (t : Task) → ((is_refined t ≡ true) ⊎ (is_unrefined t ≡ true)) ⊎ (is_negative t ≡ true)
unfolding is_refined is_unrefined
refined_cases t = ground arith

refined_not_unrefined : (t : Task) → is_refined t ≡ true → ¬ (is_unrefined t ≡ true)
unfolding is_refined is_unrefined
refined_not_unrefined t h k = ground arith

-- The two kinds of morsels of a backlog.
abbrev pub IsSplit : ProjectBacklog → Type 0
IsSplit b =
    (t : Task)
    → Memᴰ t b.all_morsels
    → ((Memᴰ t b.refined_morsels ⊎ Memᴰ t b.unrefined_morsels) ⊎ (is_negative t ≡ true))
      × ¬ (Memᴰ t b.refined_morsels × Memᴰ t b.unrefined_morsels)

open_tasks-split :
    (ts : List Task) (t : Task)
    → Memᴰ t ts
    → ((Memᴰ t (filter_refined_tasks ts) ⊎ Memᴰ t (filter_unrefined_tasks ts))
        ⊎ (is_negative t ≡ true))
      × ¬ (Memᴰ t (filter_refined_tasks ts) × Memᴰ t (filter_unrefined_tasks ts))
unfolding filter_refined_tasks filter_unrefined_tasks
open_tasks-split ts t m = (
  elim (refined_cases t) [
    | inl (inl r) ↦ inl (inl (select-In is_refined ts t m r))
    | inl (inr u) ↦ inl (inr (select-In is_unrefined ts t m u))
    | inr n ↦ inr n
  ],
  λ (r, u).
      refined_not_unrefined t (In-select is_refined ts t r).1 (In-select is_unrefined ts t u).1,
)

-- The backlog of a project whose name is not blank is gathered, and in it every open task is refined or
-- unrefined, unless its estimate is below zero, and none is both.
pub gather_project_backlog-IsSplit :
    (expand : Text → Text) (name : Text) (project : Project) (db : Db) (cross : CrossProjectGraph)
    → IsGathered IsSplit name (gather_project_backlog expand name project db cross)
unfolding gather_project_backlog backlog_of
gather_project_backlog-IsSplit expand name project db cross = elim (list_tasks-cases db name) [
  | inl (tasks, e) ↦ inl (
    backlog_of expand name project cross tasks,
    rw e refl,
    open_tasks-split (filter_open_tasks tasks),
  )
  | inr (e, blank) ↦ inr (rw e refl, blank)
]

-- ===== src/Graph/DepGraph.antt =====
-- internal/graph/graph.go: the dependency graph in memory, and the tasks that may be dispatched. A nil
-- graph is `none`; the pointers to tasks are the tasks themselves, which no function of the file changes.
pub mod Dual
pub mod Order
pub mod Dispatch
use chum.Base.{
  Bool, true, false, not, ◌&&◌, ◌||◌, List, [], ◌∷◌, Option, none, some, if◌then◌else◌, all, any,
  select,
}
use chum.Base.Int.{ℤ, ltb_ℤ}
use chum.Base.Sort.{sort_by}
use chum.Text.{Text, is_empty, text_eq, text_lt, one_of}
use chum.Text.Trim.{trim_space}
use chum.Text.Dict.{Dict, lookup, insert, get_list, append_to, ensure_key}
use chum.Graph.Task.{Task, is_closed_task, is_dispatchable_task, is_container_task, has_stage_label}
use chum.Graph.Db.{eq_ℤ}

pub record DepGraph : Type 0 where
  pub nodes : Dict Task
  pub forward : Dict (List Text)
  pub reverse : Dict (List Text)

abbrev pub empty_graph : DepGraph
empty_graph = record { nodes = []; forward = []; reverse = [] }

-- The first loop of `BuildDepGraph`.
unfoldable pub add_nodes : List Task → DepGraph → DepGraph
add_nodes [] g = g
add_nodes (t ∷ ts) g = add_nodes ts (record g { nodes = insert t.id t g.nodes })

-- The dependencies that the second loop keeps: trimmed, not empty, and each one once.
unfoldable pub clean_deps : List Text → List Text → List Text
clean_deps seen [] = []
clean_deps seen (raw ∷ deps) =
    let id = trim_space raw in
    let skipped = clean_deps seen deps in
    let kept = id ∷ clean_deps (id ∷ seen) deps in
    if is_empty id || one_of seen id then skipped else kept

unfoldable pub add_dep : Text → Text → DepGraph → DepGraph
add_dep id dep g = record g {
  forward = append_to id dep g.forward;
  reverse = append_to dep id g.reverse;
}

unfoldable pub add_deps : Text → List Text → DepGraph → DepGraph
add_deps id [] g = g
add_deps id (d ∷ ds) g = add_deps id ds (add_dep id d g)

-- The second loop of `BuildDepGraph`.
unfoldable pub link_tasks : List Task → DepGraph → DepGraph
link_tasks [] g = g
link_tasks (t ∷ ts) g = link_tasks ts (
    add_deps t.id (clean_deps [] t.depends_on)
      (record g { forward = ensure_key t.id g.forward; reverse = ensure_key t.id g.reverse }))

unfoldable pub build_dep_graph : List Task → DepGraph
build_dep_graph tasks = link_tasks tasks (add_nodes tasks empty_graph)

unfoldable pub depends_on_ids : Option DepGraph → Text → List Text
depends_on_ids none id = []
depends_on_ids (some g) id = get_list id g.forward

unfoldable pub blocks_ids : Option DepGraph → Text → List Text
blocks_ids none id = []
blocks_ids (some g) id = get_list id g.reverse

abbrev pub closed_node : DepGraph → Text → Bool
closed_node g id = elim (lookup id g.nodes) [ none ↦ false | some t ↦ is_closed_task t.status ]

-- The dependencies that count: those of the graph for a task in it, else those of the task.
unfoldable pub dep_ids : DepGraph → Task → List Text
dep_ids g t = elim (lookup t.id g.nodes) [
  | none ↦ t.depends_on
  | some n ↦ depends_on_ids (some g) t.id
]

abbrev pub is_nil {ℓ} : {A : Type ℓ} → List A → Bool
is_nil [] = true
is_nil (x ∷ xs) = false

unfoldable pub all_deps_closed : Task → Option DepGraph → Bool
all_deps_closed t none = is_nil t.depends_on
all_deps_closed t (some g) = all (closed_node g) (dep_ids g t)

-- Priority, then estimate, then id.
unfoldable pub rank_less : Task → Task → Bool
rank_less s t =
    if not (eq_ℤ s.priority t.priority)
    then ltb_ℤ s.priority t.priority
    else if not (eq_ℤ s.estimate_minutes t.estimate_minutes)
    then ltb_ℤ s.estimate_minutes t.estimate_minutes
    else text_lt s.id t.id

-- The comparison of the two calls of sort.Slice.
unfoldable pub dispatch_less : Task → Task → Bool
dispatch_less s t =
    if has_stage_label s
    then (if has_stage_label t then rank_less s t else true)
    else (if has_stage_label t then false else rank_less s t)

unfoldable pub is_candidate : (Task → Bool) → Task → Bool
is_candidate closed t = is_dispatchable_task t && not (is_container_task t) && closed t

unfoldable pub filter_unblocked_open : List Task → Option DepGraph → List Task
filter_unblocked_open tasks graph =
    sort_by dispatch_less (select (is_candidate (λ t. all_deps_closed t graph)) tasks)

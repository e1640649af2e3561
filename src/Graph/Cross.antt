-- ===== src/Graph/Cross.antt =====
-- internal/graph/cross.go: dependencies on tasks of other projects. A nil graph is `none`.
pub mod Filter
use chum.Base.{
  ◌≡◌, ◌↔◌, ◌⊎◌, refl, subst, inl, inr, Option-cases, all-elim, all-intro, Bool, true, false, not,
  ◌&&◌, List, [], ◌∷◌, Memᴰ, Option, none, some, arith, ap, all, select, ◌∙◌,
}
use chum.Base.Sort.{sort_by}
use chum.Base.Result.{Result, ok, err}
use chum.Text.{Text, cut}
use chum.Text.Dict.{Dict, lookup, insert}
use chum.Graph.Task.{Task, CrossDep, is_closed_task, is_dispatchable_task, is_container_task}
use chum.Graph.Value.{Error}
use chum.Graph.Db.{Db}
use chum.Graph.Dag.{list_tasks}
use chum.Graph.DepGraph.{
  DepGraph, dep_ids, closed_node, all_deps_closed, is_candidate, dispatch_less, is_nil,
  filter_unblocked_open,
}
use chum.Graph.DepGraph.Order.{IsInOrder}
use chum.Graph.DepGraph.Dispatch.{
  IsClosedIn, Counted, closed_node_iff, counted_iff, filter-IsInOrder,
}

-- `ParseCrossDep`: the project and the task behind the first colon; `none` for a local dependency, whose
-- id is the whole text.
unfoldable pub parse_cross_dep : Text → Option (Text × Text)
parse_cross_dep dep_id = cut b':' dep_id

-- `CrossProjectGraph`: tasks by project and id.
abbrev pub CrossProjectGraph : Type 0
CrossProjectGraph = Dict (Dict Task)

unfoldable pub index_tasks : List Task → Dict Task → Dict Task
index_tasks [] m = m
index_tasks (t ∷ ts) m = index_tasks ts (insert t.id t m)

-- `BuildCrossProjectGraph` over the names of the projects, in the order in which the loop meets them.
unfoldable pub build_from : Db → List Text → CrossProjectGraph → Result Error CrossProjectGraph
build_from db [] cpg = ok cpg
build_from db (name ∷ names) cpg = elim (list_tasks db name []) [
  | err e ↦ err e
  | ok tasks ↦ build_from db names (insert name (index_tasks tasks []) cpg)
]

unfoldable pub build_cross_project_graph : Db → List Text → Result Error CrossProjectGraph
build_cross_project_graph db names = build_from db names []

unfoldable pub is_cross_dep_resolved : Option CrossProjectGraph → Text → Text → Bool
is_cross_dep_resolved none project task_id = false
is_cross_dep_resolved (some cpg) project task_id = elim (lookup project cpg) [
  | none ↦ false
  | some tasks ↦ elim (lookup task_id tasks) [ none ↦ false | some t ↦ is_closed_task t.status ]
]

-- `GetCrossProjectBlockers`.
unfoldable pub cross_deps : List Text → List CrossDep
cross_deps [] = []
cross_deps (d ∷ ds) = elim (parse_cross_dep d) [
  | none ↦ cross_deps ds
  | some (project, task_id) ↦ record { project = project; task_id = task_id } ∷ cross_deps ds
]

unfoldable pub get_cross_project_blockers : Task → List CrossDep
get_cross_project_blockers t = cross_deps t.depends_on

abbrev pub local_closed : Option DepGraph → Text → Bool
local_closed none id = false
local_closed (some g) id = closed_node g id

-- One round of the loop of `allDepsClosedCross`.
unfoldable pub dep_closed : Option DepGraph → Option CrossProjectGraph → Text → Bool
dep_closed graph cross id = elim (parse_cross_dep id) [
  | none ↦ local_closed graph id
  | some (project, task_id) ↦ is_cross_dep_resolved cross project task_id
]

abbrev pub known_deps : Option DepGraph → Task → List Text
known_deps none t = t.depends_on
known_deps (some g) t = dep_ids g t

unfoldable pub all_deps_closed_cross : Task → Option DepGraph → Option CrossProjectGraph → Bool
all_deps_closed_cross t graph cross = all (dep_closed graph cross) (known_deps graph t)

unfoldable pub filter_unblocked_cross_project :
    List Task → Option DepGraph → Option CrossProjectGraph → List Task
filter_unblocked_cross_project tasks graph cross =
    sort_by dispatch_less (select (is_candidate (λ t. all_deps_closed_cross t graph cross)) tasks)

-- No dependency names another project.
abbrev pub IsLocal : List Text → Type 0
IsLocal [] = Unit
IsLocal (d ∷ ds) = (parse_cross_dep d ≡ none) × IsLocal ds

all-local :
    (graph : Option DepGraph) (cross : Option CrossProjectGraph) (ds : List Text)
    → IsLocal ds
    → all (dep_closed graph cross) ds ≡ all (local_closed graph) ds
unfolding dep_closed
all-local graph cross [] h = refl
all-local graph cross (d ∷ ds) h = ground (arith, all-local graph cross ds)

all_deps_closed-local :
    (t : Task) (graph : Option DepGraph) (cross : Option CrossProjectGraph)
    → IsLocal (known_deps graph t)
    → all_deps_closed_cross t graph cross ≡ all_deps_closed t graph
unfolding all_deps_closed_cross all_deps_closed
all_deps_closed-local t (some g) cross h = all-local (some g) cross (dep_ids g t) h
all_deps_closed-local t none cross h =
    all-local none cross t.depends_on h ∙ none_closed t.depends_on
  where
    none_closed : (ds : List Text) → all (local_closed none) ds ≡ is_nil ds
    none_closed [] = refl
    none_closed (d ∷ ds) = refl

select-cong :
    (p q : Task → Bool) (ts : List Task)
    → ((t : Task) → Memᴰ t ts → p t ≡ q t)
    → select p ts ≡ select q ts
select-cong p q [] h = refl
select-cong p q (t ∷ ts) h =
    rw (h t (Memᴰ.head refl), select-cong p q ts (λ s m. h s (Memᴰ.tail m)))

-- Where no given task depends on another project, FilterUnblockedCrossProject and FilterUnblockedOpen
-- return the same list.
pub filters_agree :
    (tasks : List Task) (graph : Option DepGraph) (cross : Option CrossProjectGraph)
    → ((t : Task) → Memᴰ t tasks → IsLocal (known_deps graph t))
    → filter_unblocked_cross_project tasks graph cross ≡ filter_unblocked_open tasks graph
unfolding filter_unblocked_cross_project filter_unblocked_open is_candidate
filters_agree tasks graph cross h = ap (sort_by dispatch_less) (
    select-cong _ _ tasks (λ t m.
      ap (λ b. is_dispatchable_task t && not (is_container_task t) && b)
        (all_deps_closed-local t graph cross (h t m))))

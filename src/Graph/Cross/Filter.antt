-- ===== src/Graph/Cross/Filter.antt =====
-- `FilterUnblockedCrossProject`: which tasks it returns, and in which order.
use chum.Base.{
  ◌≡◌, ◌↔◌, ◌⊎◌, refl, subst, inl, inr, Option-cases, all-elim, all-intro, true, false, List, Memᴰ,
  Option, none, some,
}
use chum.Text.{Text}
use chum.Text.Dict.{Dict, lookup}
use chum.Graph.Task.{Task, is_closed_task, is_dispatchable_task, is_container_task}
use chum.Graph.DepGraph.{DepGraph}
use chum.Graph.DepGraph.Order.{IsInOrder}
use chum.Graph.DepGraph.Dispatch.{
  IsClosedIn, Counted, closed_node_iff, counted_iff, filter-IsInOrder,
}
use chum.Graph.Cross.{
  CrossProjectGraph, parse_cross_dep, is_cross_dep_resolved, local_closed, dep_closed,
  all_deps_closed_cross, filter_unblocked_cross_project,
}

-- The task of the other project is in the graph of the projects, and closed.
abbrev pub IsClosedAbroad : Option CrossProjectGraph → Text → Text → Type 0
IsClosedAbroad none project id = ⊥
IsClosedAbroad (some cpg) project id =
    (tasks : Dict Task) × (n : Task) × (lookup project cpg ≡ some tasks)
    × (lookup id tasks ≡ some n)
    × (is_closed_task n.status ≡ true)

abbrev pub IsClosedHere : Option DepGraph → Text → Type 0
IsClosedHere none d = ⊥
IsClosedHere (some g) d = IsClosedIn g d

-- The dependency is a closed task: of the project that its text names, or else of this project.
abbrev pub IsSettled : Option DepGraph → Option CrossProjectGraph → Text → Type 0
IsSettled graph cross d =
    ((parse_cross_dep d ≡ none) × IsClosedHere graph d)
    ⊎ ((target : Text × Text) × (parse_cross_dep d ≡ some target)
        × IsClosedAbroad cross target.0 target.1)

abbrev pub IsUnblockedAcross : Option DepGraph → Option CrossProjectGraph → Task → Type 0
IsUnblockedAcross none cross t = (d : Text) → Memᴰ d t.depends_on → IsSettled none cross d
IsUnblockedAcross (some g) cross t = Counted g t (IsSettled (some g) cross)

is_cross_dep_resolved_iff :
    (cross : Option CrossProjectGraph) (project id : Text)
    → (is_cross_dep_resolved cross project id ≡ true) ↔ IsClosedAbroad cross project id
unfolding is_cross_dep_resolved
is_cross_dep_resolved_iff none project id = (λ h. absurd (cc h), λ h. absurd h)
is_cross_dep_resolved_iff (some cpg) project id = elim (Option-cases (lookup project cpg)) [
  | inl e ↦ rw (e, is_cross_dep_resolved) (λ h. cc h, λ (ts, n, f, g, c). cc f)
  | inr (tasks, e) ↦ elim (Option-cases (lookup id tasks)) [
    | inl f ↦
        rw (e, is_cross_dep_resolved, f)
          (
            λ h. cc h,
            λ (ts, n, p, g, c).
                let q : ts ≡ tasks = cc p in
                let g' : lookup id tasks ≡ some n = subst (λ m. lookup id m ≡ some n) q g in
                cc (f, g'),
          )
    | inr (n, f) ↦
        rw (e, is_cross_dep_resolved, f)
          (
            λ h. (tasks, n, refl, f, h),
            λ (ts, m, p, g, c).
                let q : ts ≡ tasks = cc p in
                let g' : lookup id tasks ≡ some m = subst (λ l. lookup id l ≡ some m) q g in
                let r : m ≡ n = cc (f, g') in subst (λ k. is_closed_task k.status ≡ true) r c,
          )
  ]
]

local_closed_iff :
    (graph : Option DepGraph) (d : Text) → (local_closed graph d ≡ true) ↔ IsClosedHere graph d
local_closed_iff none d = (λ h. absurd (cc h), λ h. absurd h)
local_closed_iff (some g) d = closed_node_iff g d

dep_closed_iff :
    (graph : Option DepGraph) (cross : Option CrossProjectGraph) (d : Text)
    → (dep_closed graph cross d ≡ true) ↔ IsSettled graph cross d
unfolding dep_closed
dep_closed_iff graph cross d = elim (Option-cases (parse_cross_dep d)) [
  | inl e ↦
      let (f, g) = local_closed_iff graph d in
      rw (e, dep_closed)
        (
          λ h. inl (refl, f h),
          λ c. elim c [ inl (p, h) ↦ g h | inr (target, p, h) ↦ absurd (cc p) ],
        )
  | inr (target, e) ↦
      let (f, g) = is_cross_dep_resolved_iff cross target.0 target.1 in
      rw (e, dep_closed)
        (
          λ h. inr (target, refl, f h),
          λ c. elim c [
            | inl (p, h) ↦ absurd (cc p)
            | inr (t, p, h) ↦
                let q : t ≡ target = cc p in
                g (subst (λ (x : Text × Text). IsClosedAbroad cross x.0 x.1) q h)
          ],
        )
]

all_deps_closed_cross_iff :
    (graph : Option DepGraph) (cross : Option CrossProjectGraph) (t : Task)
    → (all_deps_closed_cross t graph cross ≡ true) ↔ IsUnblockedAcross graph cross t
unfolding all_deps_closed_cross
all_deps_closed_cross_iff none cross t = (
  λ h d m. (dep_closed_iff none cross d).0 (all-elim (dep_closed none cross) t.depends_on h d m),
  λ h.
      all-intro (dep_closed none cross) t.depends_on
        (λ d m. (dep_closed_iff none cross d).1 (h d m)),
)
all_deps_closed_cross_iff (some g) cross t =
    counted_iff (dep_closed (some g) cross) (IsSettled (some g) cross)
      (dep_closed_iff (some g) cross) g t

-- FilterUnblockedCrossProject returns exactly the given tasks that are ready, are no container and whose
-- dependencies, those of the graph for a task in it and else its own, are all settled: one that names
-- another project is a closed task there in the graph of the projects, any other a closed task of the
-- graph, and where the graph that it needs is nil it is not settled. No task stands behind one that it
-- precedes, by a label of a stage, then lower priority, estimate and id.
pub filter_unblocked_cross_project-decides :
    (tasks : List Task) (graph : Option DepGraph) (cross : Option CrossProjectGraph)
    → ((t : Task)
        → Memᴰ t (filter_unblocked_cross_project tasks graph cross) ↔ (
            Memᴰ t tasks
            × (is_dispatchable_task t ≡ true)
            × (is_container_task t ≡ false)
            × IsUnblockedAcross graph cross t))
      × IsInOrder (filter_unblocked_cross_project tasks graph cross)
unfolding filter_unblocked_cross_project
filter_unblocked_cross_project-decides tasks graph cross =
    filter-IsInOrder (λ t. all_deps_closed_cross t graph cross) (IsUnblockedAcross graph cross)
      (all_deps_closed_cross_iff graph cross) tasks

-- ===== src/Graph/DepGraph/Dispatch.antt =====
-- `FilterUnblockedOpen`: which tasks it returns, and in which order.
use chum.Base.{
  ◌≡◌, ◌↔◌, ◌⊎◌, refl, inl, inr, Bool, true, false, List, [], ◌∷◌, Memᴰ, Option, none, some,
  Option-cases, arith, all, subst, all-elim, all-intro, select, In-select, select-In,
}
use chum.Base.Sort.{sort_by, IsStrictWeak, In-sort_by, sort_by-In, sort_by-IsSorted}
use chum.Text.{Text, text_lt_asym, text_lt_cotrans}
use chum.Text.Dict.{lookup, get_list}
use chum.Graph.Task.{Task, is_closed_task, is_dispatchable_task, is_container_task}
use chum.Graph.DepGraph.{
  DepGraph, rank_less, dispatch_less, is_candidate, closed_node, dep_ids, depends_on_ids, is_nil,
  all_deps_closed, filter_unblocked_open,
}
use chum.Graph.DepGraph.Order.{IsInOrder, in_order}

rank_less_asym : (s t : Task) → rank_less s t ≡ true → rank_less t s ≡ false
unfolding rank_less
rank_less_asym s t h = ground (arith, text_lt_asym s.id t.id)

rank_less_cotrans :
    (r s t : Task) → rank_less r s ≡ false → rank_less s t ≡ false → rank_less r t ≡ false
unfolding rank_less
rank_less_cotrans r s t h k = ground (arith, text_lt_cotrans r.id s.id t.id)

-- The comparison is one that sort.Slice can sort by.
pub dispatch_less-IsStrictWeak : IsStrictWeak dispatch_less
unfolding dispatch_less
dispatch_less-IsStrictWeak = record {
  asym = λ s t h. ground (arith, rank_less_asym s t);
  cotrans = λ r s t h k. ground (arith, rank_less_cotrans r s t);
}

-- What the sorted filter returns, for any test of the dependencies and what the test decides.
pub filter-IsInOrder :
    (closed : Task → Bool) (P : Task → Type 0)
    → ((t : Task) → (closed t ≡ true) ↔ P t)
    → (tasks : List Task)
    → let result = sort_by dispatch_less (select (is_candidate closed) tasks) in
      ((t : Task)
        → Memᴰ t result
          ↔ (Memᴰ t tasks × (is_dispatchable_task t ≡ true) × (is_container_task t ≡ false) × P t))
      × IsInOrder result
unfolding is_candidate
filter-IsInOrder closed P iff tasks = (
  λ t. (
    λ m.
        let (l, c) = In-select (is_candidate closed) tasks t (In-sort_by dispatch_less _ t m) in
        (l, ground arith, ground arith, (iff t).0 (ground arith)),
    λ (l, d, c, u).
        let v : closed t ≡ true = (iff t).1 u in
        sort_by-In dispatch_less _ t (select-In (is_candidate closed) tasks t l (ground arith)),
  ),
  in_order _ (sort_by-IsSorted dispatch_less-IsStrictWeak _),
)

-- The task of the graph with this id is closed.
abbrev pub IsClosedIn : DepGraph → Text → Type 0
IsClosedIn g d = (n : Task) × (lookup d g.nodes ≡ some n) × (is_closed_task n.status ≡ true)

-- `P` holds of the dependencies that count: those of the graph for a task in it, else those of the task.
abbrev pub Counted : DepGraph → Task → (Text → Type 0) → Type 0
Counted g t P =
    ((n : Task) × (lookup t.id g.nodes ≡ some n)
      × ((d : Text) → Memᴰ d (get_list t.id g.forward) → P d))
    ⊎ ((lookup t.id g.nodes ≡ none) × ((d : Text) → Memᴰ d t.depends_on → P d))

-- Without a graph a task must have no dependency at all.
abbrev pub IsUnblocked : Option DepGraph → Task → Type 0
IsUnblocked none t = t.depends_on ≡ []
IsUnblocked (some g) t = Counted g t (IsClosedIn g)

same_some : {m n : Task} → some n ≡ some m → m ≡ n
same_some e = cc e

pub closed_node_iff : (g : DepGraph) (d : Text) → (closed_node g d ≡ true) ↔ IsClosedIn g d
closed_node_iff g d = elim (Option-cases (lookup d g.nodes)) [
  | inl e ↦ rw (e, closed_node) (λ h. cc h, λ (n, f, c). cc f)
  | inr (n, e) ↦
      rw (e, closed_node)
        (
          λ h. (n, refl, h),
          λ (m, f, c). subst (λ k. is_closed_task k.status ≡ true) (same_some f) c,
        )
]

pub counted_iff :
    (p : Text → Bool) (P : Text → Type 0)
    → ((d : Text) → (p d ≡ true) ↔ P d)
    → (g : DepGraph) (t : Task) → (all p (dep_ids g t) ≡ true) ↔ Counted g t P
unfolding dep_ids depends_on_ids
counted_iff p P iff g t = elim (Option-cases (lookup t.id g.nodes)) [
  | inl e ↦
      rw (e, dep_ids)
        (
          λ h. inr (refl, λ d m. (iff d).0 (all-elim p t.depends_on h d m)),
          λ c. elim c [
            | inl (n, f, k) ↦ absurd (cc f)
            | inr (f, k) ↦ all-intro p t.depends_on (λ d m. (iff d).1 (k d m))
          ],
        )
  | inr (n, e) ↦
      rw (e, dep_ids, depends_on_ids)
        (
          λ h. inl (n, refl, λ d m. (iff d).0 (all-elim p (get_list t.id g.forward) h d m)),
          λ c. elim c [
            | inr (f, k) ↦ absurd (cc f)
            | inl (m, f, k) ↦ all-intro p (get_list t.id g.forward) (λ d l. (iff d).1 (k d l))
          ],
        )
]

all_deps_closed_iff :
    (graph : Option DepGraph) (t : Task) → (all_deps_closed t graph ≡ true) ↔ IsUnblocked graph t
unfolding all_deps_closed
all_deps_closed_iff (some g) t = counted_iff (closed_node g) (IsClosedIn g) (closed_node_iff g) g t
all_deps_closed_iff none t = none_left t.depends_on
  where
    none_left : (ds : List Text) → (is_nil ds ≡ true) ↔ (ds ≡ [])
    none_left [] = (λ h. refl, λ h. refl)
    none_left (d ∷ ds) = (λ h. cc h, λ h. cc h)

-- FilterUnblockedOpen returns exactly the given tasks that are ready, are no container and are not blocked:
-- with a graph, every dependency that the graph lists for the task, or the task itself where the graph
-- lacks it, is a closed task of the graph; without a graph, the task has no dependency. No task stands
-- behind one that it precedes, by a label of a stage, then lower priority, estimate and id.
pub filter_unblocked_open-decides :
    (tasks : List Task) (graph : Option DepGraph)
    → ((t : Task)
        → Memᴰ t (filter_unblocked_open tasks graph) ↔ (
            Memᴰ t tasks
            × (is_dispatchable_task t ≡ true)
            × (is_container_task t ≡ false)
            × IsUnblocked graph t))
      × IsInOrder (filter_unblocked_open tasks graph)
unfolding filter_unblocked_open
filter_unblocked_open-decides tasks graph =
    filter-IsInOrder (λ t. all_deps_closed t graph) (IsUnblocked graph) (all_deps_closed_iff graph)
      tasks

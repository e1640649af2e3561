-- ===== src/Graph/DepGraph/Dual.antt =====
-- `DependsOnIDs` and `BlocksIDs` are two views of one relation.
use mathlib.Core.List.Memᴰ
use chum.Base.{◌≡◌, ◌↔◌, ◌⊎◌, refl, sym, inl, inr, List, [], ◌∷◌, Memᴰ, some, Bool-cases}
use chum.Text.{Text, text_eq, text_eq_iff}
use chum.Text.Dict.{Dict, lookup, get_list, append_to, get_list-append_to, get_list-ensure_key}
use chum.Graph.Task.{Task}
use chum.Graph.DepGraph.{
  DepGraph, empty_graph, add_nodes, clean_deps, add_dep, add_deps, link_tasks, build_dep_graph,
  depends_on_ids, blocks_ids,
}

abbrev IsDual : DepGraph → Type 0
IsDual g = (x y : Text) → Memᴰ y (get_list x g.forward) ↔ Memᴰ x (get_list y g.reverse)

-- Membership after `m[k] = append(m[k], v)`.
In-append_to :
    (k j v w : Text) (m : Dict (List Text))
    → Memᴰ w (get_list j (append_to k v m)) ↔ (Memᴰ w (get_list j m) ⊎ ((k ≡ j) × (w ≡ v)))
In-append_to k j v w m = elim (Bool-cases (text_eq k j)) [
  | inr ne ↦ rw (get_list-append_to k j v m) (
      rw ne
        (λ l. inl l, λ c. elim c [ inl l ↦ l | inr (e, q) ↦ absurd (cc ((text_eq_iff k j).1 e)) ]))
  | inl eq ↦
      let e : k ≡ j = (text_eq_iff k j).0 eq in
      rw (get_list-append_to k j v m) (
        rw eq (
          rw e (
            λ l. elim (Memᴰ.append_cases (get_list j m) l) [
              | inl a ↦ inl a
              | inr b ↦ inr (refl, Memᴰ.eq_of_singleton b)
            ],
            λ c. elim c [
              | inl a ↦ Memᴰ.append_left _ a
              | inr (p, q) ↦ Memᴰ.append_right (get_list j m) (Memᴰ.head q)
            ],
          )))
]

add_dep-IsDual : (id dep : Text) (g : DepGraph) → IsDual g → IsDual (add_dep id dep g)
unfolding add_dep
add_dep-IsDual id dep g d x y =
    let f = In-append_to id x dep y g.forward in
    let r = In-append_to dep y id x g.reverse in
    (
      λ m. r.1 (elim (f.0 m) [ inl a ↦ inl ((d x y).0 a) | inr (p, q) ↦ inr (sym q, sym p) ]),
      λ m. f.1 (elim (r.0 m) [ inl a ↦ inl ((d x y).1 a) | inr (p, q) ↦ inr (sym q, sym p) ]),
    )

add_deps-IsDual : (id : Text) (ds : List Text) (g : DepGraph) → IsDual g → IsDual (add_deps id ds g)
unfolding add_deps
add_deps-IsDual id [] g d = d
add_deps-IsDual id (x ∷ ds) g d = add_deps-IsDual id ds (add_dep id x g) (add_dep-IsDual id x g d)

link_tasks-IsDual : (ts : List Task) (g : DepGraph) → IsDual g → IsDual (link_tasks ts g)
unfolding link_tasks
link_tasks-IsDual [] g d = d
link_tasks-IsDual (t ∷ ts) g d = link_tasks-IsDual ts _ (
    add_deps-IsDual t.id (clean_deps [] t.depends_on) _ (λ x y.
      rw (get_list-ensure_key t.id x g.forward, get_list-ensure_key t.id y g.reverse) (d x y)))

add_nodes_edges :
    (ts : List Task) (g : DepGraph)
    → ((add_nodes ts g).forward ≡ g.forward) × ((add_nodes ts g).reverse ≡ g.reverse)
unfolding add_nodes
add_nodes_edges [] g = (refl, refl)
add_nodes_edges (t ∷ ts) g = add_nodes_edges ts _

-- In a graph that BuildDepGraph built from any tasks, one task is among the dependencies of another exactly
-- if the other is among the tasks it blocks.
pub build_dep_graph-dual :
    (tasks : List Task) (x y : Text)
    → Memᴰ y (depends_on_ids (some (build_dep_graph tasks)) x)
      ↔ Memᴰ x (blocks_ids (some (build_dep_graph tasks)) y)
unfolding depends_on_ids blocks_ids build_dep_graph
build_dep_graph-dual tasks x y = link_tasks-IsDual tasks _ start x y
  where
    start : IsDual (add_nodes tasks empty_graph)
    start a b =
        let (f, r) = add_nodes_edges tasks empty_graph in
        rw (f, r) (unfold lookup in (λ m. elim m [ ], λ m. elim m [ ]))

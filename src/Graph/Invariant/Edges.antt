-- ===== src/Graph/Invariant/Edges.antt =====
-- `AddEdge` and `RemoveEdge`: the graph stays acyclic, and what `AddEdge` refuses.
use mathlib.Core.List.Memᴰ
use chum.Base.{
  ℕ, ◌≡◌, ◌⊎◌, ◌∙◌, ap, inl, inr, true, false, not, Memᴰ, some, any, find, find_sound, Bool-cases,
  Option-cases, any-intro, In-select, arith,
}
use chum.Base.Result.{ok, err}
use chum.Text.{Text, is_empty, text_eq, text_eq_refl}
use chum.Text.Trim.{trim_space}
use chum.Graph.Value.{not_found, would_cycle}
use chum.Graph.Db.{TaskRow, Edge, Db, task_row, insert_edge, delete_edge, is_edge, cycle_check}
use chum.Graph.Cycle.{Acyclic, Walk, Reaches, Acyclic-anti}
use chum.Graph.Cycle.Query.{cycle_check-exact}
use chum.Graph.Cycle.Extend.{extend-Acyclic}
use chum.Graph.Dag.{has_task, task_project, ensure_no_cycle, add_edge, remove_edge}
use chum.Graph.Invariant.{IsValid}

-- What a successful call of `AddEdge` found out.
record Added (db : Db) (from to : Text) (db' : Db) : Type 0 where
  other : text_eq from to ≡ false
  from_listed : has_task db from ≡ true
  to_listed : has_task db to ≡ true
  checked : cycle_check db.edges to from ≡ some false
  result : db' ≡ insert_edge from to db

task_project-listed :
    (db : Db) (id : Text) → (task_project db id ≡ err (not_found id)) ⊎ (has_task db id ≡ true)
unfolding task_project task_row
task_project-listed db id = elim (Option-cases (find (λ r. text_eq r.id id) db.tasks)) [
  | inl e ↦ inl (rw (e, task_project))
  | inr (r, e) ↦
      let (m, t) = find_sound (λ (r : TaskRow). text_eq r.id id) db.tasks e in
      inr (any-intro (λ r. text_eq r.id id) db.tasks r m t)
]

add_edge-Added :
    (db : Db) (from to : Text) {db' : Db}
    → add_edge db from to ≡ ok db'
    → Added db (trim_space from) (trim_space to) db'
unfolding add_edge ensure_no_cycle
add_edge-Added db from to h =
    ground (arith, task_project-listed db (trim_space from), task_project-listed db (trim_space to))

In-insert_edge :
    (from to : Text) (db : Db) (e : Edge)
    → Memᴰ e (insert_edge from to db).edges
    → Memᴰ e db.edges ⊎ (e ≡ record { from_task = from; to_task = to })
unfolding insert_edge
In-insert_edge from to db e m = elim (Bool-cases (any (is_edge from to) db.edges)) [
  | inl h ↦ inl (rw h at m)
  | inr h ↦ elim (Memᴰ.append_cases db.edges (rw h at m)) [
    | inl l ↦ inl l
    | inr r ↦ inr (Memᴰ.eq_of_singleton r)
  ]
]

insert_edge-tasks : (from to : Text) (db : Db) → (insert_edge from to db).tasks ≡ db.tasks
unfolding insert_edge
insert_edge-tasks from to db = ground arith

insert_edge-Acyclic :
    (from to : Text) (db : Db)
    → Acyclic db.edges
    → ¬ Reaches db.edges to from
    → Acyclic (insert_edge from to db).edges
unfolding insert_edge
insert_edge-Acyclic from to db a no_way = elim (Bool-cases (any (is_edge from to) db.edges)) [
  | inl h ↦ rw h a
  | inr h ↦ rw h (extend-Acyclic db.edges from to a no_way)
]

-- The query has found no walk back, and the two ids differ.
no_way_back :
    (db : Db) (from to : Text)
    → Acyclic db.edges
    → text_eq from to ≡ false
    → cycle_check db.edges to from ≡ some false
    → ¬ Reaches db.edges to from
no_way_back db from to a other checked (inl e) = cc (text_eq_refl from)
no_way_back db from to a other checked (inr (k, w)) =
    let (b, e, sound, complete) = cycle_check-exact db.edges to from a in
    let hit : b ≡ true = complete k w in cc

module _ {db db' : Db} (raw_from raw_to : Text) (valid : IsValid db)
    (added : add_edge db raw_from raw_to ≡ ok db') where
  -- A call of `AddEdge` that succeeds keeps the tables valid: above all the graph stays acyclic.
  pub add_edge-IsValid : IsValid db'
  add_edge-IsValid =
      let from = trim_space raw_from in
      let to = trim_space raw_to in
      let found = add_edge-Added db raw_from raw_to added in
      let same = insert_edge-tasks from to db in
      rw found.result (record {
        distinct_ids = rw same valid.distinct_ids;
        normal_rows = rw same valid.normal_rows;
        ends = λ e m. rw same (elim (In-insert_edge from to db e m) [
          | inl l ↦ valid.ends e l
          | inr r ↦ rw r (found.from_listed, found.to_listed)
        ]);
        acyclic =
            insert_edge-Acyclic from to db valid.acyclic
              (no_way_back db from to valid.acyclic found.other found.checked);
      })

remove_edge-tasks :
    (db : Db) (raw_from raw_to : Text) {db' : Db}
    → remove_edge db raw_from raw_to ≡ ok db'
    → db' ≡ delete_edge (trim_space raw_from) (trim_space raw_to) db
unfolding remove_edge
remove_edge-tasks db raw_from raw_to h = ground arith

pub remove_edge-IsValid :
    (db : Db) (raw_from raw_to : Text) {db' : Db}
    → IsValid db
    → remove_edge db raw_from raw_to ≡ ok db'
    → IsValid db'
unfolding delete_edge
remove_edge-IsValid db raw_from raw_to valid h =
    let kept = λ (e : Edge). not (is_edge (trim_space raw_from) (trim_space raw_to) e) in
    rw (remove_edge-tasks db raw_from raw_to h) (record {
      distinct_ids = valid.distinct_ids;
      normal_rows = valid.normal_rows;
      ends = λ e m. valid.ends e (In-select kept db.edges e m).0;
      acyclic = Acyclic-anti (λ e m. (In-select kept db.edges e m).0) valid.acyclic;
    })

-- On valid tables, for two different listed tasks of one project, AddEdge answers: with the cycle error
-- exactly if the second task already depends on the first, directly or not, and otherwise by adding the
-- edge.
pub add_edge-decides :
    (db : Db) (raw_from raw_to : Text) {p : Text}
    → let from = trim_space raw_from in
      let to = trim_space raw_to in
      IsValid db
      → is_empty from ≡ false
      → is_empty to ≡ false
      → text_eq from to ≡ false
      → task_project db from ≡ ok p
      → task_project db to ≡ ok p
      → ((add_edge db raw_from raw_to ≡ err would_cycle) × ((k : ℕ) × Walk db.edges k to from))
        ⊎ ((add_edge db raw_from raw_to ≡ ok (insert_edge from to db)) × ¬ Reaches db.edges to from)
unfolding add_edge ensure_no_cycle
add_edge-decides db raw_from raw_to {p} valid nf nt other pf pt =
    let from = trim_space raw_from in
    let to = trim_space raw_to in
    let (b, e, sound, complete) = cycle_check-exact db.edges to from valid.acyclic in
    elim (Bool-cases b) [
      | inl yes_b ↦ inl (ground (arith, text_eq_refl p), sound yes_b)
      | inr no_b ↦ inr (
        ground (arith, text_eq_refl p),
        no_way_back db from to valid.acyclic other (e ∙ ap some no_b),
      )
    ]

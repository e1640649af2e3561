-- ===== src/Tests/GraphRuns.antt =====
-- The theorems on the task graph at the sample tables.
use chum.Base.{ℕ, ◌≡◌, ◌⊎◌, ◌↔◌, refl, [], ◌∷◌, Bool, true, Memᴰ, some}
use chum.Base.Result.{ok, err}
use chum.Text.{Text, text, text_eq, text_lt, is_space, lower_byte}
use chum.Text.Trim.{trim_space}
use chum.Graph.Task.{is_terminal_status, terminal_statuses, normalize_task_status}
use chum.Graph.Value.{str, would_cycle, unresolved_dependency, coerce_string}
use chum.Base.Sort.{sort_by, insert_by}
use chum.Graph.Db.{
  Db, cycle_check, insert_edge, task_row, dependents, dependencies, scan_task,
  ready_transition_check, is_unresolved, is_resolved,
}
use chum.Graph.Cycle.{Walk, Reaches, HasEdge}
use chum.Graph.Cycle.Query.{cycle_check-exact}
use chum.Graph.Dag.{add_edge, task_project, get_dependents, get_task, load_task}
use chum.Graph.Update.{
  update_task, auto_unblock_dependents, promote_all, promote, all_done, collect_fields,
  update_fields, update_columns, field_assignment, transitioning_to_ready,
  ensure_ready_transition_unblocked,
}
use chum.Graph.Update.Apply.{column_of, lookup_key, column_name, update_rows, apply_all, apply}
use chum.Graph.Invariant.{IsValid}
use chum.Graph.Invariant.Edges.{add_edge-decides}
use chum.Graph.Invariant.Steps.{Reach-IsValid}
use chum.Graph.Invariant.Updates.{with_rows}
use chum.Graph.Ready.{IsSettled, IsUnblocked}
use chum.Graph.Ready.Guard.{ready_set, update_to_ready-decides}
use chum.Graph.Ready.Unblock.{CanPromote}
use chum.Graph.Ready.Promoted.{auto_unblock-decides}
use chum.Tests.Samples.{
  row, first, second, third, db_chain, decode, chain_reached, db_chain-IsValid,
}

Reach-IsValid_example : IsValid db_chain
Reach-IsValid_example = Reach-IsValid decode chain_reached

cycle_check-exact_example :
    (b : Bool) × (cycle_check db_chain.edges third first ≡ some b)
    × (b ≡ true → (k : ℕ) × Walk db_chain.edges k third first)
    × ((k : ℕ) → Walk db_chain.edges k third first → b ≡ true)
cycle_check-exact_example = cycle_check-exact db_chain.edges third first db_chain-IsValid.acyclic

-- The first task cannot be made to depend on the third.
add_edge-decides_example :
    ((add_edge db_chain first third ≡ err would_cycle)
      × ((k : ℕ) × Walk db_chain.edges k (trim_space third) (trim_space first)))
    ⊎ ((add_edge db_chain first third
          ≡ ok (insert_edge (trim_space first) (trim_space third) db_chain))
        × ¬ Reaches db_chain.edges (trim_space third) (trim_space first))
unfolding task_project task_row trim_space is_space text_eq
add_edge-decides_example =
    add_edge-decides db_chain first third {p = text "p"} db_chain-IsValid refl refl refl refl refl

update_to_ready-decides_example :
    ((update_task decode db_chain third ((text "status", str (text " READY")) ∷ []) 9
        ≡ ok (with_rows db_chain ready_set 9 (trim_space third)))
      × IsUnblocked db_chain (trim_space third))
    ⊎ ((x : Text) × (s : Text) × (update_task decode db_chain third
            ((text "status", str (text " READY")) ∷ [])
            9
          ≡ err (unresolved_dependency x s))
        × HasEdge db_chain.edges (trim_space third) x
        × ¬ IsSettled db_chain x)
unfolding trim_space is_space lower_byte text_eq normalize_task_status coerce_string
update_to_ready-decides_example =
    update_to_ready-decides decode db_chain third (str (text " READY")) 9 db_chain-IsValid refl refl
      refl

abbrev db_unblocked : Db
db_unblocked = record {
  tasks =
      row first (text "closed") 1
      ∷ record (row second (text "ready") 2) { updated_at = 9 }
      ∷ row third (text "open") 3
      ∷ [];
  edges = db_chain.edges;
}

-- The completion of the first task makes the second ready, and not yet the third.
unblocks_second : auto_unblock_dependents decode db_chain first 9 ≡ ok (db_unblocked, second ∷ [])
unfolding auto_unblock_dependents get_dependents dependents sort_by insert_by promote_all promote
    get_task task_row load_task scan_task dependencies all_done update_task collect_fields
    update_fields update_columns field_assignment transitioning_to_ready
    ensure_ready_transition_unblocked ready_transition_check is_unresolved is_resolved column_of
    lookup_key column_name update_rows apply_all apply coerce_string is_terminal_status
    terminal_statuses normalize_task_status trim_space is_space lower_byte text_eq text_lt
unblocks_second = refl

auto_unblock-decides_example :
    Memᴰ second (second ∷ [])
    ↔ (HasEdge db_chain.edges second (trim_space first) × CanPromote db_chain second)
auto_unblock-decides_example =
    auto_unblock-decides decode db_chain db_unblocked first 9 (second ∷ []) db_chain-IsValid
      unblocks_second second

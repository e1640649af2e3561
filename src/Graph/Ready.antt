-- ===== src/Graph/Ready.antt =====
-- When a task may become ready: the guard of `UpdateTask`, and `AutoUnblockDependents`.
pub mod Guard
pub mod Unblock
pub mod Frame
pub mod Promoted
use mathlib.Core.List.Memᴰ
use chum.Base.{
  ◌≡◌, ◌⊎◌, refl, sym, ◌∙◌, ap, inl, inr, Bool, true, false, not, List, [], ◌∷◌, Memᴰ, Option, none,
  some, find, find_sound, find-none, any, any-intro, any-elim, Option-cases, arith, if◌then◌else◌,
  not-eq_true, Bool-cases,
}
use chum.Text.{Text, is_empty, text_eq, text_eq_iff, one_of, to_lower}
use chum.Graph.Task.{
  normalize_task_status, is_terminal_status, terminal_statuses,
  normalize_task_status-of_IsNormalized,
}
use chum.Graph.Db.{TaskRow, Edge, Db, task_row, is_resolved, is_unresolved}
use chum.Graph.Cycle.{HasEdge}
use chum.Graph.Dag.{has_task}
use chum.Graph.Invariant.{IsValid, IsNormalRow}

-- The task is in the table, and its status is terminal.
abbrev pub IsSettled : Db → Text → Type 0
IsSettled db id = (r : TaskRow) × (task_row db id ≡ some r) × (is_terminal_status r.status ≡ true)

-- Every direct dependency of the task is settled.
abbrev pub IsUnblocked : Db → Text → Type 0
IsUnblocked db id = (y : Text) → HasEdge db.edges id y → IsSettled db y

-- On a normal row the test of the SQL statements is the test of the Go code.
pub is_resolved-eq-is_terminal :
    {r : TaskRow} → IsNormalRow r → is_resolved r.status ≡ is_terminal_status r.status
unfolding is_resolved is_terminal_status
is_resolved-eq-is_terminal {r} n =
    rw (normalize_task_status-of_IsNormalized r.status n.normal_status)
      (rw (n.some_status, n.normal_status.0))

pub task_row_sound :
    (db : Db) (id : Text) {r : TaskRow} → task_row db id ≡ some r → Memᴰ r db.tasks × (r.id ≡ id)
unfolding task_row
task_row_sound db id {r} h =
    let (m, t) = find_sound (λ (r : TaskRow). text_eq r.id id) db.tasks h in
    (m, (text_eq_iff r.id id).0 t)

pub task_row-listed :
    (db : Db) (id : Text) → has_task db id ≡ true → (r : TaskRow) × (task_row db id ≡ some r)
unfolding task_row
task_row-listed db id h = elim (Option-cases (task_row db id)) [
  | inl e ↦
      let (r, m, t) = any-elim (λ (r : TaskRow). text_eq r.id id) db.tasks h in
      let f = find-none (λ (r : TaskRow). text_eq r.id id) db.tasks e r m in absurd (cc)
  | inr (r, e) ↦ (r, e)
]

pub listed-task_row :
    (db : Db) (id : Text) {r : TaskRow} → task_row db id ≡ some r → has_task db id ≡ true
listed-task_row db id {r} h =
    let (m, e) = task_row_sound db id h in any-intro _ db.tasks r m ((text_eq_iff r.id id).1 e)

-- A dependency is unresolved for the SQL statement exactly if it is not settled.
pub unresolved_iff :
    (db : Db) (y : Text)
    → IsValid db
    → ((is_unresolved db y ≡ false) → IsSettled db y)
      × (IsSettled db y → is_unresolved db y ≡ false)
unfolding is_unresolved
unresolved_iff db y valid = (
  λ h. elim (Option-cases (task_row db y)) [
    | inl e ↦ ground arith
    | inr (r, e) ↦
        let n = valid.normal_rows r (task_row_sound db y e).0 in
        (r, e, ground (arith, is_resolved-eq-is_terminal n))
  ],
  λ (r, e, t).
      let n = valid.normal_rows r (task_row_sound db y e).0 in
      ground (arith, is_resolved-eq-is_terminal n),
)

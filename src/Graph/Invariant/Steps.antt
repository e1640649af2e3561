-- ===== src/Graph/Invariant/Steps.antt =====
-- Sequences of calls on the tables, as callers of `DAG` make them, and the invariant over all of them.
use chum.Base.{ℕ, ◌≡◌, ◌⊎◌, inl, inr, true, false, List, [], ◌∷◌, Option, arith, subst}
use chum.Base.Result.{ok, OnOk, OnOk-bind, Result-cases}
use chum.Text.{Text, text}
use chum.Graph.Task.{Task, status_ready}
use chum.Graph.Value.{AnyValue, str}
use chum.Graph.Db.{Db}
use chum.Graph.Cycle.{Walk, last, step}
use chum.Graph.Dag.{create_task, add_edge, remove_edge, get_dependents}
use chum.Graph.Update.{update_task, close_task, promote, promote_all, auto_unblock_dependents}
use chum.Graph.Invariant.{IsValid, empty_db}
use chum.Graph.Invariant.Edges.{add_edge-IsValid, remove_edge-IsValid}
use chum.Graph.Invariant.Rows.{create_task-IsValid}
use chum.Graph.Invariant.Updates.{update_task-IsValid}

-- A call that succeeds, with the tables before and after it.
pub data Step (decode : Text → Option (List Text)) : Db → Db → Type 0 where
  created :
      {db db' : Db} {id : Text} (draw : ℕ → Option ℕ) (t : Task) (now : ℕ)
      → create_task db draw t now ≡ ok (id, db')
      → Step decode db db'
  updated :
      {db db' : Db} (id : Text) (fields : List (Text × AnyValue)) (now : ℕ)
      → update_task decode db id fields now ≡ ok db'
      → Step decode db db'
  closed :
      {db db' : Db} (id : Text) (now : ℕ)
      → close_task decode db id now ≡ ok db'
      → Step decode db db'
  edge_added : {db db' : Db} (from to : Text) → add_edge db from to ≡ ok db' → Step decode db db'
  edge_removed :
      {db db' : Db} (from to : Text) → remove_edge db from to ≡ ok db' → Step decode db db'
  unblocked :
      {db db' : Db} {promoted : List Text} (id : Text) (now : ℕ)
      → auto_unblock_dependents decode db id now ≡ ok (db', promoted)
      → Step decode db db'

pub data Reach (decode : Text → Option (List Text)) (db : Db) : Db → Type 0 where
  here : Reach decode db db
  then : {db' db'' : Db} → Reach decode db db' → Step decode db' db'' → Reach decode db db''

module _ (decode : Text → Option (List Text)) where
  close_task-IsValid :
      (db : Db) (id : Text) (now : ℕ) {db' : Db}
      → IsValid db
      → close_task decode db id now ≡ ok db'
      → IsValid db'
  unfolding close_task
  close_task-IsValid db id now valid h = update_task-IsValid decode db id _ now valid h

  -- A round leaves the tables as they are, or updates one status.
  promote-cases :
      (db : Db) (id : Text) (now : ℕ)
      → (promote decode db id now ≡ (db, false))
        ⊎ ((db' : Db) × (update_task decode db id ((text "status", str status_ready) ∷ []) now
              ≡ ok db')
            × (promote decode db id now ≡ (db', true)))
  unfolding promote
  promote-cases db id now =
      elim (Result-cases (update_task decode db id ((text "status", str status_ready) ∷ []) now)) [
        | inl (db', e) ↦ ground arith
        | inr (x, e) ↦ inl (ground arith)
      ]

  pub promote-IsValid :
      (db : Db) (id : Text) (now : ℕ) → IsValid db → IsValid (promote decode db id now).0
  promote-IsValid db id now valid = elim (promote-cases db id now) [
    | inl e ↦ rw e valid
    | inr (db', h, e) ↦ rw e (update_task-IsValid decode db id _ now valid h)
  ]

  promote_all-IsValid :
      (ids : List Text) (db : Db) (now : ℕ) → IsValid db → IsValid (promote_all decode db ids now).0
  unfolding promote_all
  promote_all-IsValid [] db now valid = valid
  promote_all-IsValid (id ∷ ids) db now valid =
      promote_all-IsValid ids (promote decode db id now).0 now (promote-IsValid db id now valid)

  auto_unblock-IsValid :
      (db : Db) (id : Text) (now : ℕ) {db' : Db} {promoted : List Text}
      → IsValid db
      → auto_unblock_dependents decode db id now ≡ ok (db', promoted)
      → IsValid db'
  unfolding auto_unblock_dependents
  auto_unblock-IsValid db id now valid h = subst (OnOk (λ (p : Db × List Text). IsValid p.0)) h (
      OnOk-bind (λ (p : Db × List Text). IsValid p.0) (get_dependents db id) _
        (λ ids e. promote_all-IsValid ids db now valid))

  pub Step-IsValid : {db db' : Db} → Step decode db db' → IsValid db → IsValid db'
  Step-IsValid (created {db = db} draw t now h) valid = create_task-IsValid db draw t now valid h
  Step-IsValid (updated {db = db} id fields now h) valid =
      update_task-IsValid decode db id fields now valid h
  Step-IsValid (closed {db = db} id now h) valid = close_task-IsValid db id now valid h
  Step-IsValid (edge_added from to h) valid = add_edge-IsValid from to valid h
  Step-IsValid (edge_removed {db = db} from to h) valid = remove_edge-IsValid db from to valid h
  Step-IsValid (unblocked {db = db} id now h) valid = auto_unblock-IsValid db id now valid h

  no-Walk : {n : ℕ} {x y : Text} → ¬ Walk [] n x y
  no-Walk (last (e, m, p, q)) = elim m [ ]
  no-Walk (step (e, m, p, q) w) = elim m [ ]

  empty_db-IsValid : IsValid empty_db
  empty_db-IsValid = record {
    distinct_ids = tt;
    normal_rows = λ r m. elim m [ ];
    ends = λ e m. elim m [ ];
    acyclic = λ n x w. no-Walk w;
  }

  -- Whatever sequence of successful calls of CreateTask, UpdateTask, CloseTask, AddEdge, RemoveEdge and
  -- AutoUnblockDependents was made since the tables were empty, the task ids are distinct, ids, statuses
  -- and types are normal and not empty, every edge joins two listed tasks, and the dependency graph is
  -- acyclic.
  pub Reach-IsValid : {db : Db} → Reach decode empty_db db → IsValid db
  Reach-IsValid here = empty_db-IsValid
  Reach-IsValid (then r s) = Step-IsValid s (Reach-IsValid r)

-- ===== src/Graph/Invariant.antt =====
-- What holds of the tables between two calls of the operations of `DAG`.
pub mod Edges
pub mod Ids
pub mod Rows
pub mod Updates
pub mod Steps
use mathlib.Core.List.Memᴰ
use chum.Base.{
  ◌≡◌, ◌≢◌, ◌⊎◌, refl, inl, inr, Bool, true, false, List, [], ◌∷◌, Memᴰ, any, any-intro, any-elim,
}
use chum.Text.{Text, is_empty, text_eq, text_eq_iff}
use chum.Text.Trim.{trim_space}
use chum.Graph.Task.{IsNormalized}
use chum.Graph.Db.{TaskRow, Edge, Db}
use chum.Graph.Cycle.{Acyclic}
use chum.Graph.Dag.{has_task}

-- The column `id` is the primary key.
abbrev pub DistinctIds : List TaskRow → Type 0
DistinctIds [] = Unit
DistinctIds (r ∷ rs) = ((s : TaskRow) → Memᴰ s rs → s.id ≢ r.id) × DistinctIds rs

-- A status and a type are held in lower case, without blanks at the ends, and are not empty; neither is
-- the id, which has no blanks at its ends.
pub record IsNormalRow (r : TaskRow) : Type 0 where
  pub normal_status : IsNormalized r.status
  pub some_status : is_empty r.status ≡ false
  pub normal_type : IsNormalized r.task_type
  pub some_type : is_empty r.task_type ≡ false
  pub normal_id : trim_space r.id ≡ r.id
  pub some_id : is_empty r.id ≡ false

-- The foreign keys of `task_edges`.
abbrev pub HasEnds : Db → Edge → Type 0
HasEnds db e = (has_task db e.from_task ≡ true) × (has_task db e.to_task ≡ true)

pub record IsValid (db : Db) : Type 0 where
  pub distinct_ids : DistinctIds db.tasks
  pub normal_rows : (r : TaskRow) → Memᴰ r db.tasks → IsNormalRow r
  pub ends : (e : Edge) → Memᴰ e db.edges → HasEnds db e
  pub acyclic : Acyclic db.edges

abbrev pub empty_db : Db
empty_db = record { tasks = []; edges = [] }

-- ===== src/Graph/Update/Apply.antt =====
-- The columns that `UpdateTask` may assign (`updatableColumns`), and the UPDATE statement.
use chum.Base.{ℕ, List, [], ◌∷◌, Option, none, some, if◌then◌else◌}
use chum.Base.Int.{ℤ}
use chum.Text.{Text, text, text_eq}
use chum.Graph.Db.{TaskRow}

pub data Column : Type 0 where
  title description status priority task_type assignee labels estimate_minutes : Column
  parent_id acceptance design notes project error_log : Column

-- The keys of `updatableColumns`, with their columns.
abbrev pub column_keys : List (Text × Column)
column_keys =
    (text "title", title)
    ∷ (text "description", description)
    ∷ (text "status", status)
    ∷ (text "priority", priority)
    ∷ (text "type", task_type)
    ∷ (text "assignee", assignee)
    ∷ (text "labels", labels)
    ∷ (text "estimate_minutes", estimate_minutes)
    ∷ (text "parent_id", parent_id)
    ∷ (text "acceptance", acceptance)
    ∷ (text "design", design)
    ∷ (text "notes", notes)
    ∷ (text "project", project)
    ∷ (text "error_log", error_log)
    ∷ []

unfoldable pub lookup_key : Text → List (Text × Column) → Option Column
lookup_key key [] = none
lookup_key key ((k, c) ∷ rest) = if text_eq key k then some c else lookup_key key rest

unfoldable pub column_of : Text → Option Column
unfolding lookup_key
column_of key = lookup_key key column_keys

-- The column in the SQL text, by which the assignments are sorted.
unfoldable pub column_name : Column → Text
column_name title = text "title"
column_name description = text "description"
column_name status = text "status"
column_name priority = text "priority"
column_name task_type = text "\"type\""
column_name assignee = text "assignee"
column_name labels = text "labels"
column_name estimate_minutes = text "estimate_minutes"
column_name parent_id = text "parent_id"
column_name acceptance = text "acceptance"
column_name design = text "design"
column_name notes = text "notes"
column_name project = text "project"
column_name error_log = text "error_log"

-- `taskUpdateField`: a column with its new value.
pub data Assignment : Type 0 where
  set_text : Column → Text → Assignment
  set_number : Column → ℤ → Assignment
  set_labels : List Text → Assignment

abbrev pub assigned_column : Assignment → Column
assigned_column (set_text c s) = c
assigned_column (set_number c n) = c
assigned_column (set_labels ls) = labels

-- One `column = ?` of the UPDATE statement.
unfoldable pub apply : Assignment → TaskRow → TaskRow
apply (set_text title s) r = record r { title = s }
apply (set_text description s) r = record r { description = s }
apply (set_text status s) r = record r { status = s }
apply (set_text task_type s) r = record r { task_type = s }
apply (set_text assignee s) r = record r { assignee = s }
apply (set_text parent_id s) r = record r { parent_id = s }
apply (set_text acceptance s) r = record r { acceptance = s }
apply (set_text design s) r = record r { design = s }
apply (set_text notes s) r = record r { notes = s }
apply (set_text project s) r = record r { project = s }
apply (set_text error_log s) r = record r { error_log = s }
apply (set_number priority n) r = record r { priority = n }
apply (set_number estimate_minutes n) r = record r { estimate_minutes = n }
apply (set_labels ls) r = record r { labels = ls }
apply _ r = r

-- Of two assignments to one column the later one counts.
unfoldable pub apply_all : List Assignment → TaskRow → TaskRow
unfolding apply
apply_all [] r = r
apply_all (a ∷ rest) r = apply_all rest (apply a r)

-- `UPDATE tasks SET ..., updated_at = ? WHERE id = ?`.
unfoldable pub update_rows : List Assignment → ℕ → Text → List TaskRow → List TaskRow
unfolding apply_all
update_rows sets now id [] = []
update_rows sets now id (r ∷ rs) =
    (if text_eq r.id id then record (apply_all sets r) { updated_at = now } else r)
    ∷ update_rows sets now id rs

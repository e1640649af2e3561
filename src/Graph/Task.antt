-- ===== src/Graph/Task.antt =====
-- internal/graph/task.go, and the status and type tests of dag.go and graph.go.
use chum.Base.{
  ℕ, ◌≡◌, refl, ◌∙◌, ap, sym, arith, Bool, false, ◌||◌, List, [], ◌∷◌, if◌then◌else◌, any,
  Bool-cases, inl, inr,
}
use chum.Base.Int.{ℤ}
use chum.Text.{Text, text, is_empty, to_lower, text_eq, one_of, has_prefix, lower_byte, is_space}
use chum.Text.Trim.{trim_space, trim_space-lower, trim_space_idem, to_lower_idem}

-- Times are numbers of seconds.
pub record Task : Type 0 where
  pub id : Text
  pub title : Text
  pub description : Text
  pub status : Text
  pub priority : ℤ
  pub task_type : Text
  pub assignee : Text
  pub labels : List Text
  pub estimate_minutes : ℤ
  pub parent_id : Text
  pub acceptance : Text
  pub design : Text
  pub notes : Text
  pub depends_on : List Text
  pub project : Text
  pub error_log : Text
  pub complexity : ℤ
  pub created_at : ℕ
  pub updated_at : ℕ

pub record CrossDep : Type 0 where
  pub project : Text
  pub task_id : Text

abbrev pub status_open : Text
status_open = text "open"

abbrev pub status_ready : Text
status_ready = text "ready"

abbrev pub status_closed : Text
status_closed = text "closed"

abbrev pub default_type : Text
default_type = text "task"

abbrev pub task_type_epic : Text
task_type_epic = text "epic"

abbrev pub task_type_whale : Text
task_type_whale = text "whale"

abbrev pub stage_label_prefix : Text
stage_label_prefix = text "stage:"

unfoldable pub normalize_task_status : Text → Text
normalize_task_status status =
    let s = trim_space (to_lower status) in if is_empty s then status_open else s

unfoldable pub normalize_task_type : Text → Text
normalize_task_type task_type =
    let s = trim_space (to_lower task_type) in if is_empty s then default_type else s

-- `isClosedTask` compares in this order.
unfoldable pub is_closed_task : Text → Bool
unfolding normalize_task_status
is_closed_task status =
    let s = normalize_task_status status in
    text_eq s status_closed
    || text_eq s (text "completed")
    || text_eq s (text "escalated")
    || text_eq s (text "plan_failed")
    || text_eq s (text "canceled")
    || text_eq s (text "done")

-- The keys of the map `terminalStatuses`, which the SQL statements are given too.
unfoldable pub terminal_statuses : List Text
terminal_statuses =
    status_closed
    ∷ text "completed"
    ∷ text "escalated"
    ∷ text "plan_failed"
    ∷ text "canceled"
    ∷ text "done"
    ∷ []

unfoldable pub is_terminal_status : Text → Bool
is_terminal_status status = one_of terminal_statuses (normalize_task_status status)

unfoldable pub is_dispatchable_task : Task → Bool
is_dispatchable_task task = text_eq (normalize_task_status task.status) status_ready

unfoldable pub is_container_task : Task → Bool
is_container_task task =
    let t = to_lower (trim_space task.task_type) in
    text_eq t task_type_epic || text_eq t task_type_whale

unfoldable pub has_stage_label : Task → Bool
has_stage_label task = any (λ label. has_prefix label stage_label_prefix) task.labels

-- A text that normalisation leaves as it is.
abbrev pub IsNormalized : Text → Type 0
IsNormalized s = (to_lower s ≡ s) × (trim_space s ≡ s)

trim-lower-IsNormalized : (s : Text) → IsNormalized (trim_space (to_lower s))
trim-lower-IsNormalized s = (
  (sym (trim_space-lower (to_lower s)) ∙ ap trim_space (to_lower_idem s)),
  trim_space_idem (to_lower s),
)

pub normalize_task_status-IsNormalized : (s : Text) → IsNormalized (normalize_task_status s)
unfolding normalize_task_status
normalize_task_status-IsNormalized s = elim (Bool-cases (is_empty (trim_space (to_lower s)))) [
  | inl e ↦ rw e (unfold lower_byte trim_space is_space in (refl, refl))
  | inr e ↦ rw e (trim-lower-IsNormalized s)
]

-- The two ways in which the code tests for a terminal status, isClosedTask and isTerminalStatus, agree on
-- every text.
pub is_closed_task-eq-is_terminal_status : (s : Text) → is_closed_task s ≡ is_terminal_status s
unfolding is_closed_task is_terminal_status terminal_statuses
is_closed_task-eq-is_terminal_status s = ground arith

-- On a normal text the normalisation of a status changes at most the empty one.
pub normalize_task_status-of_IsNormalized :
    (s : Text) → IsNormalized s → normalize_task_status s ≡ (if is_empty s then status_open else s)
unfolding normalize_task_status
normalize_task_status-of_IsNormalized s n = rw (n.0, n.1)

pub normalize_task_status-nonempty : (s : Text) → is_empty (normalize_task_status s) ≡ false
unfolding normalize_task_status
normalize_task_status-nonempty s = elim (Bool-cases (is_empty (trim_space (to_lower s)))) [
  | inl e ↦ rw e
  | inr e ↦ rw e e
]

-- A second normalisation changes nothing.
pub normalize_task_status_idem :
    (s : Text) → normalize_task_status (normalize_task_status s) ≡ normalize_task_status s
normalize_task_status_idem s =
    normalize_task_status-of_IsNormalized _ (normalize_task_status-IsNormalized s)
    ∙ rw (normalize_task_status-nonempty s)

pub normalize_task_type-nonempty : (s : Text) → is_empty (normalize_task_type s) ≡ false
unfolding normalize_task_type
normalize_task_type-nonempty s = elim (Bool-cases (is_empty (trim_space (to_lower s)))) [
  | inl e ↦ rw e
  | inr e ↦ rw e e
]

pub normalize_task_type-IsNormalized : (s : Text) → IsNormalized (normalize_task_type s)
unfolding normalize_task_type
normalize_task_type-IsNormalized s = elim (Bool-cases (is_empty (trim_space (to_lower s)))) [
  | inl e ↦ rw e (unfold lower_byte trim_space is_space in (refl, refl))
  | inr e ↦ rw e (trim-lower-IsNormalized s)
]

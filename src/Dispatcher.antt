-- ===== src/Dispatcher.antt =====
-- internal/temporal/workflow_dispatcher.go: which ready tasks ScanCandidatesActivity picks, and what
-- DispatcherWorkflow starts for them.
pub mod Ids
pub mod Picked
pub mod Tick
pub mod Gather
pub mod Candidates
pub mod Routes
use chum.Base.{
  ℕ, zero, suc, ◌+◌, ◌-◌, ◌*◌, eqb, Bool, true, false, not, ◌&&◌, ◌||◌, List, [], ◌∷◌, ◌++◌, Option,
  none, some, if◌then◌else◌, leb, any, select,
}
use chum.Base.Int.{ℤ, pos, negsuc, ltb_ℤ, pos_part}
use chum.Base.Sort.{sort_by}
use chum.Text.{Text, text, text_eq, is_empty, to_lower, one_of}
use chum.Text.Trim.{trim_space}
use chum.Text.Dict.{Dict, lookup, insert}
use chum.Text.Search.{split, join}
use chum.Graph.Task.{Task}

-- A configured number, or its default where it is not positive.
unfoldable pub positive_or : ℕ → ℤ → ℕ
positive_or default n = if ltb_ℤ (pos 0) n then pos_part n else default

-- WorkflowExecutionTimeout, in minutes, for estimates whose triple a Duration can hold.
unfoldable pub workflow_timeout : ℤ → ℕ
workflow_timeout estimate_minutes =
    let timeout = pos_part estimate_minutes * 3 in
    if ltb_ℤ (pos 0) estimate_minutes
    then (if leb timeout 30 then 30 else if leb timeout 240 then timeout else 240)
    else 30

-- The slots of a tick, none if as many workflows run as may.
unfoldable pub tick_slots : ℕ → ℤ → ℤ → ℕ
tick_slots running max_concurrent_total max_per_tick =
    let free = positive_or 3 max_concurrent_total - running in
    let per_tick = positive_or 3 max_per_tick in if leb free per_tick then free else per_tick

abbrev pub strategic_deferred_label : Text
strategic_deferred_label = text "strategy:deferred"

-- EqualFold on ASCII.
unfoldable pub is_strategic_deferred_task : Task → Bool
is_strategic_deferred_task t =
    any (λ label. text_eq (to_lower (trim_space label)) (to_lower strategic_deferred_label))
      t.labels

unfoldable pub has_crab_seal : Task → Bool
has_crab_seal t =
    (text_eq t.task_type (text "morsel")
      && not (is_empty t.acceptance)
      && ltb_ℤ (pos 0) t.estimate_minutes)
    || any (λ l. text_eq (trim_space l) (text "crab:approved")) t.labels
    || (text_eq t.task_type (text "task")
        && ltb_ℤ (pos 0) t.estimate_minutes
        && not (ltb_ℤ (pos 120) t.estimate_minutes))

pub record Candidate : Type 0 where
  pub task : Task
  pub project : Text
  pub deferred : Bool

-- The ready tasks of a project.
unfoldable pub candidates_of : Text → List Task → List Candidate
candidates_of name [] = []
candidates_of name (t ∷ ready) =
    record { task = t; project = name; deferred = is_strategic_deferred_task t }
    ∷ candidates_of name ready

-- Deferred tasks stand back where there is another one.
unfoldable pub drop_deferred : List Candidate → List Candidate
drop_deferred cs = if any (λ c. not c.deferred) cs then select (λ c. not c.deferred) cs else cs

unfoldable pub candidate_less : Candidate → Candidate → Bool
candidate_less a b =
    let i = not (is_empty a.task.parent_id) in
    let j = not (is_empty b.task.parent_id) in
    ltb_ℤ a.task.priority b.task.priority
    || (not (ltb_ℤ b.task.priority a.task.priority)
        && ((i && not j)
            || (((i && j) || (not i && not j))
                && ltb_ℤ a.task.estimate_minutes b.task.estimate_minutes)))

-- What the store knows of the species of a task.
pub record Genome : Type 0 where
  pub hibernating : Bool
  pub generation : ℤ

-- The limits of a tick, the tasks that are running, and the answers of GetGenome.
pub record Limits : Type 0 where
  pub max_per_project : ℕ
  pub running_set : List Text
  pub genome : Task → Option Genome

-- A missing key of a map of numbers counts as 0.
abbrev pub or_zero : Option ℕ → ℕ
or_zero none = 0
or_zero (some n) = n

abbrev pub count : Text → Dict ℕ → ℕ
count project running = or_zero (lookup project running)

abbrev pub is_hibernating : Option Genome → Bool
is_hibernating none = false
is_hibernating (some g) = g.hibernating

abbrev pub generation_of : Option Genome → ℤ
generation_of none = pos 0
generation_of (some g) = g.generation

unfoldable pub sleeps : Limits → Candidate → Bool
sleeps limits c =
    not (text_eq c.project (text "golf-directory")) && is_hibernating (limits.genome c.task)

unfoldable pub is_skipped : Limits → Dict ℕ → Candidate → Bool
is_skipped limits running c =
    one_of limits.running_set c.task.id
    || leb limits.max_per_project (count c.project running)
    || sleeps limits c

-- The loop that builds the candidates of a tick; `running` is `projectRunning`, and the number is of the slots
-- that are left.
unfoldable pub pick : Limits → ℕ → Dict ℕ → List Candidate → List Candidate
pick limits zero running cs = []
pick limits (suc left) running [] = []
pick limits (suc left) running (c ∷ cs) = elim (is_skipped limits running c) [
  | true ↦ pick limits (suc left) running cs
  | false ↦ c ∷ pick limits left (insert c.project (suc (count c.project running)) running) cs
]

-- From the ready tasks of all projects to those of the tick.
unfoldable pub scan : Limits → ℕ → Dict ℕ → List Candidate → List Candidate
scan limits slots running cs = pick limits slots running (sort_by candidate_less (drop_deferred cs))

-- `strings.ReplaceAll(raw, "\r\n", "\n")`.
unfoldable pub unify_lines : Text → Text
unify_lines [] = []
unify_lines (x ∷ []) = x ∷ []
unify_lines (x ∷ y ∷ s) =
    let rest = unify_lines (y ∷ s) in if eqb x 13 && eqb y 10 then rest else x ∷ rest

abbrev pub add_block : List Text → List Text → List Text
add_block current out =
    let joined = trim_space (join (10 ∷ []) current) in
    if is_empty joined then out else joined ∷ out

-- The blocks between lines of three dashes: `current` are the lines of the block that was begun.
unfoldable pub error_blocks : List Text → List Text → List Text
error_blocks current [] = add_block current []
error_blocks current (line ∷ lines) = elim (text_eq (trim_space line) (text "---")) [
  | true ↦ add_block current (error_blocks [] lines)
  | false ↦ error_blocks (current ++ line ∷ []) lines
]

unfoldable pub parse_task_error_log : Text → List Text
parse_task_error_log raw =
    let s = trim_space raw in if is_empty s then [] else error_blocks [] (split 10 (unify_lines s))

-- ===== src/Tests/BacklogRuns.antt =====
-- The theorems on the dependency graph and the backlogs at small lists of tasks.
use mathlib.Core.List.Memᴰ
use chum.Base.{
  ◌≡◌, ◌↔◌, refl, sym, subst, inl, inr, List, [], ◌∷◌, Memᴰ, none, some, true, false, map, select,
}
use chum.Base.Int.{pos}
use chum.Base.Result.{ok}
use chum.Base.Sort.{sort_by, insert_by}
use chum.Text.{Text, text, cut, is_space}
use chum.Text.Trim.{trim_space}
use chum.Text.Dict.{Dict, insert}
use chum.Graph.Task.{
  is_closed_task, is_terminal_status, is_closed_task-eq-is_terminal_status, Task,
  is_dispatchable_task, is_container_task,
}
use chum.Graph.Db.{Db}
use chum.Graph.Dag.{list_tasks, load_task, is_listed_row, normalize_status_filters}
use chum.Graph.DepGraph.{build_dep_graph, depends_on_ids, blocks_ids, filter_unblocked_open}
use chum.Graph.DepGraph.Dual.{build_dep_graph-dual}
use chum.Graph.DepGraph.Order.{IsInOrder}
use chum.Graph.DepGraph.Dispatch.{IsUnblocked, filter_unblocked_open-decides}
use chum.Graph.Cross.Filter.{IsUnblockedAcross, filter_unblocked_cross_project-decides}
use chum.Graph.Cross.{
  CrossProjectGraph, index_tasks, build_cross_project_graph, build_from, parse_cross_dep,
  filter_unblocked_cross_project, filters_agree, IsLocal, known_deps,
}
use chum.Portfolio.{
  Project, Config, PortfolioBacklog, CrossProjectDependency, is_open, gather_project_backlog,
  extract_cross_project_dependencies, generate_portfolio_summary,
}
use chum.Portfolio.Gather.{gather_each, no_backlogs, enabled_names, gather_portfolio_backlogs}
use chum.Portfolio.Backlog.{IsGathered, IsSplit, ready_to_work-nil, gather_project_backlog-IsSplit}
use chum.Portfolio.Told.{IsDepOf}
use chum.Portfolio.Blockers.{extract_cross_project_dependencies-In}
use chum.Portfolio.Totals.{IsConsistent, gather-IsConsistent}
use chum.Tests.Samples.{task, first, second, third, db_chain}

-- A task with the given id, status and dependencies.
abbrev linked : Text → Text → List Text → Task
linked id status deps = record (task status) { id = id; depends_on = deps }

abbrev ready_third : Task
ready_third = linked third (text "ready") (first ∷ [])

abbrev two_tasks : List Task
two_tasks = linked first (text "closed") [] ∷ ready_third ∷ []

build_dep_graph-dual_example :
    Memᴰ first (depends_on_ids (some (build_dep_graph two_tasks)) third)
    ↔ Memᴰ third (blocks_ids (some (build_dep_graph two_tasks)) first)
build_dep_graph-dual_example = build_dep_graph-dual two_tasks third first

filter_unblocked_open-decides_example :
    ((t : Task)
      → Memᴰ t (filter_unblocked_open two_tasks (some (build_dep_graph two_tasks))) ↔ (
          Memᴰ t two_tasks
          × (is_dispatchable_task t ≡ true)
          × (is_container_task t ≡ false)
          × IsUnblocked (some (build_dep_graph two_tasks)) t))
    × IsInOrder (filter_unblocked_open two_tasks (some (build_dep_graph two_tasks)))
filter_unblocked_open-decides_example =
    filter_unblocked_open-decides two_tasks (some (build_dep_graph two_tasks))

abbrev foreign : Task
foreign = linked second (text "open") (text "q:x" ∷ first ∷ [])

abbrev two_projects : CrossProjectGraph
two_projects =
    (text "p", (second, foreign) ∷ [])
    ∷ (text "q", (text "x", linked (text "x") (text "done") []) ∷ [])
    ∷ []

filter_unblocked_cross_project-decides_example :
    ((t : Task)
      → Memᴰ t (filter_unblocked_cross_project (foreign ∷ two_tasks) none (some two_projects)) ↔ (
          Memᴰ t (foreign ∷ two_tasks)
          × (is_dispatchable_task t ≡ true)
          × (is_container_task t ≡ false)
          × IsUnblockedAcross none (some two_projects) t))
    × IsInOrder (filter_unblocked_cross_project (foreign ∷ two_tasks) none (some two_projects))
filter_unblocked_cross_project-decides_example =
    filter_unblocked_cross_project-decides (foreign ∷ two_tasks) none (some two_projects)

third-IsLocal : (t : Task) → Memᴰ t (ready_third ∷ []) → IsLocal (known_deps none t)
unfolding parse_cross_dep cut
third-IsLocal t m = elim (Memᴰ.cases_cons m) [
  | inl q ↦ subst (λ u. IsLocal (known_deps none u)) (sym q) (refl, tt)
  | inr r ↦ absurd (Memᴰ.not-nil r)
]

filters_agree_example :
    filter_unblocked_cross_project (ready_third ∷ []) none (some two_projects)
    ≡ filter_unblocked_open (ready_third ∷ []) none
filters_agree_example = filters_agree (ready_third ∷ []) none (some two_projects) third-IsLocal

abbrev same_path : Text → Text
same_path path = path

abbrev one_project : Project
one_project = record { enabled = true; workspace = text "/w"; priority = pos 1 }

ready_to_work-nil_example :
    IsGathered
      (λ b. b.ready_to_work ≡ [])
      (text "p")
      (gather_project_backlog same_path (text "p") one_project db_chain two_projects)
ready_to_work-nil_example = ready_to_work-nil same_path (text "p") one_project db_chain two_projects

gather_project_backlog-IsSplit_example :
    IsGathered IsSplit
      (text "p")
      (gather_project_backlog same_path (text "p") one_project db_chain two_projects)
gather_project_backlog-IsSplit_example =
    gather_project_backlog-IsSplit same_path (text "p") one_project db_chain two_projects

abbrev foreign_dep : CrossProjectDependency
foreign_dep = record {
  source_project = text "p";
  source_morsel_id = second;
  target_project = text "q";
  target_morsel_id = text "x";
  morsel_title = text "t";
  is_resolved = true;
}

extract_cross_project_dependencies-In_example :
    Memᴰ foreign_dep (extract_cross_project_dependencies two_projects) ↔ (
      (source : Text) × (tasks : Dict Task) × Memᴰ (source, tasks) two_projects
      × ((k : Text) × (t : Task) × Memᴰ (k, t) tasks
          × (is_open t ≡ true)
          × IsDepOf two_projects source t foreign_dep))
extract_cross_project_dependencies-In_example =
    extract_cross_project_dependencies-In two_projects foreign_dep

abbrev one_config : Config
one_config = record { projects = (text "p", one_project) ∷ []; budget = [] }

abbrev the_cross : Db → CrossProjectGraph
the_cross db =
    (
      text "p",
      index_tasks
          (map (load_task db)
            (select (is_listed_row (text "p") (normalize_status_filters [])) db.tasks))
          [],
    )
    ∷ []

abbrev sample : PortfolioBacklog
sample =
    let each =
      gather_each same_path one_config db_chain (the_cross db_chain) (text "p" ∷ [])
        (no_backlogs one_config) in
    let p = record each {
      cross_project_deps = extract_cross_project_dependencies (the_cross db_chain);
    } in
    record { gathered = p; summary = generate_portfolio_summary p }

sample_gathered : gather_portfolio_backlogs same_path one_config db_chain ≡ ok sample
unfolding gather_portfolio_backlogs enabled_names build_cross_project_graph build_from list_tasks
    sort_by insert_by trim_space is_space insert
sample_gathered = refl

gather-IsConsistent_example : IsConsistent sample
gather-IsConsistent_example =
    gather-IsConsistent same_path one_config db_chain sample (λ m. elim m [ ], tt) sample_gathered

is_closed_task-eq-is_terminal_status_example :
    is_closed_task (text " Done") ≡ is_terminal_status (text " Done")
is_closed_task-eq-is_terminal_status_example = is_closed_task-eq-is_terminal_status (text " Done")

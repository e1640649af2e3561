-- ===== src/Portfolio.antt =====
-- internal/portfolio/portfolio.go: the backlogs of all enabled projects, and their summary. A map is met in
-- the order of its entries, tasks that do not differ for sort.Slice stay in their order, and nothing is logged.
pub mod Gather
pub mod Backlog
pub mod Totals
pub mod Told
pub mod Blockers
use chum.Base.{
  ℕ, ◌+◌, ◌-◌, ◌%◌, Bool, true, false, not, ◌&&◌, ◌||◌, List, [], ◌∷◌, ◌++◌, map, Option, none,
  some, if◌then◌else◌, ltb, length, select,
}
use chum.Base.Int.{ℤ, pos, negsuc, ltb_ℤ, pos_part, neg_part, ◌+ℤ◌}
use chum.Base.Sort.{sort_by}
use chum.Base.Result.{Result, ok, err, ◌>>=◌}
use chum.Text.{Text, text, text_eq, text_lt, is_empty}
use chum.Text.Dict.{Dict, lookup, insert}
use chum.Graph.Task.{Task, status_open}
use chum.Graph.Value.{Error}
use chum.Graph.Db.{Db, eq_ℤ}
use chum.Graph.Dag.{list_tasks}
use chum.Graph.DepGraph.{build_dep_graph}
use chum.Graph.Cross.{
  CrossProjectGraph, parse_cross_dep, build_cross_project_graph, is_cross_dep_resolved,
  filter_unblocked_cross_project,
}

-- The fields of config.Project that the package reads.
pub record Project : Type 0 where
  pub enabled : Bool
  pub workspace : Text
  pub priority : ℤ

pub record Config : Type 0 where
  pub projects : Dict Project
  pub budget : Dict ℤ

pub record ProjectBacklog : Type 0 where
  pub project_name : Text
  pub workspace : Text
  pub priority : ℤ
  pub unrefined_morsels : List Task
  pub refined_morsels : List Task
  pub all_morsels : List Task
  pub ready_to_work : List Task
  pub total_estimate : ℤ
  pub capacity_percent : ℤ

pub record CrossProjectDependency : Type 0 where
  pub source_project : Text
  pub source_morsel_id : Text
  pub target_project : Text
  pub target_morsel_id : Text
  pub morsel_title : Text
  pub is_resolved : Bool

pub record PortfolioSummary : Type 0 where
  pub active_projects : ℕ
  pub total_open_morsels : ℕ
  pub total_refined_morsels : ℕ
  pub total_unrefined_morsels : ℕ
  pub total_ready_to_work : ℕ
  pub cross_project_blockers : ℕ
  pub projects_by_priority : List Text

-- A portfolio before its summary.
pub record Gathered : Type 0 where
  pub project_backlogs : Dict ProjectBacklog
  pub cross_project_deps : List CrossProjectDependency
  pub total_morsel_count : ℕ
  pub total_estimate_minutes : ℤ
  pub capacity_budgets : Dict ℤ

pub record PortfolioBacklog : Type 0 where
  pub gathered : Gathered
  pub summary : PortfolioSummary

-- The 64-bit integer that `a` wraps around to.
abbrev pub wrap_int : ℤ → ℤ
wrap_int a =
    let u =
      (pos_part a + (18446744073709551616 - neg_part a % 18446744073709551616))
      % 18446744073709551616 in
    if ltb u 9223372036854775808 then pos u else negsuc (18446744073709551615 - u)

unfoldable pub is_open : Task → Bool
is_open t = text_eq t.status status_open

unfoldable pub is_refined : Task → Bool
is_refined t =
    not (is_empty t.acceptance) || not (is_empty t.design) || ltb_ℤ (pos 0) t.estimate_minutes

unfoldable pub is_unrefined : Task → Bool
is_unrefined t = is_empty t.acceptance && is_empty t.design && eq_ℤ t.estimate_minutes (pos 0)

unfoldable pub filter_open_tasks : List Task → List Task
filter_open_tasks tasks = select is_open tasks

unfoldable pub filter_refined_tasks : List Task → List Task
filter_refined_tasks tasks = select is_refined tasks

unfoldable pub filter_unrefined_tasks : List Task → List Task
filter_unrefined_tasks tasks = select is_unrefined tasks

unfoldable pub sum_estimates : List Task → ℤ → ℤ
sum_estimates [] total = total
sum_estimates (t ∷ ts) total = sum_estimates ts (wrap_int (total +ℤ t.estimate_minutes))

-- `config.ExpandHome`: `home` is what os.UserHomeDir returns, `join` is filepath.Join.
unfoldable pub expand_home : Option Text → (Text → Text → Text) → Text → Text
expand_home home join [] = []
expand_home home join (c ∷ rest) =
    if text_eq (c ∷ []) (text "~")
    then elim home [ none ↦ c ∷ rest | some h ↦ join h rest ]
    else c ∷ rest

-- `gatherProjectBacklog`, with `expand` for the expansion of the workspace.
unfoldable pub backlog_of :
    (Text → Text) → Text → Project → CrossProjectGraph → List Task → ProjectBacklog
backlog_of expand name project cross all_tasks =
    let open_tasks = filter_open_tasks all_tasks in
    record {
      project_name = name;
      workspace = expand project.workspace;
      priority = project.priority;
      unrefined_morsels = filter_unrefined_tasks open_tasks;
      refined_morsels = filter_refined_tasks open_tasks;
      all_morsels = open_tasks;
      ready_to_work =
          filter_unblocked_cross_project open_tasks (some (build_dep_graph all_tasks)) (some cross);
      total_estimate = sum_estimates open_tasks (pos 0);
      capacity_percent = pos 0;
    }

unfoldable pub gather_project_backlog :
    (Text → Text) → Text → Project → Db → CrossProjectGraph → Result Error ProjectBacklog
gather_project_backlog expand name project db cross =
    list_tasks db name [] >>= λ all_tasks. ok (backlog_of expand name project cross all_tasks)

-- The dependencies of one task of `extractCrossProjectDependencies`.
unfoldable pub morsel_title : CrossProjectGraph → Text → Text → Text
morsel_title cross project id = elim (lookup project cross) [
  | none ↦ []
  | some tasks ↦ elim (lookup id tasks) [ none ↦ [] | some t ↦ t.title ]
]

unfoldable pub cross_dep : CrossProjectGraph → Text → Text → (Text × Text) → CrossProjectDependency
cross_dep cross source id (target, dep_id) = record {
  source_project = source;
  source_morsel_id = id;
  target_project = target;
  target_morsel_id = dep_id;
  morsel_title = morsel_title cross target dep_id;
  is_resolved = is_cross_dep_resolved (some cross) target dep_id;
}

unfoldable pub deps_of : CrossProjectGraph → Text → Text → List Text → List CrossProjectDependency
deps_of cross source id [] = []
deps_of cross source id (d ∷ ds) = elim (parse_cross_dep d) [
  | none ↦ deps_of cross source id ds
  | some target ↦ cross_dep cross source id target ∷ deps_of cross source id ds
]

unfoldable pub deps_of_tasks : CrossProjectGraph → Text → Dict Task → List CrossProjectDependency
deps_of_tasks cross source [] = []
deps_of_tasks cross source ((k, t) ∷ ts) =
    (if is_open t then deps_of cross source t.id t.depends_on else [])
    ++ deps_of_tasks cross source ts

unfoldable pub deps_of_projects : CrossProjectGraph → Dict (Dict Task) → List CrossProjectDependency
deps_of_projects cross [] = []
deps_of_projects cross ((source, tasks) ∷ rest) =
    deps_of_tasks cross source tasks ++ deps_of_projects cross rest

unfoldable pub dep_less : CrossProjectDependency → CrossProjectDependency → Bool
dep_less a b =
    if not (text_eq a.source_project b.source_project)
    then text_lt a.source_project b.source_project
    else if not (text_eq a.target_project b.target_project)
    then text_lt a.target_project b.target_project
    else text_lt a.source_morsel_id b.source_morsel_id

unfoldable pub extract_cross_project_dependencies : CrossProjectGraph → List CrossProjectDependency
extract_cross_project_dependencies cross = sort_by dep_less (deps_of_projects cross cross)

unfoldable pub sum_backlogs : (ProjectBacklog → ℕ) → Dict ProjectBacklog → ℕ
sum_backlogs f [] = 0
sum_backlogs f ((k, b) ∷ m) = f b + sum_backlogs f m

abbrev pub entry_less : (Text × ℤ) → (Text × ℤ) → Bool
entry_less (a, p) (b, q) = ltb_ℤ p q

unfoldable pub is_unresolved_dep : CrossProjectDependency → Bool
is_unresolved_dep d = not d.is_resolved

unfoldable pub generate_portfolio_summary : Gathered → PortfolioSummary
generate_portfolio_summary p = record {
  active_projects = length p.project_backlogs;
  total_open_morsels = sum_backlogs (λ b. length b.all_morsels) p.project_backlogs;
  total_refined_morsels = sum_backlogs (λ b. length b.refined_morsels) p.project_backlogs;
  total_unrefined_morsels = sum_backlogs (λ b. length b.unrefined_morsels) p.project_backlogs;
  total_ready_to_work = sum_backlogs (λ b. length b.ready_to_work) p.project_backlogs;
  cross_project_blockers = length (select is_unresolved_dep p.cross_project_deps);
  projects_by_priority =
      map (λ (n, q). n) (sort_by entry_less (map (λ (n, b). (n, b.priority)) p.project_backlogs));
}

-- ===== src/Portfolio/Gather.antt =====
-- internal/portfolio/portfolio.go: `GatherPortfolioBacklogs` and the three getters.
use chum.Base.{
  ◌+◌, Bool, false, not, ◌&&◌, List, [], ◌∷◌, none, some, if◌then◌else◌, length, select,
}
use chum.Base.Int.{ℤ, pos, ltb_ℤ, ◌+ℤ◌}
use chum.Base.Sort.{sort_by}
use chum.Base.Result.{Result, ok, err, ◌>>=◌}
use chum.Text.{Text, text_eq}
use chum.Text.Dict.{Dict, lookup, insert}
use chum.Graph.Value.{Error}
use chum.Graph.Db.{Db}
use chum.Graph.Cross.{CrossProjectGraph, build_cross_project_graph}
use chum.Portfolio.{
  Project, Config, ProjectBacklog, CrossProjectDependency, Gathered, PortfolioBacklog, wrap_int,
  gather_project_backlog, extract_cross_project_dependencies, generate_portfolio_summary,
}

-- The names of the enabled projects.
unfoldable pub enabled_names : Dict Project → List Text
enabled_names [] = []
enabled_names ((name, p) ∷ rest) =
    let names = enabled_names rest in if p.enabled then name ∷ names else names

-- A missing project would read as the zero value.
abbrev pub project_of : Dict Project → Text → Project
project_of projects name = elim (lookup name projects) [
  | none ↦ record { enabled = false; workspace = []; priority = pos 0 }
  | some p ↦ p
]

abbrev pub name_less : Dict Project → Text → Text → Bool
name_less projects a b = ltb_ℤ (project_of projects a).priority (project_of projects b).priority

-- The end of a round of the loop: a backlog that failed is skipped.
unfoldable pub add_backlog : Text → Result Error ProjectBacklog → Gathered → Gathered
add_backlog name (err e) p = p
add_backlog name (ok b) p = record p {
  project_backlogs = insert name b p.project_backlogs;
  total_morsel_count = p.total_morsel_count + length b.all_morsels;
  total_estimate_minutes = wrap_int (p.total_estimate_minutes +ℤ b.total_estimate);
}

module _ (expand : Text → Text) (cfg : Config) (db : Db) (cross : CrossProjectGraph) where
  unfoldable pub gather_one : Text → Gathered → Gathered
  gather_one name p =
      add_backlog name (gather_project_backlog expand name (project_of cfg.projects name) db cross)
        p

  unfoldable pub gather_each : List Text → Gathered → Gathered
  gather_each [] p = p
  gather_each (name ∷ names) p = gather_each names (gather_one name p)

-- The capacity budgets are copied key by key.
unfoldable pub copy_budget : Dict ℤ → Dict ℤ → Dict ℤ
copy_budget [] m = m
copy_budget ((k, v) ∷ rest) m = copy_budget rest (insert k v m)

abbrev pub no_backlogs : Config → Gathered
no_backlogs cfg = record {
  project_backlogs = [];
  cross_project_deps = [];
  total_morsel_count = 0;
  total_estimate_minutes = pos 0;
  capacity_budgets = copy_budget cfg.budget [];
}

unfoldable pub gather_portfolio_backlogs :
    (Text → Text) → Config → Db → Result Error PortfolioBacklog
gather_portfolio_backlogs expand cfg db = do
  let enabled = enabled_names cfg.projects
  cross ← build_cross_project_graph db enabled
  let each =
      gather_each expand cfg db cross (sort_by (name_less cfg.projects) enabled) (no_backlogs cfg)
  let p = record each { cross_project_deps = extract_cross_project_dependencies cross }
  ok (record { gathered = p; summary = generate_portfolio_summary p })

unfoldable pub get_project_capacity_budget : PortfolioBacklog → Text → ℤ
get_project_capacity_budget p name = elim (lookup name p.gathered.capacity_budgets) [
  | none ↦ pos 0
  | some b ↦ b
]

unfoldable pub get_cross_project_blockers_for_project :
    PortfolioBacklog → Text → List CrossProjectDependency
get_cross_project_blockers_for_project p name =
    select (λ d. text_eq d.source_project name && not d.is_resolved) p.gathered.cross_project_deps

unfoldable pub get_high_priority_projects : PortfolioBacklog → List Text
get_high_priority_projects p = p.summary.projects_by_priority

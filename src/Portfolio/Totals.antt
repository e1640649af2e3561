-- ===== src/Portfolio/Totals.antt =====
-- The totals that the loop over the projects keeps, and those that the summary computes again.
use mathlib.Core.List.Memᴰ
use chum.Base.{
  ℕ, ◌+◌, ◌≡◌, refl, sym, ap, inl, inr, List, [], ◌∷◌, map, Memᴰ, none, arith, ◌∙◌, Bool-cases,
  length, subst,
}
use chum.Base.Sort.{sort_by, IsDistinct, sort_by-IsDistinct}
use chum.Base.Result.{Result, ok, err, OnOk, Result-cases}
use chum.Text.{Text, text_eq, text_eq_iff}
use chum.Text.Dict.{Dict, lookup, insert, lookup-insert}
use chum.Graph.Value.{Error}
use chum.Graph.Db.{Db}
use chum.Graph.Cross.{CrossProjectGraph, build_cross_project_graph}
use chum.Portfolio.{
  gather_project_backlog, Project, Config, ProjectBacklog, Gathered, PortfolioBacklog, sum_backlogs,
  generate_portfolio_summary,
}
use chum.Portfolio.Gather.{
  enabled_names, project_of, name_less, add_backlog, gather_one, gather_each, no_backlogs,
  gather_portfolio_backlogs,
}
use chum.Portfolio.Backlog.{ready_to_work-nil}

-- A new entry adds its share to a sum over the entries.
sum_backlogs-insert :
    (f : ProjectBacklog → ℕ) (k : Text) (b : ProjectBacklog) (m : Dict ProjectBacklog)
    → lookup k m ≡ none
    → sum_backlogs f (insert k b m) ≡ sum_backlogs f m + f b
unfolding sum_backlogs insert lookup
sum_backlogs-insert f k b [] h = omega arith
sum_backlogs-insert f k b ((j, c) ∷ m) h = elim (Bool-cases (text_eq j k)) [
  | inl e ↦ cc (rw e at h)
  | inr e ↦ rw e (omega (arith, sum_backlogs-insert f k b m (rw e at h)))
]

abbrev count_open : ProjectBacklog → ℕ
count_open b = length b.all_morsels

abbrev count_ready : ProjectBacklog → ℕ
count_ready b = length b.ready_to_work

-- The names to come are new, and the count is right so far.
record IsCounted (names : List Text) (p : Gathered) : Type 0 where
  fresh : (n : Text) → Memᴰ n names → lookup n p.project_backlogs ≡ none
  counted : p.total_morsel_count ≡ sum_backlogs count_open p.project_backlogs
  never_ready : sum_backlogs count_ready p.project_backlogs ≡ 0

add_backlog-IsCounted :
    (name : Text) (names : List Text) (r : Result Error ProjectBacklog) (p : Gathered)
    → ((b : ProjectBacklog) → r ≡ ok b → b.ready_to_work ≡ [])
    → ¬ Memᴰ name names
    → IsCounted (name ∷ names) p
    → IsCounted names (add_backlog name r p)
unfolding add_backlog
add_backlog-IsCounted name names (err e) p idle n c = record {
  fresh = λ x m. c.fresh x (Memᴰ.tail m);
  counted = c.counted;
  never_ready = c.never_ready;
}
add_backlog-IsCounted name names (ok b) p idle n c =
    let new = c.fresh name (Memᴰ.head refl) in
    let add = λ (f : ProjectBacklog → ℕ). sum_backlogs-insert f name b p.project_backlogs new in
    record {
      fresh = λ x m.
          rw (lookup-insert name x b p.project_backlogs) (elim (Bool-cases (text_eq name x)) [
            | inl e ↦ absurd (n (subst (λ y. Memᴰ y names) (sym ((text_eq_iff name x).0 e)) m))
            | inr e ↦ rw e (c.fresh x (Memᴰ.tail m))
          ]);
      counted = omega (arith, c.counted, add count_open);
      never_ready = omega (arith, c.never_ready, add count_ready, ap length (idle b refl));
    }

gathered_idle :
    (expand : Text → Text) (name : Text) (project : Project) (db : Db) (cross : CrossProjectGraph)
    → (b : ProjectBacklog) → gather_project_backlog expand name project db cross ≡ ok b
    → b.ready_to_work ≡ []
gathered_idle expand name project db cross b h =
    elim (ready_to_work-nil expand name project db cross) [
      | inr (e, blank) ↦ cc (h, e)
      | inl (c, e, idle) ↦ subst (λ r. OnOk (λ x. x.ready_to_work ≡ []) r) (sym e ∙ h) idle
    ]

module _ (expand : Text → Text) (cfg : Config) (db : Db) (cross : CrossProjectGraph) where
  gather_each-IsCounted :
      (names : List Text) (p : Gathered)
      → IsDistinct names
      → IsCounted names p
      → IsCounted [] (gather_each expand cfg db cross names p)
  unfolding gather_each gather_one
  gather_each-IsCounted [] p d c = c
  gather_each-IsCounted (name ∷ names) p d c =
      gather_each-IsCounted names (gather_one expand cfg db cross name p) d.1 (
        add_backlog-IsCounted name names _ p
          (gathered_idle expand name (project_of cfg.projects name) db cross) d.0 c)

abbrev pub keys : Dict Project → List Text
keys projects = map (λ (k, p). k) projects

enabled-In :
    (projects : Dict Project) (n : Text) → Memᴰ n (enabled_names projects) → Memᴰ n (keys projects)
unfolding enabled_names
enabled-In [] n m = m
enabled-In ((k, p) ∷ rest) n m = elim (Bool-cases p.enabled) [
  | inr e ↦ Memᴰ.tail (enabled-In rest n (rw e at m))
  | inl e ↦ elim (Memᴰ.cases_cons (rw e at m)) [
    | inl q ↦ Memᴰ.head q
    | inr r ↦ Memᴰ.tail (enabled-In rest n r)
  ]
]

enabled-IsDistinct :
    (projects : Dict Project) → IsDistinct (keys projects) → IsDistinct (enabled_names projects)
unfolding enabled_names
enabled-IsDistinct [] d = tt
enabled-IsDistinct ((k, p) ∷ rest) d = elim (Bool-cases p.enabled) [
  | inl e ↦ rw e (λ m. d.0 (enabled-In rest k m), enabled-IsDistinct rest d.1)
  | inr e ↦ rw e (enabled-IsDistinct rest d.1)
]

-- The two totals of a portfolio that are computed twice, and the one that is always the same.
abbrev pub IsConsistent : PortfolioBacklog → Type 0
IsConsistent p =
    (p.gathered.total_morsel_count ≡ p.summary.total_open_morsels)
    × (p.summary.active_projects ≡ length p.gathered.project_backlogs)
    × (p.summary.total_ready_to_work ≡ 0)

gathered-IsConsistent :
    (expand : Text → Text) (cfg : Config) (db : Db)
    → IsDistinct (keys cfg.projects)
    → OnOk IsConsistent (gather_portfolio_backlogs expand cfg db)
unfolding gather_portfolio_backlogs generate_portfolio_summary sum_backlogs lookup
gathered-IsConsistent expand cfg db d =
    let names = enabled_names cfg.projects in
    let less = name_less cfg.projects in
    elim (Result-cases (build_cross_project_graph db names)) [
      | inr (e, q) ↦ rw q tt
      | inl (cross, q) ↦
          let c =
            gather_each-IsCounted expand cfg db cross (sort_by less names) (no_backlogs cfg)
              (sort_by-IsDistinct less names (enabled-IsDistinct cfg.projects d))
              (record { fresh = λ n m. refl; counted = refl; never_ready = refl }) in
          rw q (c.counted, refl, c.never_ready)
    ]

-- If the configuration has no project twice and the portfolio is gathered, the morsels that the loop over the
-- projects counts are those that the summary counts over the gathered backlogs, the active projects are the
-- gathered ones, and the summary reports no task that is ready to work.
pub gather-IsConsistent :
    (expand : Text → Text) (cfg : Config) (db : Db) (p : PortfolioBacklog)
    → IsDistinct (keys cfg.projects)
    → gather_portfolio_backlogs expand cfg db ≡ ok p
    → IsConsistent p
gather-IsConsistent expand cfg db p d h =
    subst (OnOk IsConsistent) h (gathered-IsConsistent expand cfg db d)

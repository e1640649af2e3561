-- ===== src/Portfolio/Blockers.antt =====
-- The dependencies between projects, and the open ones of a single project.
use mathlib.Core.List.Memᴰ
use chum.Base.{
  ◌≡◌, ◌↔◌, refl, sym, inl, inr, true, List, [], ◌∷◌, Memᴰ, some, if◌then◌else◌, Bool-cases,
  Option-cases, ap, subst,
}
use chum.Base.Sort.{In-sort_by, sort_by-In}
use chum.Text.{Text}
use chum.Text.Dict.{Dict}
use chum.Graph.Task.{Task}
use chum.Graph.Cross.{CrossProjectGraph, parse_cross_dep}
use chum.Portfolio.{
  CrossProjectDependency, is_open, cross_dep, deps_of, deps_of_tasks, deps_of_projects, dep_less,
  extract_cross_project_dependencies,
}
use chum.Portfolio.Told.{IsDepOf, cross_dep-IsTold, told_unique, same_entry}

module _ (cross : CrossProjectGraph) (source : Text) where
  deps_of_sound :
      (id : Text) (ds : List Text) (c : CrossProjectDependency)
      → Memᴰ c (deps_of cross source id ds)
      → (d : Text) × (target : Text × Text) × Memᴰ d ds
        × (parse_cross_dep d ≡ some target)
        × (c ≡ cross_dep cross source id target)
  unfolding deps_of
  deps_of_sound id [] c m = absurd (Memᴰ.not-nil m)
  deps_of_sound id (d ∷ ds) c m = elim (Option-cases (parse_cross_dep d)) [
    | inl e ↦
        let (x, t, l, p, q) = deps_of_sound id ds c (rw (e, deps_of) at m) in
        (x, t, Memᴰ.tail l, p, q)
    | inr (target, e) ↦ elim (Memᴰ.cases_cons (rw (e, deps_of) at m)) [
      | inl q ↦ (d, target, Memᴰ.head refl, e, q)
      | inr r ↦ let (x, t, l, p, q) = deps_of_sound id ds c r in (x, t, Memᴰ.tail l, p, q)
    ]
  ]

  deps_of_complete :
      (id : Text) (ds : List Text) (d : Text) (target : Text × Text)
      → Memᴰ d ds
      → parse_cross_dep d ≡ some target
      → Memᴰ (cross_dep cross source id target) (deps_of cross source id ds)
  unfolding deps_of
  deps_of_complete id [] d target l p = elim l [ ]
  deps_of_complete id (x ∷ ds) d target (Memᴰ.head q) p =
      rw (sym q) (rw (p, deps_of) (Memᴰ.head refl))
  deps_of_complete id (x ∷ ds) d target (Memᴰ.tail l) p =
      let rest = deps_of_complete id ds d target l p in
      elim (Option-cases (parse_cross_dep x)) [
        | inl e ↦ rw (e, deps_of) rest
        | inr (t, e) ↦ rw (e, deps_of) (Memᴰ.tail rest)
      ]

  deps_of-In :
      (t : Task) (c : CrossProjectDependency)
      → IsDepOf cross source t c
      → Memᴰ c (deps_of cross source t.id t.depends_on)
  unfolding cross_dep
  deps_of-In t c (d, l, p, s, i, told) =
      let target : Text × Text = (c.target_project, c.target_morsel_id) in
      let made = cross_dep cross source t.id target in
      let (title, resolved) =
        told_unique cross c made refl refl told (cross_dep-IsTold cross source t.id target) in
      subst (λ x. Memᴰ x (deps_of cross source t.id t.depends_on))
        (sym (same_entry c made s i refl refl title resolved))
        (deps_of_complete t.id t.depends_on d target l p)

  entry-IsDepOf :
      (t : Task) (c : CrossProjectDependency)
      → Memᴰ c (deps_of cross source t.id t.depends_on)
      → IsDepOf cross source t c
  unfolding cross_dep
  entry-IsDepOf t c m =
      let (d, target, l, p, q) = deps_of_sound t.id t.depends_on c m in
      subst (λ x. IsDepOf cross source t x) (sym q)
        (d, l, p, refl, refl, cross_dep-IsTold cross source t.id target)

  deps_of_tasks-In :
      (ts : Dict Task) (c : CrossProjectDependency)
      → Memᴰ c (deps_of_tasks cross source ts)
        ↔ ((k : Text) × (t : Task) × Memᴰ (k, t) ts × (is_open t ≡ true) × IsDepOf cross source t c)
  unfolding deps_of_tasks
  deps_of_tasks-In [] c = (λ m. elim m [ ], λ (k, t, m, o, r). elim m [ ])
  deps_of_tasks-In ((k, t) ∷ ts) c =
      let rest = deps_of_tasks-In ts c in
      let own = if is_open t then deps_of cross source t.id t.depends_on else [] in
      let others = deps_of_tasks cross source ts in
      (
        λ m. elim (Memᴰ.append_cases own m) [
          | inr b ↦ let (j, s, l, o, r) = rest.0 b in (j, s, Memᴰ.tail l, o, r)
          | inl a ↦ elim (Bool-cases (is_open t)) [
            | inl o ↦ (k, t, Memᴰ.head refl, o, entry-IsDepOf t c (rw o at a))
            | inr o ↦ absurd (Memᴰ.not-nil (rw o at a))
          ]
        ],
        λ (j, s, l, o, r). elim (Memᴰ.cases_cons l) [
          | inr i ↦ Memᴰ.append_right own (rest.1 (j, s, i, o, r))
          | inl e ↦
              let same : s ≡ t = ap (λ (p : Text × Task). p.1) e in
              let open_t : is_open t ≡ true = subst (λ u. is_open u ≡ true) same o in
              Memᴰ.append_left others
                (rw open_t (deps_of-In t c (subst (λ u. IsDepOf cross source u c) same r)))
        ],
      )

-- The entries from the projects `projects` of the graph.
deps_of_projects-In :
    (cross : CrossProjectGraph) (projects : Dict (Dict Task)) (c : CrossProjectDependency)
    → Memᴰ c (deps_of_projects cross projects) ↔ (
        (source : Text) × (tasks : Dict Task) × Memᴰ (source, tasks) projects
        × Memᴰ c (deps_of_tasks cross source tasks))
unfolding deps_of_projects
deps_of_projects-In cross [] c = (λ m. elim m [ ], λ (k, t, m, r). elim m [ ])
deps_of_projects-In cross ((source, tasks) ∷ rest) c =
    let more = deps_of_projects-In cross rest c in
    (
      λ m. elim (Memᴰ.append_cases _ m) [
        | inl a ↦ (source, tasks, Memᴰ.head refl, a)
        | inr b ↦ let (s, ts, l, i) = more.0 b in (s, ts, Memᴰ.tail l, i)
      ],
      λ (s, ts, l, i). elim (Memᴰ.cases_cons l) [
        | inr r ↦ Memᴰ.append_right _ (more.1 (s, ts, r, i))
        | inl e ↦
            Memᴰ.append_left _
              (subst (λ (p : Text × Dict Task). Memᴰ c (deps_of_tasks cross p.0 p.1)) e i)
      ],
    )

-- The extracted cross-project dependencies are exactly those of the open tasks of the graph on a task of
-- another project, each with its source and target, the title of the target and whether its status is
-- closed, or no title and not resolved where the graph of the projects lacks the target.
pub extract_cross_project_dependencies-In :
    (cross : CrossProjectGraph) (c : CrossProjectDependency)
    → Memᴰ c (extract_cross_project_dependencies cross) ↔ (
        (source : Text) × (tasks : Dict Task) × Memᴰ (source, tasks) cross
        × ((k : Text) × (t : Task) × Memᴰ (k, t) tasks
            × (is_open t ≡ true)
            × IsDepOf cross source t c))
unfolding extract_cross_project_dependencies
extract_cross_project_dependencies-In cross c = (
  λ m.
      let (s, ts, l, i) = (deps_of_projects-In cross cross c).0 (In-sort_by dep_less _ c m) in
      (s, ts, l, (deps_of_tasks-In cross s ts c).0 i),
  λ (s, ts, l, r).
      sort_by-In dep_less _ c
        ((deps_of_projects-In cross cross c).1 (s, ts, l, (deps_of_tasks-In cross s ts c).1 r)),
)

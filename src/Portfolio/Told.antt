-- ===== src/Portfolio/Told.antt =====
-- What an entry of the cross-project dependencies tells of its target.
use chum.Base.{
  ◌≡◌, ◌⊎◌, ◌∙◌, refl, sym, inl, inr, false, [], Memᴰ, none, some, Option-cases, ap, subst,
}
use chum.Text.{Text}
use chum.Text.Dict.{Dict, lookup}
use chum.Graph.Task.{Task, is_closed_task}
use chum.Graph.Cross.{CrossProjectGraph, parse_cross_dep, is_cross_dep_resolved}
use chum.Portfolio.{CrossProjectDependency, morsel_title, cross_dep}

-- What the entry tells of its target: its title and whether it is closed, if the graph has the task.
abbrev pub IsTold : CrossProjectGraph → CrossProjectDependency → Type 0
IsTold cross c =
    ((tasks : Dict Task) × (n : Task) × (lookup c.target_project cross ≡ some tasks)
      × (lookup c.target_morsel_id tasks ≡ some n)
      × (c.morsel_title ≡ n.title)
      × (c.is_resolved ≡ is_closed_task n.status))
    ⊎ (((lookup c.target_project cross ≡ none)
          ⊎ ((tasks : Dict Task) × (lookup c.target_project cross ≡ some tasks)
              × (lookup c.target_morsel_id tasks ≡ none)))
        × (c.morsel_title ≡ [])
        × (c.is_resolved ≡ false))

-- What makes `c` an entry for a dependency of `t` on another project.
abbrev pub IsDepOf : CrossProjectGraph → Text → Task → CrossProjectDependency → Type 0
IsDepOf cross source t c =
    (d : Text) × Memᴰ d t.depends_on
    × (parse_cross_dep d ≡ some (c.target_project, c.target_morsel_id))
    × (c.source_project ≡ source)
    × (c.source_morsel_id ≡ t.id)
    × IsTold cross c

pub cross_dep-IsTold :
    (cross : CrossProjectGraph) (source id : Text) (target : Text × Text)
    → IsTold cross (cross_dep cross source id target)
unfolding cross_dep morsel_title is_cross_dep_resolved
cross_dep-IsTold cross source id (p, i) = elim (Option-cases (lookup p cross)) [
  | inl e ↦ inr (inl e, rw (e, morsel_title) refl, rw (e, is_cross_dep_resolved) refl)
  | inr (tasks, e) ↦ elim (Option-cases (lookup i tasks)) [
    | inl f ↦
        inr (inr (tasks, e, f), rw (e, morsel_title, f) refl, rw (e, is_cross_dep_resolved, f) refl)
    | inr (n, f) ↦
        inl (tasks, n, e, f, rw (e, morsel_title, f) refl, rw (e, is_cross_dep_resolved, f) refl)
  ]
]

-- An entry is told in one way only.
pub told_unique :
    (cross : CrossProjectGraph) (b c : CrossProjectDependency)
    → b.target_project ≡ c.target_project
    → b.target_morsel_id ≡ c.target_morsel_id
    → IsTold cross b
    → IsTold cross c
    → (b.morsel_title ≡ c.morsel_title) × (b.is_resolved ≡ c.is_resolved)
told_unique cross b c p q x y =
    let same_project : lookup b.target_project cross ≡ lookup c.target_project cross =
      ap (λ k. lookup k cross) p in
    elim x [
      | inl (ts, n, e, f, t, r) ↦ elim y [
        | inl (us, m, g, h, u, s) ↦
            let same : ts ≡ us = cc (e, g, same_project) in
            let found : lookup c.target_morsel_id us ≡ some n =
              subst (λ k. lookup k us ≡ some n) q
                (subst (λ l. lookup b.target_morsel_id l ≡ some n) same f) in
            let one : n ≡ m = cc (found, h) in
            (
              t ∙ (ap (λ (k : Task). k.title) one ∙ sym u),
              r ∙ (ap (λ (k : Task). is_closed_task k.status) one ∙ sym s),
            )
        | inr (inl g, u, s) ↦ absurd (cc (e, g, same_project))
        | inr (inr (us, g, h), u, s) ↦
            let same : ts ≡ us = cc (e, g, same_project) in
            let found : lookup c.target_morsel_id us ≡ some n =
              subst (λ k. lookup k us ≡ some n) q
                (subst (λ l. lookup b.target_morsel_id l ≡ some n) same f) in
            absurd (cc (found, h))
      ]
      | inr (missing, t, r) ↦ elim y [
        | inr (lost, u, s) ↦ (t ∙ sym u, r ∙ sym s)
        | inl (us, m, g, h, u, s) ↦ elim missing [
          | inl e ↦ absurd (cc (e, g, same_project))
          | inr (ts, e, f) ↦
              let same : ts ≡ us = cc (e, g, same_project) in
              let lost : lookup c.target_morsel_id us ≡ none =
                subst (λ k. lookup k us ≡ none) q
                  (subst (λ l. lookup b.target_morsel_id l ≡ none) same f) in
              absurd (cc (lost, h))
        ]
      ]
    ]

pub same_entry :
    (b c : CrossProjectDependency)
    → b.source_project ≡ c.source_project
    → b.source_morsel_id ≡ c.source_morsel_id
    → b.target_project ≡ c.target_project
    → b.target_morsel_id ≡ c.target_morsel_id
    → b.morsel_title ≡ c.morsel_title
    → b.is_resolved ≡ c.is_resolved
    → b ≡ c
same_entry b c e f g h i j = cc (e, f, g, h, i, j)

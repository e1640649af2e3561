-- ===== src/Graph/Ready/Promoted.antt =====
-- `AutoUnblockDependents` as a whole: which tasks its result names.
use mathlib.Core.List.Memᴰ
use chum.Base.{
  ℕ, ◌≡◌, ◌↔◌, refl, sym, ◌∙◌, inl, inr, Bool, true, List, [], ◌∷◌, Memᴰ, Option, select, select-In,
  In-select, arith, Bool-cases, map, subst,
}
use chum.Base.Sort.{sort_by-In, In-sort_by}
use chum.Base.Result.{ok}
use chum.Text.{Text, text_eq, text_eq_iff, text_lt}
use chum.Text.Trim.{trim_space}
use chum.Graph.Db.{Db, Edge, dependents}
use chum.Graph.Cycle.{HasEdge}
use chum.Graph.Dag.{has_task, get_dependents}
use chum.Graph.Update.{promote_all, auto_unblock_dependents}
use chum.Graph.Invariant.{IsValid}
use chum.Graph.Invariant.Updates.{with_rows, has_task-update_rows}
use chum.Graph.Ready.Guard.{ready_set}
use chum.Graph.Ready.Unblock.{CanPromote, promote-decides}
use chum.Graph.Invariant.Steps.{promote-IsValid}
use chum.Graph.Ready.Frame.{CanPromote-promoted}

has_task-promoted :
    (db : Db) (now : ℕ) (id x : Text) → has_task (with_rows db ready_set now id) x ≡ has_task db x
unfolding with_rows
has_task-promoted db now id x = has_task-update_rows ready_set now id x db.tasks

module _ (decode : Text → Option (List Text)) (now : ℕ) where
  abbrev names : Db → List Text → List Text
  names db ids = (promote_all decode db ids now).1

  -- The result names a task exactly if it is among the given ones and could be promoted at the start:
  -- the promotions do not get in each other's way.
  promote_all-decides :
      (ids : List Text) (db : Db)
      → IsValid db
      → ((x : Text) → Memᴰ x ids → has_task db x ≡ true)
      → (x : Text) → Memᴰ x (names db ids) ↔ (Memᴰ x ids × CanPromote db x)
  unfolding promote_all
  promote_all-decides [] db valid listed x = (λ m. elim m [ ], λ p. p.0)
  promote_all-decides (id ∷ ids) db valid listed x =
      elim (promote-decides db valid decode now id (listed id (Memᴰ.head refl))) [
        | inr (c, e) ↦
            let ih = promote_all-decides ids db valid (λ z m. listed z (Memᴰ.tail m)) x in
            rw e (
              λ m. let (k, d) = ih.0 m in (Memᴰ.tail k, d),
              λ (m, d). elim (Memᴰ.cases_cons m) [
                | inl q ↦ absurd (c (subst (CanPromote db) q d))
                | inr k ↦ ih.1 (k, d)
              ],
            )
        | inl (c, e) ↦
            let ((r, found, opened), u) = c in
            let valid' : IsValid (with_rows db ready_set now id) =
              subst (λ (p : Db × Bool). IsValid p.0) e (promote-IsValid decode db id now valid) in
            let ih =
              promote_all-decides ids (with_rows db ready_set now id) valid'
                (λ z m. has_task-promoted db now id z ∙ listed z (Memᴰ.tail m)) x in
            let again = CanPromote-promoted db now id r found opened x in
            rw e (
              λ m. elim (Memᴰ.cases_cons m) [
                | inl q ↦ (Memᴰ.head q, subst (CanPromote db) (sym q) c)
                | inr k ↦ let (l, d) = ih.0 k in (Memᴰ.tail l, (again.0 d).1)
              ],
              λ (m, d). elim (Bool-cases (text_eq x id)) [
                | inl same ↦ Memᴰ.head ((text_eq_iff x id).0 same)
                | inr other ↦ elim (Memᴰ.cases_cons m) [
                  | inl q ↦ Memᴰ.head q
                  | inr k ↦ Memᴰ.tail (ih.1 (k, again.1 (λ q. cc ((text_eq_iff x id).1 q), d)))
                ]
              ],
            )
      ]

-- The tasks with an edge to the given one.
dependents_iff : (es : List Edge) (y x : Text) → Memᴰ x (dependents es y) ↔ HasEdge es x y
unfolding dependents
dependents_iff es y x = (
  λ m.
      let (e, l, q) = Memᴰ.of_map (λ (e : Edge). e.from_task) _ (In-sort_by text_lt _ x m) in
      let (k, t) = In-select (λ (e : Edge). text_eq e.to_task y) es e l in
      (e, k, q, (text_eq_iff e.to_task y).0 t),
  λ (e, m, p, q). sort_by-In text_lt _ x (
      subst (λ v. Memᴰ v (map (λ (e : Edge). e.from_task) (select (λ e. text_eq e.to_task y) es))) p
        (Memᴰ.map (λ (e : Edge). e.from_task)
          (select-In (λ (e : Edge). text_eq e.to_task y) es e m ((text_eq_iff e.to_task y).1 q)))),
)

-- On valid tables the result of AutoUnblockDependents names exactly the tasks that depend directly on the
-- completed one, are open, and depend directly on nothing but listed tasks with a terminal status.
pub auto_unblock-decides :
    (decode : Text → Option (List Text)) (db db' : Db) (completed : Text) (now : ℕ)
    (promoted : List Text)
    → IsValid db
    → auto_unblock_dependents decode db completed now ≡ ok (db', promoted)
    → (x : Text) → Memᴰ x promoted ↔ (HasEdge db.edges x (trim_space completed) × CanPromote db x)
unfolding auto_unblock_dependents get_dependents
auto_unblock-decides decode db db' completed now promoted valid h x =
    let ids = dependents db.edges (trim_space completed) in
    let same : names decode now db ids ≡ promoted = ground arith in
    let listed = λ (z : Text) (m : Memᴰ z ids).
      let (e, k, p, q) = (dependents_iff db.edges (trim_space completed) z).0 m in
      subst (λ v. has_task db v ≡ true) p (valid.ends e k).0 in
    let (there, back) = promote_all-decides decode now ids db valid listed x in
    let edge = dependents_iff db.edges (trim_space completed) x in
    (
      λ m. let (l, c) = there (rw same m) in (edge.0 l, c),
      λ (g, c). rw (sym same) (back (edge.1 g, c)),
    )

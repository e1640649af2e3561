-- ===== src/Graph/Ready/Unblock.antt =====
-- `AutoUnblockDependents` promotes exactly the open dependents all of whose dependencies are settled.
use mathlib.Core.List.Memᴰ
use mathlib.Core.Option.{some-injective}
use chum.Base.{
  ℕ, ◌≡◌, ◌⊎◌, refl, sym, ◌∙◌, ap, inl, inr, Bool, true, false, List, [], ◌∷◌, Memᴰ, Option, some,
  arith, Bool-cases, subst,
}
use chum.Base.Result.{ok}
use chum.Text.{Text, is_empty, text_eq, lower_byte, is_space}
use chum.Text.Trim.{trim_space}
use chum.Graph.Task.{normalize_task_status, status_ready, status_open, is_terminal_status}
use chum.Graph.Value.{str, coerce_string}
use chum.Graph.Db.{TaskRow, Db, dependencies, task_row, scan_task}
use chum.Graph.Cycle.Query.{In-dependencies, dependencies-In}
use chum.Graph.Dag.{has_task, get_task, load_task}
use chum.Graph.Update.{all_done, promote}
use chum.Graph.Invariant.{IsValid}
use chum.Graph.Invariant.Updates.{with_rows}
use chum.Graph.Ready.{IsSettled, IsUnblocked, task_row_sound, task_row-listed}
use chum.Graph.Ready.Guard.{ready_set, update_to_ready-decides}

abbrev pub is_open_row : TaskRow → Bool
is_open_row r = text_eq (normalize_task_status r.status) status_open

-- The task is open, and nothing that it depends on directly is unsettled.
abbrev pub CanPromote : Db → Text → Type 0
CanPromote db id =
    ((r : TaskRow) × (task_row db id ≡ some r) × (is_open_row r ≡ true)) × IsUnblocked db id

ready_is_normal : normalize_task_status (coerce_string (str status_ready)) ≡ status_ready
unfolding normalize_task_status coerce_string trim_space lower_byte is_space
ready_is_normal = refl

row_unique :
    (db : Db) (x : Text) {r s : TaskRow} → task_row db x ≡ some r → task_row db x ≡ some s → r ≡ s
row_unique db x h k = some-injective _ _ (sym h ∙ k)

module _ (db : Db) (valid : IsValid db) where
  listed-solid :
      (x : Text) {r : TaskRow} → task_row db x ≡ some r → (trim_space x ≡ x) × (is_empty x ≡ false)
  listed-solid x {r} h =
      let (m, e) = task_row_sound db x h in
      let n = valid.normal_rows r m in
      (ap trim_space (sym e) ∙ n.normal_id ∙ e, ap is_empty (sym e) ∙ n.some_id)

  -- An id in the table is found by `GetTask` as it stands.
  get_task-listed :
      (x : Text) {r : TaskRow} → task_row db x ≡ some r → get_task db x ≡ ok (load_task db r)
  unfolding get_task
  get_task-listed x {r} h = let (solid, some_x) = listed-solid x h in rw solid (rw (some_x, h))

  all_done-elim :
      (xs : List Text)
      → ((x : Text) → Memᴰ x xs → has_task db x ≡ true)
      → all_done db xs ≡ true
      → (x : Text) → Memᴰ x xs
      → IsSettled db x
  unfolding all_done load_task scan_task
  all_done-elim [] l h x m = elim m [ ]
  all_done-elim (y ∷ xs) l h x m =
      let (r, e) = task_row-listed db y (l y (Memᴰ.head refl)) in
      let g = get_task-listed y e in
      elim (Bool-cases (is_terminal_status r.status)) [
        | inl t ↦ elim (Memᴰ.cases_cons m) [
          | inl q ↦ (r, rw q e, t)
          | inr k ↦ all_done-elim xs (λ z mz. l z (Memᴰ.tail mz)) (ground (arith, g)) x k
        ]
        | inr f ↦ ground (arith, g)
      ]

  all_done-intro :
      (xs : List Text) → ((x : Text) → Memᴰ x xs → IsSettled db x) → all_done db xs ≡ true
  unfolding all_done load_task scan_task
  all_done-intro [] h = refl
  all_done-intro (y ∷ xs) h =
      let (r, e, t) = h y (Memᴰ.head refl) in
      ground (arith, get_task-listed y e, all_done-intro xs (λ x m. h x (Memᴰ.tail m)))

  all_done-IsUnblocked :
      (x : Text) → all_done db (dependencies db.edges x) ≡ true → IsUnblocked db x
  all_done-IsUnblocked x h y g =
      all_done-elim (dependencies db.edges x)
        (λ z m.
          let (e, k, p, q) = In-dependencies db.edges x z m in
          subst (λ v. has_task db v ≡ true) q (valid.ends e k).1)
        h y (dependencies-In db.edges x y g)

  all_done-of_IsUnblocked :
      (x : Text) → IsUnblocked db x → all_done db (dependencies db.edges x) ≡ true
  all_done-of_IsUnblocked x u = all_done-intro _ (λ y m. u y (In-dependencies db.edges x y m))

  module _ (decode : Text → Option (List Text)) (now : ℕ) where
    abbrev promoted_db : Text → Db
    promoted_db id = with_rows db ready_set now id

    -- One round promotes the task exactly if it can be promoted, and otherwise changes nothing.
    pub promote-decides :
        (id : Text)
        → has_task db id ≡ true
        → (CanPromote db id × (promote decode db id now ≡ (with_rows db ready_set now id, true)))
          ⊎ ((¬ CanPromote db id) × (promote decode db id now ≡ (db, false)))
    unfolding promote load_task scan_task
    promote-decides id listed =
        let (r, e) = task_row-listed db id listed in
        let g = get_task-listed id e in
        let (m, q) = task_row_sound db id e in
        elim (Bool-cases (is_open_row r)) [
          | inr closed ↦ inr (
            λ ((s, p, o), u). let same = row_unique db id e p in cc (ap is_open_row same),
            ground (arith, g),
          )
          | inl opened ↦ elim (Bool-cases (all_done db (dependencies db.edges r.id))) [
            | inr waits ↦ inr (
              λ (o, u).
                  let d = all_done-of_IsUnblocked id u in
                  cc (ap (λ t. all_done db (dependencies db.edges t)) q),
              ground (arith, g),
            )
            | inl done ↦
                let (solid, some_id) = listed-solid id e in
                let unblocked : IsUnblocked db id =
                  all_done-IsUnblocked id
                    (ap (λ t. all_done db (dependencies db.edges t)) (sym q) ∙ done) in
                elim (update_to_ready-decides decode db id (str status_ready) now valid
                  (rw solid some_id) (rw solid listed) ready_is_normal) [
                    | inl (p, u) ↦ inl (((r, e, opened), unblocked), ground (arith, g, p, solid))
                    | inr (x, s, p, h, unsettled) ↦ absurd (unsettled (unblocked x (rw solid at h)))
                  ]
          ]
        ]

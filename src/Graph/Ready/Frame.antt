-- ===== src/Graph/Ready/Frame.antt =====
-- What a promotion leaves as it was: it settles and unsettles no task, and opens none.
use mathlib.Core.Option
use mathlib.Core.Option.{some-injective}
use chum.Base.{
  ℕ, ◌≡◌, ◌≢◌, ◌↔◌, refl, sym, ◌∙◌, ap, inl, inr, true, false, List, [], ◌∷◌, some, arith,
  Option-cases, Bool-cases, find,
}
use chum.Text.{Text, text_eq, text_eq_iff, lower_byte, is_space}
use chum.Text.Trim.{trim_space}
use chum.Graph.Task.{
  normalize_task_status, status_ready, status_open, is_terminal_status, terminal_statuses,
}
use chum.Graph.Db.{TaskRow, Db, task_row}
use chum.Graph.Update.Apply.{apply, apply_all, update_rows}
use chum.Graph.Invariant.Updates.{with_rows, updated_row, updated_row-id}
use chum.Graph.Ready.{IsSettled, IsUnblocked, task_row_sound}
use chum.Graph.Ready.Guard.{ready_set}
use chum.Graph.Ready.Unblock.{is_open_row, CanPromote}

-- The table after a promotion, seen through `task_row`.
find-update_rows :
    (now : ℕ) (id x : Text) (rs : List TaskRow)
    → find (λ r. text_eq r.id x) (update_rows ready_set now id rs)
      ≡ Option.map (updated_row ready_set now id) (find (λ r. text_eq r.id x) rs)
unfolding update_rows
find-update_rows now id x [] = refl
find-update_rows now id x (r ∷ rs) = elim (Bool-cases (text_eq r.id x)) [
  | inl e ↦ rw (updated_row-id ready_set now id r, e)
  | inr e ↦ rw (updated_row-id ready_set now id r, e) (find-update_rows now id x rs)
]

module _ (db : Db) (now : ℕ) (id : Text) where
  task_row-promoted_ne :
      (x : Text) → text_eq x id ≡ false → task_row (with_rows db ready_set now id) x ≡ task_row db x
  unfolding task_row with_rows
  task_row-promoted_ne x ne = elim (Option-cases (find (λ r. text_eq r.id x) db.tasks)) [
    | inl e ↦ find-update_rows now id x db.tasks ∙ rw e
    | inr (r, e) ↦
        let (m, q) = task_row_sound db x e in find-update_rows now id x db.tasks ∙ rw e (rw (q, ne))
  ]

  -- The promoted row is ready.
  task_row-promoted_self :
      {r : TaskRow} → task_row (with_rows db ready_set now id) id ≡ some r → r.status ≡ status_ready
  unfolding task_row with_rows apply_all apply
  task_row-promoted_self {r} h = elim (Option-cases (find (λ r. text_eq r.id id) db.tasks)) [
    | inl e ↦ ground (arith, find-update_rows now id id db.tasks)
    | inr (s, e) ↦
        let (m, q) = task_row_sound db id e in
        let hit : text_eq s.id id ≡ true = (text_eq_iff s.id id).1 q in
        ground (arith, find-update_rows now id id db.tasks)
  ]

  ready_unsettled : (r : TaskRow) → r.status ≡ status_ready → is_terminal_status r.status ≡ false
  unfolding is_terminal_status terminal_statuses normalize_task_status trim_space lower_byte
      is_space text_eq
  ready_unsettled r e = rw e

  ready_closed : (r : TaskRow) → r.status ≡ status_ready → is_open_row r ≡ false
  unfolding normalize_task_status trim_space lower_byte is_space text_eq
  ready_closed r e = rw e

  open_unsettled : (r : TaskRow) → is_open_row r ≡ true → is_terminal_status r.status ≡ false
  unfolding is_terminal_status terminal_statuses text_eq
  open_unsettled r o = rw ((text_eq_iff (normalize_task_status r.status) status_open).0 o)

  module _ (r : TaskRow) (found : task_row db id ≡ some r) (opened : is_open_row r ≡ true) where
    pub IsSettled-promoted :
        (y : Text) → IsSettled db y ↔ IsSettled (with_rows db ready_set now id) y
    IsSettled-promoted y = elim (Bool-cases (text_eq y id)) [
      | inr ne ↦
          let same = task_row-promoted_ne y ne in
          (λ (s, e, t). (s, same ∙ e, t), λ (s, e, t). (s, sym same ∙ e, t))
      | inl eq ↦
          let q : y ≡ id = (text_eq_iff y id).0 eq in
          (
            λ (s, e, t).
                let p : s ≡ r = some-injective _ _ (sym (rw q at e) ∙ found) in
                absurd (
                  cc
                    (open_unsettled r opened, ap (λ (v : TaskRow). is_terminal_status v.status) p)),
            λ (s, e, t). absurd (cc (ready_unsettled s (task_row-promoted_self (rw q at e)))),
          )
    ]

    pub IsUnblocked-promoted :
        (x : Text) → IsUnblocked db x ↔ IsUnblocked (with_rows db ready_set now id) x
    unfolding with_rows
    IsUnblocked-promoted x =
        (λ u y h. (IsSettled-promoted y).0 (u y h), λ u y h. (IsSettled-promoted y).1 (u y h))

    -- Another task can be promoted after it exactly if it could before; the task itself cannot again.
    pub CanPromote-promoted :
        (x : Text) → CanPromote (with_rows db ready_set now id) x ↔ ((x ≢ id) × CanPromote db x)
    CanPromote-promoted x = elim (Bool-cases (text_eq x id)) [
      | inr ne ↦
          let same = task_row-promoted_ne x ne in
          (
            λ ((s, e, o), u). (
              λ q. cc ((text_eq_iff x id).1 q),
              ((s, sym same ∙ e, o), (IsUnblocked-promoted x).1 u),
            ),
            λ (d, ((s, e, o), u)). ((s, same ∙ e, o), (IsUnblocked-promoted x).0 u),
          )
      | inl eq ↦
          let q : x ≡ id = (text_eq_iff x id).0 eq in
          (
            λ ((s, e, o), u). absurd (cc (ready_closed s (task_row-promoted_self (rw q at e)))),
            λ (d, c). absurd (d q),
          )
    ]

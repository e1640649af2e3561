-- ===== src/Graph/Ready/Guard.antt =====
-- `ensureReadyTransitionUnblocked`, and an update of the status to ready.
use chum.Base.{
  ℕ, ◌≡◌, ◌⊎◌, refl, ◌∙◌, inl, inr, true, false, List, [], ◌∷◌, Memᴰ, Option, none, some, select,
  select-In, In-select, if◌then◌else◌, Bool-cases,
}
use chum.Base.Sort.{sort_by, sort_by-In, In-sort_by}
use chum.Base.Result.{ok, err, ◌>>◌}
use chum.Text.{Text, text, is_empty, text_eq, text_lt, lower_byte, is_space}
use chum.Text.Trim.{trim_space}
use chum.Graph.Task.{normalize_task_status, status_ready}
use chum.Graph.Value.{AnyValue, unresolved_dependency, coerce_string}
use chum.Graph.Db.{Db, dependencies, is_unresolved, ready_transition_check, dependency_status}
use chum.Graph.Cycle.{HasEdge}
use chum.Graph.Cycle.Query.{In-dependencies, dependencies-In}
use chum.Graph.Dag.{has_task}
use chum.Graph.Update.{
  update_task, update_fields, update_columns, collect_fields, field_assignment,
  transitioning_to_ready, ensure_ready_transition_unblocked,
}
use chum.Graph.Update.Apply.{status, set_text, Assignment, column_of, lookup_key}
use chum.Graph.Invariant.{IsValid}
use chum.Graph.Invariant.Updates.{with_rows}
use chum.Graph.Ready.{IsSettled, IsUnblocked, unresolved_iff}

In-nil {ℓ} : {A : Type ℓ} (xs : List A) (a : A) → xs ≡ [] → ¬ Memᴰ a xs
In-nil xs a e m = elim (rw e at m) [ ]

-- The query finds nothing exactly if every dependency is resolved, and else an unresolved dependency.
ready_transition_check-cases :
    (db : Db) (id : Text)
    → ((ready_transition_check db id ≡ none)
        × ((y : Text) → HasEdge db.edges id y → is_unresolved db y ≡ false))
      ⊎ ((x : Text) × HasEdge db.edges id x
          × (is_unresolved db x ≡ true)
          × (ready_transition_check db id ≡ some (x, dependency_status db x)))
unfolding ready_transition_check
ready_transition_check-cases db id = go _ refl
  where
    blocking : List Text
    blocking = select (is_unresolved db) (dependencies db.edges id)

    go :
        (xs : List Text)
        → sort_by text_lt blocking ≡ xs
        → ((ready_transition_check db id ≡ none)
            × ((y : Text) → HasEdge db.edges id y → is_unresolved db y ≡ false))
          ⊎ ((x : Text) × HasEdge db.edges id x
              × (is_unresolved db x ≡ true)
              × (ready_transition_check db id ≡ some (x, dependency_status db x)))
    go [] e = inl (
      rw (e, ready_transition_check),
      λ y h. elim (Bool-cases (is_unresolved db y)) [
        | inl t ↦ absurd (
            In-nil _ y e (
              sort_by-In text_lt blocking y
                (select-In (is_unresolved db) _ y (dependencies-In db.edges id y h) t)))
        | inr f ↦ f
      ],
    )
    go (x ∷ xs) e =
        let m : Memᴰ x (sort_by text_lt blocking) = rw e (Memᴰ.head refl) in
        let (l, t) = In-select (is_unresolved db) _ x (In-sort_by text_lt blocking x m) in
        inr (x, In-dependencies db.edges id x l, t, rw (e, ready_transition_check))

-- A status field alone, collected.
collect_status :
    (decode : Text → Option (List Text)) (v : AnyValue)
    → collect_fields decode ((text "status", v) ∷ [])
      ≡ ok (set_text status (normalize_task_status (coerce_string v)) ∷ [], [])
unfolding collect_fields field_assignment column_of lookup_key text_eq trim_space lower_byte
    is_space
collect_status decode v = refl

abbrev pub ready_set : List Assignment
ready_set = set_text status status_ready ∷ []

-- Such an update is the guard, the test that the task is listed, and the UPDATE statement.
pub update_to_ready :
    (decode : Text → Option (List Text)) (db : Db) (raw_id : Text) (v : AnyValue) (now : ℕ)
    → let id = trim_space raw_id in
      is_empty id ≡ false
      → has_task db id ≡ true
      → normalize_task_status (coerce_string v) ≡ status_ready
      → update_task decode db raw_id ((text "status", v) ∷ []) now
        ≡ (ensure_ready_transition_unblocked db id >> ok (with_rows db ready_set now id))
unfolding update_task update_fields update_columns transitioning_to_ready sort_by with_rows
update_to_ready decode db raw_id v now some_id listed to_ready =
    rw (collect_status decode v, some_id, to_ready) (rw (stays_ready, listed))
  where
    stays_ready : text_eq (normalize_task_status status_ready) status_ready ≡ true
    stays_ready = unfold normalize_task_status trim_space lower_byte is_space text_eq in refl

-- On valid tables an update of a listed task with the one field status set to ready either succeeds, and
-- then each direct dependency is listed with a terminal status, or it is refused with a direct dependency
-- that is not.
pub update_to_ready-decides :
    (decode : Text → Option (List Text)) (db : Db) (raw_id : Text) (v : AnyValue) (now : ℕ)
    → let id = trim_space raw_id in
      IsValid db
      → is_empty id ≡ false
      → has_task db id ≡ true
      → normalize_task_status (coerce_string v) ≡ status_ready
      → ((update_task decode db raw_id ((text "status", v) ∷ []) now
            ≡ ok (with_rows db ready_set now id))
          × IsUnblocked db id)
        ⊎ ((x : Text) × (s : Text) × (update_task decode db raw_id ((text "status", v) ∷ []) now
              ≡ err (unresolved_dependency x s))
            × HasEdge db.edges id x
            × ¬ IsSettled db x)
unfolding ensure_ready_transition_unblocked
update_to_ready-decides decode db raw_id v now valid some_id listed to_ready =
    let id = trim_space raw_id in
    let shape = update_to_ready decode db raw_id v now some_id listed to_ready in
    elim (ready_transition_check-cases db id) [
      | inl (e, free) ↦ inl (
        shape ∙ rw (e, ensure_ready_transition_unblocked),
        λ y h. (unresolved_iff db y valid).0 (free y h),
      )
      | inr (x, h, t, e) ↦ inr (
        x,
        (if is_empty (dependency_status db x) then text "missing" else dependency_status db x),
        shape ∙ rw (e, ensure_ready_transition_unblocked),
        h,
        λ settled. let f = (unresolved_iff db x valid).1 settled in cc,
      )
    ]

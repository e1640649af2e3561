-- ===== src/Store/Stages/Laws.antt =====
-- What the stages of a morsel are after an operation, and when a morsel id alone is ambiguous.
use chum.Base.{
  ℕ, ◌≡◌, ◌⊎◌, refl, ◌∙◌, ap, Bool, true, false, List, [], Option, none, some, if◌then◌else◌,
  Bool-cases, inl, inr, any, any-intro, any-elim, find_sound, find-none, Option-cases,
}
use chum.Base.Result.{ok, err}
use chum.Text.{Text}
use chum.Store.Table.{has_key, select_key, delete_key, select_key-upsert}
use chum.Store.Rows.{select_key-delete_key}
use chum.Store.Stages.{
  MorselStage, StageRow, not_found, by_project_morsel, pair_eq, pair_eq_iff, scan_stage,
  found_stage, new_stage, merge_stage, get_morsel_stage, upsert_morsel_stage, delete_morsel_stage,
}

-- The stage as it is read back: the history is empty.
abbrev pub stored : ℕ → ℕ → ℕ → MorselStage → MorselStage
stored now id created stage = record stage {
  id = id;
  stage_history = [];
  created_at = created;
  updated_at = now;
}

-- What is read of a row that was merged or inserted, or of another one.
found_after :
    (now id : ℕ) (stage : MorselStage) (q m : Text) (b : Bool) (old other : Option StageRow)
    → ((r : StageRow)
        → old ≡ some r
        → ◌≡◌ {A = Text × Text} (r.project, r.morsel_id) (stage.project, stage.morsel_id))
    → found_stage q m (
        if b
        then some (elim old [ none ↦ new_stage now id stage | some r ↦ merge_stage now stage r ])
        else other)
      ≡ (if b
          then ok (elim (found_stage stage.project stage.morsel_id old) [
            | err e ↦ stored now id now stage
            | ok s ↦ stored now s.id s.created_at stage
          ])
          else found_stage q m other)
found_after now id stage q m true none other h = refl
found_after now id stage q m true (some r) other h =
    let a : r.project ≡ stage.project = ap (λ (x : Text × Text). x.0) (h r refl) in
    let b : r.morsel_id ≡ stage.morsel_id = ap (λ (x : Text × Text). x.1) (h r refl) in cc (a, b)
found_after now id stage q m false old other h = refl

-- What GetMorselStage answers after UpsertMorselStage: for its project and morsel the stage with the id and
-- the creation of the row that stood there, or of the new row, but with no history, whatever history it had;
-- for every other project and morsel what it answered before.
pub upsert-get_morsel_stage :
    (now id : ℕ) (stage : MorselStage) (q m : Text) (rows : List StageRow)
    → get_morsel_stage q m (upsert_morsel_stage now id stage rows) ≡ (
        if pair_eq (stage.project, stage.morsel_id) (q, m)
        then ok (elim (get_morsel_stage stage.project stage.morsel_id rows) [
          | err e ↦ stored now id now stage
          | ok s ↦ stored now s.id s.created_at stage
        ])
        else get_morsel_stage q m rows)
unfolding upsert_morsel_stage get_morsel_stage
upsert-get_morsel_stage now id stage q m rows =
    let k : Text × Text = (stage.project, stage.morsel_id) in
    ap (found_stage q m) (
      select_key-upsert by_project_morsel k (new_stage now id stage) (merge_stage now stage) refl
        (λ r. refl) (q, m) rows)
    ∙ found_after now id stage q m (pair_eq k (q, m)) (select_key by_project_morsel k rows)
        (select_key by_project_morsel (q, m) rows)
        (λ r e.
          (pair_eq_iff (r.project, r.morsel_id) k).0
            (find_sound (has_key by_project_morsel k) rows e).1)

found_without :
    (p n : Text) (b : Bool) (o : Option StageRow)
    → found_stage p n (if b then none else o)
      ≡ (if b then err (not_found p n) else found_stage p n o)
found_without p n true o = refl
found_without p n false o = refl

-- A row is deleted exactly if it is there; else the error says that it was not found. After the deletion it is
-- not found, and every other stage is read as before.
pub delete_morsel_stage-decides :
    (q m : Text) (rows : List StageRow)
    → ((rows' : List StageRow) × (s : MorselStage) × (get_morsel_stage q m rows ≡ ok s)
        × (delete_morsel_stage q m rows ≡ ok rows')
        × ((p n : Text)
            → get_morsel_stage p n rows'
              ≡ (if pair_eq (p, n) (q, m) then err (not_found p n) else get_morsel_stage p n rows)))
      ⊎ ((get_morsel_stage q m rows ≡ err (not_found q m))
          × (delete_morsel_stage q m rows ≡ err (not_found q m)))
unfolding delete_morsel_stage get_morsel_stage
delete_morsel_stage-decides q m rows =
    let has = has_key by_project_morsel (q, m) in
    elim (Option-cases (select_key by_project_morsel (q, m) rows)) [
      | inl e ↦ elim (Bool-cases (any has rows)) [
        | inl t ↦ let (r, i, h) = any-elim has rows t in absurd (cc (find-none has rows e r i, h))
        | inr t ↦ inr (rw e refl, rw t refl)
      ]
      | inr (r, e) ↦
          let (i, h) = find_sound has rows e in
          inl (
            delete_key by_project_morsel (q, m) rows,
            scan_stage r,
            rw e refl,
            rw (any-intro has rows r i h) refl,
            λ p n.
                ap (found_stage p n) (select_key-delete_key by_project_morsel (q, m) (p, n) rows)
                ∙ found_without p n (pair_eq (p, n) (q, m))
                    (select_key by_project_morsel (p, n) rows),
          )
    ]

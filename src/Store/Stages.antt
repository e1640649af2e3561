-- ===== src/Store/Stages.antt =====
-- internal/store/stages.go, on the table morsel_stages of internal/store/schema_scheduling.go with its unique
-- index on project and morsel_id. Times are seconds; the id of a new row is the database's.
pub mod Laws
pub mod Ambiguity
use chum.Base.{
  ℕ, ◌≡◌, ◌↔◌, refl, ap, Bool, true, false, ◌&&◌, not, List, [], ◌∷◌, Option, none, some,
  if◌then◌else◌, ltb, select, and-eq_true, any,
}
use chum.Base.Int.{ℤ}
use chum.Base.Result.{Result, ok, err}
use chum.Base.Sort.{sort_by}
use chum.Text.{Text, text, text_eq, text_eq_sound, text_eq_refl, one_of}
use chum.Store.Table.{Key, has_key, select_key, upsert, update_key, delete_key}

pub record StageHistoryEntry : Type 0 where
  pub stage : Text
  pub status : Text
  pub started_at : ℕ
  pub completed_at : Option ℕ
  pub dispatch_id : ℤ

pub record MorselStage : Type 0 where
  pub id : ℕ
  pub project : Text
  pub morsel_id : Text
  pub workflow : Text
  pub current_stage : Text
  pub stage_index : ℤ
  pub total_stages : ℤ
  pub stage_history : List StageHistoryEntry
  pub created_at : ℕ
  pub updated_at : ℕ

-- A row of the table: the history is a text.
pub record StageRow : Type 0 where
  pub id : ℕ
  pub project : Text
  pub morsel_id : Text
  pub workflow : Text
  pub current_stage : Text
  pub stage_index : ℤ
  pub total_stages : ℤ
  pub stage_history : Text
  pub created_at : ℕ
  pub updated_at : ℕ

abbrev pub pair_eq : Text × Text → Text × Text → Bool
pair_eq (a, b) (c, d) = text_eq a c && text_eq b d

pub pair_eq_iff : (j k : Text × Text) → (pair_eq j k ≡ true) ↔ (j ≡ k)
pair_eq_iff (a, b) (c, d) = (
  λ h.
      let (p, q) = and-eq_true (text_eq a c) (text_eq b d) h in
      cc (text_eq_sound a c p, text_eq_sound b d q),
  λ e.
      let p : a ≡ c = ap (λ (x : Text × Text). x.0) e in
      let q : b ≡ d = ap (λ (x : Text × Text). x.1) e in
      rw (p, q) (rw (text_eq_refl c, text_eq_refl d) refl),
)

abbrev pub by_project_morsel : Key StageRow (Text × Text)
by_project_morsel = record {
  key = λ r. (r.project, r.morsel_id);
  eq = pair_eq;
  eq_iff = pair_eq_iff;
}

-- What the scan makes of a row: the text of the history is read and dropped.
abbrev pub scan_stage : StageRow → MorselStage
scan_stage r = record {
  id = r.id;
  project = r.project;
  morsel_id = r.morsel_id;
  workflow = r.workflow;
  current_stage = r.current_stage;
  stage_index = r.stage_index;
  total_stages = r.total_stages;
  stage_history = [];
  created_at = r.created_at;
  updated_at = r.updated_at;
}

pub data StageError : Type 0 where
  not_found : Text → Text → StageError
  ambiguous : Text → List Text → StageError

abbrev pub found_stage : Text → Text → Option StageRow → Result StageError MorselStage
found_stage project morsel_id none = err (not_found project morsel_id)
found_stage project morsel_id (some r) = ok (scan_stage r)

unfoldable pub get_morsel_stage : Text → Text → List StageRow → Result StageError MorselStage
get_morsel_stage project morsel_id rows =
    found_stage project morsel_id (select_key by_project_morsel (project, morsel_id) rows)

abbrev pub new_stage : ℕ → ℕ → MorselStage → StageRow
new_stage now id stage = record {
  id = id;
  project = stage.project;
  morsel_id = stage.morsel_id;
  workflow = stage.workflow;
  current_stage = stage.current_stage;
  stage_index = stage.stage_index;
  total_stages = stage.total_stages;
  stage_history = text "[]";
  created_at = now;
  updated_at = now;
}

abbrev pub merge_stage : ℕ → MorselStage → StageRow → StageRow
merge_stage now stage r = record r {
  workflow = stage.workflow;
  current_stage = stage.current_stage;
  stage_index = stage.stage_index;
  total_stages = stage.total_stages;
  stage_history = text "[]";
  updated_at = now;
}

unfoldable pub upsert_morsel_stage : ℕ → ℕ → MorselStage → List StageRow → List StageRow
upsert_morsel_stage now id stage rows =
    upsert by_project_morsel (stage.project, stage.morsel_id) (new_stage now id stage)
      (merge_stage now stage) rows

-- The dispatch id that the function is passed goes nowhere.
unfoldable pub update_morsel_stage_progress :
    ℕ → Text → Text → Text → ℤ → ℤ → ℤ → List StageRow → List StageRow
update_morsel_stage_progress now project morsel_id new_stage stage_index total_stages dispatch_id
      rows =
    update_key by_project_morsel (project, morsel_id)
      (λ r. record r {
        current_stage = new_stage;
        stage_index = stage_index;
        total_stages = total_stages;
        updated_at = now;
      })
      rows

abbrev pub map_rows : List StageRow → List MorselStage
map_rows [] = []
map_rows (r ∷ rows) = scan_stage r ∷ map_rows rows

-- `ORDER BY updated_at DESC`.
unfoldable pub list_morsel_stages_for_project : Text → List StageRow → List MorselStage
list_morsel_stages_for_project project rows =
    map_rows (
      sort_by (λ a b. ltb b.updated_at a.updated_at) (select (λ r. text_eq r.project project) rows))

-- An error if no row was affected.
unfoldable pub delete_morsel_stage : Text → Text → List StageRow → Result StageError (List StageRow)
delete_morsel_stage project morsel_id rows =
    if any (has_key by_project_morsel (project, morsel_id)) rows
    then ok (delete_key by_project_morsel (project, morsel_id) rows)
    else err (not_found project morsel_id)

-- `projectsSeen`, in the order in which the projects are seen.
abbrev pub projects_seen : List StageRow → List Text
projects_seen [] = []
projects_seen (r ∷ rows) =
    let seen = projects_seen rows in if one_of seen r.project then seen else r.project ∷ seen

abbrev pub unless_ambiguous :
    Text → List Text → List StageRow → Result StageError (List MorselStage)
unless_ambiguous morsel_id (p ∷ q ∷ seen) rows = err (ambiguous morsel_id (p ∷ q ∷ seen))
unless_ambiguous morsel_id (p ∷ []) rows = ok (map_rows rows)
unless_ambiguous morsel_id [] rows = ok (map_rows rows)

unfoldable pub get_morsel_stages_by_morsel_id_only :
    Text → List StageRow → Result StageError (List MorselStage)
get_morsel_stages_by_morsel_id_only morsel_id rows =
    let found = select (λ r. text_eq r.morsel_id morsel_id) rows in
    unless_ambiguous morsel_id (projects_seen found) found

-- ===== src/Store/PlanGate.antt =====
-- internal/store/plan_gate.go, on the table execution_plan_gate of internal/store/schema_scheduling.go, whose
-- one row has the id 1. Times are seconds.
pub mod Laws
use chum.Base.{ℕ, Bool, true, false, [], ◌∷◌, ◌||◌, Option, none, some, if◌then◌else◌}
use chum.Base.Result.{Result, ok, err}
use chum.Text.{Text, text, is_empty}
use chum.Text.Trim.{trim_space}

pub record GateRow : Type 0 where
  pub active_plan_id : Text
  pub approved_by : Text
  pub approved_at : Option ℕ
  pub activated_at : Option ℕ
  pub updated_at : ℕ

pub record ExecutionPlanGate : Type 0 where
  pub plan_id : Text
  pub approved_by : Text
  pub approved_at : ℕ
  pub activated_at : ℕ
  pub updated_at : ℕ

abbrev pub or_manual : Text → Text
or_manual approved_by = if is_empty approved_by then text "manual" else approved_by

-- The INSERT and its ON CONFLICT write the same values.
unfoldable pub set_active_approved_plan :
    ℕ → Text → Text → Option GateRow → Result Text (Option GateRow)
set_active_approved_plan now plan_id approved_by row =
    if is_empty (trim_space plan_id)
    then err (text "plan id is required")
    else ok (
        some (record {
          active_plan_id = trim_space plan_id;
          approved_by = or_manual (trim_space approved_by);
          approved_at = some now;
          activated_at = some now;
          updated_at = now;
        }))

unfoldable pub clear_active_approved_plan : ℕ → Option GateRow → Option GateRow
clear_active_approved_plan now row = some (record {
  active_plan_id = [];
  approved_by = [];
  approved_at = none;
  activated_at = none;
  updated_at = now;
})

-- The tests on what was scanned.
unfoldable pub gate_of : GateRow → Option ℕ → Option ExecutionPlanGate
gate_of r none = none
gate_of r (some approved) =
    if is_empty (trim_space r.active_plan_id)
    then none
    else some (record {
      plan_id = trim_space r.active_plan_id;
      approved_by = trim_space r.approved_by;
      approved_at = approved;
      activated_at = elim r.activated_at [ none ↦ approved | some t ↦ t ];
      updated_at = r.updated_at;
    })

unfoldable pub get_active_approved_plan : Option GateRow → Option ExecutionPlanGate
get_active_approved_plan none = none
get_active_approved_plan (some r) = gate_of r r.approved_at

unfoldable pub has_active_approved_plan : Option GateRow → Bool × Option ExecutionPlanGate
has_active_approved_plan row =
    let plan = get_active_approved_plan row in (elim plan [ none ↦ false | some p ↦ true ], plan)

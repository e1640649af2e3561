-- ===== src/Store/PlanGate/Laws.antt =====
-- The gate against its history: what the operations of the past say about the active plan.
use chum.Base.{
  ℕ, ◌≡◌, refl, true, false, List, [], ◌∷◌, Option, none, some, if◌then◌else◌, Bool-cases, inl, inr,
}
use chum.Base.Result.{Result, ok, err}
use chum.Text.{Text, text, is_empty, is_space}
use chum.Text.Trim.{trim_space, trim_space_idem, trim_left, trim_right}
use chum.Store.PlanGate.{
  GateRow, ExecutionPlanGate, or_manual, set_active_approved_plan, clear_active_approved_plan,
  gate_of, get_active_approved_plan, has_active_approved_plan,
}

-- An operation on the gate at its time.
pub data Operation : Type 0 where
  activated : ℕ → Text → Text → Operation
  cleared : ℕ → Operation

abbrev pub row_after : Option GateRow → Result Text (Option GateRow) → Option GateRow
row_after row (ok row') = row'
row_after row (err e) = row

-- The row after operations, the latest of which stands first.
unfoldable pub replay : List Operation → Option GateRow
replay [] = none
replay (activated now id by ∷ ops) =
    row_after (replay ops) (set_active_approved_plan now id by (replay ops))
replay (cleared now ∷ ops) = clear_active_approved_plan now (replay ops)

abbrev pub active : ℕ → Text → Text → ExecutionPlanGate
active now id by = record {
  plan_id = trim_space id;
  approved_by = if is_empty (trim_space by) then text "manual" else trim_space by;
  approved_at = now;
  activated_at = now;
  updated_at = now;
}

-- The plan that is active by the history alone: that of the latest operation that counts.
unfoldable pub latest : List Operation → Option ExecutionPlanGate
latest [] = none
latest (cleared now ∷ ops) = none
latest (activated now id by ∷ ops) =
    let before = latest ops in if is_empty (trim_space id) then before else some (active now id by)

manual_trim : trim_space (text "manual") ≡ text "manual"
unfolding trim_space trim_left trim_right is_space
manual_trim = refl

or_manual_trim : (s : Text) → trim_space (or_manual (trim_space s)) ≡ or_manual (trim_space s)
or_manual_trim s = elim (Bool-cases (is_empty (trim_space s))) [
  | inl e ↦ rw e manual_trim
  | inr e ↦ rw e (trim_space_idem s)
]

get_replay : (ops : List Operation) → get_active_approved_plan (replay ops) ≡ latest ops
unfolding replay latest get_active_approved_plan set_active_approved_plan clear_active_approved_plan
    gate_of
get_replay [] = refl
get_replay (cleared now ∷ ops) = refl
get_replay (activated now id by ∷ ops) = elim (Bool-cases (is_empty (trim_space id))) [
  | inl e ↦ rw e (get_replay ops)
  | inr e ↦ rw (e, trim_space_idem id, e, or_manual_trim by) refl
]

-- After any operations on the gate, GetActiveApprovedPlan answers the plan of the latest operation that
-- counts: none if that cleared the gate, else the plan, trimmed, with its approver or manual, and its time;
-- an activation with a blank id changes nothing. HasActiveApprovedPlan says whether there is one.
pub replay-latest :
    (ops : List Operation)
    → (get_active_approved_plan (replay ops) ≡ latest ops)
      × (has_active_approved_plan (replay ops)
          ≡ (elim (latest ops) [ none ↦ false | some p ↦ true ], latest ops))
unfolding has_active_approved_plan
replay-latest ops = rw (get_replay ops) (refl, refl)

-- ===== src/Tests/StageRuns.antt =====
-- The theorems on stages and safety blocks at concrete rows.
use chum.Base.{
  ◌*◌, ◌≡◌, ◌⊎◌, ◌↔◌, ◌&&◌, refl, true, false, List, [], ◌∷◌, Memᴰ, none, some, if◌then◌else◌, ltb,
  length, select,
}
use chum.Base.Int.{pos}
use chum.Base.Result.{Result, ok, err}
use chum.Text.{Text, text, text_eq, is_empty, is_space}
use chum.Text.Trim.{trim_space, trim_left, trim_right}
use chum.Text.Dict.{lookup}
use chum.Store.Stages.{
  MorselStage, StageRow, not_found, ambiguous, pair_eq, map_rows, new_stage, get_morsel_stage,
  upsert_morsel_stage, delete_morsel_stage, get_morsel_stages_by_morsel_id_only,
}
use chum.Store.Stages.Laws.{stored, upsert-get_morsel_stage, delete_morsel_stage-decides}
use chum.Store.Stages.Ambiguity.{IsShared, by_morsel_id_only-decides}
use chum.Store.Claims.{seconds}
use chum.Store.Safety.{
  BlockRow, Json, JsonLaws, has_parts, or_now, get_block, set_block_with_metadata,
  get_block_counts_by_type, is_morsel_validating, set_morsel_validating, clear_morsel_validating,
}
use chum.Store.Safety.Laws.{read_back, set-get_block}
use chum.Store.Safety.Validating.{set-is_morsel_validating}
use chum.Store.Safety.Active.{positive, get_block_counts_by_type-length}

abbrev stage : Text → MorselStage
stage project = record {
  id = 0;
  project = project;
  morsel_id = text "m1";
  workflow = text "default";
  current_stage = text "stage:qa";
  stage_index = pos 2;
  total_stages = pos 4;
  stage_history =
      record {
        stage = text "stage:plan";
        status = text "done";
        started_at = 3;
        completed_at = some 5;
        dispatch_id = pos 1;
      }
      ∷ [];
  created_at = 0;
  updated_at = 0;
}

abbrev rows : List StageRow
rows = new_stage 10 1 (stage (text "chum")) ∷ new_stage 11 2 (stage (text "hg")) ∷ []

upsert-get_morsel_stage_example :
    get_morsel_stage (text "chum") (text "m1") (upsert_morsel_stage 20 3 (stage (text "chum")) rows)
    ≡ (if pair_eq (text "chum", text "m1") (text "chum", text "m1")
        then ok (elim (get_morsel_stage (text "chum") (text "m1") rows) [
          | err e ↦ stored 20 3 20 (stage (text "chum"))
          | ok s ↦ stored 20 s.id s.created_at (stage (text "chum"))
        ])
        else get_morsel_stage (text "chum") (text "m1") rows)
upsert-get_morsel_stage_example =
    upsert-get_morsel_stage 20 3 (stage (text "chum")) (text "chum") (text "m1") rows

delete_morsel_stage-decides_example :
    ((rows' : List StageRow) × (s : MorselStage) × (get_morsel_stage (text "hg") (text "m1") rows
        ≡ ok s)
      × (delete_morsel_stage (text "hg") (text "m1") rows ≡ ok rows')
      × ((p n : Text)
          → get_morsel_stage p n rows' ≡ (
              if pair_eq (p, n) (text "hg", text "m1")
              then err (not_found p n)
              else get_morsel_stage p n rows)))
    ⊎ ((get_morsel_stage (text "hg") (text "m1") rows ≡ err (not_found (text "hg") (text "m1")))
        × (delete_morsel_stage (text "hg") (text "m1") rows
            ≡ err (not_found (text "hg") (text "m1"))))
delete_morsel_stage-decides_example = delete_morsel_stage-decides (text "hg") (text "m1") rows

by_morsel_id_only-decides_example :
    ((seen : List Text) × (get_morsel_stages_by_morsel_id_only (text "m1") rows
        ≡ err (ambiguous (text "m1") seen))
      × IsShared (text "m1") rows)
    ⊎ ((found : List StageRow) × (get_morsel_stages_by_morsel_id_only (text "m1") rows
          ≡ ok (map_rows found))
        × ((r : StageRow) → Memᴰ r found ↔ (Memᴰ r rows × (r.morsel_id ≡ text "m1")))
        × ¬ IsShared (text "m1") rows)
by_morsel_id_only-decides_example = by_morsel_id_only-decides (text "m1") rows

-- Some maps of one key: with nothing, an int, the float64 that comes back for it, and a channel, which
-- json.Marshal refuses.
data Value : Type 0 where
  nothing int_two float_two channel : Value

abbrev values : Json
values = record { Metadata = Value; empty = nothing; marshal = write; unmarshal = read }
  where
    write : Value → Result Text Text
    write nothing = ok (text "{}")
    write int_two = ok (text "{2}")
    write float_two = ok (text "{2}")
    write channel = err (text "json: unsupported type: chan int")

    read : Text → Result Text Value
    read t = if text_eq t (text "{2}") then ok float_two else ok nothing

values-JsonLaws : JsonLaws values
unfolding trim_space trim_left trim_right is_space text_eq
values-JsonLaws = record { marshal_blank = blank; empty_round_trip = round }
  where
    blank : (m : Value) (s : Text) → values.marshal m ≡ ok s → is_empty (trim_space s) ≡ false
    blank nothing s e = let q : s ≡ text "{}" = cc e in rw q refl
    blank int_two s e = let q : s ≡ text "{2}" = cc e in rw q refl
    blank float_two s e = let q : s ≡ text "{2}" = cc e in rw q refl
    blank channel s e = cc e

    round : (s : Text) → values.marshal nothing ≡ ok s → values.unmarshal s ≡ ok nothing
    round s e = let q : s ≡ text "{}" = cc e in rw q refl

abbrev blocks : List BlockRow
blocks =
    record {
      scope = text "m1";
      block_type = text "morsel_validating";
      blocked_until = 90;
      reason = text "morsel validating";
      metadata = text "{}";
      created_at = 60;
      updated_at = 60;
    }
    ∷ []

set-get_block_example :
    let s = text " m1" in
    let t = text "churn" in
    ((has_parts (trim_space s) (trim_space t) ≡ false)
      × (set_block_with_metadata values 70000000000 s t none (text "busy") (some int_two) blocks
          ≡ err (text "store: set block: scope and block_type are required")))
    ⊎ (((x : Text) × (has_parts (trim_space s) (trim_space t) ≡ true)
          × (values.marshal int_two ≡ err x)
          × (set_block_with_metadata values 70000000000 s t none (text "busy") (some int_two) blocks
              ≡ err x))
        ⊎ ((x : Text) × (rows' : List BlockRow) × (has_parts (trim_space s) (trim_space t) ≡ true)
            × (values.marshal int_two ≡ ok x)
            × (set_block_with_metadata values 70000000000 s t none
                  (text "busy")
                  (some int_two)
                  blocks
                ≡ ok rows')
            × (get_block values (text "m1") t rows' ≡ (
                if pair_eq (trim_space s, trim_space t) (trim_space (text "m1"), trim_space t)
                then read_back values values-JsonLaws 70000000000
                    (trim_space s, trim_space t)
                    none
                    (text "busy")
                    (values.unmarshal x)
                else get_block values (text "m1") t blocks))))
set-get_block_example =
    set-get_block values values-JsonLaws 70000000000 (text " m1") (text "churn") none (text "busy")
      (some int_two) (text "m1") (text "churn") blocks

m2_named : is_empty (trim_space (text "m2")) ≡ false
unfolding trim_space trim_left trim_right is_space
m2_named = refl

set-is_morsel_validating_example :
    (rows' : List BlockRow) × (set_morsel_validating values 70000000000
        (text "m2")
        (some 95500000000)
        blocks
      ≡ ok rows')
    × (is_morsel_validating values 95200000000 (text "m1") rows' ≡ (
        if text_eq (trim_space (text "m2")) (trim_space (text "m1"))
        then ok (ltb 95200000000 (seconds (or_now 70000000000 (some 95500000000)) * 1000000000))
        else is_morsel_validating values 95200000000 (text "m1") blocks))
    × (is_morsel_validating values 95200000000
          (text "m2")
          (clear_morsel_validating (text "m2") rows')
        ≡ ok false)
set-is_morsel_validating_example =
    set-is_morsel_validating values values-JsonLaws (text "{}") refl 70000000000 95200000000
      (text "m2") (text "m1") (some 95500000000) blocks m2_named

get_block_counts_by_type-length_example :
    lookup (text "morsel_validating") (get_block_counts_by_type 70000000000 blocks)
    ≡ positive (
        length (
          select
            (λ r.
              text_eq r.block_type (text "morsel_validating")
              && ltb (seconds 70000000000) r.blocked_until)
            blocks))
get_block_counts_by_type-length_example =
    get_block_counts_by_type-length 70000000000 blocks (text "morsel_validating")

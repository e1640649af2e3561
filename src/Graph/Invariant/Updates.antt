-- ===== src/Graph/Invariant/Updates.antt =====
-- `UpdateTask` keeps the rows normal, their ids and the edges.
use mathlib.Core.List.Memᴰ
use chum.Base.{
  ℕ, ◌≡◌, refl, sym, ◌∙◌, inl, inr, false, not, List, [], ◌∷◌, Memᴰ, none, some, any, Option,
  if◌then◌else◌, Bool-cases, arith, subst, ap,
}
use chum.Base.Sort.{sort_by, In-sort_by}
use chum.Base.Result.{Result, ok, err, ◌>>=◌, require, OnOk, OnOk-bind}
use chum.Text.{Text, is_empty, text_eq, to_lower}
use chum.Text.Trim.{trim_space}
use chum.Graph.Task.{
  IsNormalized, normalize_task_status-IsNormalized, normalize_task_type-IsNormalized,
  normalize_task_status-nonempty, normalize_task_type-nonempty,
}
use chum.Graph.Value.{AnyValue, Error, coerce_string, coerce_int, marshal_labels_value, id_required}
use chum.Graph.Db.{TaskRow, Db}
use chum.Graph.Dag.{get_task}
use chum.Graph.Update.{
  field_assignment, collect_fields, update_columns, update_fields, update_task, column_less,
}
use chum.Graph.Update.Apply.{
  Column, status, priority, estimate_minutes, labels, task_type, Assignment, set_text, set_number,
  set_labels, column_of, apply, apply_all, update_rows,
}
use chum.Graph.Invariant.{IsValid, IsNormalRow, DistinctIds}

-- A value that may stand in its column.
abbrev pub IsGood : Assignment → Type 0
IsGood (set_text status s) = IsNormalized s × (is_empty s ≡ false)
IsGood (set_text task_type s) = IsNormalized s × (is_empty s ≡ false)
IsGood _ = Unit

abbrev AllGood : List Assignment → Type 0
AllGood sets = (a : Assignment) → Memᴰ a sets → IsGood a

apply-IsNormalRow :
    (a : Assignment) (r : TaskRow) → IsGood a → IsNormalRow r → IsNormalRow (apply a r)
unfolding apply
apply-IsNormalRow (set_text status s) r g n = ground arith
apply-IsNormalRow (set_text c s) r g n = ground arith
apply-IsNormalRow (set_number c k) r g n = ground arith
apply-IsNormalRow (set_labels ls) r g n = ground arith

apply-id : (a : Assignment) (r : TaskRow) → (apply a r).id ≡ r.id
unfolding apply
apply-id a r = ground arith

apply_all-IsNormalRow :
    (sets : List Assignment) (r : TaskRow)
    → AllGood sets
    → IsNormalRow r
    → IsNormalRow (apply_all sets r)
unfolding apply_all
apply_all-IsNormalRow [] r g n = n
apply_all-IsNormalRow (a ∷ sets) r g n =
    apply_all-IsNormalRow sets (apply a r) (λ b m. g b (Memᴰ.tail m))
      (apply-IsNormalRow a r (g a (Memᴰ.head refl)) n)

apply_all-id : (sets : List Assignment) (r : TaskRow) → (apply_all sets r).id ≡ r.id
unfolding apply_all
apply_all-id [] r = refl
apply_all-id (a ∷ sets) r = apply_all-id sets (apply a r) ∙ apply-id a r

field_assignment-IsGood :
    (decode : Text → Option (List Text)) (c : Column) (v : AnyValue)
    → OnOk IsGood (field_assignment decode c v)
unfolding field_assignment
field_assignment-IsGood decode status v = (
  normalize_task_status-IsNormalized (coerce_string v),
  normalize_task_status-nonempty (coerce_string v),
)
field_assignment-IsGood decode task_type v = (
  normalize_task_type-IsNormalized (coerce_string v),
  normalize_task_type-nonempty (coerce_string v),
)
field_assignment-IsGood decode priority v = OnOk-bind IsGood (coerce_int v) _ (λ n e. tt)
field_assignment-IsGood decode estimate_minutes v = OnOk-bind IsGood (coerce_int v) _ (λ n e. tt)
field_assignment-IsGood decode labels v =
    OnOk-bind IsGood (marshal_labels_value decode v) _ (λ n e. tt)
field_assignment-IsGood decode c v = tt

collect_fields-AllGood :
    (decode : Text → Option (List Text)) (fields : List (Text × AnyValue))
    → OnOk (λ (p : List Assignment × List Text). AllGood p.0) (collect_fields decode fields)
unfolding collect_fields
collect_fields-AllGood decode [] = λ a m. elim m [ ]
collect_fields-AllGood decode ((key, v) ∷ fields) =
    let rest = collect_fields-AllGood decode fields in
    go (column_of (trim_space (to_lower key))) rest
  where
    go :
        (o : Option Column)
        → OnOk (λ (p : List Assignment × List Text). AllGood p.0) (collect_fields decode fields)
        → OnOk
            (λ (p : List Assignment × List Text). AllGood p.0)
            (elim o [
              | none ↦ collect_fields decode fields >>= λ (sets, unrecognized).
                  ok (sets, key ∷ unrecognized)
              | some c ↦ field_assignment decode c v >>= λ a.
                  collect_fields decode fields >>= λ (sets, unrecognized).
                  ok (a ∷ sets, unrecognized)
            ])
    go none rest = OnOk-bind _ (collect_fields decode fields) _ (λ p e. subst (OnOk _) e rest)
    go (some c) rest = OnOk-bind _ (field_assignment decode c v) _ λ a e.
        OnOk-bind _ (collect_fields decode fields) _ λ p q b m. elim (Memᴰ.cases_cons m) [
          | inl same ↦ rw same (subst (OnOk IsGood) e (field_assignment-IsGood decode c v))
          | inr t ↦ subst (OnOk _) q rest b t
        ]

-- What becomes of a row by the UPDATE statement.
abbrev pub updated_row : List Assignment → ℕ → Text → TaskRow → TaskRow
updated_row sets now id r =
    if text_eq r.id id then record (apply_all sets r) { updated_at = now } else r

In-update_rows :
    (sets : List Assignment) (now : ℕ) (id : Text) (rs : List TaskRow) (s : TaskRow)
    → Memᴰ s (update_rows sets now id rs)
    → (r : TaskRow) × Memᴰ r rs × (s ≡ updated_row sets now id r)
unfolding update_rows
In-update_rows sets now id [] s m = elim m [ ]
In-update_rows sets now id (r ∷ rs) s (Memᴰ.head e) = (r, Memᴰ.head refl, e)
In-update_rows sets now id (r ∷ rs) s (Memᴰ.tail m) =
    let (q, l, e) = In-update_rows sets now id rs s m in (q, Memᴰ.tail l, e)

pub updated_row-id :
    (sets : List Assignment) (now : ℕ) (id : Text) (r : TaskRow)
    → (updated_row sets now id r).id ≡ r.id
updated_row-id sets now id r = ground (arith, apply_all-id sets r)

updated_row-IsNormalRow :
    (sets : List Assignment) (now : ℕ) (id : Text) (r : TaskRow)
    → AllGood sets
    → IsNormalRow r
    → IsNormalRow (updated_row sets now id r)
updated_row-IsNormalRow sets now id r g n = elim (Bool-cases (text_eq r.id id)) [
  | inl e ↦
      let k = apply_all-IsNormalRow sets r g n in
      rw e (record {
        normal_status = k.normal_status;
        some_status = k.some_status;
        normal_type = k.normal_type;
        some_type = k.some_type;
        normal_id = k.normal_id;
        some_id = k.some_id;
      })
  | inr e ↦ rw e n
]

update_rows-DistinctIds :
    (sets : List Assignment) (now : ℕ) (id : Text) (rs : List TaskRow)
    → DistinctIds rs
    → DistinctIds (update_rows sets now id rs)
unfolding update_rows
update_rows-DistinctIds sets now id [] d = tt
update_rows-DistinctIds sets now id (r ∷ rs) d = (
  λ s m e.
      let (q, l, p) = In-update_rows sets now id rs s m in
      d.0 q l (
        sym (updated_row-id sets now id q)
        ∙ ap (λ (x : TaskRow). x.id) (sym p)
        ∙ e
        ∙ updated_row-id sets now id r),
  update_rows-DistinctIds sets now id rs d.1,
)

-- The ids are the same before and after.
pub has_task-update_rows :
    (sets : List Assignment) (now : ℕ) (id x : Text) (rs : List TaskRow)
    → any (λ r. text_eq r.id x) (update_rows sets now id rs) ≡ any (λ r. text_eq r.id x) rs
unfolding update_rows
has_task-update_rows sets now id x [] = refl
has_task-update_rows sets now id x (r ∷ rs) =
    rw (updated_row-id sets now id r, has_task-update_rows sets now id x rs)

unfoldable pub with_rows : Db → List Assignment → ℕ → Text → Db
with_rows db sets now id = record db { tasks = update_rows sets now id db.tasks }

with_rows-IsValid :
    (db : Db) (sets : List Assignment) (now : ℕ) (id : Text)
    → IsValid db
    → AllGood sets
    → IsValid (with_rows db sets now id)
unfolding with_rows
with_rows-IsValid db sets now id valid g = record {
  distinct_ids = update_rows-DistinctIds sets now id db.tasks valid.distinct_ids;
  normal_rows = λ s m.
      let (r, l, e) = In-update_rows sets now id db.tasks s m in
      rw e (updated_row-IsNormalRow sets now id r g (valid.normal_rows r l));
  ends = λ e m.
      let (f, t) = valid.ends e m in
      (
        has_task-update_rows sets now id e.from_task db.tasks ∙ f,
        has_task-update_rows sets now id e.to_task db.tasks ∙ t,
      );
  acyclic = valid.acyclic;
}

update_columns-result :
    (db : Db) (id : Text) (sets : List Assignment) (now : ℕ) {db' : Db}
    → update_columns db id sets now ≡ ok db'
    → db' ≡ with_rows db sets now id
unfolding update_columns with_rows
update_columns-result db id sets now h = ground arith

update_fields-IsValid :
    (db : Db) (id : Text) (sets : List Assignment) (unrecognized : List Text) (now : ℕ)
    → IsValid db
    → AllGood sets
    → OnOk IsValid (update_fields db id sets unrecognized now)
unfolding update_fields
update_fields-IsValid db id [] unrecognized now valid g =
    OnOk-bind IsValid (get_task db id) _ (λ t e. tt)
update_fields-IsValid db id (a ∷ sets) (key ∷ keys) now valid g = tt
update_fields-IsValid db id (a ∷ sets) [] now valid g = on_ok (update_columns db id sorted now) refl
  where
    sorted : List Assignment
    sorted = sort_by column_less (a ∷ sets)

    on_ok : (m : Result Error Db) → update_columns db id sorted now ≡ m → OnOk IsValid m
    on_ok (err e) q = tt
    on_ok (ok db') q = rw (update_columns-result db id sorted now q) (
        with_rows-IsValid db sorted now id valid
          (λ b m. g b (In-sort_by column_less (a ∷ sets) b m)))

abbrev has_id : Text → Result Error (Unit {0})
has_id raw_id = require (not (is_empty (trim_space raw_id))) id_required

-- An update, whatever its fields, keeps the tables valid if it succeeds.
pub update_task-OnOk :
    (decode : Text → Option (List Text)) (db : Db) (raw_id : Text) (fields : List (Text × AnyValue))
    (now : ℕ)
    → IsValid db
    → OnOk IsValid (update_task decode db raw_id fields now)
unfolding update_task
update_task-OnOk decode db raw_id [] now valid = OnOk-bind IsValid (has_id raw_id) _ (λ u e. valid)
update_task-OnOk decode db raw_id (f ∷ fields) now valid =
    OnOk-bind IsValid (has_id raw_id) _ λ u e.
      OnOk-bind IsValid (collect_fields decode (f ∷ fields)) _ λ p q.
        update_fields-IsValid db (trim_space raw_id) p.0 p.1 now valid
          (subst (OnOk _) q (collect_fields-AllGood decode (f ∷ fields)))

pub update_task-IsValid :
    (decode : Text → Option (List Text)) (db : Db) (raw_id : Text) (fields : List (Text × AnyValue))
    (now : ℕ) {db' : Db}
    → IsValid db
    → update_task decode db raw_id fields now ≡ ok db'
    → IsValid db'
update_task-IsValid decode db raw_id fields now valid h =
    subst (OnOk IsValid) h (update_task-OnOk decode db raw_id fields now valid)

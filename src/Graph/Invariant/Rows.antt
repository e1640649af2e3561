-- ===== src/Graph/Invariant/Rows.antt =====
-- `CreateTask` and `UpdateTask` keep the rows normal and their ids distinct.
use mathlib.Core.List.Memᴰ
use chum.Base.{
  ℕ, zero, suc, ◌≡◌, ◌≢◌, ◌⊎◌, refl, sym, ◌∙◌, inl, inr, Bool, true, false, List, [], ◌∷◌, ◌++◌,
  Memᴰ, any, Option, Bool-cases, Option-cases, any-intro, arith, ap,
}
use chum.Base.Result.{ok}
use chum.Text.{Text, is_empty, text_eq, text_eq_iff}
use chum.Text.Trim.{trim_space}
use chum.Graph.Task.{
  Task, normalize_task_status-IsNormalized, normalize_task_type-IsNormalized,
  normalize_task_status-nonempty, normalize_task_type-nonempty,
}
use chum.Graph.Db.{TaskRow, Db}
use chum.Graph.Dag.{
  has_task, new_row, create_attempts, create_task, generate_task_id, max_task_id_attempts,
}
use chum.Graph.Invariant.Ids.{generate_task_id-solid}
use chum.Graph.Invariant.{IsValid, IsNormalRow, DistinctIds}

new_row-IsNormalRow :
    (t : Task) (id project : Text) (now : ℕ)
    → trim_space id ≡ id
    → is_empty id ≡ false
    → IsNormalRow (new_row t id project now)
unfolding new_row
new_row-IsNormalRow t id project now h k = record {
  normal_status = normalize_task_status-IsNormalized t.status;
  some_status = normalize_task_status-nonempty t.status;
  normal_type = normalize_task_type-IsNormalized t.task_type;
  some_type = normalize_task_type-nonempty t.task_type;
  normal_id = h;
  some_id = k;
}

append_row : Db → TaskRow → Db
append_row db r = record db { tasks = db.tasks ++ r ∷ [] }

-- A successful creation has appended one row, whose id was free.
record Created (db : Db) (t : Task) (project : Text) (now : ℕ) (id : Text) (db' : Db) : Type 0 where
  generated : (n : ℕ) × (id ≡ generate_task_id project n)
  free : has_task db id ≡ false
  result : db' ≡ append_row db (new_row t id project now)

create_attempts-Created :
    (k i : ℕ) (db : Db) (draw : ℕ → Option ℕ) (t : Task) (project : Text) (now : ℕ) {id : Text}
    {db' : Db}
    → create_attempts k i db draw t project now ≡ ok (id, db')
    → Created db t project now id db'
unfolding create_attempts append_row
create_attempts-Created zero i db draw t project now h = cc
create_attempts-Created (suc k) i db draw t project now {id} {db'} h =
    elim (Option-cases (draw i)) [
      | inl e ↦ ground arith
      | inr (n, e) ↦ elim (Bool-cases (has_task db (generate_task_id project n))) [
        | inl taken ↦ create_attempts-Created k (suc i) db draw t project now (ground arith)
        | inr free ↦
            let named : id ≡ generate_task_id project n = ground arith in
            record { generated = (n, named); free = rw named free; result = ground arith }
      ]
    ]

create_task-Created :
    (db : Db) (draw : ℕ → Option ℕ) (t : Task) (now : ℕ) {id : Text} {db' : Db}
    → create_task db draw t now ≡ ok (id, db')
    → Created db t (trim_space t.project) now id db' × (is_empty (trim_space t.project) ≡ false)
unfolding create_task
create_task-Created db draw t now {id} {db'} h = ground (
  arith,
  create_attempts-Created max_task_id_attempts 0 db draw t (trim_space t.project) now {id = id}
      {db' = db'},
)

In-append_row :
    (db : Db) (r s : TaskRow) → Memᴰ s (append_row db r).tasks → Memᴰ s db.tasks ⊎ (s ≡ r)
unfolding append_row
In-append_row db r s m = elim (Memᴰ.append_cases db.tasks m) [
  | inl l ↦ inl l
  | inr q ↦ inr (Memᴰ.eq_of_singleton q)
]

any-append : (p : TaskRow → Bool) (rs ss : List TaskRow) → any p rs ≡ true → any p (rs ++ ss) ≡ true
any-append p [] ss h = cc
any-append p (r ∷ rs) ss h = ground (arith, any-append p rs ss)

-- An id that no row has is a new one.
fresh-ne :
    (rs : List TaskRow) (id : Text)
    → any (λ r. text_eq r.id id) rs ≡ false
    → (s : TaskRow) → Memᴰ s rs
    → s.id ≢ id
fresh-ne rs id free s m e =
    let hit = any-intro (λ (r : TaskRow). text_eq r.id id) rs s m ((text_eq_iff s.id id).1 e) in cc

DistinctIds-append :
    (rs : List TaskRow) (r : TaskRow)
    → DistinctIds rs
    → ((s : TaskRow) → Memᴰ s rs → s.id ≢ r.id)
    → DistinctIds (rs ++ r ∷ [])
DistinctIds-append [] r d f = (λ s m. elim m [ ], tt)
DistinctIds-append (q ∷ rs) r d f = (
  λ s m. elim (Memᴰ.append_cases rs m) [
    | inl l ↦ d.0 s l
    | inr t ↦
        λ e. f q (Memᴰ.head refl) (sym e ∙ ap (λ (x : TaskRow). x.id) (Memᴰ.eq_of_singleton t))
  ],
  DistinctIds-append rs r d.1 (λ s m. f s (Memᴰ.tail m)),
)

append_row-IsValid :
    (db : Db) (r : TaskRow)
    → IsValid db
    → IsNormalRow r
    → has_task db r.id ≡ false
    → IsValid (append_row db r)
unfolding append_row
append_row-IsValid db r valid normal free = record {
  distinct_ids = DistinctIds-append db.tasks r valid.distinct_ids (fresh-ne db.tasks r.id free);
  normal_rows =
      λ s m. elim (In-append_row db r s m) [ inl l ↦ valid.normal_rows s l | inr q ↦ rw q normal ];
  ends = λ e m.
      let (f, t) = valid.ends e m in
      (any-append _ db.tasks (r ∷ []) f, any-append _ db.tasks (r ∷ []) t);
  acyclic = valid.acyclic;
}

-- A created task is a new, normal row.
pub create_task-IsValid :
    (db : Db) (draw : ℕ → Option ℕ) (t : Task) (now : ℕ) {id : Text} {db' : Db}
    → IsValid db
    → create_task db draw t now ≡ ok (id, db')
    → IsValid db'
create_task-IsValid db draw t now {id} valid h =
    let (c, some_project) = create_task-Created db draw t now h in
    let (n, named) = c.generated in
    let (solid, some_id) = generate_task_id-solid t.project n some_project in
    rw c.result (
      append_row-IsValid db _ valid
        (new_row-IsNormalRow t id _ now (rw named solid) (rw named some_id))
        (unfold new_row in c.free))

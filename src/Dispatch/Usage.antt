-- ===== src/Dispatch/Usage.antt =====
-- internal/store/dispatches.go, the functions on the table provider_usage of internal/store/schema_core.go:
-- an interface with every statement able to fail, and the table that implements it.
pub mod Laws
use chum.Base.{
  ℕ, zero, suc, subst, ◌-◌, ◌≤◌, ◌≡◌, refl, ap, ◌∙◌, not, List, [], ◌∷◌, ◌++◌, Memᴰ, Option, none,
  some, arith, if◌then◌else◌, leb, eqb, length, select, inl, inr, Bool-cases, length-append,
}
use chum.Base.Result.{Result, ok, err}
use chum.Text.{Text}

pub record UsageRow : Type 0 where
  pub id : ℕ
  pub provider : Text
  pub agent_id : Text
  pub morsel_id : Text
  pub dispatched_at : ℕ

-- What the limiter uses of the store. A fault is the text of an error; `rows` is the table.
pub record UsageStore : Type 1 where
  pub State : Type 0
  pub rows : State → List UsageRow
  pub count_authed_usage_5h : State → Result Text ℕ
  pub count_authed_usage_weekly : State → Result Text ℕ
  pub record_provider_usage : Text → Text → Text → State → Result Text ℕ × State
  pub delete_provider_usage : ℕ → State → Result Text (Unit {0}) × State

-- What the limiter relies on: a call that fails changes nothing; an insertion adds one row; deleting what an insertion answered
-- takes that row away again.
pub record UsageLaws (st : UsageStore) : Type 0 where
  pub insert_failed :
      (p a m : Text) (s s' : st.State) (e : Text)
      → st.record_provider_usage p a m s ≡ (err e, s')
      → st.rows s' ≡ st.rows s
  pub delete_failed :
      (id : ℕ) (s s' : st.State) (e : Text)
      → st.delete_provider_usage id s ≡ (err e, s')
      → st.rows s' ≡ st.rows s
  pub inserted :
      (p a m : Text) (s s' : st.State) (id : ℕ)
      → st.record_provider_usage p a m s ≡ (ok id, s')
      → length (st.rows s') ≡ suc (length (st.rows s))
  pub insert_deleted :
      (p a m : Text) (s s' s'' : st.State) (id : ℕ)
      → st.record_provider_usage p a m s ≡ (ok id, s')
      → st.delete_provider_usage id s' ≡ (ok tt, s'')
      → st.rows s'' ≡ st.rows s

-- The table, with the largest id that was ever given.
pub record UsageDb : Type 0 where
  pub usage : List UsageRow
  pub last_id : ℕ

-- AUTOINCREMENT: above every id that is or was in the table.
unfoldable pub next_id : ℕ → List UsageRow → ℕ
next_id last [] = suc last
next_id last (r ∷ rs) = let n = next_id last rs in if leb n r.id then suc r.id else n

-- `CountAuthedUsage5h` and `CountAuthedUsageWeekly`: times are seconds.
unfoldable pub count_since : ℕ → List UsageRow → ℕ
count_since start rs = length (select (λ r. leb start r.dispatched_at) rs)

unfoldable pub insert_usage : ℕ → Text → Text → Text → UsageDb → Result Text ℕ × UsageDb
insert_usage now provider agent morsel db =
    let id = next_id db.last_id db.usage in
    let row : UsageRow = record {
      id = id;
      provider = provider;
      agent_id = agent;
      morsel_id = morsel;
      dispatched_at = now;
    } in
    (ok id, record { usage = db.usage ++ row ∷ []; last_id = id })

unfoldable pub delete_usage : ℕ → UsageDb → Result Text (Unit {0}) × UsageDb
delete_usage zero db = (ok tt, db)
delete_usage (suc n) db =
    (ok tt, record db { usage = select (λ r. not (eqb r.id (suc n))) db.usage })

-- What goes wrong in a call on the database, if anything: the INSERT, the id of the row that was inserted,
-- the DELETE, a count.
pub record Faults : Type 0 where
  pub insert : Option Text
  pub last_insert_id : Option Text
  pub delete : Option Text
  pub count : Option Text

abbrev pub no_faults : Faults
no_faults = record { insert = none; last_insert_id = none; delete = none; count = none }

-- The row is in the table when LastInsertId answers.
abbrev pub with_id : Option Text → Result Text ℕ × UsageDb → Result Text ℕ × UsageDb
with_id none (r, db) = (r, db)
with_id (some e) (r, db) = (err e, db)

-- `RecordProviderUsage`.
abbrev pub record_usage : Faults → ℕ → Text → Text → Text → UsageDb → Result Text ℕ × UsageDb
record_usage faults now provider agent morsel db = elim faults.insert [
  | some e ↦ (err e, db)
  | none ↦ with_id faults.last_insert_id (insert_usage now provider agent morsel db)
]

-- `DeleteProviderUsage`: no statement for the id 0.
abbrev pub remove_usage : Option Text → ℕ → UsageDb → Result Text (Unit {0}) × UsageDb
remove_usage none id db = delete_usage id db
remove_usage (some e) zero db = (ok tt, db)
remove_usage (some e) (suc n) db = (err e, db)

abbrev pub counted : Option Text → ℕ → Result Text ℕ
counted none n = ok n
counted (some e) n = err e

-- The store at one instant; what fails depends on the state in any way.
abbrev pub usage_store : (UsageDb → Faults) → ℕ → UsageStore
usage_store faults now = record {
  State = UsageDb;
  rows = λ db. db.usage;
  count_authed_usage_5h = λ db. counted (faults db).count (count_since (now - 18000) db.usage);
  count_authed_usage_weekly = λ db. counted (faults db).count (count_since (now - 604800) db.usage);
  record_provider_usage = λ p a m db. record_usage (faults db) now p a m db;
  delete_provider_usage = λ id db. remove_usage (faults db).delete id db;
}

-- The store while nothing fails.
abbrev pub usage_table : ℕ → UsageStore
usage_table now = usage_store (λ db. no_faults) now

next_id-above :
    (last : ℕ) (rs : List UsageRow) (r : UsageRow) → Memᴰ r rs → suc r.id ≤ next_id last rs
unfolding next_id
next_id-above last [] r m = elim m [ ]
next_id-above last (q ∷ rs) r (Memᴰ.head e) = rw e (ground arith)
next_id-above last (q ∷ rs) r (Memᴰ.tail m) = ground (arith, next_id-above last rs r m)

pub next_id-suc : (last : ℕ) (rs : List UsageRow) → (n : ℕ) × (next_id last rs ≡ suc n)
unfolding next_id
next_id-suc last [] = (last, refl)
next_id-suc last (q ∷ rs) = elim (Bool-cases (leb (next_id last rs) q.id)) [
  | inl e ↦ (q.id, rw e refl)
  | inr e ↦ let (n, h) = next_id-suc last rs in (n, rw e h)
]

delete_last :
    (n : ℕ) (rs : List UsageRow) (row : UsageRow)
    → row.id ≡ n
    → ((r : UsageRow) → Memᴰ r rs → suc r.id ≤ n)
    → select (λ r. not (eqb r.id n)) (rs ++ row ∷ []) ≡ rs
delete_last n [] row e h = ground arith
delete_last n (q ∷ rs) row e h =
    ground (arith, h q (Memᴰ.head refl), delete_last n rs row e (λ r m. h r (Memᴰ.tail m)))

pub delete_usage-ok : (id : ℕ) (db : UsageDb) → (delete_usage id db).0 ≡ ok tt
unfolding delete_usage
delete_usage-ok zero db = refl
delete_usage-ok (suc n) db = refl

pub insert_usage-next :
    (now : ℕ) (p a m : Text) (db : UsageDb)
    → (insert_usage now p a m db).0 ≡ ok (next_id db.last_id db.usage)
unfolding insert_usage
insert_usage-next now p a m db = refl

pub insert_usage-length :
    (now : ℕ) (p a m : Text) (db : UsageDb)
    → length (insert_usage now p a m db).1.usage ≡ suc (length db.usage)
unfolding insert_usage
insert_usage-length now p a m db = length-append db.usage _ ∙ omega arith

-- The row that was inserted last goes, and no other.
pub delete-insert :
    (now : ℕ) (p a m : Text) (db : UsageDb)
    → (delete_usage (next_id db.last_id db.usage) (insert_usage now p a m db).1).1.usage ≡ db.usage
unfolding insert_usage delete_usage
delete-insert now p a m db =
    let (n, h) = next_id-suc db.last_id db.usage in
    rw h (
      delete_last (suc n) db.usage _ refl
        (λ r i. omega (arith, h, next_id-above db.last_id db.usage r i)))

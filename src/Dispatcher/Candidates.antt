-- ===== src/Dispatcher/Candidates.antt =====
-- ScanCandidatesActivity as a whole, behind its ceilings on tokens: slots, gathering and choice.
use mathlib.Core.List.Memᴰ
use chum.Base.{
  ℕ, ◌+◌, ◌≤◌, ◌≡◌, refl, ◌⊎◌, inl, inr, Bool, false, List, [], ◌∷◌, Memᴰ, Option, arith,
  if◌then◌else◌, leb, length, Bool-cases,
}
use chum.Base.Int.{ℤ}
use chum.Text.{Text, one_of}
use chum.Text.Dict.{Dict, insert}
use chum.Graph.Task.{Task}
use chum.Graph.Db.{Db}
use chum.Graph.Invariant.{IsValid}
use chum.Dispatcher.{Candidate, Limits, Genome, positive_or, tick_slots, count, sleeps, scan}
use chum.Dispatcher.Picked.{of_project, scan-IsScanned}
use chum.Dispatcher.Gather.{ScannedProject, or_none, gather, MayRun, gather-MayRun}

-- The configuration of a scan, the answers of the Temporal client, and those of GetGenome.
pub record ScanInput : Type 0 where
  pub max_concurrent_total : ℤ
  pub max_per_tick : ℤ
  pub max_concurrent_per_project : ℤ
  pub groomers : Bool
  pub projects : List ScannedProject
  pub running : ℕ
  pub running_set : List Text
  pub genome : Task → Option Genome

-- `projectRunning`.
unfoldable pub project_running : List ScannedProject → Dict ℕ
project_running [] = []
project_running (p ∷ ps) =
    let rest = project_running ps in
    if p.enabled then insert p.name (or_none p.open_workflows) rest else rest

abbrev pub limits_of : ScanInput → Limits
limits_of input = record {
  max_per_project = positive_or 3 input.max_concurrent_per_project;
  running_set = input.running_set;
  genome = input.genome;
}

-- The candidates of the tick, and the tables after it. Nothing is gathered where no slot is free.
unfoldable pub scan_candidates :
    (Text → Option (List Text)) → ℕ → ScanInput → Db → Db × List Candidate
scan_candidates decode now input db =
    if leb (positive_or 3 input.max_concurrent_total) input.running
    then (db, [])
    else let (db', cs) =
        gather decode now (positive_or 3 input.max_concurrent_per_project) input.groomers db
          input.projects in
      (
        db',
        scan (limits_of input)
            (tick_slots input.running input.max_concurrent_total input.max_per_tick)
            (project_running input.projects) cs,
      )

slots_bound :
    (running : ℕ) (total tick : ℤ)
    → leb (positive_or 3 total) running ≡ false
    → (running + tick_slots running total tick ≤ positive_or 3 total)
      × (tick_slots running total tick ≤ positive_or 3 tick)
unfolding tick_slots
slots_bound running total tick h = (ground (arith, h), ground (arith, h))

pub record IsTickOf (input : ScanInput) (db' : Db) (picked : List Candidate) : Type 0 where
  pub valid : IsValid db'
  pub in_total :
      (length picked ≡ 0)
      ⊎ (input.running + length picked ≤ positive_or 3 input.max_concurrent_total)
  pub in_tick : length picked ≤ positive_or 3 input.max_per_tick
  pub in_project :
      (name : Text)
      → (of_project name picked ≡ 0)
        ⊎ (count name (project_running input.projects) + of_project name picked
            ≤ positive_or 3 input.max_concurrent_per_project)
  pub may_run :
      (c : Candidate)
      → Memᴰ c picked
      → MayRun (positive_or 3 input.max_concurrent_per_project) input.projects c
        × (one_of input.running_set c.task.id ≡ false)
        × (sleeps (limits_of input) c ≡ false)

-- A scan for candidates over valid tables leaves them valid, also where it promotes groomed tasks to ready.
-- The candidates that it picks fit into the total of running workflows, or there are none; they are no more
-- than a tick may start, and of no project more than may run beside its open workflows. Each is of a given
-- project that is enabled and below its limit, its task is ready and no container, it does not run already,
-- and its species does not hibernate, unless the project is golf-directory.
pub scan_candidates-IsTickOf :
    (decode : Text → Option (List Text)) (now : ℕ) (input : ScanInput) (db : Db)
    → IsValid db
    → let (db', picked) = scan_candidates decode now input db in IsTickOf input db' picked
unfolding scan_candidates
scan_candidates-IsTickOf decode now input db v =
    elim (Bool-cases (leb (positive_or 3 input.max_concurrent_total) input.running)) [
      | inl e ↦ rw e (record {
        valid = v;
        in_total = inl refl;
        in_tick = omega arith;
        in_project = λ name. inl refl;
        may_run = λ c m. absurd (Memᴰ.not-nil m);
      })
      | inr e ↦
          let max = positive_or 3 input.max_concurrent_per_project in
          let g = gather decode now max input.groomers db input.projects in
          let slots = tick_slots input.running input.max_concurrent_total input.max_per_tick in
          let (w, f) = gather-MayRun decode now max input.groomers db input.projects v in
          let s = scan-IsScanned (limits_of input) slots (project_running input.projects) g.1 in
          let (a, b) = slots_bound input.running input.max_concurrent_total input.max_per_tick e in
          rw e (record {
            valid = w;
            in_total = inr (omega (arith, a, s.few));
            in_tick = omega (arith, b, s.few);
            in_project = s.shared;
            may_run = λ c m. let (i, back, idle, awake) = s.fit c m in (f c i, idle, awake);
          })
    ]

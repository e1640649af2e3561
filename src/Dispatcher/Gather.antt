-- ===== src/Dispatcher/Gather.antt =====
-- ScanCandidatesActivity over the projects: their tasks are listed, groomed ones are promoted to ready where no
-- grooming agent is enabled, and the unblocked ones are the candidates.
use mathlib.Core.List.Memᴰ
use chum.Base.{
  ℕ, ◌<◌, ◌≡◌, refl, ap, inl, inr, Bool, true, false, not, ◌&&◌, ◌||◌, List, [], ◌∷◌, ◌++◌, Memᴰ,
  Option, none, some, arith, if◌then◌else◌, leb, Bool-cases, In-select,
}
use chum.Base.Int.{pos, ltb_ℤ}
use chum.Base.Result.{Result, ok, err}
use chum.Base.Sort.{In-sort_by}
use chum.Text.{Text, text, text_eq, is_empty}
use chum.Graph.Task.{Task, status_open, status_ready, is_dispatchable_task, is_container_task}
use chum.Graph.Value.{Error, str}
use chum.Graph.Db.{Db}
use chum.Graph.Dag.{list_tasks}
use chum.Graph.Update.{update_task}
use chum.Graph.DepGraph.{
  build_dep_graph, all_deps_closed, is_candidate, dispatch_less, filter_unblocked_open,
}
use chum.Graph.Invariant.{IsValid}
use chum.Graph.Invariant.Updates.{update_task-IsValid}
use chum.Dispatcher.{Candidate, candidates_of}

-- A project of the configuration, and how many of its workflows are open; a listing that fails counts as none.
pub record ScannedProject : Type 0 where
  pub name : Text
  pub enabled : Bool
  pub open_workflows : Option ℕ

abbrev pub or_none : Option ℕ → ℕ
or_none none = 0
or_none (some n) = n

unfoldable pub is_groomed : Task → Bool
is_groomed t =
    text_eq t.status status_open
    && ltb_ℤ (pos 0) t.estimate_minutes
    && not (is_empty t.acceptance)
    && not (text_eq t.task_type (text "epic"))
    && not (text_eq t.task_type (text "whale"))

-- The tables and the task after an update that was tried.
abbrev pub after_update : Db → Task → Result Error Db → Db × Task
after_update db t (ok db') = (db', record t { status = status_ready })
after_update db t (err e) = (db, t)

module _ (decode : Text → Option (List Text)) (now : ℕ) where
  unfoldable pub promote_task : Db → Task → Db × Task
  promote_task db t =
      if is_groomed t
      then after_update db t
          (update_task decode db t.id ((text "status", str (text "ready")) ∷ []) now)
      else (db, t)

  unfoldable pub promote_groomed : Db → List Task → Db × List Task
  promote_groomed db [] = (db, [])
  promote_groomed db (t ∷ ts) =
      let (db', t') = promote_task db t in
      let (db'', ts') = promote_groomed db' ts in (db'', t' ∷ ts')

  abbrev pub promoted : Bool → Db → List Task → Db × List Task
  promoted true db all = (db, all)
  promoted false db all = promote_groomed db all

  -- The candidates of a project whose tasks were listed.
  abbrev pub listed : Bool → Db → Text → Result Error (List Task) → Db × List Candidate
  listed groomers db name (err e) = (db, [])
  listed groomers db name (ok all) =
      let (db', ts) = promoted groomers db all in
      (db', candidates_of name (filter_unblocked_open ts (some (build_dep_graph ts))))

  -- `groomers` tells whether the chief or the crab is enabled.
  unfoldable pub gather_project : ℕ → Bool → Db → ScannedProject → Db × List Candidate
  gather_project max_per_project groomers db p =
      if not p.enabled || leb max_per_project (or_none p.open_workflows)
      then (db, [])
      else listed groomers db p.name (list_tasks db p.name [])

  unfoldable pub gather : ℕ → Bool → Db → List ScannedProject → Db × List Candidate
  gather max_per_project groomers db [] = (db, [])
  gather max_per_project groomers db (p ∷ ps) =
      let (db', cs) = gather_project max_per_project groomers db p in
      let (db'', ds) = gather max_per_project groomers db' ps in (db'', cs ++ ds)

  after_update-IsValid :
      (db : Db) (t : Task) (r : Result Error Db)
      → IsValid db
      → ((db' : Db) → r ≡ ok db' → IsValid db')
      → IsValid (after_update db t r).0
  after_update-IsValid db t (ok db') v h = h db' refl
  after_update-IsValid db t (err e) v h = v

  promote_groomed-IsValid :
      (db : Db) (ts : List Task) → IsValid db → IsValid (promote_groomed db ts).0
  unfolding promote_groomed promote_task
  promote_groomed-IsValid db [] v = v
  promote_groomed-IsValid db (t ∷ ts) v = elim (Bool-cases (is_groomed t)) [
    | inr e ↦ rw e (promote_groomed-IsValid db ts v)
    | inl e ↦
        let fields = (text "status", str (text "ready")) ∷ [] in
        let r = update_task decode db t.id fields now in
        rw e (
          promote_groomed-IsValid (after_update db t r).0 ts (
            after_update-IsValid db t r v
              (λ db' q. update_task-IsValid decode db t.id fields now v q)))
  ]

candidates_of-In :
    (name : Text) (ts : List Task) (c : Candidate)
    → Memᴰ c (candidates_of name ts)
    → Memᴰ c.task ts × (c.project ≡ name)
unfolding candidates_of
candidates_of-In name [] c m = absurd (Memᴰ.not-nil m)
candidates_of-In name (t ∷ ts) c m = elim (Memᴰ.cases_cons m) [
  | inl q ↦ (Memᴰ.head (ap (λ (d : Candidate). d.task) q), ap (λ (d : Candidate). d.project) q)
  | inr n ↦ let (i, e) = candidates_of-In name ts c n in (Memᴰ.tail i, e)
]

-- A candidate that may run: its project is enabled and below its limit, and the task is ready and no container.
pub record MayRun (max_per_project : ℕ) (ps : List ScannedProject) (c : Candidate) : Type 0 where
  pub project : ScannedProject
  pub given : Memᴰ project ps
  pub named : c.project ≡ project.name
  pub enabled : project.enabled ≡ true
  pub below : or_none project.open_workflows < max_per_project
  pub dispatchable : is_dispatchable_task c.task ≡ true
  pub single : is_container_task c.task ≡ false

MayRun-later :
    (max : ℕ) (p : ScannedProject) (ps : List ScannedProject) (c : Candidate)
    → MayRun max ps c
    → MayRun max (p ∷ ps) c
MayRun-later max p ps c r = record {
  project = r.project;
  given = Memᴰ.tail r.given;
  named = r.named;
  enabled = r.enabled;
  below = r.below;
  dispatchable = r.dispatchable;
  single = r.single;
}

unblocked-In :
    (ts : List Task) (c : Candidate) (name : Text)
    → Memᴰ c (candidates_of name (filter_unblocked_open ts (some (build_dep_graph ts))))
    → (c.project ≡ name) × (is_dispatchable_task c.task ≡ true) × (is_container_task c.task ≡ false)
unfolding filter_unblocked_open is_candidate
unblocked-In ts c name m =
    let g = some (build_dep_graph ts) in
    let (i, e) = candidates_of-In name (filter_unblocked_open ts g) c m in
    let (j, t) =
      In-select (is_candidate (λ t. all_deps_closed t g)) ts c.task
        (In-sort_by dispatch_less _ c.task i) in
    (e, ground (arith, t), ground (arith, t))

module _ (decode : Text → Option (List Text)) (now : ℕ) where
  listed-IsValid :
      (groomers : Bool) (db : Db) (name : Text) (r : Result Error (List Task))
      → IsValid db
      → IsValid (listed decode now groomers db name r).0
  listed-IsValid true db name (ok all) v = v
  listed-IsValid false db name (ok all) v = promote_groomed-IsValid decode now db all v
  listed-IsValid groomers db name (err e) v = v

  listed-In :
      (groomers : Bool) (db : Db) (name : Text) (r : Result Error (List Task)) (c : Candidate)
      → Memᴰ c (listed decode now groomers db name r).1
      → (c.project ≡ name)
        × (is_dispatchable_task c.task ≡ true)
        × (is_container_task c.task ≡ false)
  listed-In groomers db name (ok all) c m =
      unblocked-In (promoted decode now groomers db all).1 c name m
  listed-In groomers db name (err e) c m = absurd (Memᴰ.not-nil m)

  -- One project keeps the tables valid, and its candidates may run.
  gather_project-MayRun :
      (max : ℕ) (groomers : Bool) (db : Db) (p : ScannedProject) (ps : List ScannedProject)
      → IsValid db
      → IsValid (gather_project decode now max groomers db p).0
        × ((c : Candidate)
            → Memᴰ c (gather_project decode now max groomers db p).1
            → MayRun max (p ∷ ps) c)
  unfolding gather_project
  gather_project-MayRun max groomers db p ps v =
      elim (Bool-cases (not p.enabled || leb max (or_none p.open_workflows))) [
        | inl e ↦ rw e (v, λ c m. absurd (Memᴰ.not-nil m))
        | inr e ↦ rw e (
          listed-IsValid groomers db p.name (list_tasks db p.name []) v,
          λ c m.
              let (n, d, s) = listed-In groomers db p.name (list_tasks db p.name []) c m in
              record {
                project = p;
                given = Memᴰ.head refl;
                named = n;
                enabled = ground (arith, e);
                below =
                    let f : leb max (or_none p.open_workflows) ≡ false = ground (arith, e) in
                    ground (arith, f);
                dispatchable = d;
                single = s;
              },
        )
      ]

  -- On valid tables.
  pub gather-MayRun :
      (max_per_project : ℕ) (groomers : Bool) (db : Db) (ps : List ScannedProject)
      → IsValid db
      → IsValid (gather decode now max_per_project groomers db ps).0
        × ((c : Candidate)
            → Memᴰ c (gather decode now max_per_project groomers db ps).1
            → MayRun max_per_project ps c)
  unfolding gather
  gather-MayRun max groomers db [] v = (v, λ c m. absurd (Memᴰ.not-nil m))
  gather-MayRun max groomers db (p ∷ ps) v =
      let here = gather_project decode now max groomers db p in
      let (v', f) = gather_project-MayRun max groomers db p ps v in
      let (w, g) = gather-MayRun max groomers here.0 ps v' in
      (
        w,
        λ c m. elim (Memᴰ.append_cases here.1 m) [
          | inl i ↦ f c i
          | inr i ↦ MayRun-later max p ps c (g c i)
        ],
      )

-- ===== src/Dispatcher/Routes.antt =====
-- The children of a tick: how many ceremonies of planning, which agents, which tasks.
use chum.Base.{
  ℕ, zero, suc, ◌%◌, ◌≤◌, ◌<◌, ◌≡◌, refl, Bool, true, false, ◌&&◌, ◌||◌, List, [], ◌∷◌, Memᴰ, some,
  arith, if◌then◌else◌, ltb, length, select, get_elem?, Bool-cases, ◌⊎◌, inl, inr,
}
use chum.Base.Result.{Result, ok}
use chum.Text.{Text}
use chum.Dispatcher.Tick.{
  DispatchCandidate, is_crab_emitted_candidate, should_route_to_planning_ceremony, route,
  is_planning, Launch, rotation, agent_at, launches, ScanCandidatesResult, post_mortems, ran,
  tick_of, dispatcher_workflow,
}

-- The ceremonies of planning that a list of launches started.
abbrev pub ceremonies : List Launch → ℕ
ceremonies ls = length (select (λ l. is_planning l.route && l.started) ls)

route_taken : (v2 : Bool) (c : DispatchCandidate) → is_planning (route v2 true c) ≡ false
unfolding route
route_taken true c = refl
route_taken false c = elim (Bool-cases (should_route_to_planning_ceremony c)) [
  | inl e ↦ rw e refl
  | inr e ↦ rw e refl
]

-- A ceremony is for a candidate that no crab emitted, and not with the second planner.
route_planned :
    (v2 planning : Bool) (c : DispatchCandidate)
    → is_planning (route v2 planning c) ≡ true
    → (v2 ≡ false) × (planning ≡ false) × (is_crab_emitted_candidate c ≡ false)
unfolding route should_route_to_planning_ceremony
route_planned true planning c h = cc h
route_planned false planning c h = elim (Bool-cases (is_crab_emitted_candidate c)) [
  | inl e ↦ let f : false ≡ true = rw e at h in cc f
  | inr e ↦ elim (Bool-cases planning) [
    | inr f ↦ (refl, f, e)
    | inl f ↦ let g = route_taken false c in absurd (cc (g, h, f))
  ]
]

route_asked :
    (v2 planning : Bool) (c : DispatchCandidate)
    → is_planning (route v2 planning c) ≡ true
    → should_route_to_planning_ceremony c ≡ true
unfolding route
route_asked true planning c h = cc h
route_asked false planning c h = elim (Bool-cases (should_route_to_planning_ceremony c)) [
  | inl e ↦ e
  | inr e ↦ let f : false ≡ true = rw e at h in cc f
]

-- A slot that is taken is taken for the rest of the tick.
launches-ceremonies :
    (v2 : Bool) (agents : List Text) (starts : ℕ → Bool) (i : ℕ) (planning : Bool)
    (cs : List DispatchCandidate)
    → ceremonies (launches v2 agents starts i planning cs) ≤ (if planning then 0 else 1)
unfolding launches route
launches-ceremonies v2 agents starts i planning [] = ground arith
launches-ceremonies v2 agents starts i true (c ∷ cs) =
    rw (route_taken v2 c) (launches-ceremonies v2 agents starts (suc i) true cs)
launches-ceremonies v2 agents starts i false (c ∷ cs) =
    elim (Bool-cases (is_planning (route v2 false c) && starts i)) [
      | inl e ↦ rw e (omega (arith, launches-ceremonies v2 agents starts (suc i) true cs))
      | inr e ↦ rw e (launches-ceremonies v2 agents starts (suc i) false cs)
    ]

get_elem?-In :
    (xs : List Text) (i : ℕ) → i < length xs → (a : Text) × (get_elem? xs i ≡ some a) × Memᴰ a xs
get_elem?-In [] i h = absurd (omega (arith, h))
get_elem?-In (x ∷ xs) zero h = (x, refl, Memᴰ.head refl)
get_elem?-In (x ∷ xs) (suc i) h =
    let (a, e, m) = get_elem?-In xs i (omega (arith, h)) in (a, e, Memᴰ.tail m)

mod_small : (i n : ℕ) → 0 < n → i % n < n
mod_small i n h = grind arith

rotation-length : (agents : List Text) → 0 < length (rotation agents)
rotation-length [] = omega arith
rotation-length (a ∷ agents) = omega arith

agent_at-In :
    (agents : List Text) (i : ℕ)
    → (a : Text) × (agent_at agents i ≡ some a) × Memᴰ a (rotation agents)
unfolding agent_at
agent_at-In agents i =
    get_elem?-In (rotation agents) (i % length (rotation agents))
      (mod_small i (length (rotation agents)) (rotation-length agents))

-- Where the launch of a candidate goes.
abbrev pub IsSent : Bool → List Text → DispatchCandidate → Launch → Type 0
IsSent v2 agents c l =
    (l.task_id ≡ c.task_id)
    × ((a : Text) × (l.agent ≡ some a) × Memᴰ a (rotation agents))
    × ((is_planning l.route ≡ false)
        ⊎ ((v2 ≡ false)
            × (is_crab_emitted_candidate c ≡ false)
            × (should_route_to_planning_ceremony c ≡ true)))

-- One launch for each candidate, in the order of the candidates.
abbrev pub AllSent : Bool → List Text → List DispatchCandidate → List Launch → Type 0
AllSent v2 agents [] [] = Unit
AllSent v2 agents [] (l ∷ ls) = ⊥
AllSent v2 agents (c ∷ cs) [] = ⊥
AllSent v2 agents (c ∷ cs) (l ∷ ls) = IsSent v2 agents c l × AllSent v2 agents cs ls

launches-AllSent :
    (v2 : Bool) (agents : List Text) (starts : ℕ → Bool) (i : ℕ) (planning : Bool)
    (cs : List DispatchCandidate)
    → AllSent v2 agents cs (launches v2 agents starts i planning cs)
unfolding launches
launches-AllSent v2 agents starts i planning [] = tt
launches-AllSent v2 agents starts i planning (c ∷ cs) = (
  (
    refl,
    agent_at-In agents i,
    elim (Bool-cases (is_planning (route v2 planning c))) [
      | inr e ↦ inl e
      | inl e ↦
          let (f, g, h) = route_planned v2 planning c e in inr (f, h, route_asked v2 planning c e)
    ],
  ),
  launches-AllSent v2 agents starts (suc i)
      (planning || (is_planning (route v2 planning c) && starts i)) cs,
)

-- A tick after a scan that was neither throttled nor failed asks for exactly one child for each candidate,
-- in their order, each for the task of its candidate and with an enabled agent or else codex. It starts at
-- most one ceremony of planning, none while one runs, and sends there no task that a crab emitted and none
-- under the second planner.
pub dispatcher_workflow-IsSent :
    (fetched : Text → Bool) (failures : Result Text (List Text)) (starts : ℕ → Bool)
    (r : ScanCandidatesResult)
    → r.throttled ≡ false
    → (ls : List Launch) × (dispatcher_workflow fetched failures starts (ok r)
        ≡ ran ls (post_mortems fetched failures))
      × (ceremonies ls ≤ (if ltb 0 r.planning_running then 0 else 1))
      × AllSent r.enable_planner_v2 r.available_agents r.candidates ls
unfolding dispatcher_workflow tick_of
dispatcher_workflow-IsSent fetched failures starts r h =
    let busy = ltb 0 r.planning_running in
    (
      launches r.enable_planner_v2 r.available_agents starts 0 busy r.candidates,
      rw h refl,
      launches-ceremonies r.enable_planner_v2 r.available_agents starts 0 busy r.candidates,
      launches-AllSent r.enable_planner_v2 r.available_agents starts 0 busy r.candidates,
    )

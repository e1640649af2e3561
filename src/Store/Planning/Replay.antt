-- ===== src/Store/Planning/Replay.antt =====
-- The tables of planning against the history of the calls that wrote them.
use chum.Base.{
  ℕ, suc, ◌≡◌, refl, ◌∙◌, ap, Bool, true, false, not, ◌&&◌, ◌||◌, List, [], ◌∷◌, Option, none, some,
  if◌then◌else◌, any, find, Bool-cases, inl, inr, arith, length,
}
use chum.Base.Result.{Result, ok, err}
use chum.Text.{Text, text_eq, text_eq_iff, is_empty}
use chum.Text.Trim.{trim_space}
use chum.Store.Planning.{
  PlanningStateSnapshot, PlanningBlacklistEntry, stored_snapshot, record_planning_state_snapshot,
  get_latest_stable_planning_snapshot, same_action, lacks_key, stored_entry, upsert_entry,
  add_planning_blacklist_entry, is_planning_action_blacklisted,
}

-- A call that writes: a snapshot at its time, or a blocked action.
pub data Operation : Type 0 where
  recorded : ℕ → PlanningStateSnapshot → Operation
  blocked : PlanningBlacklistEntry → Operation

pub record Tables : Type 0 where
  pub snapshots : List PlanningStateSnapshot
  pub blacklist : List PlanningBlacklistEntry

abbrev pub with_snapshots : Tables → Result Text (List PlanningStateSnapshot) → Tables
with_snapshots t (ok rows) = record t { snapshots = rows }
with_snapshots t (err e) = t

abbrev pub with_blacklist : Tables → Result Text (List PlanningBlacklistEntry) → Tables
with_blacklist t (ok rows) = record t { blacklist = rows }
with_blacklist t (err e) = t

-- The tables after calls, the latest of which stands first; ids count the snapshots.
unfoldable pub replay : List Operation → Tables
replay [] = record { snapshots = []; blacklist = [] }
replay (recorded now s ∷ ops) =
    let t = replay ops in
    with_snapshots t (record_planning_state_snapshot now (suc (length t.snapshots)) s t.snapshots)
replay (blocked e ∷ ops) =
    let t = replay ops in with_blacklist t (add_planning_blacklist_entry e t.blacklist)

-- By the history alone: the session has this stable snapshot, with both of its keys.
abbrev pub is_of : Text → PlanningStateSnapshot → Bool
is_of session s =
    not (is_empty (trim_space s.session_id))
    && not (is_empty (trim_space s.state_hash))
    && text_eq (trim_space s.session_id) (trim_space session)
    && s.stable

-- The snapshot with its time, of which the id is left open.
unfoldable pub latest : Text → List Operation → Option (ℕ × PlanningStateSnapshot)
latest session [] = none
latest session (blocked e ∷ ops) = latest session ops
latest session (recorded now s ∷ ops) =
    let before = latest session ops in if is_of session s then some (now, s) else before

-- Some call has blocked the action in the state.
unfoldable pub was_blocked : Text → Text → Text → List Operation → Bool
was_blocked session state action [] = false
was_blocked session state action (recorded now s ∷ ops) = was_blocked session state action ops
was_blocked session state action (blocked e ∷ ops) =
    (text_eq (trim_space e.session_id) (trim_space session)
      && text_eq (trim_space e.state_hash) (trim_space state)
      && text_eq (trim_space e.action_hash) (trim_space action))
    || was_blocked session state action ops

-- What an upsert adds to the keys of the table.
any-upsert_entry :
    (x y z : Text) (e : PlanningBlacklistEntry) (rows : List PlanningBlacklistEntry)
    → any (same_action x y z) (upsert_entry e rows)
      ≡ (same_action x y z e || any (same_action x y z) rows)
unfolding upsert_entry
any-upsert_entry x y z e [] = refl
any-upsert_entry x y z e (r ∷ rows) =
    elim (Bool-cases (same_action e.session_id e.state_hash e.action_hash r)) [
      | inl h ↦
          let a : r.session_id ≡ e.session_id =
            (text_eq_iff r.session_id e.session_id).0 (ground (arith, h)) in
          let b : r.state_hash ≡ e.state_hash =
            (text_eq_iff r.state_hash e.state_hash).0 (ground (arith, h)) in
          let c : r.action_hash ≡ e.action_hash =
            (text_eq_iff r.action_hash e.action_hash).0 (ground (arith, h)) in
          rw (h, a, b, c) (ground arith)
      | inr h ↦ rw h (ground (arith, any-upsert_entry x y z e rows))
    ]

-- An entry without one of its keys has not the keys of an action that has them all.
keys_differ :
    (x y z : Text) (e : PlanningBlacklistEntry)
    → lacks_key x y z ≡ false
    → lacks_key (trim_space e.session_id) (trim_space e.state_hash) (trim_space e.action_hash)
      ≡ true
    → (text_eq (trim_space e.session_id) x
        && text_eq (trim_space e.state_hash) y
        && text_eq (trim_space e.action_hash) z)
      ≡ false
keys_differ x y z e h l =
    let same =
      text_eq (trim_space e.session_id) x
      && text_eq (trim_space e.state_hash) y
      && text_eq (trim_space e.action_hash) z in
    elim (Bool-cases same) [
      | inr f ↦ f
      | inl t ↦
          let a : trim_space e.session_id ≡ x =
            (text_eq_iff (trim_space e.session_id) x).0 (ground (arith, t)) in
          let b : trim_space e.state_hash ≡ y =
            (text_eq_iff (trim_space e.state_hash) y).0 (ground (arith, t)) in
          let c : trim_space e.action_hash ≡ z =
            (text_eq_iff (trim_space e.action_hash) z).0 (ground (arith, t)) in
          absurd (cc (h, l, a, b, c))
    ]

any-was_blocked :
    (session state action : Text) (ops : List Operation)
    → lacks_key (trim_space session) (trim_space state) (trim_space action) ≡ false
    → any
        (same_action (trim_space session) (trim_space state) (trim_space action))
        (replay ops).blacklist
      ≡ was_blocked session state action ops
unfolding replay was_blocked record_planning_state_snapshot add_planning_blacklist_entry
any-was_blocked session state action [] h = refl
any-was_blocked session state action (recorded now s ∷ ops) h =
    elim (Bool-cases (is_empty (trim_space s.session_id))) [
      | inl e ↦ rw e (any-was_blocked session state action ops h)
      | inr e ↦ elim (Bool-cases (is_empty (trim_space s.state_hash))) [
        | inl f ↦ rw (e, f) (any-was_blocked session state action ops h)
        | inr f ↦ rw (e, f) (any-was_blocked session state action ops h)
      ]
    ]
any-was_blocked session state action (blocked e ∷ ops) h =
    let x = trim_space session in
    let y = trim_space state in
    let z = trim_space action in
    let ih = any-was_blocked session state action ops h in
    elim (Bool-cases
      (lacks_key (trim_space e.session_id) (trim_space e.state_hash) (trim_space e.action_hash))) [
        | inl l ↦ rw (l, keys_differ x y z e h l) ih
        | inr l ↦ rw l (
            any-upsert_entry x y z (stored_entry e) (replay ops).blacklist
            ∙ ap (λ b. same_action x y z (stored_entry e) || b) ih)
      ]

-- What is found is the snapshot that the history tells, as it was stored.
abbrev pub IsLatest : Option (ℕ × PlanningStateSnapshot) → Option PlanningStateSnapshot → Type 0
IsLatest none found = found ≡ none
IsLatest (some (now, s)) found = (id : ℕ) × (found ≡ some (stored_snapshot now id s))

abbrev find_stable : Text → List PlanningStateSnapshot → Option PlanningStateSnapshot
find_stable session rows = find (λ s. text_eq s.session_id session && s.stable) rows

find-IsLatest :
    (session : Text) (ops : List Operation)
    → IsLatest (latest session ops) (find_stable (trim_space session) (replay ops).snapshots)
unfolding replay latest record_planning_state_snapshot add_planning_blacklist_entry
find-IsLatest session [] = refl
find-IsLatest session (blocked e ∷ ops) =
    elim (Bool-cases
      (lacks_key (trim_space e.session_id) (trim_space e.state_hash) (trim_space e.action_hash))) [
        | inl l ↦ rw l (find-IsLatest session ops)
        | inr l ↦ rw l (find-IsLatest session ops)
      ]
find-IsLatest session (recorded now s ∷ ops) =
    elim (Bool-cases (is_empty (trim_space s.session_id))) [
      | inl e ↦ rw e (find-IsLatest session ops)
      | inr e ↦ elim (Bool-cases (is_empty (trim_space s.state_hash))) [
        | inl f ↦ rw (e, f) (find-IsLatest session ops)
        | inr f ↦
            elim (Bool-cases (text_eq (trim_space s.session_id) (trim_space session) && s.stable)) [
              | inl t ↦ rw (e, f, t) (suc (length (replay ops).snapshots), refl)
              | inr t ↦ rw (e, f, t) (find-IsLatest session ops)
            ]
      ]
    ]

-- No snapshot is of a blank session.
latest-blank :
    (session : Text) (ops : List Operation)
    → is_empty (trim_space session) ≡ true
    → latest session ops ≡ none
unfolding latest
latest-blank session [] h = refl
latest-blank session (blocked e ∷ ops) h = latest-blank session ops h
latest-blank session (recorded now s ∷ ops) h = elim (Bool-cases (is_of session s)) [
  | inr f ↦ rw f (latest-blank session ops h)
  | inl t ↦
      let n : is_empty (trim_space s.session_id) ≡ false = ground (arith, t) in
      let q : trim_space s.session_id ≡ trim_space session =
        (text_eq_iff (trim_space s.session_id) (trim_space session)).0 (ground (arith, t)) in
      absurd (cc (h, n, q))
]

-- After any history of calls that record snapshots and block actions, GetLatestStablePlanningSnapshot
-- answers the snapshot of the latest call with both keys, marked stable, for the trimmed session, as it was
-- stored, or none if there is none; and IsPlanningActionBlacklisted answers yes exactly if none of its
-- trimmed arguments is empty and some call blocked that action in that state of that session.
pub replay-tells :
    (session state action : Text) (ops : List Operation)
    → IsLatest
        (latest session ops)
        (get_latest_stable_planning_snapshot session (replay ops).snapshots)
      × (is_planning_action_blacklisted session state action (replay ops).blacklist ≡ (
          not (lacks_key (trim_space session) (trim_space state) (trim_space action))
          && was_blocked session state action ops))
unfolding get_latest_stable_planning_snapshot is_planning_action_blacklisted
replay-tells session state action ops = (
  elim (Bool-cases (is_empty (trim_space session))) [
    | inl e ↦ rw (e, latest-blank session ops e) refl
    | inr e ↦ rw e (find-IsLatest session ops)
  ],
  elim (Bool-cases (lacks_key (trim_space session) (trim_space state) (trim_space action))) [
    | inl l ↦ rw l refl
    | inr l ↦ rw l (any-was_blocked session state action ops l)
  ],
)

-- ===== src/Tests/StoreRuns.antt =====
-- The theorems on the tables of the store at concrete rows.
use chum.Base.{
  ℕ, suc, ◌*◌, ◌+◌, ◌≤◌, ◌<◌, ◌≡◌, ◌⊎◌, ◌↔◌, refl, true, false, not, ◌&&◌, List, [], ◌∷◌, Memᴰ,
  none, some, arith, if◌then◌else◌,
}
use chum.Base.Int.{pos, pos_part}
use chum.Base.Result.{ok, err}
use chum.Base.Sort.{IsSorted}
use chum.Text.{Text, text, text_eq, is_empty, is_space}
use chum.Text.Trim.{trim_space, trim_left, trim_right}
use chum.Store.Claims.{
  ClaimLease, upsert_claim_lease, get_claim_lease, by_heartbeat, get_expired_claim_leases,
  heartbeat_claim_lease, seconds,
}
use chum.Store.Claims.Laws.{
  claimed, refreshed, perform, Reach, IsLeased, Reach-IsLeased, owned, upsert-get,
}
use chum.Store.Claims.Expiry.{get_expired-decides, heartbeat-unexpired}
use chum.Store.Planning.{
  PlanningStateSnapshot, PlanningBlacklistEntry, get_latest_stable_planning_snapshot,
  is_planning_action_blacklisted, lacks_key,
}
use chum.Store.Planning.Replay
use chum.Store.Planning.Replay.{recorded, blocked, IsLatest, was_blocked, replay-tells}
use chum.Store.PlanGate.{get_active_approved_plan, has_active_approved_plan}
use chum.Store.PlanGate.Laws.{Operation, activated, cleared, replay, latest, replay-latest}

abbrev second : ℕ
second = 1000000000

abbrev history : List ClaimLease
history =
    perform (9 * second) (refreshed (text "m1"))
      (perform (5 * second) (claimed (text " m1 ") (text "chum") (text "/srv") (text "shark")) [])

history-Reach : Reach (9 * second) history
history-Reach =
    Reach.later (9 * second) (refreshed (text "m1"))
      (Reach.later (5 * second) (claimed (text " m1 ") (text "chum") (text "/srv") (text "shark"))
        (Reach.start second) (omega arith) refl)
      (omega arith) refl

Reach-IsLeased_example : IsLeased (9 * second) history
Reach-IsLeased_example = Reach-IsLeased history-Reach

abbrev lease : ClaimLease
lease = record {
  morsel_id = text "m1";
  project = text "chum";
  morsels_dir = text "/srv";
  agent_id = text "shark";
  dispatch_id = pos 4;
  claimed_at = 5;
  heartbeat_at = 9;
}

get_expired-decides_example :
    IsSorted by_heartbeat (get_expired_claim_leases (70 * second) (pos (60 * second)) (lease ∷ []))
    × ((l : ClaimLease)
        → Memᴰ l (get_expired_claim_leases (70 * second) (pos (60 * second)) (lease ∷ [])) ↔ (
            (0 < pos_part (pos (60 * second)))
            × Memᴰ l (lease ∷ [])
            × (suc l.heartbeat_at * 1000000000 + pos_part (pos (60 * second)) ≤ 70 * second)))
get_expired-decides_example = get_expired-decides (70 * second) (pos (60 * second)) (lease ∷ [])

m1_named : is_empty (trim_space (text "m1")) ≡ false
unfolding trim_space trim_left trim_right is_space
m1_named = refl

heartbeat-unexpired_example : ¬ (
    Memᴰ lease (
      get_expired_claim_leases
        (125 * second)
        (pos (60 * second))
        (heartbeat_claim_lease (70 * second) (text "m1") (lease ∷ [])))
    × (lease.morsel_id ≡ trim_space (text "m1")))
heartbeat-unexpired_example =
    heartbeat-unexpired (70 * second) (125 * second) (60 * second) (text "m1") (lease ∷ []) lease
      m1_named (omega arith)

upsert-get_example :
    ((is_empty (trim_space (text " m1")) ≡ true)
      × (upsert_claim_lease
            (70 * second)
            (text " m1")
            (text "chum")
            (text "/srv")
            (text "whale")
            (lease ∷ [])
          ≡ err (text "store: upsert claim lease: morsel_id is required")))
    ⊎ ((is_empty (trim_space (text " m1")) ≡ false)
        × (rows' : List ClaimLease) × (upsert_claim_lease
              (70 * second)
              (text " m1")
              (text "chum")
              (text "/srv")
              (text "whale")
              (lease ∷ [])
            ≡ ok rows')
        × (get_claim_lease (text "m1") rows' ≡ (
            if text_eq (trim_space (text " m1")) (trim_space (text "m1"))
            then some (elim (get_claim_lease (text " m1") (lease ∷ [])) [
              | none ↦
                  owned
                    (70 * second)
                    (text "chum")
                    (text "/srv")
                    (text "whale")
                    (trim_space (text " m1"))
                    (pos 0)
                    (seconds (70 * second))
              | some l ↦
                  owned
                    (70 * second)
                    (text "chum")
                    (text "/srv")
                    (text "whale")
                    l.morsel_id
                    l.dispatch_id
                    l.claimed_at
            ])
            else get_claim_lease (text "m1") (lease ∷ []))))
upsert-get_example =
    upsert-get (70 * second) (text " m1") (text "chum") (text "/srv") (text "whale") (text "m1")
      (lease ∷ [])

abbrev gates : List Operation
gates =
    activated 9 (text "  ") (text "simon")
    ∷ activated 7 (text " plan-2 ") []
    ∷ cleared 5
    ∷ activated 3 (text "plan-1") (text "simon")
    ∷ []

replay-latest_example :
    (get_active_approved_plan (replay gates) ≡ latest gates)
    × (has_active_approved_plan (replay gates)
        ≡ (elim (latest gates) [ none ↦ false | some p ↦ true ], latest gates))
replay-latest_example = replay-latest gates

abbrev snapshot : Text → PlanningStateSnapshot
snapshot hash = record {
  id = 0;
  session_id = text " s1 ";
  run_id = [];
  project = text "chum";
  task_id = [];
  cycle = pos 1;
  stage = text "rank";
  state_hash = hash;
  state_json = [];
  stable = true;
  reason = [];
  created_at = 0;
}

abbrev entry : PlanningBlacklistEntry
entry = record {
  session_id = text "s1";
  project = text "chum";
  task_id = [];
  cycle = pos 1;
  stage = text "rank";
  state_hash = text "h1";
  action_hash = text "a1 ";
  reason = text "failed twice";
  metadata = [];
}

abbrev planned : List Replay.Operation
planned = recorded 9 (snapshot []) ∷ blocked entry ∷ recorded 7 (snapshot (text "h1")) ∷ []

replay-tells_example :
    IsLatest
      (Replay.latest (text "s1") planned)
      (get_latest_stable_planning_snapshot (text "s1") (Replay.replay planned).snapshots)
    × (is_planning_action_blacklisted
          (text "s1")
          (text "h1")
          (text "a1")
          (Replay.replay planned).blacklist
        ≡ (not
              (lacks_key (trim_space (text "s1")) (trim_space (text "h1")) (trim_space (text "a1")))
            && was_blocked (text "s1") (text "h1") (text "a1") planned))
replay-tells_example = replay-tells (text "s1") (text "h1") (text "a1") planned

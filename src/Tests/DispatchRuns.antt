-- ===== src/Tests/DispatchRuns.antt =====
-- The theorems on the rate limiter at a table of two usages, under a cap of three.
use chum.Base.{ℕ, ◌≡◌, refl, [], ◌∷◌, none, some, true, false, if◌then◌else◌, length, eqb}
use chum.Base.Int.{pos}
use chum.Base.Result.{err}
use chum.Text.{text}
use chum.Text.Dict.{Dict}
use chum.Dispatch.Usage.{
  UsageRow, UsageDb, Faults, usage_store, usage_table, insert_usage, delete_usage, count_since,
  next_id,
}
use chum.Dispatch.Usage.Laws.{IsRecorded, record_usage-decides, usage_table-UsageLaws}
use chum.Dispatch.RateLimit.{
  RateLimits, Provider, record_authed_dispatch, pick_from, post_limit, cap_5h, when_allowed,
  can_dispatch_authed, check_5h, check_weekly, at_cap, after_insert, confirm, rolled_back,
}
use chum.Dispatch.RateLimit.Reserve.{IsReservation, record_authed_dispatch-IsReservation}
use chum.Dispatch.RateLimit.Slots.{HasSlot, record_authed_dispatch-HasSlot}
use chum.Dispatch.RateLimit.Pick.{IsSearch, pick_from-IsSearch}

abbrev usage : ℕ → ℕ → UsageRow
usage id at = record {
  id = id;
  provider = text "claude";
  agent_id = text "a";
  morsel_id = text "m";
  dispatched_at = at;
}

abbrev two_usages : UsageDb
two_usages = record { usage = usage 1 99000 ∷ usage 2 99500 ∷ []; last_id = 2 }

abbrev cap_of_three : RateLimits
cap_of_three = record { window_5h_cap = pos 3; weekly_cap = pos 200 }

abbrev providers : Dict Provider
providers =
    (text "claude", record { authed = true; model = text "opus" })
    ∷ (text "local", record { authed = false; model = text "llama" })
    ∷ []

-- The third slot under a cap of three is not given.
third_refused :
    (record_authed_dispatch
      (usage_table 100000)
      cap_of_three
      (text "opus")
      (text "a")
      (text "m")
      two_usages).0
    ≡ err (post_limit (cap_5h 3 (pos 3)))
unfolding record_authed_dispatch when_allowed can_dispatch_authed check_5h check_weekly at_cap
    after_insert confirm rolled_back insert_usage delete_usage count_since next_id
third_refused = refl

-- The driver answers no id for a table of two rows.
abbrev no_id : UsageDb → Faults
no_id db = record {
  insert = none;
  last_insert_id = if eqb (length db.usage) 2 then some (text "no id") else none;
  delete = none;
  count = none;
}

record_usage-decides_example :
    IsRecorded no_id 100000 (text "claude") (text "a") (text "m") two_usages (
      (usage_store no_id 100000).record_provider_usage
        (text "claude")
        (text "a")
        (text "m")
        two_usages)
record_usage-decides_example =
    record_usage-decides no_id 100000 (text "claude") (text "a") (text "m") two_usages

record_authed_dispatch-IsReservation_example :
    IsReservation (usage_table 100000) cap_of_three two_usages (
      record_authed_dispatch
        (usage_table 100000)
        cap_of_three
        (text "opus")
        (text "a")
        (text "m")
        two_usages)
record_authed_dispatch-IsReservation_example =
    record_authed_dispatch-IsReservation (usage_table 100000) cap_of_three
      (usage_table-UsageLaws 100000) (text "opus") (text "a") (text "m") two_usages

pick_from-IsSearch_example :
    IsSearch
      (usage_table 100000)
      cap_of_three
      (usage_table-UsageLaws 100000)
      providers
      none
      (text "a")
      (text "m")
      (text "claude" ∷ text "local" ∷ [])
      two_usages.usage
      (pick_from
        (usage_table 100000)
        cap_of_three
        providers
        none
        (text "a")
        (text "m")
        (text "claude" ∷ text "local" ∷ [])
        two_usages)
pick_from-IsSearch_example =
    pick_from-IsSearch (usage_table 100000) cap_of_three (usage_table-UsageLaws 100000) providers
      none (text "a") (text "m") (text "claude" ∷ text "local" ∷ []) two_usages

record_authed_dispatch-HasSlot_example : HasSlot 100000 cap_of_three two_usages (
    record_authed_dispatch
      (usage_table 100000)
      cap_of_three
      (text "opus")
      (text "a")
      (text "m")
      two_usages)
record_authed_dispatch-HasSlot_example =
    record_authed_dispatch-HasSlot 100000 cap_of_three (text "opus") (text "a") (text "m")
      two_usages

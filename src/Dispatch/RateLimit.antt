-- ===== src/Dispatch/RateLimit.antt =====
-- internal/dispatch/ratelimit.go: one authed dispatch is counted before it starts. The mutex of the limiter
-- makes each operation one step; the state is that of the store.
pub mod Reserve
pub mod Pick
pub mod Slots
use chum.Base.{
  ℕ, zero, suc, Bool, true, false, not, List, [], ◌∷◌, Option, none, some, if◌then◌else◌,
}
use chum.Base.Int.{ℤ, pos, ltb_ℤ}
use chum.Base.Result.{Result, ok, err}
use chum.Text.{Text, text, text_eq}
use chum.Text.Dict.{Dict, lookup}
use chum.Dispatch.Usage.{UsageStore}

-- The fields of config.RateLimits, config.Provider and config.Tiers that the limiter reads.
pub record RateLimits : Type 0 where
  pub window_5h_cap : ℤ
  pub weekly_cap : ℤ

pub record Provider : Type 0 where
  pub authed : Bool
  pub model : Text

pub record Tiers : Type 0 where
  pub fast : List Text
  pub balanced : List Text
  pub premium : List Text

-- The reasons of a refusal, one for each message.
pub data Reason : Type 0 where
  error_5h : Text → Reason
  cap_5h : ℕ → ℤ → Reason
  error_weekly : Text → Reason
  cap_weekly : ℕ → ℤ → Reason

-- `dispatchReserveResult` with its error.
pub data Refusal : Type 0 where
  pre_limit : Reason → Refusal
  not_recorded : Text → Refusal
  rollback_failed : Text → Refusal
  post_limit : Reason → Refusal

-- What a successful choice answers; the cleanup function is there exactly with a reservation.
pub record Picked : Type 0 where
  pub provider : Provider
  pub provider_name : Text
  pub usage_id : ℕ
  pub has_cleanup : Bool

unfoldable pub at_cap : ℕ → ℤ → Bool
at_cap count cap = not (ltb_ℤ (pos count) cap)

unfoldable pub check_weekly : RateLimits → Result Text ℕ → Result Reason (Unit {0})
check_weekly cfg (err e) = err (error_weekly e)
check_weekly cfg (ok count) =
    if at_cap count cfg.weekly_cap then err (cap_weekly count cfg.weekly_cap) else ok tt

unfoldable pub check_5h :
    RateLimits → Result Text ℕ → Result Reason (Unit {0}) → Result Reason (Unit {0})
check_5h cfg (err e) weekly = err (error_5h e)
check_5h cfg (ok count) weekly =
    if at_cap count cfg.window_5h_cap then err (cap_5h count cfg.window_5h_cap) else weekly

module _ (st : UsageStore) (cfg : RateLimits) where
  -- `canDispatchAuthedLocked`.
  unfoldable pub can_dispatch_authed : st.State → Result Reason (Unit {0})
  can_dispatch_authed s =
      check_5h cfg (st.count_authed_usage_5h s) (check_weekly cfg (st.count_authed_usage_weekly s))

  -- The rollback of `recordAuthedDispatchLocked`.
  unfoldable pub rolled_back :
      Reason → Result Text (Unit {0}) × st.State → Result Refusal ℕ × st.State
  rolled_back reason (err e, s) = (err (rollback_failed e), s)
  rolled_back reason (ok done, s) = (err (post_limit reason), s)

  -- What follows the insertion.
  unfoldable pub confirm : ℕ → st.State → Result Reason (Unit {0}) → Result Refusal ℕ × st.State
  confirm id s (ok allowed) = (ok id, s)
  confirm id s (err reason) = rolled_back reason (st.delete_provider_usage id s)

  unfoldable pub after_insert : Result Text ℕ × st.State → Result Refusal ℕ × st.State
  after_insert (err e, s) = (err (not_recorded e), s)
  after_insert (ok id, s) = confirm id s (can_dispatch_authed s)

  -- What follows the first check.
  unfoldable pub when_allowed :
      Text → Text → Text → st.State → Result Reason (Unit {0}) → Result Refusal ℕ × st.State
  when_allowed provider agent morsel s (err reason) = (err (pre_limit reason), s)
  when_allowed provider agent morsel s (ok allowed) =
      after_insert (st.record_provider_usage provider agent morsel s)

  unfoldable pub record_authed_dispatch :
      Text → Text → Text → st.State → Result Refusal ℕ × st.State
  record_authed_dispatch provider agent morsel s =
      when_allowed provider agent morsel s (can_dispatch_authed s)

  unfoldable pub release_authed_dispatch : ℕ → st.State → Result Text (Unit {0}) × st.State
  release_authed_dispatch zero s = (ok tt, s)
  release_authed_dispatch (suc n) s = st.delete_provider_usage (suc n) s

  -- A nil map excludes nothing.
  unfoldable pub is_excluded : Option (Dict Bool) → Text → Bool
  is_excluded none model = false
  is_excluded (some m) model = elim (lookup model m) [ none ↦ false | some b ↦ b ]

  -- The round of the loop after a reservation; `rest` goes on to the next candidate. Only the errors that
  -- come with `dispatchReservePostLimit` end the search.
  unfoldable pub take_reserved :
      Text
      → Provider
      → (st.State → Result Refusal (Option Picked) × st.State)
      → Result Refusal ℕ × st.State
      → Result Refusal (Option Picked) × st.State
  take_reserved name p rest (ok id, s) = (
    ok (some (record { provider = p; provider_name = name; usage_id = id; has_cleanup = true })),
    s,
  )
  take_reserved name p rest (err (rollback_failed e), s) = (err (rollback_failed e), s)
  take_reserved name p rest (err (post_limit reason), s) = (err (post_limit reason), s)
  take_reserved name p rest (err (pre_limit reason), s) = rest s
  take_reserved name p rest (err (not_recorded e), s) = rest s

  module _ (providers : Dict Provider) (exclude : Option (Dict Bool)) (agent morsel : Text) where
    -- The round for a provider that is excluded or not, and authed or not.
    unfoldable pub try_provider :
        Text
        → Provider
        → (st.State → Result Refusal (Option Picked) × st.State)
        → Bool
        → Bool
        → st.State
        → Result Refusal (Option Picked) × st.State
    try_provider name p rest true authed s = rest s
    try_provider name p rest false false s = (
      ok (some (record { provider = p; provider_name = name; usage_id = 0; has_cleanup = false })),
      s,
    )
    try_provider name p rest false true s =
        take_reserved name p rest (record_authed_dispatch p.model agent morsel s)

    unfoldable pub try_candidate :
        Text
        → (st.State → Result Refusal (Option Picked) × st.State)
        → Option Provider
        → st.State
        → Result Refusal (Option Picked) × st.State
    try_candidate name rest none s = rest s
    try_candidate name rest (some p) s =
        try_provider name p rest (is_excluded exclude p.model) p.authed s

    unfoldable pub pick_from : List Text → st.State → Result Refusal (Option Picked) × st.State
    pick_from [] s = (ok none, s)
    pick_from (name ∷ names) s = try_candidate name (pick_from names) (lookup name providers) s

-- `PickAndReserveProvider` searches the candidates of the tier.
unfoldable pub tier_providers : Tiers → Text → List Text
tier_providers tiers tier =
    if text_eq tier (text "fast")
    then tiers.fast
    else if text_eq tier (text "balanced")
    then tiers.balanced
    else if text_eq tier (text "premium")
    then tiers.premium
    else tiers.balanced

unfoldable pub pick_and_reserve_provider :
    (st : UsageStore)
    → RateLimits
    → Text
    → Dict Provider
    → Tiers
    → Text
    → Text
    → st.State
    → Result Refusal (Option Picked) × st.State
pick_and_reserve_provider st cfg tier providers tiers agent morsel s =
    pick_from st cfg providers none agent morsel (tier_providers tiers tier) s

unfoldable pub downgrade_tier : Text → Text
downgrade_tier tier =
    if text_eq tier (text "premium")
    then text "balanced"
    else if text_eq tier (text "balanced")
    then text "fast"
    else []

unfoldable pub upgrade_tier : Text → Text
upgrade_tier tier =
    if text_eq tier (text "fast")
    then text "balanced"
    else if text_eq tier (text "balanced")
    then text "premium"
    else []

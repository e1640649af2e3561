-- ===== src/Dispatch/RateLimit/Reserve.antt =====
-- `recordAuthedDispatchLocked`: what a reservation leaves in the table.
use chum.Base.{ℕ, suc, ◌≡◌, refl, ◌∙◌, true, arith, ap, length}
use chum.Base.Int.{pos, ltb_ℤ}
use chum.Base.Result.{Result, ok, err}
use chum.Text.{Text}
use chum.Dispatch.Usage.{UsageStore, UsageLaws}
use chum.Dispatch.RateLimit.{
  RateLimits, Reason, Refusal, rollback_failed, at_cap, check_weekly, check_5h, can_dispatch_authed,
  rolled_back, confirm, after_insert, when_allowed, record_authed_dispatch,
}

-- Both usages can be counted, and stay below their caps.
abbrev pub IsBelowCaps : (st : UsageStore) → RateLimits → st.State → Type 0
IsBelowCaps st cfg s =
    (n m : ℕ) × (st.count_authed_usage_5h s ≡ ok n)
    × (ltb_ℤ (pos n) cfg.window_5h_cap ≡ true)
    × (st.count_authed_usage_weekly s ≡ ok m)
    × (ltb_ℤ (pos m) cfg.weekly_cap ≡ true)

module _ (st : UsageStore) (cfg : RateLimits) where
  check-below :
      (r w : Result Text ℕ)
      → check_5h cfg r (check_weekly cfg w) ≡ ok tt
      → (n m : ℕ) × (r ≡ ok n)
        × (ltb_ℤ (pos n) cfg.window_5h_cap ≡ true)
        × (w ≡ ok m)
        × (ltb_ℤ (pos m) cfg.weekly_cap ≡ true)
  unfolding check_5h check_weekly at_cap
  check-below (err e) w h = cc
  check-below (ok n) (err e) h = ground arith
  check-below (ok n) (ok m) h = (n, m, refl, ground arith, refl, ground arith)

  pub can_dispatch_authed-IsBelowCaps :
      (s : st.State) → can_dispatch_authed st cfg s ≡ ok tt → IsBelowCaps st cfg s
  unfolding can_dispatch_authed
  can_dispatch_authed-IsBelowCaps s h = check-below _ _ h

  -- The outcome of a reservation over a table with the rows `before`.
  abbrev pub IsReservation : st.State → Result Refusal ℕ × st.State → Type 0
  IsReservation s (ok id, s') =
      IsBelowCaps st cfg s
      × IsBelowCaps st cfg s'
      × (length (st.rows s') ≡ suc (length (st.rows s)))
  IsReservation s (err (rollback_failed e), s') = length (st.rows s') ≡ suc (length (st.rows s))
  IsReservation s (err _, s') = st.rows s' ≡ st.rows s

  module _ (laws : UsageLaws st) where
    module _ (provider agent morsel : Text) (s : st.State) where
      rolled_back-IsReservation :
          (id : ℕ) (s1 : st.State) (reason : Reason) (r : Result Text (Unit {0}) × st.State)
          → st.record_provider_usage provider agent morsel s ≡ (ok id, s1)
          → st.delete_provider_usage id s1 ≡ r
          → IsReservation s (rolled_back st cfg reason r)
      unfolding rolled_back
      rolled_back-IsReservation id s1 reason (err e, s2) h k =
          ap length (laws.delete_failed id s1 s2 e k)
          ∙ laws.inserted provider agent morsel s s1 id h
      rolled_back-IsReservation id s1 reason (ok tt, s2) h k =
          laws.insert_deleted provider agent morsel s s1 s2 id h k

      confirm-IsReservation :
          (id : ℕ) (s1 : st.State) (c : Result Reason (Unit {0}))
          → st.record_provider_usage provider agent morsel s ≡ (ok id, s1)
          → IsBelowCaps st cfg s
          → can_dispatch_authed st cfg s1 ≡ c
          → IsReservation s (confirm st cfg id s1 c)
      unfolding confirm
      confirm-IsReservation id s1 (ok tt) h b c =
          (b, can_dispatch_authed-IsBelowCaps s1 c, laws.inserted provider agent morsel s s1 id h)
      confirm-IsReservation id s1 (err reason) h b c =
          rolled_back-IsReservation id s1 reason (st.delete_provider_usage id s1) h refl

      after_insert-IsReservation :
          (r : Result Text ℕ × st.State)
          → st.record_provider_usage provider agent morsel s ≡ r
          → IsBelowCaps st cfg s
          → IsReservation s (after_insert st cfg r)
      unfolding after_insert
      after_insert-IsReservation (err e, s1) h b = laws.insert_failed provider agent morsel s s1 e h
      after_insert-IsReservation (ok id, s1) h b = confirm-IsReservation id s1 _ h b refl

      when_allowed-IsReservation :
          (c : Result Reason (Unit {0}))
          → can_dispatch_authed st cfg s ≡ c
          → IsReservation s (when_allowed st cfg provider agent morsel s c)
      unfolding when_allowed
      when_allowed-IsReservation (err reason) e = refl
      when_allowed-IsReservation (ok tt) e =
          after_insert-IsReservation _ refl (can_dispatch_authed-IsBelowCaps s e)

      -- Over a store whose failed statements change nothing, a reservation that is made finds both usages
      -- below their caps before and after it and adds one row to provider_usage; a refused one leaves the
      -- table as it was, unless the deletion fails that takes the row away again.
      pub record_authed_dispatch-IsReservation :
          IsReservation s (record_authed_dispatch st cfg provider agent morsel s)
      unfolding record_authed_dispatch
      record_authed_dispatch-IsReservation =
          when_allowed-IsReservation (can_dispatch_authed st cfg s) refl

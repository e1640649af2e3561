-- ===== src/Dispatch/RateLimit/Slots.antt =====
-- How many reservations the table of usage admits under given caps, while no statement fails.
use chum.Base.{
  ℕ, suc, ◌-◌, ◌≤◌, ◌≡◌, refl, ◌⊎◌, inl, inr, Bool, true, false, ◌&&◌, List, [], ◌∷◌, ◌++◌, arith,
  Bool-cases,
}
use chum.Base.Int.{pos, ltb_ℤ}
use chum.Base.Result.{Result, ok, err}
use chum.Text.{Text}
use chum.Dispatch.Usage.{
  UsageRow, UsageDb, usage_table, count_since, insert_usage, delete_usage, next_id, delete-insert,
  delete_usage-ok, UsageStore,
}
use chum.Dispatch.RateLimit.{
  RateLimits, Refusal, Reason, pre_limit, cap_5h, cap_weekly, post_limit, at_cap, check_5h,
  check_weekly, can_dispatch_authed, rolled_back, confirm, after_insert, when_allowed,
  record_authed_dispatch,
}

-- The row that is inserted now counts.
count_since-insert :
    (start now : ℕ) (rs : List UsageRow) (r : UsageRow)
    → r.dispatched_at ≡ now
    → start ≤ now
    → count_since start (rs ++ r ∷ []) ≡ suc (count_since start rs)
unfolding count_since
count_since-insert start now [] r e h = ground arith
count_since-insert start now (q ∷ rs) r e h = ground (arith, count_since-insert start now rs r e h)

-- Room for one more usage below both caps.
abbrev pub has_room : ℕ → RateLimits → UsageDb → Bool
has_room now cfg db =
    ltb_ℤ (pos (suc (count_since (now - 18000) db.usage))) cfg.window_5h_cap
    && ltb_ℤ (pos (suc (count_since (now - 604800) db.usage))) cfg.weekly_cap

abbrev pub HasSlot : ℕ → RateLimits → UsageDb → Result Refusal ℕ × UsageDb → Type 0
HasSlot now cfg db r =
    ((has_room now cfg db ≡ true) × (r.0 ≡ ok (next_id db.last_id db.usage)))
    ⊎ ((has_room now cfg db ≡ false) × (e : Refusal) × (r.0 ≡ err e) × (r.1.usage ≡ db.usage))

module _ (cfg : RateLimits) where
  abbrev below : ℕ → ℕ → Bool
  below n m = ltb_ℤ (pos n) cfg.window_5h_cap && ltb_ℤ (pos m) cfg.weekly_cap

  gate-ok : (n m : ℕ) → below n m ≡ true → check_5h cfg (ok n) (check_weekly cfg (ok m)) ≡ ok tt
  unfolding check_5h check_weekly at_cap
  gate-ok n m h = ground arith

  gate-err :
      (n m : ℕ)
      → below n m ≡ false
      → (reason : Reason) × (check_5h cfg (ok n) (check_weekly cfg (ok m)) ≡ err reason)
  unfolding check_5h check_weekly at_cap
  gate-err n m h = elim (Bool-cases (ltb_ℤ (pos n) cfg.window_5h_cap)) [
    | inr e ↦ (cap_5h n cfg.window_5h_cap, rw e refl)
    | inl e ↦
        let f : ltb_ℤ (pos m) cfg.weekly_cap ≡ false = rw e at h in
        (cap_weekly m cfg.weekly_cap, rw (e, f) refl)
  ]

  below-suc : (n m : ℕ) → below (suc n) (suc m) ≡ true → below n m ≡ true
  below-suc n m h = ground arith

rolled_back-ok :
    (st : UsageStore) (cfg : RateLimits) (reason : Reason) (r : Result Text (Unit {0}) × st.State)
    → r.0 ≡ ok tt
    → rolled_back st cfg reason r ≡ (err (post_limit reason), r.1)
unfolding rolled_back
rolled_back-ok st cfg reason (ok tt, s) h = refl
rolled_back-ok st cfg reason (err e, s) h = cc

module _ (now : ℕ) (cfg : RateLimits) (provider agent morsel : Text) (db : UsageDb) where
  abbrev grown : UsageDb
  grown = (insert_usage now provider agent morsel db).1

  abbrev gate : UsageDb → Result Reason (Unit {0})
  gate s = can_dispatch_authed (usage_table now) cfg s

  room_first : has_room now cfg db ≡ true → gate db ≡ ok tt
  unfolding can_dispatch_authed
  room_first h = gate-ok cfg _ _ (below-suc cfg _ _ h)

  grown_count :
      (start : ℕ) → start ≤ now → count_since start grown.usage ≡ suc (count_since start db.usage)
  unfolding insert_usage
  grown_count start h = count_since-insert start now db.usage _ refl h

  grown_room :
      (b : Bool)
      → has_room now cfg db ≡ b
      → below cfg (count_since (now - 18000) grown.usage) (count_since (now - 604800) grown.usage)
        ≡ b
  grown_room b h =
      rw (grown_count (now - 18000) (omega arith), grown_count (now - 604800) (omega arith)) h

  room_second : has_room now cfg db ≡ true → gate grown ≡ ok tt
  unfolding can_dispatch_authed
  room_second h = gate-ok cfg _ _ (grown_room true h)

  no_room_second : has_room now cfg db ≡ false → (reason : Reason) × (gate grown ≡ err reason)
  unfolding can_dispatch_authed
  no_room_second h = gate-err cfg _ _ (grown_room false h)

  confirm-HasSlot :
      (c : Result Reason (Unit {0}))
      → gate grown ≡ c
      → HasSlot now cfg db (confirm (usage_table now) cfg (next_id db.last_id db.usage) grown c)
  unfolding confirm
  confirm-HasSlot (ok tt) e = elim (Bool-cases (has_room now cfg db)) [
    | inl h ↦ inl (h, refl)
    | inr h ↦ let (reason, q) = no_room_second h in absurd (cc (q, e))
  ]
  confirm-HasSlot (err reason) e = elim (Bool-cases (has_room now cfg db)) [
    | inl h ↦ absurd (cc (room_second h, e))
    | inr h ↦
        let id = next_id db.last_id db.usage in
        rw
          (rolled_back-ok (usage_table now) cfg reason (delete_usage id grown)
            (delete_usage-ok id grown))
          (inr (h, post_limit reason, refl, delete-insert now provider agent morsel db))
  ]

  when_allowed-HasSlot :
      (c : Result Reason (Unit {0}))
      → gate db ≡ c
      → HasSlot now cfg db (when_allowed (usage_table now) cfg provider agent morsel db c)
  unfolding when_allowed after_insert insert_usage
  when_allowed-HasSlot (ok tt) e = confirm-HasSlot (gate grown) refl
  when_allowed-HasSlot (err reason) e = elim (Bool-cases (has_room now cfg db)) [
    | inl h ↦ absurd (cc (room_first h, e))
    | inr h ↦ inr (h, pre_limit reason, refl, refl)
  ]

  -- While no statement fails, a reservation is made exactly if one more usage stays below both caps, so the
  -- last usage under a cap is never given; otherwise it is refused and the rows of provider_usage are as
  -- they were.
  pub record_authed_dispatch-HasSlot :
      HasSlot now cfg db (record_authed_dispatch (usage_table now) cfg provider agent morsel db)
  unfolding record_authed_dispatch
  record_authed_dispatch-HasSlot = when_allowed-HasSlot (gate db) refl

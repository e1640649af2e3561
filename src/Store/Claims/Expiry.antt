-- ===== src/Store/Claims/Expiry.antt =====
-- Which leases are expired, and how long a refreshed lease is not.
use mathlib.Core.List.Memᴰ
use chum.Base.{
  ℕ, suc, ◌+◌, ◌-◌, ◌*◌, ◌≤◌, ◌<◌, ◌≡◌, ◌↔◌, inl, inr, ap, true, false, List, [], ◌∷◌, Memᴰ, arith,
  ltb, select, select-In, In-select, ltb→lt, lt→ltb, Bool-cases,
}
use chum.Base.Int.{ℤ, pos, negsuc, ltb_ℤ, pos_part}
use chum.Base.Sort.{IsSorted, IsStrictWeak, sort_by-IsSorted, In-sort_by, sort_by-In}
use chum.Text.{Text, is_empty}
use chum.Text.Trim.{trim_space}
use chum.Store.Table.{update_key}
use chum.Store.Rows.{cases-update_key}
use chum.Store.Claims.{
  ClaimLease, by_morsel, seconds, on_id, by_heartbeat, beat, heartbeat_claim_lease,
  get_expired_claim_leases,
}

by_heartbeat-IsStrictWeak : IsStrictWeak by_heartbeat
by_heartbeat-IsStrictWeak = record {
  asym = λ x y h. ground arith;
  cotrans = λ x y z h k. ground arith;
}

-- What the comparison of seconds says in nanoseconds.
cutoff_lem :
    (now ttl h : ℕ)
    → 0 < ttl
    → (ltb h (seconds (now - ttl)) ≡ true) ↔ (suc h * 1000000000 + ttl ≤ now)
cutoff_lem now ttl h p = (
  λ e. omega (arith, ltb→lt h (seconds (now - ttl)) e),
  λ l. lt→ltb h (seconds (now - ttl)) (omega arith),
)

positive : (ttl : ℤ) → (ltb_ℤ (pos 0) ttl ≡ true) ↔ (0 < pos_part ttl)
positive (pos n) = (λ e. ground (arith, e), λ h. ground arith)
positive (negsuc n) = (λ e. ground (arith, e), λ h. ground arith)

-- GetExpiredClaimLeases answers the leases, oldest heartbeat first, of which the whole second of the
-- heartbeat lies the ttl back, and none if the ttl is not positive.
pub get_expired-decides :
    (now : ℕ) (ttl : ℤ) (rows : List ClaimLease)
    → IsSorted by_heartbeat (get_expired_claim_leases now ttl rows)
      × ((l : ClaimLease)
          → Memᴰ l (get_expired_claim_leases now ttl rows) ↔ (
              (0 < pos_part ttl)
              × Memᴰ l rows
              × (suc l.heartbeat_at * 1000000000 + pos_part ttl ≤ now)))
unfolding get_expired_claim_leases
get_expired-decides now ttl rows = elim (Bool-cases (ltb_ℤ (pos 0) ttl)) [
  | inr e ↦
      rw e (tt, λ l. (λ m. absurd (Memᴰ.not-nil m), λ h. absurd (cc ((positive ttl).1 h.0, e))))
  | inl e ↦
      let due = λ (l : ClaimLease). ltb l.heartbeat_at (seconds (now - pos_part ttl)) in
      let p : 0 < pos_part ttl = (positive ttl).0 e in
      rw e (
        sort_by-IsSorted by_heartbeat-IsStrictWeak (select due rows),
        λ l. (
          λ m.
              let (i, q) = In-select due rows l (In-sort_by by_heartbeat (select due rows) l m) in
              (p, i, (cutoff_lem now (pos_part ttl) l.heartbeat_at p).0 q),
          λ h.
              sort_by-In by_heartbeat (select due rows) l
                (select-In due rows l h.1 ((cutoff_lem now (pos_part ttl) l.heartbeat_at p).1 h.2)),
        ),
      )
]

refreshed :
    (t : ℕ) (m : Text) (rows : List ClaimLease) (l : ClaimLease)
    → is_empty (trim_space m) ≡ false
    → Memᴰ l (heartbeat_claim_lease t m rows)
    → l.morsel_id ≡ trim_space m
    → l.heartbeat_at ≡ seconds t
unfolding heartbeat_claim_lease
refreshed t m rows l = go (trim_space m)
  where
    go :
        (k : Text)
        → is_empty k ≡ false
        → Memᴰ l (on_id rows (λ id. update_key by_morsel id (beat t) rows) k)
        → l.morsel_id ≡ k
        → l.heartbeat_at ≡ seconds t
    go [] n i e = cc n
    go (c ∷ k) n i e = elim (cases-update_key by_morsel (c ∷ k) (beat t) rows l i) [
      | inl (f, j) ↦ absurd (cc ((by_morsel.eq_iff l.morsel_id (c ∷ k)).1 e, f))
      | inr (r, j, f, q) ↦ ap (λ (x : ClaimLease). x.heartbeat_at) q
    ]

-- After a heartbeat of a morsel whose id is not blank at the time t, none of its leases is expired at a
-- time up to t + ttl.
pub heartbeat-unexpired :
    (t t' ttl : ℕ) (m : Text) (rows : List ClaimLease) (l : ClaimLease)
    → is_empty (trim_space m) ≡ false
    → t' ≤ t + ttl
    → ¬ (
        Memᴰ l (get_expired_claim_leases t' (pos ttl) (heartbeat_claim_lease t m rows))
        × (l.morsel_id ≡ trim_space m))
heartbeat-unexpired t t' ttl m rows l n order (i, e) =
    let (p, j, late) =
      ((get_expired-decides t' (pos ttl) (heartbeat_claim_lease t m rows)).1 l).0 i in
    absurd (omega (arith, refreshed t m rows l n j e))

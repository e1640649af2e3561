-- ===== src/Dispatch/RateLimit/Pick.antt =====
-- `pickAndReserveFromCandidates`: which provider a search may answer, and what it leaves in the table.
use mathlib.Core.List.Memᴰ
use chum.Base.{
  ℕ, suc, ◌≡◌, refl, sym, ◌∙◌, ◌⊎◌, inl, inr, Bool, true, false, List, [], ◌∷◌, Memᴰ, Option, none,
  some, ap, length, Bool-cases, subst,
}
use chum.Base.Result.{Result, ok, err}
use chum.Text.{Text}
use chum.Text.Dict.{Dict, lookup}
use chum.Dispatch.Usage.{UsageStore, UsageLaws, UsageRow}
use chum.Dispatch.RateLimit.{
  RateLimits, Provider, Refusal, rollback_failed, post_limit, pre_limit, not_recorded, Picked,
  is_excluded, take_reserved, try_provider, try_candidate, pick_from,
}
use chum.Dispatch.RateLimit.Reserve.{
  IsBelowCaps, IsReservation, record_authed_dispatch-IsReservation,
}

module _ (st : UsageStore) (cfg : RateLimits) (laws : UsageLaws st) (providers : Dict Provider)
    (exclude : Option (Dict Bool)) (agent morsel : Text) where
  some_inj : {p q : Provider} {o : Option Provider} → o ≡ some p → o ≡ some q → p ≡ q
  some_inj h k = cc (h, k)

  -- A provider that may be answered: a listed candidate whose model is not excluded.
  abbrev pub IsEligible : List Text → Picked → Type 0
  IsEligible names r =
      Memᴰ r.provider_name names
      × (lookup r.provider_name providers ≡ some r.provider)
      × (is_excluded st cfg exclude r.provider.model ≡ false)

  -- Every listed provider that is known and not excluded is authed.
  abbrev pub IsAllAuthed : List Text → Type 0
  IsAllAuthed names =
      (n : Text) (q : Provider)
      → Memᴰ n names
      → lookup n providers ≡ some q
      → is_excluded st cfg exclude q.model ≡ false
      → q.authed ≡ true

  -- The outcome of a search over a table with the rows `before`.
  abbrev pub IsSearch :
      List Text → List UsageRow → Result Refusal (Option Picked) × st.State → Type 0
  IsSearch names before (ok (some r), s') =
      IsEligible names r
      × (((r.provider.authed ≡ false) × (r.usage_id ≡ 0) × (st.rows s' ≡ before))
          ⊎ ((r.provider.authed ≡ true)
              × IsBelowCaps st cfg s'
              × (length (st.rows s') ≡ suc (length before))))
  IsSearch names before (ok none, s') = (st.rows s' ≡ before) × IsAllAuthed names
  IsSearch names before (err (rollback_failed e), s') = length (st.rows s') ≡ suc (length before)
  IsSearch names before (err _, s') = st.rows s' ≡ before

  -- A candidate that cannot be had without a reservation.
  abbrev NeedsAuth : Text → Type 0
  NeedsAuth name =
      (q : Provider)
      → lookup name providers ≡ some q
      → is_excluded st cfg exclude q.model ≡ false
      → q.authed ≡ true

  later :
      (name : Text) (names : List Text) (before : List UsageRow)
      (r : Result Refusal (Option Picked) × st.State)
      → NeedsAuth name
      → IsSearch names before r
      → IsSearch (name ∷ names) before r
  later name names before (ok (some r), s') u ((m, l, x), c) = ((Memᴰ.tail m, l, x), c)
  later name names before (ok none, s') u (h, others) = (
    h,
    λ n q m l x. elim (Memᴰ.cases_cons m) [
      | inl e ↦ u q (subst (λ k. lookup k providers ≡ some q) e l) x
      | inr i ↦ others n q i l x
    ],
  )
  later name names before (err (rollback_failed e), s') u h = h
  later name names before (err (post_limit e), s') u h = h
  later name names before (err (pre_limit e), s') u h = h
  later name names before (err (not_recorded e), s') u h = h

  -- What is left to try is a search over the same table.
  abbrev IsRest :
      List Text → List UsageRow → (st.State → Result Refusal (Option Picked) × st.State) → Type 0
  IsRest names before rest = (s : st.State) → st.rows s ≡ before → IsSearch names before (rest s)

  module _ (name : Text) (names : List Text) (p : Provider) (known : lookup name providers ≡ some p)
      (free : is_excluded st cfg exclude p.model ≡ false) (before : List UsageRow)
      (rest : st.State → Result Refusal (Option Picked) × st.State)
      (good : IsRest names before rest) where
    take_reserved-IsSearch :
        (s : st.State) (r : Result Refusal ℕ × st.State)
        → st.rows s ≡ before
        → p.authed ≡ true
        → IsReservation st cfg s r
        → IsSearch (name ∷ names) before (take_reserved st cfg name p rest r)
    unfolding take_reserved
    take_reserved-IsSearch s (ok id, s1) b a (h, below, n) =
        ((Memᴰ.head refl, known, free), inr (a, below, n ∙ ap (λ rs. suc (length rs)) b))
    take_reserved-IsSearch s (err (rollback_failed e), s1) b a h = h ∙ ap (λ rs. suc (length rs)) b
    take_reserved-IsSearch s (err (post_limit e), s1) b a h = h ∙ b
    take_reserved-IsSearch s (err (pre_limit e), s1) b a h =
        later name names before _ (λ q l x. cc (known, l, a)) (good s1 (h ∙ b))
    take_reserved-IsSearch s (err (not_recorded e), s1) b a h =
        later name names before _ (λ q l x. cc (known, l, a)) (good s1 (h ∙ b))

    try_provider-IsSearch :
        (a : Bool) (s : st.State)
        → st.rows s ≡ before
        → p.authed ≡ a
        → IsSearch
            (name ∷ names)
            before
            (try_provider st cfg providers exclude agent morsel name p rest false a s)
    unfolding try_provider
    try_provider-IsSearch false s b e = ((Memᴰ.head refl, known, free), inl (e, refl, b))
    try_provider-IsSearch true s b e =
        take_reserved-IsSearch s _ b e
          (record_authed_dispatch-IsReservation st cfg laws p.model agent morsel s)

  try_candidate-IsSearch :
      (name : Text) (names : List Text) (before : List UsageRow)
      (rest : st.State → Result Refusal (Option Picked) × st.State)
      → IsRest names before rest
      → (o : Option Provider) → lookup name providers ≡ o
      → IsRest
          (name ∷ names)
          before
          (try_candidate st cfg providers exclude agent morsel name rest o)
  unfolding try_candidate try_provider
  try_candidate-IsSearch name names before rest good none l s b =
      later name names before _ (λ q k x. cc (l, k)) (good s b)
  try_candidate-IsSearch name names before rest good (some p) l s b =
      elim (Bool-cases (is_excluded st cfg exclude p.model)) [
        | inl e ↦
            subst
              (λ x.
                IsSearch (name ∷ names) before
                  (try_provider st cfg providers exclude agent morsel name p rest x p.authed s))
              (sym e)
              (later name names before _
                (λ q k x.
                  cc (ap (is_excluded st cfg exclude) (ap (λ r. r.model) (some_inj l k)), e, x))
                (good s b))
        | inr e ↦
            subst
              (λ x.
                IsSearch (name ∷ names) before
                  (try_provider st cfg providers exclude agent morsel name p rest x p.authed s))
              (sym e) (try_provider-IsSearch name names p l e before rest good p.authed s b refl)
      ]

  pick_from-IsRest :
      (names : List Text) (before : List UsageRow)
      → IsRest names before (pick_from st cfg providers exclude agent morsel names)
  unfolding pick_from
  pick_from-IsRest [] before s b = (b, λ n q m l x. elim m [ ])
  pick_from-IsRest (name ∷ names) before s b =
      try_candidate-IsSearch name names before _ (pick_from-IsRest names before)
        (lookup name providers) refl s b

  -- Over a store whose failed statements change nothing a search through candidates answers a listed
  -- provider whose model is not excluded, a free one without a reservation or an authed one whose
  -- reservation leaves both usages below their caps. If it answers none, the table is left as it was and
  -- every listed provider that is known and not excluded is authed; after an error the table is left as it
  -- was, unless a rollback fails.
  pub pick_from-IsSearch :
      (names : List Text) (s : st.State)
      → IsSearch names (st.rows s) (pick_from st cfg providers exclude agent morsel names s)
  pick_from-IsSearch names s = pick_from-IsRest names (st.rows s) s refl

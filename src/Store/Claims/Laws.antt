-- ===== src/Store/Claims/Laws.antt =====
-- The claim leases that the operations leave behind, and what is read back.
use mathlib.Core.List.Memᴰ
use chum.Base.{
  ℕ, ◌≤◌, ◌≡◌, ◌⊎◌, inl, inr, refl, ◌∙◌, subst, Bool, true, false, List, [], ◌∷◌, Memᴰ, Option,
  none, some, arith, if◌then◌else◌,
}
use chum.Base.Int.{ℤ, pos}
use chum.Base.Result.{Result, ok, err}
use chum.Text.{Text, text, text_eq, is_empty}
use chum.Text.Trim.{trim_space, trim_space_idem}
use chum.Store.Table.{
  select_key, upsert, update_key, delete_key, IsKeyed, upsert-IsKeyed, delete_key-IsKeyed,
  select_key-upsert,
}
use chum.Store.Rows.{all-upsert, all-update_key, all-delete_key, update_key-IsKeyed}
use chum.Store.Claims.{
  ClaimLease, by_morsel, seconds, on_id, on_id-cases, new_lease, renew_lease, attach_to, beat,
  upsert_claim_lease, attach_dispatch_to_claim_lease, heartbeat_claim_lease, delete_claim_lease,
  get_claim_lease,
}

-- The operations that write, with their arguments.
pub data Operation : Type 0 where
  claimed : Text → Text → Text → Text → Operation
  attached : Text → ℤ → Operation
  refreshed : Text → Operation
  released : Text → Operation

-- A failed operation leaves the table as it was.
abbrev pub table_after : List ClaimLease → Result Text (List ClaimLease) → List ClaimLease
table_after rows (ok rows') = rows'
table_after rows (err e) = rows

unfoldable pub perform : ℕ → Operation → List ClaimLease → List ClaimLease
perform now (claimed m p d a) rows = table_after rows (upsert_claim_lease now m p d a rows)
perform now (attached m i) rows = table_after rows (attach_dispatch_to_claim_lease now m i rows)
perform now (refreshed m) rows = heartbeat_claim_lease now m rows
perform now (released m) rows = delete_claim_lease m rows

-- The tables that operations reach from the empty one, on a clock that does not run backwards.
pub data Reach : ℕ → List ClaimLease → Type 0 where
  start : (now : ℕ) → Reach now []
  later :
      {t : ℕ} {rows rows' : List ClaimLease} (now : ℕ) (op : Operation)
      → Reach t rows
      → t ≤ now
      → perform now op rows ≡ rows'
      → Reach now rows'

pub record IsLease (now : ℕ) (l : ClaimLease) : Type 0 where
  pub named : is_empty l.morsel_id ≡ false
  pub trimmed : trim_space l.morsel_id ≡ l.morsel_id
  pub ordered : l.claimed_at ≤ l.heartbeat_at
  pub past : l.heartbeat_at ≤ seconds now

abbrev pub IsLeased : ℕ → List ClaimLease → Type 0
IsLeased now rows = IsKeyed by_morsel rows × ((l : ClaimLease) → Memᴰ l rows → IsLease now l)

module _ (t now : ℕ) (l : ClaimLease) (h : IsLease t l) (order : t ≤ now) where
  IsLease-later : IsLease now l
  IsLease-later = record {
    named = h.named;
    trimmed = h.trimmed;
    ordered = h.ordered;
    past = omega (arith, h.past);
  }

  -- A row whose heartbeat is the present, with its name and the time of its claim kept.
  beaten-IsLease :
      (r : ClaimLease)
      → r.morsel_id ≡ l.morsel_id
      → r.claimed_at ≡ l.claimed_at
      → r.heartbeat_at ≡ seconds now
      → IsLease now r
  beaten-IsLease r e c b = record {
    named = rw e h.named;
    trimmed = rw e h.trimmed;
    ordered = omega (arith, h.ordered, h.past);
    past = omega arith;
  }

new_lease-IsLease :
    (now : ℕ) (c : ℕ) (id s p d a : Text)
    → trim_space s ≡ c ∷ id
    → IsLease now (new_lease now (c ∷ id) p d a)
new_lease-IsLease now c id s p d a e = record {
  named = refl;
  trimmed = subst (λ k. trim_space k ≡ k) e (trim_space_idem s);
  ordered = omega arith;
  past = omega arith;
}

module _ (t now : ℕ) (rows : List ClaimLease) (h : IsLeased t rows) (order : t ≤ now) where
  same-IsLeased : IsLeased now rows
  same-IsLeased = (h.0, λ l m. IsLease-later t now l (h.1 l m) order)

  updated-IsLeased :
      (k : Text) (f : ClaimLease → ClaimLease)
      → ((l : ClaimLease) → (f l).morsel_id ≡ l.morsel_id)
      → ((l : ClaimLease) → IsLease now l → IsLease now (f l))
      → IsLeased now (update_key by_morsel k f rows)
  updated-IsLeased k f e g = (
    update_key-IsKeyed by_morsel k f e rows h.0,
    all-update_key by_morsel (IsLease now) k f rows g same-IsLeased.1,
  )

  perform-IsLeased : (op : Operation) → IsLeased now (perform now op rows)
  unfolding perform upsert_claim_lease attach_dispatch_to_claim_lease heartbeat_claim_lease
      delete_claim_lease
  perform-IsLeased (claimed m p d a) =
      on_id-cases (λ r. IsLeased now (table_after rows r)) _
        (λ k. ok (upsert by_morsel k (new_lease now k p d a) (renew_lease now p d a) rows))
        (trim_space m) same-IsLeased
        (λ c id e. (
          upsert-IsKeyed by_morsel (c ∷ id) (new_lease now (c ∷ id) p d a) (renew_lease now p d a)
              refl (λ l. refl) rows h.0,
          all-upsert by_morsel (IsLease now) (c ∷ id) (new_lease now (c ∷ id) p d a)
              (renew_lease now p d a) rows (new_lease-IsLease now c id m p d a e)
              (λ l i.
                beaten-IsLease now now l i (omega arith) (renew_lease now p d a l) refl refl refl)
              same-IsLeased.1,
        ))
  perform-IsLeased (attached m i) =
      on_id-cases (λ r. IsLeased now (table_after rows r)) _
        (λ k. ok (update_key by_morsel k (attach_to now i) rows)) (trim_space m) same-IsLeased
        (λ c id e.
          updated-IsLeased (c ∷ id) (attach_to now i) (λ l. refl)
            (λ l g. beaten-IsLease now now l g (omega arith) (attach_to now i l) refl refl refl))
  perform-IsLeased (refreshed m) =
      on_id-cases (IsLeased now) _ (λ k. update_key by_morsel k (beat now) rows) (trim_space m)
        same-IsLeased
        (λ c id e.
          updated-IsLeased (c ∷ id) (beat now) (λ l. refl)
            (λ l g. beaten-IsLease now now l g (omega arith) (beat now l) refl refl refl))
  perform-IsLeased (released m) =
      on_id-cases (IsLeased now) _ (λ k. delete_key by_morsel k rows) (trim_space m) same-IsLeased
        (λ c id e. (
          delete_key-IsKeyed by_morsel (c ∷ id) rows h.0,
          all-delete_key by_morsel (IsLease now) (c ∷ id) rows same-IsLeased.1,
        ))

-- In every table that claims, attachments, heartbeats and releases reach, on a clock that does not run
-- backwards, no morsel has two leases, every morsel id is trimmed and not empty, no lease was claimed after
-- its heartbeat, and no heartbeat lies in the future.
pub Reach-IsLeased : {now : ℕ} {rows : List ClaimLease} → Reach now rows → IsLeased now rows
Reach-IsLeased (start now) = (tt, λ l m. absurd (Memᴰ.not-nil m))
Reach-IsLeased (later {t} {rows} now op r order e) =
    subst (IsLeased now) e (perform-IsLeased t now rows (Reach-IsLeased r) order op)

-- A claim by the trimmed id.
abbrev claim_on : ℕ → Text → Text → Text → List ClaimLease → Text → Result Text (List ClaimLease)
claim_on now p d a rows k =
    on_id (err (text "store: upsert claim lease: morsel_id is required"))
      (λ id. ok (upsert by_morsel id (new_lease now id p d a) (renew_lease now p d a) rows)) k

-- A lease with this owner and a heartbeat at the present.
abbrev pub owned : ℕ → Text → Text → Text → Text → ℤ → ℕ → ClaimLease
owned now p d a id dispatch_id claimed_at = record {
  morsel_id = id;
  project = trim_space p;
  morsels_dir = trim_space d;
  agent_id = trim_space a;
  dispatch_id = dispatch_id;
  claimed_at = claimed_at;
  heartbeat_at = seconds now;
}

claimed_after :
    (now : ℕ) (k p d a : Text) (b : Bool) (old other : Option ClaimLease)
    → (if b
        then some (elim old [ none ↦ new_lease now k p d a | some l ↦ renew_lease now p d a l ])
        else other)
      ≡ (if b
          then some (elim old [
            | none ↦ owned now p d a k (pos 0) (seconds now)
            | some l ↦ owned now p d a l.morsel_id l.dispatch_id l.claimed_at
          ])
          else other)
claimed_after now k p d a b none other = refl
claimed_after now k p d a b (some l) other = refl

-- What is read back after a claim. A blank id is an error. Else the lease of that morsel is the old one
-- with the new owner and heartbeat, its dispatch and the time of its first claim kept, or a new one without a
-- dispatch; what is read of other morsels stays.
pub upsert-get :
    (now : ℕ) (m p d a j : Text) (rows : List ClaimLease)
    → ((is_empty (trim_space m) ≡ true)
        × (upsert_claim_lease now m p d a rows
            ≡ err (text "store: upsert claim lease: morsel_id is required")))
      ⊎ ((is_empty (trim_space m) ≡ false)
          × (rows' : List ClaimLease) × (upsert_claim_lease now m p d a rows ≡ ok rows')
          × (get_claim_lease j rows' ≡ (
              if text_eq (trim_space m) (trim_space j)
              then some (elim (get_claim_lease m rows) [
                | none ↦ owned now p d a (trim_space m) (pos 0) (seconds now)
                | some l ↦ owned now p d a l.morsel_id l.dispatch_id l.claimed_at
              ])
              else get_claim_lease j rows)))
unfolding upsert_claim_lease get_claim_lease text_eq
upsert-get now m p d a j rows = go (trim_space m) (trim_space j)
  where
    go :
        (k q : Text)
        → ((is_empty k ≡ true)
            × (claim_on now p d a rows k
                ≡ err (text "store: upsert claim lease: morsel_id is required")))
          ⊎ ((is_empty k ≡ false)
              × (rows' : List ClaimLease) × (claim_on now p d a rows k ≡ ok rows')
              × (on_id none (λ id. select_key by_morsel id rows') q ≡ (
                  if text_eq k q
                  then some (elim (on_id none (λ id. select_key by_morsel id rows) k) [
                    | none ↦ owned now p d a k (pos 0) (seconds now)
                    | some l ↦ owned now p d a l.morsel_id l.dispatch_id l.claimed_at
                  ])
                  else on_id none (λ id. select_key by_morsel id rows) q)))
    go [] q = inl (refl, refl)
    go (c ∷ k) [] = inr (refl, _, refl, refl)
    go (c ∷ k) (b ∷ q) = inr (
      refl,
      _,
      refl,
      select_key-upsert by_morsel (c ∷ k) (new_lease now (c ∷ k) p d a) (renew_lease now p d a) refl
            (λ l. refl) (b ∷ q) rows
          ∙ claimed_after now (c ∷ k) p d a (text_eq (c ∷ k) (b ∷ q))
              (select_key by_morsel (c ∷ k) rows) (select_key by_morsel (b ∷ q) rows),
    )

-- ===== src/Dispatch/Usage/Laws.antt =====
-- What the store of provider usage does whatever call on the database fails, and when it keeps the laws that
-- the rate limiter relies on.
use chum.Base.{
  ℕ, zero, suc, ◌≡◌, refl, ◌∙◌, ap, sym, subst, ◌⊎◌, inl, inr, Option, none, some, Option-cases,
  length,
}
use chum.Base.Result.{Result, ok, err}
use chum.Text.{Text}
use chum.Dispatch.Usage.{
  UsageDb, UsageLaws, Faults, next_id, next_id-suc, insert_usage, delete_usage, insert_usage-length,
  delete_usage-ok, delete-insert, remove_usage, usage_store, usage_table, no_faults,
}

module _ (faults : UsageDb → Faults) (now : ℕ) (provider agent morsel : Text) (db : UsageDb) where
  -- The deletion of the row with the given id, answered by an insertion into `db` that left `grown`.
  abbrev pub IsUndone : ℕ → UsageDb → Type 0
  IsUndone id grown =
      ((e : Text) × ((faults grown).delete ≡ some e)
        × (remove_usage (faults grown).delete id grown ≡ (err e, grown)))
      ⊎ ((shrunk : UsageDb) × ((faults grown).delete ≡ none)
          × (remove_usage (faults grown).delete id grown ≡ (ok tt, shrunk))
          × (shrunk.usage ≡ db.usage))

  abbrev pub IsRecorded : Result Text ℕ × UsageDb → Type 0
  IsRecorded result =
      ((e : Text) × ((faults db).insert ≡ some e) × (result ≡ (err e, db)))
      ⊎ (((e : Text) × (grown : UsageDb) × ((faults db).insert ≡ none)
            × ((faults db).last_insert_id ≡ some e)
            × (result ≡ (err e, grown))
            × (length grown.usage ≡ suc (length db.usage)))
          ⊎ ((id : ℕ) × (grown : UsageDb) × ((faults db).insert ≡ none)
              × ((faults db).last_insert_id ≡ none)
              × (result ≡ (ok id, grown))
              × (length grown.usage ≡ suc (length db.usage))
              × IsUndone id grown))

  abbrev grown : UsageDb
  grown = (insert_usage now provider agent morsel db).1

  abbrev new_id : ℕ
  new_id = next_id db.last_id db.usage

  inserted_pair : insert_usage now provider agent morsel db ≡ (ok new_id, grown)
  unfolding insert_usage
  inserted_pair = refl

  grown-IsUndone : IsUndone new_id grown
  grown-IsUndone = elim (Option-cases (faults grown).delete) [
    | inr (e, f) ↦ let (n, h) = next_id-suc db.last_id db.usage in inl (e, f, rw (f, h) refl)
    | inl f ↦ inr (
      (delete_usage new_id grown).1,
      f,
      rw f (ap (λ r. (r, (delete_usage new_id grown).1)) (delete_usage-ok new_id grown)),
      delete-insert now provider agent morsel db,
    )
  ]

  -- RecordProviderUsage answers an error exactly if the INSERT fails, which leaves the rows as they were,
  -- or if the INSERT succeeds and LastInsertId fails, which leaves one row more that nothing names. Else it
  -- answers an id and adds one row, and DeleteProviderUsage of that id restores the rows, or answers the
  -- error of its statement and changes nothing.
  pub record_usage-decides :
      IsRecorded ((usage_store faults now).record_provider_usage provider agent morsel db)
  record_usage-decides = elim (Option-cases (faults db).insert) [
    | inr (e, f) ↦ inl (e, f, rw f refl)
    | inl f ↦ elim (Option-cases (faults db).last_insert_id) [
      | inr (e, g) ↦
          inr
            (inl (e, grown, f, g, rw (f, g) refl, insert_usage-length now provider agent morsel db))
      | inl g ↦ inr (
          inr (
            new_id,
            grown,
            f,
            g,
            rw (f, g) inserted_pair,
            insert_usage-length now provider agent morsel db,
            grown-IsUndone,
          ))
    ]
  ]

remove_usage-failed :
    (fault : Option Text) (id : ℕ) (s s' : UsageDb) (e : Text)
    → remove_usage fault id s ≡ (err e, s')
    → s'.usage ≡ s.usage
remove_usage-failed none id s s' e h = absurd (cc (delete_usage-ok id s, ap (λ r. r.0) h))
remove_usage-failed (some x) zero s s' e h = ap (λ r. r.1.usage) (sym h)
remove_usage-failed (some x) (suc n) s s' e h = ap (λ r. r.1.usage) (sym h)

-- The store keeps the laws of the rate limiter, whatever fails, as long as LastInsertId does not.
pub usage_store-UsageLaws :
    (faults : UsageDb → Faults) (now : ℕ)
    → ((db : UsageDb) → (faults db).last_insert_id ≡ none)
    → UsageLaws (usage_store faults now)
usage_store-UsageLaws faults now never = record {
  insert_failed = λ p a m s s' e h. elim (record_usage-decides faults now p a m s) [
    | inl (x, f, r) ↦ ap (λ q. q.1.usage) (sym h ∙ r)
    | inr (inl (x, g, f, l, r, len)) ↦ absurd (cc (never s, l))
    | inr (inr (id, g, f, l, r, len, undone)) ↦ absurd (cc (ap (λ q. q.0) (sym h ∙ r)))
  ];
  delete_failed = λ id s s' e h. remove_usage-failed (faults s).delete id s s' e h;
  inserted = λ p a m s s' id h. elim (record_usage-decides faults now p a m s) [
    | inl (x, f, r) ↦ absurd (cc (ap (λ q. q.0) (sym h ∙ r)))
    | inr (inl (x, g, f, l, r, len)) ↦ absurd (cc (ap (λ q. q.0) (sym h ∙ r)))
    | inr (inr (n, g, f, l, r, len, undone)) ↦
        subst (λ (t : UsageDb). length t.usage ≡ suc (length s.usage)) (ap (λ q. q.1) (sym r ∙ h))
          len
  ];
  insert_deleted = λ p a m s s' s'' id h k. elim (record_usage-decides faults now p a m s) [
    | inl (x, f, r) ↦ absurd (cc (ap (λ q. q.0) (sym h ∙ r)))
    | inr (inl (x, g, f, l, r, len)) ↦ absurd (cc (ap (λ q. q.0) (sym h ∙ r)))
    | inr (inr (n, g, f, l, r, len, undone)) ↦
        let same_id : n ≡ id = cc (ap (λ q. q.0) (sym r ∙ h)) in
        let same : g ≡ s' = ap (λ q. q.1) (sym r ∙ h) in
        let deleted : remove_usage (faults g).delete n g ≡ (ok tt, s'') =
          subst (λ j. remove_usage (faults g).delete j g ≡ (ok tt, s'')) (sym same_id)
            (subst (λ t. remove_usage (faults t).delete id t ≡ (ok tt, s'')) (sym same) k) in
        elim undone [
          | inl (x, d, q) ↦ absurd (cc (ap (λ o. o.0) (sym q ∙ deleted)))
          | inr (shrunk, d, q, restored) ↦ ap (λ o. o.1.usage) (sym deleted ∙ q) ∙ restored
        ]
  ];
}

pub usage_table-UsageLaws : (now : ℕ) → UsageLaws (usage_table now)
usage_table-UsageLaws now = usage_store-UsageLaws (λ db. no_faults) now (λ db. refl)

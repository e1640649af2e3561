-- ===== src/Store/Rows.antt =====
-- What the statements of Store/Table do to the rows that are looked up, and to a property of all rows.
use mathlib.Core.List.Memᴰ
use chum.Base.{
  ◌≡◌, refl, sym, ◌∙◌, ap, subst, ◌⊎◌, inl, inr, Bool, true, false, not, List, [], ◌∷◌, Memᴰ, none,
  some, if◌then◌else◌, Bool-cases, In-select,
}
use chum.Store.Table.{
  Key, has_key, select_key, upsert, update_key, delete_key, IsKeyed, eq_sym, eq_refl,
}

module _ {R K : Type 0} (by : Key R K) where
  -- A row after an upsert is the new one, an old one, or what is made of an old one.
  pub cases-upsert :
      (k : K) (new : R) (merge : R → R) (rows : List R) (s : R)
      → Memᴰ s (upsert by k new merge rows)
      → (s ≡ new) ⊎ (Memᴰ s rows ⊎ ((r : R) × Memᴰ r rows × (s ≡ merge r)))
  unfolding upsert
  cases-upsert k new merge [] s m = elim (Memᴰ.cases_cons m) [
    | inl q ↦ inl q
    | inr n ↦ absurd (Memᴰ.not-nil n)
  ]
  cases-upsert k new merge (r ∷ rows) s m = elim (Bool-cases (has_key by k r)) [
    | inl e ↦ elim (Memᴰ.cases_cons (rw e at m)) [
      | inl q ↦ inr (inr (r, Memᴰ.head refl, q))
      | inr n ↦ inr (inl (Memᴰ.tail n))
    ]
    | inr e ↦ elim (Memᴰ.cases_cons (rw e at m)) [
      | inl q ↦ inr (inl (Memᴰ.head q))
      | inr n ↦ elim (cases-upsert k new merge rows s n) [
        | inl q ↦ inl q
        | inr (inl i) ↦ inr (inl (Memᴰ.tail i))
        | inr (inr (t, i, q)) ↦ inr (inr (t, Memᴰ.tail i, q))
      ]
    ]
  ]

  pub cases-update_key :
      (k : K) (f : R → R) (rows : List R) (s : R)
      → Memᴰ s (update_key by k f rows)
      → ((has_key by k s ≡ false) × Memᴰ s rows)
        ⊎ ((r : R) × Memᴰ r rows × (has_key by k r ≡ true) × (s ≡ f r))
  unfolding update_key
  cases-update_key k f [] s m = absurd (Memᴰ.not-nil m)
  cases-update_key k f (r ∷ rows) s m = elim (Memᴰ.cases_cons m) [
    | inl q ↦ elim (Bool-cases (has_key by k r)) [
      | inl e ↦ inr (r, Memᴰ.head refl, e, rw e at q)
      | inr e ↦ let same : s ≡ r = rw e at q in inl (rw same e, Memᴰ.head same)
    ]
    | inr n ↦ elim (cases-update_key k f rows s n) [
      | inl (e, i) ↦ inl (e, Memᴰ.tail i)
      | inr (t, i, e, q) ↦ inr (t, Memᴰ.tail i, e, q)
    ]
  ]

  -- A property of all rows is kept by what keeps it for one row.
  pub all-upsert :
      (P : R → Type 0) (k : K) (new : R) (merge : R → R) (rows : List R)
      → P new
      → ((r : R) → P r → P (merge r))
      → ((r : R) → Memᴰ r rows → P r)
      → (s : R) → Memᴰ s (upsert by k new merge rows)
      → P s
  all-upsert P k new merge rows n f h s m = elim (cases-upsert k new merge rows s m) [
    | inl q ↦ subst P (sym q) n
    | inr (inl i) ↦ h s i
    | inr (inr (r, i, q)) ↦ subst P (sym q) (f r (h r i))
  ]

  pub all-update_key :
      (P : R → Type 0) (k : K) (f : R → R) (rows : List R)
      → ((r : R) → P r → P (f r))
      → ((r : R) → Memᴰ r rows → P r)
      → (s : R) → Memᴰ s (update_key by k f rows)
      → P s
  all-update_key P k f rows g h s m = elim (cases-update_key k f rows s m) [
    | inl (e, i) ↦ h s i
    | inr (r, i, e, q) ↦ subst P (sym q) (g r (h r i))
  ]

  pub all-delete_key :
      (P : R → Type 0) (k : K) (rows : List R)
      → ((r : R) → Memᴰ r rows → P r)
      → (s : R) → Memᴰ s (delete_key by k rows)
      → P s
  unfolding delete_key
  all-delete_key P k rows h s m = h s (In-select (λ r. not (has_key by k r)) rows s m).0

  module _ (k : K) (f : R → R) (f_key : (r : R) → by.key (f r) ≡ by.key r) where
    updated_key : (r : R) → by.key (if has_key by k r then f r else r) ≡ by.key r
    updated_key r = elim (Bool-cases (has_key by k r)) [
      | inl e ↦ rw e (f_key r)
      | inr e ↦ rw e refl
    ]

    pub update_key-IsKeyed : (rows : List R) → IsKeyed by rows → IsKeyed by (update_key by k f rows)
    unfolding update_key
    update_key-IsKeyed [] d = tt
    update_key-IsKeyed (r ∷ rows) d = (
      λ s m. rw (updated_key r) (
          all-update_key (λ t. by.eq (by.key t) (by.key r) ≡ false) k f rows (λ t h. rw (f_key t) h)
            d.0 s m),
      update_key-IsKeyed rows d.1,
    )

    -- A row that is looked up after an update.
    pub select_key-update_key :
        (j : K) (rows : List R)
        → select_key by j (update_key by k f rows) ≡ elim (select_key by j rows) [
          | none ↦ none
          | some r ↦ some (if by.eq j k then f r else r)
        ]
    unfolding update_key
    select_key-update_key j [] = refl
    select_key-update_key j (r ∷ rows) = elim (Bool-cases (has_key by j r)) [
      | inl e ↦
          let q : by.key r ≡ j = (by.eq_iff (by.key r) j).0 e in
          let o : has_key by k r ≡ by.eq j k = ap (λ x. by.eq x k) q in
          let m : by.eq (by.key (if has_key by k r then f r else r)) j ≡ true =
            ap (λ x. by.eq x j) (updated_key r) ∙ e in
          rw (m, e) (ap (λ (b : Bool). some (if b then f r else r)) o)
      | inr e ↦
          let n : by.eq (by.key (if has_key by k r then f r else r)) j ≡ false =
            ap (λ x. by.eq x j) (updated_key r) ∙ e in
          rw (n, e) (select_key-update_key j rows)
    ]

  -- A row that is looked up after a deletion.
  pub select_key-delete_key :
      (k j : K) (rows : List R)
      → select_key by j (delete_key by k rows) ≡ (if by.eq j k then none else select_key by j rows)
  unfolding delete_key
  select_key-delete_key k j [] = elim (Bool-cases (by.eq j k)) [
    | inl t ↦ rw t refl
    | inr t ↦ rw t refl
  ]
  select_key-delete_key k j (r ∷ rows) = elim (Bool-cases (has_key by k r)) [
    | inl e ↦
        let q : by.key r ≡ k = (by.eq_iff (by.key r) k).0 e in
        elim (Bool-cases (by.eq j k)) [
          | inl t ↦
              rw (e, t)
                (select_key-delete_key k j rows
                  ∙ ap (λ (b : Bool). if b then none else select_key by j rows) t)
          | inr t ↦
              let n : by.eq (by.key r) j ≡ false =
                subst (λ x. by.eq x j ≡ false) (sym q) (eq_sym by j k t) in
              rw (e, t, n)
                (select_key-delete_key k j rows
                  ∙ ap (λ (b : Bool). if b then none else select_key by j rows) t)
        ]
    | inr e ↦ elim (Bool-cases (by.eq (by.key r) j)) [
      | inl o ↦
          let q : by.key r ≡ j = (by.eq_iff (by.key r) j).0 o in
          let n : by.eq j k ≡ false = subst (λ x. by.eq x k ≡ false) q e in rw (e, o, n) refl
      | inr o ↦ rw (e, o) (select_key-delete_key k j rows)
    ]
  ]

  -- In a table with a key the row is the one that its key finds.
  pub select_key-In :
      (rows : List R) (s : R)
      → IsKeyed by rows
      → Memᴰ s rows
      → select_key by (by.key s) rows ≡ some s
  select_key-In [] s d m = absurd (Memᴰ.not-nil m)
  select_key-In (r ∷ rows) s d (Memᴰ.head q) = rw (sym q) (rw (eq_refl by (by.key s)) refl)
  select_key-In (r ∷ rows) s d (Memᴰ.tail m) =
      rw (eq_sym by (by.key s) (by.key r) (d.0 s m)) (select_key-In rows s d.1 m)

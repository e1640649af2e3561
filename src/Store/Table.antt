-- ===== src/Store/Table.antt =====
-- Tables with a primary key or a unique index: INSERT ... ON CONFLICT DO UPDATE, UPDATE, DELETE and SELECT by
-- the key.
use mathlib.Core.List.Memᴰ
use chum.Base.{
  ◌≡◌, ◌↔◌, ◌⊎◌, refl, sym, inl, inr, Bool, true, false, not, List, [], ◌∷◌, Memᴰ, Option, none,
  some, if◌then◌else◌, find, select, Bool-cases, subst, ap, ◌∙◌, In-select,
}

-- A key, and the test for equality that the database makes of it.
pub record Key (R K : Type 0) : Type 0 where
  pub key : R → K
  pub eq : K → K → Bool
  pub eq_iff : (j k : K) → (eq j k ≡ true) ↔ (j ≡ k)

module _ {R K : Type 0} (by : Key R K) where
  abbrev pub has_key : K → R → Bool
  has_key k r = by.eq (by.key r) k

  -- SELECT ... WHERE key = k.
  abbrev pub select_key : K → List R → Option R
  select_key k rows = find (has_key k) rows

  -- INSERT ... ON CONFLICT(key) DO UPDATE: `merge` makes the new row of an old one.
  unfoldable pub upsert : K → R → (R → R) → List R → List R
  upsert k new merge [] = new ∷ []
  upsert k new merge (r ∷ rows) =
      let rest = upsert k new merge rows in if has_key k r then merge r ∷ rows else r ∷ rest

  -- UPDATE ... WHERE key = k.
  unfoldable pub update_key : K → (R → R) → List R → List R
  update_key k f [] = []
  update_key k f (r ∷ rows) =
      let rest = update_key k f rows in (if has_key k r then f r else r) ∷ rest

  -- DELETE ... WHERE key = k.
  unfoldable pub delete_key : K → List R → List R
  delete_key k rows = select (λ r. not (has_key k r)) rows

  -- No key stands twice.
  abbrev pub IsKeyed : List R → Type 0
  IsKeyed [] = Unit
  IsKeyed (r ∷ rows) = ((s : R) → Memᴰ s rows → by.eq (by.key s) (by.key r) ≡ false) × IsKeyed rows

  pub eq_refl : (k : K) → by.eq k k ≡ true
  eq_refl k = (by.eq_iff k k).1 refl

  pub eq_sym : (j k : K) → by.eq j k ≡ false → by.eq k j ≡ false
  eq_sym j k h = elim (Bool-cases (by.eq k j)) [
    | inr e ↦ e
    | inl e ↦ absurd (cc ((by.eq_iff j k).1 (sym ((by.eq_iff k j).0 e)), h))
  ]

  module _ (k : K) (new : R) (merge : R → R) (new_key : by.key new ≡ k)
      (merge_key : (r : R) → by.key (merge r) ≡ by.key r) where
    -- What a row of the table is after an upsert.
    In-upsert :
        (rows : List R) (s : R) → Memᴰ s (upsert k new merge rows) → Memᴰ s rows ⊎ (by.key s ≡ k)
    unfolding upsert
    In-upsert [] s m = elim (Memᴰ.cases_cons m) [
      | inl q ↦ inr (ap by.key q ∙ new_key)
      | inr n ↦ absurd (Memᴰ.not-nil n)
    ]
    In-upsert (r ∷ rows) s m = elim (Bool-cases (has_key k r)) [
      | inl e ↦ elim (Memᴰ.cases_cons (rw e at m)) [
        | inl q ↦ inr (ap by.key q ∙ (merge_key r ∙ (by.eq_iff (by.key r) k).0 e))
        | inr n ↦ inl (Memᴰ.tail n)
      ]
      | inr e ↦ elim (Memᴰ.cases_cons (rw e at m)) [
        | inl q ↦ inl (Memᴰ.head q)
        | inr n ↦ elim (In-upsert rows s n) [ inl i ↦ inl (Memᴰ.tail i) | inr i ↦ inr i ]
      ]
    ]

    pub upsert-IsKeyed : (rows : List R) → IsKeyed rows → IsKeyed (upsert k new merge rows)
    unfolding upsert
    upsert-IsKeyed [] d = (λ s m. absurd (Memᴰ.not-nil m), tt)
    upsert-IsKeyed (r ∷ rows) d = elim (Bool-cases (has_key k r)) [
      | inl e ↦ rw e (λ s m. rw (merge_key r) (d.0 s m), d.1)
      | inr e ↦ rw e (
        λ s m. elim (In-upsert rows s m) [ inl i ↦ d.0 s i | inr q ↦ rw q (eq_sym (by.key r) k e) ],
        upsert-IsKeyed rows d.1,
      )
    ]

    -- A row that is looked up after an upsert.
    pub select_key-upsert :
        (j : K) (rows : List R)
        → select_key j (upsert k new merge rows) ≡ (
            if by.eq k j
            then some (elim (select_key k rows) [ none ↦ new | some r ↦ merge r ])
            else select_key j rows)
    unfolding upsert
    select_key-upsert j [] = ap (λ x. if by.eq x j then some new else none) new_key
    select_key-upsert j (r ∷ rows) = elim (Bool-cases (has_key k r)) [
      | inl e ↦
          let q : by.key r ≡ k = (by.eq_iff (by.key r) k).0 e in
          let m : by.eq (by.key (merge r)) j ≡ by.eq k j = ap (λ x. by.eq x j) (merge_key r ∙ q) in
          let o : by.eq (by.key r) j ≡ by.eq k j = ap (λ x. by.eq x j) q in
          elim (Bool-cases (by.eq k j)) [ inl t ↦ rw (e, m, t) refl | inr f ↦ rw (e, m, o, f) refl ]
      | inr e ↦ elim (Bool-cases (by.eq (by.key r) j)) [
        | inr f ↦ rw (e, f) (select_key-upsert j rows)
        | inl t ↦
            let q : by.key r ≡ j = (by.eq_iff (by.key r) j).0 t in
            let f : by.eq k j ≡ false = subst (λ x. by.eq k x ≡ false) q (eq_sym (by.key r) k e) in
            rw (e, t, f) refl
      ]
    ]

  pub delete_key-IsKeyed : (k : K) (rows : List R) → IsKeyed rows → IsKeyed (delete_key k rows)
  unfolding delete_key
  delete_key-IsKeyed k [] d = tt
  delete_key-IsKeyed k (r ∷ rows) d = elim (Bool-cases (has_key k r)) [
    | inl e ↦ rw e (delete_key-IsKeyed k rows d.1)
    | inr e ↦ rw e (λ s m. d.0 s (In-select _ rows s m).0, delete_key-IsKeyed k rows d.1)
  ]

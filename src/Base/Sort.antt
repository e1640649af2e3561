-- ===== src/Base/Sort.antt =====
-- sort.Slice by a strict comparison `less`: the result is a sorted rearrangement. Where two elements
-- are equivalent, sort.Slice leaves their order open, and the model keeps the order of the input.
use mathlib.Core.List.{Perm}
use mathlib.Core.List.Perm
use mathlib.Core.List.Memᴰ
use chum.Base.{
  ◌≡◌, sym, Bool, true, false, inl, inr, ◌⊎◌, List, [], ◌∷◌, Memᴰ, if◌then◌else◌, Bool-cases,
}

module _ {ℓ} {A : Type ℓ} where
  unfoldable pub insert_by : (A → A → Bool) → A → List A → List A
  insert_by less x [] = x ∷ []
  insert_by less x (y ∷ ys) =
      let rest = insert_by less x ys in if less y x then y ∷ rest else x ∷ y ∷ ys

  unfoldable pub sort_by : (A → A → Bool) → List A → List A
  unfolding insert_by
  sort_by less [] = []
  sort_by less (x ∷ xs) = insert_by less x (sort_by less xs)

  -- No element is smaller than one before it.
  abbrev pub IsSorted : (A → A → Bool) → List A → Type ℓ
  IsSorted less [] = Unit
  IsSorted less (x ∷ xs) = ((y : A) → Memᴰ y xs → less y x ≡ false) × IsSorted less xs

  -- A strict weak order: what a comparison passed to sort.Slice has to be.
  pub record IsStrictWeak (less : A → A → Bool) : Type ℓ where
    pub asym : (x y : A) → less x y ≡ true → less y x ≡ false
    pub cotrans : (x y z : A) → less x y ≡ false → less y z ≡ false → less x z ≡ false

module _ {ℓ} {A : Type ℓ} (less : A → A → Bool) where
  In-insert_by : (x : A) (ys : List A) (z : A) → Memᴰ z (insert_by less x ys) → (z ≡ x) ⊎ Memᴰ z ys
  unfolding insert_by
  In-insert_by x [] z m = Memᴰ.cases_cons m
  In-insert_by x (y ∷ ys) z m = elim (Bool-cases (less y x)) [
    | inl e ↦ elim (Memᴰ.cases_cons (rw e at m)) [
      | inl q ↦ inr (Memᴰ.head q)
      | inr r ↦ elim (In-insert_by x ys z r) [ inl q ↦ inl q | inr t ↦ inr (Memᴰ.tail t) ]
    ]
    | inr e ↦ Memᴰ.cases_cons (rw e at m)
  ]

  insert_by-perm : (x : A) (ys : List A) → Perm (insert_by less x ys) (x ∷ ys)
  unfolding insert_by
  insert_by-perm x [] = Perm.refl (x ∷ [])
  insert_by-perm x (y ∷ ys) = elim (Bool-cases (less y x)) [
    | inl e ↦ rw e (Perm.trans (Perm.cons y (insert_by-perm x ys)) (Perm.swap x y ys))
    | inr e ↦ rw e (Perm.refl (x ∷ y ∷ ys))
  ]

  pub sort_by-perm : (xs : List A) → Perm (sort_by less xs) xs
  unfolding sort_by
  sort_by-perm [] = Perm.refl []
  sort_by-perm (x ∷ xs) =
      Perm.trans (insert_by-perm x (sort_by less xs)) (Perm.cons x (sort_by-perm xs))

  pub In-sort_by : (xs : List A) (z : A) → Memᴰ z (sort_by less xs) → Memᴰ z xs
  unfolding sort_by
  In-sort_by [] z m = m
  In-sort_by (x ∷ xs) z m = elim (In-insert_by x (sort_by less xs) z m) [
    | inl q ↦ Memᴰ.head q
    | inr r ↦ Memᴰ.tail (In-sort_by xs z r)
  ]

  insert_by-In : (x : A) (ys : List A) (z : A) → (z ≡ x) ⊎ Memᴰ z ys → Memᴰ z (insert_by less x ys)
  unfolding insert_by
  insert_by-In x [] z (inl q) = Memᴰ.head q
  insert_by-In x [] z (inr m) = elim m [ ]
  insert_by-In x (y ∷ ys) z (inl q) = elim (Bool-cases (less y x)) [
    | inl e ↦ rw e (Memᴰ.tail (insert_by-In x ys z (inl q)))
    | inr e ↦ rw e (Memᴰ.head q)
  ]
  insert_by-In x (y ∷ ys) z (inr (Memᴰ.head q)) = elim (Bool-cases (less y x)) [
    | inl e ↦ rw e (Memᴰ.head q)
    | inr e ↦ rw e (Memᴰ.tail (Memᴰ.head q))
  ]
  insert_by-In x (y ∷ ys) z (inr (Memᴰ.tail m)) = elim (Bool-cases (less y x)) [
    | inl e ↦ rw e (Memᴰ.tail (insert_by-In x ys z (inr m)))
    | inr e ↦ rw e (Memᴰ.tail (Memᴰ.tail m))
  ]

  pub sort_by-In : (xs : List A) (z : A) → Memᴰ z xs → Memᴰ z (sort_by less xs)
  unfolding sort_by
  sort_by-In [] z m = m
  sort_by-In (x ∷ xs) z (Memᴰ.head q) = insert_by-In x (sort_by less xs) z (inl q)
  sort_by-In (x ∷ xs) z (Memᴰ.tail m) = insert_by-In x (sort_by less xs) z (inr (sort_by-In xs z m))

module _ {ℓ} {A : Type ℓ} {less : A → A → Bool} (order : IsStrictWeak less) where
  insert_by-IsSorted :
      (x : A) (ys : List A) → IsSorted less ys → IsSorted less (insert_by less x ys)
  unfolding insert_by
  insert_by-IsSorted x [] h = (λ y m. elim m [ ], tt)
  insert_by-IsSorted x (y ∷ ys) h = elim (Bool-cases (less y x)) [
    | inl e ↦ rw e (
      λ z m. elim (In-insert_by less x ys z m) [
        | inl q ↦ rw q (order.asym y x e)
        | inr r ↦ h.0 z r
      ],
      insert_by-IsSorted x ys h.1,
    )
    | inr e ↦ rw e (
      λ z m. elim (Memᴰ.cases_cons m) [ inl q ↦ rw q e | inr r ↦ order.cotrans z y x (h.0 z r) e ],
      h,
    )
  ]

  pub sort_by-IsSorted : (xs : List A) → IsSorted less (sort_by less xs)
  unfolding sort_by
  sort_by-IsSorted [] = tt
  sort_by-IsSorted (x ∷ xs) = insert_by-IsSorted x (sort_by less xs) (sort_by-IsSorted xs)

-- A list in which no element stands twice.
abbrev pub IsDistinct {ℓ} : {A : Type ℓ} → List A → Type ℓ
IsDistinct [] = Unit
IsDistinct (x ∷ xs) = ¬ Memᴰ x xs × IsDistinct xs

module _ {ℓ} {A : Type ℓ} (less : A → A → Bool) where
  insert_by-IsDistinct :
      (x : A) (ys : List A) → ¬ Memᴰ x ys → IsDistinct ys → IsDistinct (insert_by less x ys)
  unfolding insert_by
  insert_by-IsDistinct x [] n d = (λ m. elim m [ ], tt)
  insert_by-IsDistinct x (y ∷ ys) n d = elim (Bool-cases (less y x)) [
    | inl e ↦ rw e (
      λ m. elim (In-insert_by less x ys y m) [ inl q ↦ n (Memᴰ.head (sym q)) | inr r ↦ d.0 r ],
      insert_by-IsDistinct x ys (λ m. n (Memᴰ.tail m)) d.1,
    )
    | inr e ↦ rw e (n, d)
  ]

  pub sort_by-IsDistinct : (xs : List A) → IsDistinct xs → IsDistinct (sort_by less xs)
  unfolding sort_by
  sort_by-IsDistinct [] d = tt
  sort_by-IsDistinct (x ∷ xs) d =
      insert_by-IsDistinct x (sort_by less xs) (λ m. d.0 (In-sort_by less xs x m))
        (sort_by-IsDistinct xs d.1)

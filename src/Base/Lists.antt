-- ===== src/Base/Lists.antt =====
-- Lists measured by native numbers, Boolean searches of lists, and membership as a family.
use Prim.Native.Nat.{ℕ, zero, suc, ◌+◌}
use mathlib.Core.Path.{◌≡◌, refl, sym}
use mathlib.Core.Logic.{inl, inr}
use mathlib.Core.Bool.{Bool, true, false, ◌&&◌, ◌||◌}
use mathlib.Core.Option.{Option, none, some}
use mathlib.Core.List.{List, [], ◌∷◌, ◌++◌, Memᴰ}
use mathlib.Core.List.Memᴰ
use native.Mathlib.Omega.{arith}
use chum.Base.Tests.{if◌then◌else◌, Bool-cases, and-eq_true}

module _ {ℓ} {A : Type ℓ} where
  abbrev pub length : List A → ℕ
  length [] = 0
  length (x ∷ xs) = suc (length xs)

  pub length-append : (xs ys : List A) → length (xs ++ ys) ≡ length xs + length ys
  length-append [] ys = omega arith
  length-append (x ∷ xs) ys = omega (arith, length-append xs ys)

  abbrev pub get_elem? : List A → ℕ → Option A
  get_elem? [] i = none
  get_elem? (x ∷ xs) zero = some x
  get_elem? (x ∷ xs) (suc i) = get_elem? xs i

  abbrev pub take : ℕ → List A → List A
  take zero xs = []
  take (suc n) [] = []
  take (suc n) (x ∷ xs) = x ∷ take n xs

  abbrev pub drop : ℕ → List A → List A
  drop zero xs = xs
  drop (suc n) [] = []
  drop (suc n) (x ∷ xs) = drop n xs

module _ {ℓ} {A : Type ℓ} where
  abbrev pub any : (A → Bool) → List A → Bool
  any p [] = false
  any p (x ∷ xs) = p x || any p xs

  abbrev pub all : (A → Bool) → List A → Bool
  all p [] = true
  all p (x ∷ xs) = p x && all p xs

  -- The sublist of what passes a Boolean test.
  abbrev pub select : (A → Bool) → List A → List A
  select p [] = []
  select p (x ∷ xs) = let rest = select p xs in if p x then x ∷ rest else rest

  abbrev pub find : (A → Bool) → List A → Option A
  find p [] = none
  find p (x ∷ xs) = let rest = find p xs in if p x then some x else rest

  -- The value is the one that the option holds.
  pub find_sound :
      (p : A → Bool) (xs : List A) {a : A} → find p xs ≡ some a → Memᴰ a xs × (p a ≡ true)
  find_sound p [] h = cc
  find_sound p (x ∷ xs) {a} h = elim (Bool-cases (p x)) [
    | inl e ↦ let same : x ≡ a = ground (arith, e) in (Memᴰ.head (sym same), rw same at e)
    | inr e ↦ let (m, q) = find_sound p xs (rw e at h) in (Memᴰ.tail m, q)
  ]

  pub find-none :
      (p : A → Bool) (xs : List A) → find p xs ≡ none → (a : A) → Memᴰ a xs → p a ≡ false
  find-none p [] h a m = elim m [ ]
  find-none p (x ∷ xs) h a (Memᴰ.head e) = elim (Bool-cases (p x)) [
    | inl t ↦ ground (arith, t)
    | inr f ↦ rw e f
  ]
  find-none p (x ∷ xs) h a (Memᴰ.tail m) = elim (Bool-cases (p x)) [
    | inl t ↦ ground (arith, t)
    | inr f ↦ find-none p xs (rw f at h) a m
  ]

  pub any-intro : (p : A → Bool) (xs : List A) (a : A) → Memᴰ a xs → p a ≡ true → any p xs ≡ true
  any-intro p [] a m h = elim m [ ]
  any-intro p (x ∷ xs) a (Memᴰ.head e) h = let q : p x ≡ true = rw e at h in ground (arith, q)
  any-intro p (x ∷ xs) a (Memᴰ.tail m) h = ground (arith, any-intro p xs a m h)

  pub any-elim : (p : A → Bool) (xs : List A) → any p xs ≡ true → (a : A) × Memᴰ a xs × (p a ≡ true)
  any-elim p [] h = cc
  any-elim p (x ∷ xs) h = elim (Bool-cases (p x)) [
    | inl e ↦ (x, Memᴰ.head refl, e)
    | inr e ↦ let (a, m, q) = any-elim p xs (rw e at h) in (a, Memᴰ.tail m, q)
  ]

  pub all-elim : (p : A → Bool) (xs : List A) → all p xs ≡ true → (a : A) → Memᴰ a xs → p a ≡ true
  all-elim p [] h a m = elim m [ ]
  all-elim p (x ∷ xs) h a (Memᴰ.head e) = rw e (and-eq_true (p x) (all p xs) h).0
  all-elim p (x ∷ xs) h a (Memᴰ.tail m) = all-elim p xs (and-eq_true (p x) (all p xs) h).1 a m

  pub all-intro :
      (p : A → Bool) (xs : List A) → ((a : A) → Memᴰ a xs → p a ≡ true) → all p xs ≡ true
  all-intro p [] h = refl
  all-intro p (x ∷ xs) h = rw (h x (Memᴰ.head refl)) (all-intro p xs (λ a m. h a (Memᴰ.tail m)))

  pub In-select :
      (p : A → Bool) (xs : List A) (a : A) → Memᴰ a (select p xs) → Memᴰ a xs × (p a ≡ true)
  In-select p (x ∷ xs) a m = elim (Bool-cases (p x)) [
    | inl e ↦ elim (Memᴰ.cases_cons (rw e at m)) [
      | inl q ↦ (Memᴰ.head q, rw q e)
      | inr r ↦ let (l, t) = In-select p xs a r in (Memᴰ.tail l, t)
    ]
    | inr e ↦ let (l, t) = In-select p xs a (rw e at m) in (Memᴰ.tail l, t)
  ]
  In-select p [] a m = absurd (Memᴰ.not-nil m)

  pub select-In :
      (p : A → Bool) (xs : List A) (a : A) → Memᴰ a xs → p a ≡ true → Memᴰ a (select p xs)
  select-In p [] a m h = elim m [ ]
  select-In p (x ∷ xs) a (Memᴰ.head e) h = rw (sym e) (rw h (Memᴰ.head refl))
  select-In p (x ∷ xs) a (Memᴰ.tail m) h = elim (Bool-cases (p x)) [
    | inl e ↦ rw e (Memᴰ.tail (select-In p xs a m h))
    | inr e ↦ rw e (select-In p xs a m h)
  ]

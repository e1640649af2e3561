-- ===== src/Text/Trim.antt =====
-- strings.TrimSpace: both ends lose their blanks; with strings.ToLower, a normal form.
use mathlib.Core.List.{reverse, reverse-reverse, reverse-append, reverse-cons, map-append}
use chum.Base.{
  ℕ, ◌≡◌, refl, ◌∙◌, ap, sym, false, [], ◌∷◌, ◌++◌, arith, if◌then◌else◌, Bool-cases, inl, inr,
}
use chum.Text.{Text, is_space, lower_byte, to_lower}

unfoldable pub trim_left : Text → Text
trim_left [] = []
trim_left (c ∷ s) = let rest = trim_left s in if is_space c then rest else c ∷ s

unfoldable pub trim_right : Text → Text
unfolding trim_left
trim_right s = reverse (trim_left (reverse s))

unfoldable pub trim_space : Text → Text
unfolding trim_right trim_left
trim_space s = trim_right (trim_left s)

trim_left_idem : (s : Text) → trim_left (trim_left s) ≡ trim_left s
unfolding trim_left
trim_left_idem [] = refl
trim_left_idem (c ∷ s) = elim (Bool-cases (is_space c)) [
  | inl e ↦ rw e (trim_left_idem s)
  | inr e ↦ rw (e, e)
]

trim_right_idem : (s : Text) → trim_right (trim_right s) ≡ trim_right s
unfolding trim_right
trim_right_idem s =
    ap (λ t. reverse (trim_left t)) (reverse-reverse (trim_left (reverse s)))
    ∙ ap reverse (trim_left_idem (reverse s))

pub lower-space : (c : ℕ) → is_space (lower_byte c) ≡ is_space c
unfolding is_space lower_byte
lower-space c = ground arith

pub lower_idem : (c : ℕ) → lower_byte (lower_byte c) ≡ lower_byte c
unfolding lower_byte
lower_idem c = ground arith

pub to_lower_idem : (s : Text) → to_lower (to_lower s) ≡ to_lower s
to_lower_idem [] = refl
to_lower_idem (c ∷ s) = cc (lower_idem c, to_lower_idem s)

trim_left-lower : (s : Text) → trim_left (to_lower s) ≡ to_lower (trim_left s)
unfolding trim_left
trim_left-lower [] = refl
trim_left-lower (c ∷ s) = elim (Bool-cases (is_space c)) [
  | inl e ↦ rw (lower-space c, e) (trim_left-lower s)
  | inr e ↦ rw (lower-space c, e)
]

reverse-lower : (s : Text) → reverse (to_lower s) ≡ to_lower (reverse s)
reverse-lower [] = refl
reverse-lower (c ∷ s) =
    reverse-cons (lower_byte c) (to_lower s)
    ∙ ap (λ t. t ++ lower_byte c ∷ []) (reverse-lower s)
    ∙ rw (reverse-cons c s, map-append)

trim_right-lower : (s : Text) → trim_right (to_lower s) ≡ to_lower (trim_right s)
unfolding trim_right
trim_right-lower s =
    ap (λ t. reverse (trim_left t)) (reverse-lower s)
    ∙ ap reverse (trim_left-lower (reverse s))
    ∙ reverse-lower (trim_left (reverse s))

pub trim_space-lower : (s : Text) → trim_space (to_lower s) ≡ to_lower (trim_space s)
unfolding trim_space
trim_space-lower s = ap trim_right (trim_left-lower s) ∙ trim_right-lower (trim_left s)

trim_left-append :
    (c : ℕ) (s : Text) → is_space c ≡ false → trim_left (s ++ c ∷ []) ≡ trim_left s ++ c ∷ []
unfolding trim_left
trim_left-append c [] h = rw h
trim_left-append c (x ∷ s) h = elim (Bool-cases (is_space x)) [
  | inl e ↦ rw e (trim_left-append c s h)
  | inr e ↦ rw e
]

trim_right-cons : (c : ℕ) (s : Text) → is_space c ≡ false → trim_right (c ∷ s) ≡ c ∷ trim_right s
unfolding trim_right
trim_right-cons c s h =
    ap (λ t. reverse (trim_left t)) (reverse-cons c s)
    ∙ ap reverse (trim_left-append c (reverse s) h)
    ∙ reverse-append (trim_left (reverse s)) (c ∷ [])

trim_left-right : (s : Text) → trim_left (trim_right (trim_left s)) ≡ trim_right (trim_left s)
unfolding trim_left
trim_left-right [] = unfold trim_right in refl
trim_left-right (c ∷ s) = elim (Bool-cases (is_space c)) [
  | inl e ↦ rw e (trim_left-right s)
  | inr e ↦ rw e (rw (trim_right-cons c s e) (rw e))
]

pub trim_space_idem : (s : Text) → trim_space (trim_space s) ≡ trim_space s
unfolding trim_space
trim_space_idem s = ap trim_right (trim_left-right s) ∙ trim_right_idem (trim_left s)

trim_left-head : (s : Text) (c : ℕ) (t : Text) → trim_left s ≡ c ∷ t → is_space c ≡ false
unfolding trim_left
trim_left-head [] c t h = cc
trim_left-head (x ∷ s) c t h = elim (Bool-cases (is_space x)) [
  | inl e ↦ trim_left-head s c t (rw e at h)
  | inr e ↦ ground (arith, e)
]

-- A trimmed text starts with no blank.
pub trim_space-head : (s : Text) (c : ℕ) (t : Text) → trim_space s ≡ c ∷ t → is_space c ≡ false
unfolding trim_space
trim_space-head s c t h = go (trim_left s) refl
  where
    go : (u : Text) → trim_left s ≡ u → is_space c ≡ false
    go [] e = let q : trim_right [] ≡ c ∷ t = rw e at h in unfold trim_right trim_left in cc (q)
    go (d ∷ u) e =
        let solid : is_space d ≡ false = trim_left-head s d u e in
        let q : trim_right (d ∷ u) ≡ c ∷ t = rw e at h in
        ground (arith, q, trim_right-cons d u solid)

-- A text between two bytes that are no blanks is left as it is.
pub trim_space-solid :
    (c : ℕ) (s : Text) (d : ℕ)
    → is_space c ≡ false
    → is_space d ≡ false
    → trim_space (c ∷ (s ++ d ∷ [])) ≡ c ∷ (s ++ d ∷ [])
unfolding trim_space trim_left
trim_space-solid c s d hc hd = rw hc (
    ap (λ t. reverse (trim_left t)) (reverse-append (c ∷ s) (d ∷ []))
    ∙ rw hd
        (ap reverse (sym (reverse-append (c ∷ s) (d ∷ []))) ∙ reverse-reverse (c ∷ (s ++ d ∷ []))))

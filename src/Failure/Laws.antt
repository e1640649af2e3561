-- ===== src/Failure/Laws.antt =====
-- What the categories of failures mean to their callers.
use chum.Base.{
  ℕ, zero, suc, length-append, ◌≤◌, ◌≡◌, ◌↔◌, refl, true, false, List, [], ◌∷◌, ◌++◌, arith,
  if◌then◌else◌, ltb, length, take, Bool-cases, inl, inr,
}
use chum.Text.{Text, text, text_eq, is_empty, to_lower}
use chum.Text.Trim.{trim_space}
use chum.Text.Search.{contains}
use chum.Failure.{
  is_infrastructure_failure, is_transient_infra_failure, extract_infra_reason, first_line,
  extract_first_line, classify_code, classify_failure,
}

-- Every failure that is worth a retry counts as one of the environment.
pub transient-infrastructure :
    (lower : Text)
    → is_transient_infra_failure lower ≡ true
    → is_infrastructure_failure lower ≡ true
unfolding is_transient_infra_failure is_infrastructure_failure
transient-infrastructure lower h = ground arith

length-take-le : (n : ℕ) (xs : Text) → length (take n xs) ≤ n
length-take-le zero xs = omega arith
length-take-le (suc n) [] = omega arith
length-take-le (suc n) (x ∷ xs) = omega (arith, length-take-le n xs)

cut_line-length :
    (t : Text) → length (if ltb 200 (length t) then take 200 t ++ text "..." else t) ≤ 203
cut_line-length t = elim (Bool-cases (ltb 200 (length t))) [
  | inl e ↦ rw e (omega (arith, length-append (take 200 t) (text "..."), length-take-le 200 t))
  | inr e ↦ rw e (ground arith)
]

first_line-length : (ls : List Text) → length (first_line ls) ≤ 203
unfolding first_line
first_line-length [] = omega arith
first_line-length (l ∷ ls) = elim (Bool-cases (is_empty (trim_space l))) [
  | inl e ↦ rw e (first_line-length ls)
  | inr e ↦ rw e (cut_line-length (trim_space l))
]

extract_first_line-length : (s : Text) → length (extract_first_line s) ≤ 203
unfolding extract_first_line
extract_first_line-length s = first_line-length _

-- The category of a failure that is not one of the environment.
classify_code-category :
    (f l : Text)
    → (text_eq (classify_code f l).0 (text "infrastructure_failure") ≡ false)
      × (is_empty f ≡ false → is_empty (classify_code f l).0 ≡ false)
      × (length (classify_code f l).1 ≤ 203)
unfolding classify_code text_eq
classify_code-category f l = ground (arith, extract_first_line-length f)

infra_reason-length : (l : Text) → length (extract_infra_reason l) ≤ 203
unfolding extract_infra_reason
infra_reason-length l = ground arith

empty_not_infrastructure : is_infrastructure_failure [] ≡ false
unfolding is_infrastructure_failure contains
empty_not_infrastructure = refl

empty_unclassified : classify_code [] [] ≡ ([], [])
unfolding classify_code contains
empty_unclassified = refl

-- The category of a failure is infrastructure_failure exactly if the test for failures of the environment
-- passes, it is empty exactly for the empty text, and the summary has at most 203 bytes.
pub classify_failure-decides :
    (failures : Text)
    → ((text_eq (classify_failure failures).0 (text "infrastructure_failure") ≡ true)
        ↔ (is_infrastructure_failure (to_lower failures) ≡ true))
      × (is_empty (classify_failure failures).0 ≡ is_empty failures)
      × (length (classify_failure failures).1 ≤ 203)
unfolding classify_failure text_eq
classify_failure-decides [] = rw (empty_not_infrastructure, empty_unclassified) (ground arith)
classify_failure-decides (c ∷ failures) =
    let (other, kept, short) = classify_code-category (c ∷ failures) (to_lower (c ∷ failures)) in
    elim (Bool-cases (is_infrastructure_failure (to_lower (c ∷ failures)))) [
      | inl e ↦ rw e ((λ _. refl, λ _. refl), refl, infra_reason-length (to_lower (c ∷ failures)))
      | inr e ↦ rw e ((λ h. cc (h, other), λ h. cc h), kept refl, short)
    ]

-- ===== src/Graph/Invariant/Ids.antt =====
-- `generateTaskID`: an id is never empty, and has no blanks at its ends.
use mathlib.Core.List.{append_assoc}
use chum.Base.{ℕ, zero, suc, ◌/◌, ◌%◌, ◌≡◌, refl, sym, ◌∙◌, ap, false, [], ◌∷◌, ◌++◌, arith}
use chum.Text.{Text, is_empty, is_space}
use chum.Text.Trim.{trim_space, trim_space-head, trim_space-solid}
use chum.Graph.Dag.{hex_digit, hex_digits, generate_task_id}

hex_digits-rest : (k n : ℕ) (rest : Text) → hex_digits k n rest ≡ hex_digits k n [] ++ rest
unfolding hex_digits
hex_digits-rest zero n rest = refl
hex_digits-rest (suc k) n rest =
    hex_digits-rest k (n / 16) (hex_digit (n % 16) ∷ rest)
    ∙ sym (append_assoc (hex_digits k (n / 16) []) (hex_digit (n % 16) ∷ []) rest)
    ∙ ap (λ t. t ++ rest) (sym (hex_digits-rest k (n / 16) (hex_digit (n % 16) ∷ [])))

hex_digit-solid : (n : ℕ) → is_space (hex_digit (n % 16)) ≡ false
unfolding is_space
hex_digit-solid n = ground arith

-- The id is the project, a dash and some digits.
generate_task_id-shape :
    (project : Text) (n : ℕ)
    → generate_task_id project n
      ≡ project ++ (b'-' ∷ (hex_digits 5 (n / 16) [] ++ hex_digit (n % 16) ∷ []))
unfolding generate_task_id hex_digits
generate_task_id-shape project n =
    ap (λ t. project ++ (b'-' ∷ t))
      (unfold hex_digits in hex_digits-rest 5 (n / 16) (hex_digit (n % 16) ∷ []))

pub generate_task_id-solid :
    (raw : Text) (n : ℕ)
    → is_empty (trim_space raw) ≡ false
    → (trim_space (generate_task_id (trim_space raw) n) ≡ generate_task_id (trim_space raw) n)
      × (is_empty (generate_task_id (trim_space raw) n) ≡ false)
generate_task_id-solid raw n h = go (trim_space raw) refl h
  where
    go :
        (p : Text)
        → trim_space raw ≡ p
        → is_empty p ≡ false
        → (trim_space (generate_task_id p n) ≡ generate_task_id p n)
          × (is_empty (generate_task_id p n) ≡ false)
    go [] e q = cc
    go (c ∷ p) e q =
        let middle = p ++ (b'-' ∷ hex_digits 5 (n / 16) []) in
        let last_digit = hex_digit (n % 16) in
        let shape : generate_task_id (c ∷ p) n ≡ c ∷ (middle ++ last_digit ∷ []) =
          generate_task_id-shape (c ∷ p) n
          ∙ ap (λ t. c ∷ t)
              (sym (append_assoc p (b'-' ∷ hex_digits 5 (n / 16) []) (last_digit ∷ []))) in
        rw shape (
          trim_space-solid c middle last_digit (trim_space-head raw c p e) (hex_digit-solid n),
          refl,
        )

-- ===== src/Agents/Covered.antt =====
-- Which agents the tiers of `EscalationChain` have, from the starting one on.
use mathlib.Core.List.Memᴰ
use chum.Base.{
  ◌≡◌, ◌↔◌, ◌⊎◌, refl, inl, inr, true, ◌||◌, List, [], ◌∷◌, Memᴰ, arith, Bool-cases, subst,
}
use chum.Text.{Text, text, text_eq, one_of, is_empty}
use chum.Dispatch.RateLimit.{Tiers}
use chum.Agents.{tiers_from}

-- Some tier of the list has the agent.
abbrev pub IsListed : Text → List (List Text) → Type 0
IsListed a tiers = (agents : List Text) × Memᴰ agents tiers × Memᴰ a agents

-- A tier that the chain covers from `start` on has the agent. No name, or fast, stands for all three tiers,
-- and any other name for none.
abbrev pub IsCovered : Tiers → Text → Text → Type 0
IsCovered tiers start a =
    ((one_of ([] ∷ text "fast" ∷ []) start ≡ true) × Memᴰ a tiers.fast)
    ⊎ (((one_of ([] ∷ text "fast" ∷ text "balanced" ∷ []) start ≡ true) × Memᴰ a tiers.balanced)
        ⊎ ((one_of ([] ∷ text "fast" ∷ text "balanced" ∷ text "premium" ∷ []) start ≡ true)
            × Memᴰ a tiers.premium))

nil-eq : (s : Text) → text_eq s [] ≡ is_empty s
unfolding text_eq
nil-eq [] = refl
nil-eq (c ∷ s) = refl

pub tiers_from_iff :
    (tiers : Tiers) (s a : Text) → IsListed a (tiers_from tiers s) ↔ IsCovered tiers s a
unfolding tiers_from
tiers_from_iff tiers s a =
    let n = nil-eq s in
    elim (Bool-cases (is_empty s || text_eq s (text "fast"))) [
      | inl e ↦
          rw (e, tiers_from)
            (
              λ (agents, i, m). elim (Memᴰ.cases_cons i) [
                | inl q ↦ inl (ground arith, subst (λ l. Memᴰ a l) q m)
                | inr j ↦ elim (Memᴰ.cases_cons j) [
                  | inl q ↦ inr (inl (ground arith, subst (λ l. Memᴰ a l) q m))
                  | inr k ↦
                      inr (inr (ground arith, subst (λ l. Memᴰ a l) (Memᴰ.eq_of_singleton k) m))
                ]
              ],
              λ c. elim c [
                | inl (h, m) ↦ (tiers.fast, Memᴰ.head refl, m)
                | inr (inl (h, m)) ↦ (tiers.balanced, Memᴰ.tail (Memᴰ.head refl), m)
                | inr (inr (h, m)) ↦ (tiers.premium, Memᴰ.tail (Memᴰ.tail (Memᴰ.head refl)), m)
              ],
            )
      | inr e ↦ elim (Bool-cases (text_eq s (text "balanced"))) [
        | inl f ↦
            rw (e, tiers_from, f)
              (
                λ (agents, i, m). elim (Memᴰ.cases_cons i) [
                  | inl q ↦ inr (inl (ground arith, subst (λ l. Memᴰ a l) q m))
                  | inr k ↦
                      inr (inr (ground arith, subst (λ l. Memᴰ a l) (Memᴰ.eq_of_singleton k) m))
                ],
                λ c. elim c [
                  | inl (h, m) ↦ absurd (ground arith)
                  | inr (inl (h, m)) ↦ (tiers.balanced, Memᴰ.head refl, m)
                  | inr (inr (h, m)) ↦ (tiers.premium, Memᴰ.tail (Memᴰ.head refl), m)
                ],
              )
        | inr f ↦ elim (Bool-cases (text_eq s (text "premium"))) [
          | inl g ↦
              rw (e, tiers_from, f, g)
                (
                  λ (agents, i, m).
                      inr (inr (ground arith, subst (λ l. Memᴰ a l) (Memᴰ.eq_of_singleton i) m)),
                  λ c. elim c [
                    | inl (h, m) ↦ absurd (ground arith)
                    | inr (inl (h, m)) ↦ absurd (ground arith)
                    | inr (inr (h, m)) ↦ (tiers.premium, Memᴰ.head refl, m)
                  ],
                )
          | inr g ↦
              rw (e, tiers_from, f, g)
                (
                  λ (agents, i, m). absurd (Memᴰ.not-nil i),
                  λ c. elim c [
                    | inl (h, m) ↦ absurd (ground arith)
                    | inr (inl (h, m)) ↦ absurd (ground arith)
                    | inr (inr (h, m)) ↦ absurd (ground arith)
                  ],
                )
        ]
      ]
    ]

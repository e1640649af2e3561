-- ===== src/Graph/DepGraph/Order.antt =====
-- The order in which tasks are to be dispatched, written out, and the comparison of the code against it.
use chum.Base.{◌≡◌, refl, ◌⊎◌, inl, inr, true, false, List, [], ◌∷◌, Memᴰ, arith, Bool-cases}
use chum.Base.Int.{ℤ, ltb_ℤ}
use chum.Base.Sort.{IsSorted}
use chum.Text.{text_lt}
use chum.Graph.Task.{Task, has_stage_label}
use chum.Graph.DepGraph.{rank_less, dispatch_less}

-- Lower priority first, then lower estimate, then lower id.
abbrev pub IsRankedFirst : Task → Task → Type 0
IsRankedFirst s t =
    (ltb_ℤ s.priority t.priority ≡ true)
    ⊎ ((s.priority ≡ t.priority)
        × ((ltb_ℤ s.estimate_minutes t.estimate_minutes ≡ true)
            ⊎ ((s.estimate_minutes ≡ t.estimate_minutes) × (text_lt s.id t.id ≡ true))))

-- A task with a label of a stage comes before one without; else the rank decides.
abbrev pub Precedes : Task → Task → Type 0
Precedes s t =
    ((has_stage_label s ≡ true) × (has_stage_label t ≡ false))
    ⊎ ((has_stage_label s ≡ has_stage_label t) × IsRankedFirst s t)

-- No task stands behind one that it precedes.
abbrev pub IsInOrder : List Task → Type 0
IsInOrder [] = Unit
IsInOrder (t ∷ ts) = ((s : Task) → Memᴰ s ts → ¬ Precedes s t) × IsInOrder ts

below_itself : (a : ℤ) → ltb_ℤ a a ≡ false
below_itself a = ground arith

IsRankedFirst-rank_less : (s t : Task) → IsRankedFirst s t → rank_less s t ≡ true
unfolding rank_less
IsRankedFirst-rank_less s t (inl h) = rw h refl
IsRankedFirst-rank_less s t (inr (p, inl h)) = rw (p, below_itself t.priority, h) refl
IsRankedFirst-rank_less s t (inr (p, inr (e, h))) =
    rw (p, below_itself t.priority, e, below_itself t.estimate_minutes, h) refl

Precedes-dispatch_less : (s t : Task) → Precedes s t → dispatch_less s t ≡ true
unfolding dispatch_less
Precedes-dispatch_less s t (inl (h, k)) = rw (h, k) refl
Precedes-dispatch_less s t (inr (e, r)) = elim (Bool-cases (has_stage_label t)) [
  | inl h ↦ rw (e, h) (IsRankedFirst-rank_less s t r)
  | inr h ↦ rw (e, h) (IsRankedFirst-rank_less s t r)
]

pub in_order : (ts : List Task) → IsSorted dispatch_less ts → IsInOrder ts
in_order [] h = tt
in_order (t ∷ ts) (h, k) =
    (λ s m p. absurd (cc (Precedes-dispatch_less s t p, h s m)), in_order ts k)

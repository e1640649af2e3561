-- ===== src/Graph/Cycle/Extend.antt =====
-- What one more edge adds to the walks of a table, and when it closes a cycle.
use mathlib.Core.List.Memᴰ
use chum.Base.{ℕ, zero, suc, ◌≡◌, refl, sym, ◌∙◌, ◌⊎◌, inl, inr, List, [], ◌∷◌, ◌++◌, Memᴰ}
use chum.Text.{Text}
use chum.Graph.Db.{Edge}
use chum.Graph.Cycle.{HasEdge, Walk, last, step, Acyclic, Reaches, Walk-join, Walk-mono}

module _ (es : List Edge) (from to : Text) where
  abbrev new_edge : Edge
  new_edge = record { from_task = from; to_task = to }

  HasEdge-cases :
      (x y : Text) → HasEdge (es ++ new_edge ∷ []) x y → HasEdge es x y ⊎ ((x ≡ from) × (to ≡ y))
  HasEdge-cases x y (e, m, p, q) = elim (Memᴰ.append_cases es m) [
    | inl l ↦ inl (e, l, p, q)
    | inr r ↦ let s : e ≡ new_edge = Memᴰ.eq_of_singleton r in inr (rw s at (sym p), rw s at q)
  ]

  Reaches-prepend : (x y z : Text) → HasEdge es x y → Reaches es y z → Reaches es x z
  Reaches-prepend x y z (e, m, p, q) (inl r) = inr (zero, last (e, m, p, q ∙ r))
  Reaches-prepend x y z h (inr (n, w)) = inr (suc n, step h w)

  -- A walk over the larger table keeps to the old one, or goes to `from` and on from `to`.
  Walk-cases :
      (n : ℕ) (x y : Text)
      → Walk (es ++ new_edge ∷ []) n x y
      → ((m : ℕ) × Walk es m x y) ⊎ (Reaches es x from × Reaches es to y)
  Walk-cases zero x y (last h) = elim (HasEdge-cases x y h) [
    | inl l ↦ inl (zero, last l)
    | inr (p, q) ↦ inr (inl p, inl q)
  ]
  Walk-cases (suc n) x z (step {y = y} h w) = elim (Walk-cases n y z w) [
    | inl (m, v) ↦ elim (HasEdge-cases x y h) [
      | inl l ↦ inl (suc m, step l v)
      | inr (p, q) ↦ inr (inl p, inr (m, rw (sym q) at v))
    ]
    | inr (r, s) ↦ elim (HasEdge-cases x y h) [
      | inl l ↦ inr (Reaches-prepend x y from l r, s)
      | inr (p, q) ↦ inr (inl p, s)
    ]
  ]

  Reaches-trans : (x y z : Text) → Reaches es x y → Reaches es y z → Reaches es x z
  Reaches-trans x y z (inl e) r = rw e r
  Reaches-trans x y z (inr w) (inl e) = rw (sym e) (inr w)
  Reaches-trans x y z (inr (n, w)) (inr (m, v)) = inr (Walk-join w v)

  pub extend-Acyclic : Acyclic es → ¬ Reaches es to from → Acyclic (es ++ new_edge ∷ [])
  extend-Acyclic a no_way n x w = elim (Walk-cases n x x w) [
    | inl (m, v) ↦ a m x v
    | inr (r, s) ↦ no_way (Reaches-trans to x from s r)
  ]

  new_In : Memᴰ new_edge (es ++ new_edge ∷ [])
  new_In = Memᴰ.append_right es (Memᴰ.head refl)

  -- The other way round: if `to` reaches `from`, the edge closes a cycle.
  pub closes_cycle : Reaches es to from → ¬ Acyclic (es ++ new_edge ∷ [])
  closes_cycle (inl e) a = a zero from (last (new_edge, new_In, refl, e))
  closes_cycle (inr (n, w)) a =
      a (suc n) from
        (step (new_edge, new_In, refl, refl) (Walk-mono (λ e m. Memᴰ.append_left _ m) w))

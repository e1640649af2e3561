-- ===== src/Graph/Cycle/Bound.antt =====
-- In an acyclic table a walk has no more edges than the table.
use chum.Base.{
  ℕ, zero, suc, ◌≡◌, ◌≤◌, ◌<◌, refl, sym, ◌∙◌, inl, inr, Bool, true, false, not, List, [], ◌∷◌,
  Memᴰ, arith, select, length, Bool-cases, In-select, select-In,
}
use chum.Text.{Text, text_eq_refl}
use chum.Graph.Db.{Edge, is_edge}
use chum.Graph.Cycle.{
  HasEdge, Walk, last, step, Acyclic, Reaches, Acyclic-anti, Reaches-extend, no_return, is_edge_iff,
}

abbrev without : Text → Text → List Edge → List Edge
without x y es = select (λ e. not (is_edge x y e)) es

length-select-le : (p : Edge → Bool) (es : List Edge) → length (select p es) ≤ length es
length-select-le p [] = omega arith
length-select-le p (e ∷ es) = ground (arith, length-select-le p es)

length-select-lt :
    (p : Edge → Bool) (es : List Edge) (e : Edge)
    → Memᴰ e es
    → p e ≡ false
    → length (select p es) < length es
length-select-lt p [] e m h = elim m [ ]
length-select-lt p (d ∷ es) e (Memᴰ.head q) h =
    let s : p d ≡ false = rw q at h in rw s (omega (arith, length-select-le p es))
length-select-lt p (d ∷ es) e (Memᴰ.tail m) h = ground (arith, length-select-lt p es e m h)

module _ {es : List Edge} (x y : Text) (a : Acyclic es) (h : HasEdge es x y) where
  kept :
      (u : Text) (e : Edge) → Reaches es y u → Memᴰ e es → e.from_task ≡ u → Memᴰ e (without x y es)
  kept u e r m p = elim (Bool-cases (is_edge x y e)) [
    | inl t ↦ absurd (no_return x y u a h r (sym p ∙ (is_edge_iff x y e t).0))
    | inr f ↦ select-In (λ d. not (is_edge x y d)) es e m (rw f)
  ]

  -- A walk on from the end of an edge does not use that edge.
  avoid : (k : ℕ) (u z : Text) → Reaches es y u → Walk es k u z → Walk (without x y es) k u z
  avoid zero u z r (last (e, m, p, q)) = last (e, kept u e r m p, p, q)
  avoid (suc k) u z r (step {y = v} (e, m, p, q) w) =
      step (e, kept u e r m p, p, q) (avoid k v z (Reaches-extend y u v r (e, m, p, q)) w)

is_edge_self : (e : Edge) (x y : Text) → e.from_task ≡ x → e.to_task ≡ y → is_edge x y e ≡ true
is_edge_self e x y p q = rw (p, q) (rw (text_eq_refl x, text_eq_refl y))

length-without-lt :
    (x y : Text) (es : List Edge) → HasEdge es x y → length (without x y es) < length es
length-without-lt x y es (e, m, p, q) =
    length-select-lt (λ d. not (is_edge x y d)) es e m (rw (is_edge_self e x y p q))

without-Acyclic : (x y : Text) (es : List Edge) → Acyclic es → Acyclic (without x y es)
without-Acyclic x y es a = Acyclic-anti (λ e m. (In-select (λ d. not (is_edge x y d)) es e m).0) a

length-Walk_bounded :
    (b : ℕ) (es : List Edge) (k : ℕ) (x y : Text)
    → length es ≤ b
    → Acyclic es
    → Walk es k x y
    → k < length es
length-Walk_bounded b es zero x y le a (last h) = omega (arith, length-without-lt x y es h)
length-Walk_bounded zero es (suc k) x z le a (step {y = y} h w) =
    absurd (omega (arith, length-without-lt x y es h))
length-Walk_bounded (suc b) es (suc k) x z le a (step {y = y} h w) = omega (
  arith,
  length-without-lt x y es h,
  length-Walk_bounded b (without x y es) k y z (omega (arith, length-without-lt x y es h))
      (without-Acyclic x y es a) (avoid x y a h k y z (inl refl) w),
)

-- A walk of `k + 1` edges in an acyclic table of n edges has `k < n`.
pub length-Walk : {es : List Edge} (k : ℕ) (x y : Text) → Acyclic es → Walk es k x y → k < length es
length-Walk {es} k x y a w = length-Walk_bounded (length es) es k x y (omega arith) a w

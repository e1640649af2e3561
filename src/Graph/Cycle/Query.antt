-- ===== src/Graph/Cycle/Query.antt =====
-- `cycleCheckSQL` ends on an acyclic table, and finds a row exactly if there is a walk.
use mathlib.Core.List.Memᴰ
use chum.Base.{
  ℕ, zero, suc, ◌≡◌, ◌<◌, refl, sym, ◌∙◌, subst, Option-cases, ◌⊎◌, inl, inr, Bool, true, List, [],
  ◌∷◌, ◌++◌, Memᴰ, none, some, arith, length, any, any-intro, any-elim, In-select, select-In,
}
use mathlib.Core.Option.{some-injective}
use chum.Text.{Text, text_eq, text_eq_iff, text_eq_refl}
use chum.Graph.Db.{Edge, dependencies, next_rows, reachable, cycle_check}
use chum.Graph.Cycle.{HasEdge, Walk, last, step, Acyclic}
use chum.Graph.Cycle.Bound.{length-Walk}

-- `dependencies` lists the ends of the edges that start at the task.
pub In-dependencies : (es : List Edge) (x y : Text) → Memᴰ y (dependencies es x) → HasEdge es x y
unfolding dependencies
In-dependencies es x y m =
    let (e, l, q) = Memᴰ.of_map (λ e. e.to_task) _ m in
    let (k, t) = In-select (λ e. text_eq e.from_task x) es e l in
    (e, k, (text_eq_iff e.from_task x).0 t, q)

pub dependencies-In : (es : List Edge) (x y : Text) → HasEdge es x y → Memᴰ y (dependencies es x)
unfolding dependencies
dependencies-In es x y (e, m, p, q) = rw (sym q) (
    Memᴰ.map (λ e. e.to_task)
      (select-In (λ e. text_eq e.from_task x) es e m ((text_eq_iff e.from_task x).1 p)))

In-next_rows :
    (es : List Edge) (xs : List Text) (y : Text)
    → Memᴰ y (next_rows es xs)
    → (x : Text) × Memᴰ x xs × HasEdge es x y
unfolding next_rows
In-next_rows es [] y m = elim m [ ]
In-next_rows es (x ∷ xs) y m = elim (Memᴰ.append_cases (dependencies es x) m) [
  | inl l ↦ (x, Memᴰ.head refl, In-dependencies es x y l)
  | inr r ↦ let (z, k, h) = In-next_rows es xs y r in (z, Memᴰ.tail k, h)
]

next_rows-In :
    (es : List Edge) (xs : List Text) (x y : Text)
    → Memᴰ x xs
    → HasEdge es x y
    → Memᴰ y (next_rows es xs)
unfolding next_rows
next_rows-In es [] x y m h = elim m [ ]
next_rows-In es (z ∷ xs) x y (Memᴰ.head q) h =
    Memᴰ.append_left (next_rows es xs) (dependencies-In es z y (subst (λ v. HasEdge es v y) q h))
next_rows-In es (z ∷ xs) x y (Memᴰ.tail m) h =
    Memᴰ.append_right (dependencies es z) (next_rows-In es xs x y m h)

reachable-nil : (n : ℕ) (es : List Edge) → reachable n es [] ≡ some []
unfolding reachable
reachable-nil zero es = refl
reachable-nil (suc n) es = refl

reachable-suc :
    (n : ℕ) (es : List Edge) (x : Text) (xs rows rest : List Text)
    → reachable n es (next_rows es (x ∷ xs)) ≡ some rest
    → reachable (suc n) es (x ∷ xs) ≡ some ((x ∷ xs) ++ rest)
unfolding reachable
reachable-suc n es x xs rows rest e = rw (e, reachable)

reachable-suc_inv :
    (n : ℕ) (es : List Edge) (x : Text) (xs rows : List Text)
    → reachable (suc n) es (x ∷ xs) ≡ some rows
    → (rest : List Text) × (reachable n es (next_rows es (x ∷ xs)) ≡ some rest)
      × ((x ∷ xs) ++ rest ≡ rows)
reachable-suc_inv n es x xs rows e = elim (Option-cases (reachable n es (next_rows es (x ∷ xs)))) [
  | inl h ↦ absurd (none_case h)
  | inr (rest, h) ↦ (rest, h, some-injective _ _ (sym (reachable-suc n es x xs rows rest h) ∙ e))
]
  where
    none_case : reachable n es (next_rows es (x ∷ xs)) ≡ none → ⊥
    none_case h = unfold reachable in cc

In-empty : (xs : List Text) → ((x : Text) → ¬ Memᴰ x xs) → xs ≡ []
In-empty [] h = refl
In-empty (x ∷ xs) h = absurd (h x (Memᴰ.head refl))

-- With as many rounds as the longest walk has edges the query ends.
reachable-ends :
    (n : ℕ) (es : List Edge) (xs : List Text)
    → ((x : Text) → Memᴰ x xs → (k : ℕ) (y : Text) → Walk es k x y → k < n)
    → (rows : List Text) × (reachable (suc n) es xs ≡ some rows)
reachable-ends n es [] h = ([], reachable-nil (suc n) es)
reachable-ends zero es (x ∷ xs) h =
    let idle : next_rows es (x ∷ xs) ≡ [] = In-empty _ (λ y m.
      let (v, l, g) = In-next_rows es (x ∷ xs) y m in
      let lt : 0 < 0 = h v l 0 y (last g) in omega arith) in
    ((x ∷ xs) ++ [], reachable-suc zero es x xs [] [] (rw idle (reachable-nil zero es)))
reachable-ends (suc n) es (x ∷ xs) h =
    let (rows, e) = reachable-ends n es (next_rows es (x ∷ xs)) (λ y m k z w.
      let (v, l, g) = In-next_rows es (x ∷ xs) y m in
      let lt : suc k < suc n = h v l (suc k) z (step g w) in omega arith) in
    ((x ∷ xs) ++ rows, reachable-suc (suc n) es x xs [] rows e)

-- Each row is a given one, or lies behind one.
reachable_sound :
    (n : ℕ) (es : List Edge) (xs rows : List Text)
    → reachable n es xs ≡ some rows
    → (y : Text) → Memᴰ y rows
    → Memᴰ y xs ⊎ ((x : Text) × Memᴰ x xs × ((k : ℕ) × Walk es k x y))
reachable_sound n es [] rows e y m =
    let none_left : rows ≡ [] = some-injective _ _ (sym e ∙ reachable-nil n es) in
    inl (rw none_left at m)
reachable_sound zero es (x ∷ xs) rows e y m = unfold reachable in cc
reachable_sound (suc n) es (x ∷ xs) rows e y m =
    let (rest, h, q) = reachable-suc_inv n es x xs rows e in
    elim (Memᴰ.append_cases (x ∷ xs) {t = rest} (rw (sym q) at m)) [
      | inl l ↦ inl l
      | inr r ↦ elim (reachable_sound n es (next_rows es (x ∷ xs)) rest h y r) [
        | inl t ↦ let (v, k, g) = In-next_rows es (x ∷ xs) y t in inr (v, k, (zero, last g))
        | inr (u, t, (k, w)) ↦
            let (v, l, g) = In-next_rows es (x ∷ xs) u t in inr (v, l, (suc k, step g w))
      ]
    ]

-- What a walk from `x` meets, given that the ends of the edges of `x` come with what lies behind them.
walk_rows :
    (es : List Edge) (x : Text) (rest : List Text)
    → ((v : Text)
        → HasEdge es x v
        → Memᴰ v rest × ((k : ℕ) (y : Text) → Walk es k v y → Memᴰ y rest))
    → (k : ℕ) (y : Text) → Walk es k x y
    → Memᴰ y rest
walk_rows es x rest f zero y (last g) = (f y g).0
walk_rows es x rest f (suc k) y (step {y = v} g w) = (f v g).1 k y w

reachable_complete :
    (n : ℕ) (es : List Edge) (xs rows : List Text)
    → reachable n es xs ≡ some rows
    → (x : Text) → Memᴰ x xs
    → Memᴰ x rows × ((k : ℕ) (y : Text) → Walk es k x y → Memᴰ y rows)
reachable_complete n es [] rows e x m = elim m [ ]
reachable_complete zero es (z ∷ xs) rows e x m = unfold reachable in cc
reachable_complete (suc n) es (z ∷ xs) rows e x m =
    let (rest, h, q) = reachable-suc_inv n es z xs rows e in
    let later = λ (v : Text) (g : HasEdge es x v).
      reachable_complete n es (next_rows es (z ∷ xs)) rest h v (next_rows-In es (z ∷ xs) x v m g) in
    (
      subst (Memᴰ x) q (Memᴰ.append_left rest m),
      λ k y w. subst (Memᴰ y) q (Memᴰ.append_right (z ∷ xs) (walk_rows es x rest later k y w)),
    )

-- On an acyclic edge table the recursive query of the cycle check ends, within as many rounds as there are
-- edges and one more, and it finds a row exactly if a walk over edges leads from its start to its target.
pub cycle_check-exact :
    (es : List Edge) (start target : Text)
    → Acyclic es
    → (b : Bool) × (cycle_check es start target ≡ some b)
      × (b ≡ true → (k : ℕ) × Walk es k start target)
      × ((k : ℕ) → Walk es k start target → b ≡ true)
unfolding cycle_check
cycle_check-exact es start target a = (
  any found rows,
  rw (ended, cycle_check),
  λ h.
      let (y, m, t) = any-elim found rows h in
      let same : y ≡ target = (text_eq_iff y target).0 t in
      elim (reachable_sound (suc (length es)) es (dependencies es start) rows ended y m) [
        | inl l ↦ (zero, last (subst (HasEdge es start) same (In-dependencies es start y l)))
        | inr (x, l, (k, w)) ↦
            (suc k, step (In-dependencies es start x l) (subst (Walk es k x) same w))
      ],
  λ k w.
      any-intro found rows target (walk_rows es start rows later k target w) (text_eq_refl target),
)
  where
    found : Text → Bool
    found x = text_eq x target

    result :
        (rows : List Text) × (reachable (suc (length es)) es (dependencies es start) ≡ some rows)
    result =
        reachable-ends (length es) es (dependencies es start) (λ x m k y w. length-Walk k x y a w)

    rows : List Text
    rows = result.0

    ended : reachable (suc (length es)) es (dependencies es start) ≡ some rows
    ended = result.1

    later :
        (v : Text)
        → HasEdge es start v
        → Memᴰ v rows × ((k : ℕ) (y : Text) → Walk es k v y → Memᴰ y rows)
    later v g =
        reachable_complete (suc (length es)) es (dependencies es start) rows ended v
          (dependencies-In es start v g)

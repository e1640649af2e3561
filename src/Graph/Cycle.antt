-- ===== src/Graph/Cycle.antt =====
-- Walks along the edges of the table `task_edges`, and acyclic tables. No code stands here: these are
-- the notions by which the statements about `AddEdge` and `cycleCheckSQL` are made.
pub mod Bound
pub mod Query
pub mod Extend
use mathlib.Core.List.Memᴰ
use chum.Base.{
  ℕ, zero, suc, ◌≡◌, refl, sym, ◌∙◌, ◌⊎◌, inl, inr, Bool, true, ◌&&◌, List, ◌++◌, [], ◌∷◌, Memᴰ,
  and-eq_true,
}
use chum.Text.{Text, text_eq, text_eq_iff}
use chum.Graph.Db.{Edge, is_edge}

-- `x` depends on `y` by a row of the table.
abbrev pub HasEdge : List Edge → Text → Text → Type 0
HasEdge es x y = (e : Edge) × Memᴰ e es × (e.from_task ≡ x) × (e.to_task ≡ y)

-- A walk over one edge, or over `suc n` edges and a last one.
pub data Walk (es : List Edge) : ℕ → Text → Text → Type 0 where
  last : {x y : Text} → HasEdge es x y → Walk es zero x y
  step : {n : ℕ} {x y z : Text} → HasEdge es x y → Walk es n y z → Walk es (suc n) x z

-- No task depends on itself, however indirectly.
abbrev pub Acyclic : List Edge → Type 0
Acyclic es = (n : ℕ) (x : Text) → ¬ Walk es n x x

abbrev pub Reaches : List Edge → Text → Text → Type 0
Reaches es x y = (x ≡ y) ⊎ ((n : ℕ) × Walk es n x y)

abbrev pub Included : List Edge → List Edge → Type 0
Included es fs = (e : Edge) → Memᴰ e es → Memᴰ e fs

pub Walk-mono :
    {es fs : List Edge} {n : ℕ} {x y : Text} → Included es fs → Walk es n x y → Walk fs n x y
Walk-mono inc (last (e, m, p, q)) = last (e, inc e m, p, q)
Walk-mono inc (step (e, m, p, q) w) = step (e, inc e m, p, q) (Walk-mono inc w)

pub Acyclic-anti : {es fs : List Edge} → Included es fs → Acyclic fs → Acyclic es
Acyclic-anti inc a n x w = a n x (Walk-mono inc w)

-- A walk goes on over one more edge.
pub Walk-extend :
    {es : List Edge} {n : ℕ} {x y z : Text} → Walk es n x y → HasEdge es y z → Walk es (suc n) x z
Walk-extend (last h) k = step h (last k)
Walk-extend (step h w) k = step h (Walk-extend w k)

pub Walk-join :
    {es : List Edge} {n m : ℕ} {x y z : Text}
    → Walk es n x y
    → Walk es m y z
    → (k : ℕ) × Walk es k x z
Walk-join {m = m} (last h) v = (suc m, step h v)
Walk-join (step h w) v = let (k, u) = Walk-join w v in (suc k, step h u)

pub Reaches-extend :
    {es : List Edge} (x y z : Text) → Reaches es x y → HasEdge es y z → Reaches es x z
Reaches-extend {es} x y z (inl e) h = inr (zero, last (subst_from h))
  where
    subst_from : HasEdge es y z → HasEdge es x z
    subst_from (d, m, p, q) = (d, m, p ∙ sym e, q)
Reaches-extend x y z (inr (n, w)) h = inr (suc n, Walk-extend w h)

-- An edge closes a cycle if its end reaches its start.
pub no_return :
    {es : List Edge} (x y u : Text) → Acyclic es → HasEdge es x y → Reaches es y u → u ≡ x → ⊥
no_return x y u a h (inl e) q = a zero x (last (h.0, h.1, h.2, h.3 ∙ e ∙ q))
no_return {es} x y u a h (inr (n, w)) q = a (suc n) x (step h (ends u q w))
  where
    ends : (v : Text) → v ≡ x → Walk es n y v → Walk es n y x
    ends v r t = rw r at t

pub is_edge_iff :
    (x y : Text) (e : Edge) → is_edge x y e ≡ true → (e.from_task ≡ x) × (e.to_task ≡ y)
is_edge_iff x y e h =
    let (p, q) = and-eq_true (text_eq e.from_task x) (text_eq e.to_task y) h in
    ((text_eq_iff e.from_task x).0 p, (text_eq_iff e.to_task y).0 q)

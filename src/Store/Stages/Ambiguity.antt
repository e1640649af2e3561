-- ===== src/Store/Stages/Ambiguity.antt =====
-- When a morsel id alone is ambiguous.
use mathlib.Core.List.Memᴰ
use chum.Base.{
  ◌≡◌, ◌≢◌, ◌↔◌, ◌⊎◌, inl, inr, refl, sym, ◌∙◌, true, false, List, [], ◌∷◌, Memᴰ, arith, Bool-cases,
  select, select-In, In-select,
}
use chum.Base.Result.{ok, err}
use chum.Text.{Text, text_eq, text_eq_sound, text_eq_refl, one_of}
use chum.Store.Stages.{
  StageRow, ambiguous, map_rows, projects_seen, unless_ambiguous,
  get_morsel_stages_by_morsel_id_only,
}

seen-In :
    (rows : List StageRow) (p : Text)
    → Memᴰ p (projects_seen rows)
    → (r : StageRow) × Memᴰ r rows × (r.project ≡ p)
seen-In [] p m = absurd (Memᴰ.not-nil m)
seen-In (r ∷ rows) p m = elim (Bool-cases (one_of (projects_seen rows) r.project)) [
  | inl e ↦ let (s, i, q) = seen-In rows p (rw e at m) in (s, Memᴰ.tail i, q)
  | inr e ↦ elim (Memᴰ.cases_cons (rw e at m)) [
    | inl q ↦ (r, Memᴰ.head refl, sym q)
    | inr n ↦ let (s, i, q) = seen-In rows p n in (s, Memᴰ.tail i, q)
  ]
]

In-seen :
    (rows : List StageRow) (r : StageRow)
    → Memᴰ r rows
    → one_of (projects_seen rows) r.project ≡ true
In-seen [] r m = absurd (Memᴰ.not-nil m)
In-seen (s ∷ rows) r (Memᴰ.head q) =
    rw q (elim (Bool-cases (one_of (projects_seen rows) s.project)) [
      | inl e ↦ rw e e
      | inr e ↦ rw e (rw (text_eq_refl s.project) refl)
    ])
In-seen (s ∷ rows) r (Memᴰ.tail m) = elim (Bool-cases (one_of (projects_seen rows) s.project)) [
  | inl e ↦ rw e (In-seen rows r m)
  | inr e ↦ rw e (ground (arith, In-seen rows r m))
]

-- The first two projects that were seen differ.
abbrev HeadsDiffer : List Text → Type 0
HeadsDiffer (p ∷ q ∷ seen) = p ≢ q
HeadsDiffer (p ∷ []) = Unit
HeadsDiffer [] = Unit

heads_differ : (p : Text) (seen : List Text) → one_of seen p ≡ false → HeadsDiffer (p ∷ seen)
heads_differ p [] e = tt
heads_differ p (q ∷ seen) e =
    λ h. let t : text_eq q p ≡ true = rw h (text_eq_refl q) in ground (arith, t, e)

seen-differ : (rows : List StageRow) → HeadsDiffer (projects_seen rows)
seen-differ [] = tt
seen-differ (r ∷ rows) = elim (Bool-cases (one_of (projects_seen rows) r.project)) [
  | inl e ↦ rw e (seen-differ rows)
  | inr e ↦ rw e (heads_differ r.project (projects_seen rows) e)
]

-- Two projects have a row for the morsel.
abbrev pub IsShared : Text → List StageRow → Type 0
IsShared m rows =
    (r : StageRow) × (s : StageRow) × Memᴰ r rows
    × Memᴰ s rows
    × (r.morsel_id ≡ m)
    × (s.morsel_id ≡ m)
    × (r.project ≢ s.project)

abbrev IsUnshared : List StageRow → Type 0
IsUnshared rows = (r s : StageRow) → Memᴰ r rows → Memᴰ s rows → r.project ≡ s.project

one_project : (rows : List StageRow) (p : Text) → projects_seen rows ≡ p ∷ [] → IsUnshared rows
one_project rows p e r s i j =
    let f = λ (t : StageRow) (k : Memᴰ t rows).
      let h : one_of (p ∷ []) t.project ≡ true = rw e at (In-seen rows t k) in only p t.project h in
    f r i ∙ sym (f s j)
  where
    only : (p q : Text) → one_of (p ∷ []) q ≡ true → q ≡ p
    only p q h = elim (Bool-cases (text_eq q p)) [
      | inl e ↦ text_eq_sound q p e
      | inr e ↦ ground (arith, e, h)
    ]

abbrev of_morsel : Text → List StageRow → List StageRow
of_morsel m rows = select (λ r. text_eq r.morsel_id m) rows

unshared : (m : Text) (rows : List StageRow) → IsUnshared (of_morsel m rows) → ¬ IsShared m rows
unshared m rows h (r, s, i, j, a, b, d) =
    let found = λ (t : StageRow) (k : Memᴰ t rows) (e : t.morsel_id ≡ m).
      select-In (λ r. text_eq r.morsel_id m) rows t k (rw e (text_eq_refl m)) in
    d (h r s (found r i a) (found s j b))

shared :
    (m : Text) (rows : List StageRow) (p q : Text) (seen : List Text)
    → projects_seen (of_morsel m rows) ≡ p ∷ q ∷ seen
    → IsShared m rows
shared m rows p q seen e =
    let all = of_morsel m rows in
    let d : p ≢ q = rw e at (seen-differ all) in
    let (r, i, a) = seen-In all p (rw e (Memᴰ.head refl)) in
    let (s, j, b) = seen-In all q (rw e (Memᴰ.tail (Memᴰ.head refl))) in
    let (k, x) = In-select (λ r. text_eq r.morsel_id m) rows r i in
    let (l, y) = In-select (λ r. text_eq r.morsel_id m) rows s j in
    (
      r,
      s,
      k,
      l,
      text_eq_sound r.morsel_id m x,
      text_eq_sound s.morsel_id m y,
      λ h. d (sym a ∙ h ∙ b),
    )

-- GetMorselStagesByMorselIDOnly answers an error exactly if two projects have a row for the morsel, and else
-- every row that the morsel has.
pub by_morsel_id_only-decides :
    (m : Text) (rows : List StageRow)
    → ((seen : List Text) × (get_morsel_stages_by_morsel_id_only m rows ≡ err (ambiguous m seen))
        × IsShared m rows)
      ⊎ ((found : List StageRow) × (get_morsel_stages_by_morsel_id_only m rows
            ≡ ok (map_rows found))
          × ((r : StageRow) → Memᴰ r found ↔ (Memᴰ r rows × (r.morsel_id ≡ m)))
          × ¬ IsShared m rows)
unfolding get_morsel_stages_by_morsel_id_only
by_morsel_id_only-decides m rows = go (projects_seen (of_morsel m rows)) refl
  where
    all : List StageRow
    all = of_morsel m rows

    exact : (r : StageRow) → Memᴰ r all ↔ (Memᴰ r rows × (r.morsel_id ≡ m))
    exact r = (
      λ i.
          let (j, e) = In-select (λ r. text_eq r.morsel_id m) rows r i in
          (j, text_eq_sound r.morsel_id m e),
      λ h. select-In (λ r. text_eq r.morsel_id m) rows r h.0 (rw (h.1) (text_eq_refl m)),
    )

    go :
        (seen : List Text)
        → projects_seen all ≡ seen
        → ((seen : List Text) × (unless_ambiguous m (projects_seen all) all
              ≡ err (ambiguous m seen))
            × IsShared m rows)
          ⊎ ((found : List StageRow) × (unless_ambiguous m (projects_seen all) all
                ≡ ok (map_rows found))
              × ((r : StageRow) → Memᴰ r found ↔ (Memᴰ r rows × (r.morsel_id ≡ m)))
              × ¬ IsShared m rows)
    go (p ∷ q ∷ seen) e = inl (p ∷ q ∷ seen, rw e refl, shared m rows p q seen e)
    go (p ∷ []) e = inr (all, rw e refl, exact, unshared m rows (one_project all p e))
    go [] e = inr (
      all,
      rw e refl,
      exact,
      unshared m rows
          (λ r s i j. let h : one_of [] r.project ≡ true = rw e at (In-seen all r i) in cc h),
    )
